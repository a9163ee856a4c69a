-- ===== src/Ql/Expr.antt =====
-- pkg/filter/ql/expr.go, literal.go: the expressions of the filter language, and what evaluating one
-- needs of its surroundings.
use fibratus.Prelude.{ℕ, Bool, List, [], ◌∷◌, ◌++◌, Option, ◌||◌}
use fibratus.Prelude.Int.{ℤ}
use fibratus.Event.Values.{Text, eq_text}
use fibratus.Ql.Token.{Token}
use fibratus.Ql.Value.{Value}

-- `field` has the name and the argument in brackets (empty when there is none).
mutual
  pub data Expr (Float : Type 0) : Type 0 where
    binary : Token → Expr Float → Expr Float → Expr Float
    not_ paren : Expr Float → Expr Float
    integer : ℤ → Expr Float
    unsigned : ℕ → Expr Float
    decimal : Float → Expr Float
    str ip : Text → Expr Float
    list : List Text → Expr Float
    bool : Bool → Expr Float
    field : Text → Text → Expr Float
    bound_field bound_segment bare_bound_variable : Text → Expr Float
    function : Text → Exprs Float → Expr Float

  pub data Exprs (Float : Type 0) : Type 0 where
    nil : Exprs Float
    cons : Expr Float → Exprs Float → Exprs Float

-- An argument of a call: a value, an expression that is passed on as it stands, or a map valuer with
-- one key.
pub data Arg (Float : Type 0) : Type 0 where
  value : Value Float → Arg Float
  raw : Expr Float → Arg Float
  scope : Text → Value Float → Arg Float

-- The valuer: the value of a name, and the call of a function where the valuer is a `CallValuer`.
pub record Valuer (Float : Type 0) : Type 0 where
  pub lookup : Text → Option (Value Float)
  pub call : Option (Text → List (Arg Float) → Value Float)

unfoldable pub field_string : Text → Text → Text
field_string name [] = name
field_string name (c ∷ arg) = name ++ b'[' ∷ ((c ∷ arg) ++ b']' ∷ [])

-- "foreach" and "FOREACH"
unfoldable pub is_foreach : Text → Bool
is_foreach name =
    eq_text name (102 ∷ 111 ∷ 114 ∷ 101 ∷ 97 ∷ 99 ∷ 104 ∷ [])
    || eq_text name (70 ∷ 79 ∷ 82 ∷ 69 ∷ 65 ∷ 67 ∷ 72 ∷ [])
