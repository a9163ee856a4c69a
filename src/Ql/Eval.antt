-- ===== src/Ql/Eval.antt =====
-- pkg/filter/ql/ast.go: `ValuerEval.Eval` and `evalBinaryExpr`.
pub mod Logic
use fibratus.Prelude.{
  ℕ, zero, suc, Bool, true, false, not, ◌&&◌, ◌||◌, List, [], ◌∷◌, Option, none, some,
  if◌then◌else◌,
}
use fibratus.Prelude.Int.{ℤ}
use fibratus.Event.Values.{Text}
use fibratus.Ql.Token.{Token}
use fibratus.Ql.Value.{Floats, Value}
use fibratus.Ql.Numbers.{
  eval_int, eval_uint8, eval_float, eval_int64, eval_uint64, eval_uint64s, eval_uint32, eval_uint16,
}
use fibratus.Ql.Texts.{Strings, eval_string, eval_ip, eval_strings}
use fibratus.Ql.Expr.{Expr, Exprs, Arg, Valuer, field_string, is_foreach}

unfoldable pub is_comparison : Token → Bool
is_comparison Token.eq = true
is_comparison Token.ieq = true
is_comparison Token.neq = true
is_comparison Token.lt = true
is_comparison Token.lte = true
is_comparison Token.gt = true
is_comparison Token.gte = true
is_comparison _ = false

module _ (Float : Type 0) where
  -- The operators that the left side alone decides.
  unfoldable pub lazy : Token → Value Float → Option Bool
  lazy Token.and (Value.bool false) = some false
  lazy Token.or (Value.bool true) = some true
  lazy _ _ = none

  -- A nil beside a boolean is false.
  unfoldable pub cast_lhs : Value Float → Value Float → Value Float
  cast_lhs Value.nil (Value.bool b) = Value.bool false
  cast_lhs lhs _ = lhs

  unfoldable pub cast_rhs : Value Float → Value Float → Value Float
  cast_rhs (Value.bool a) Value.nil = Value.bool false
  cast_rhs _ rhs = rhs

  -- A test on the boolean on the right, false when it is none.
  unfoldable pub on_bool : (Bool → Bool) → Value Float → Bool
  on_bool test (Value.bool b) = test b
  on_bool test _ = false

  unfoldable pub eqb_bool : Bool → Bool → Bool
  eqb_bool true b = b
  eqb_bool false b = not b

  unfoldable pub eval_bool : Token → Bool → Value Float → Option Bool
  unfolding on_bool eqb_bool
  eval_bool Token.and a r = some (on_bool (λ b. a && b) r)
  eval_bool Token.or a r = some (on_bool (λ b. a || b) r)
  eval_bool Token.eq a r = some (on_bool (eqb_bool a) r)
  eval_bool Token.neq a r = some (on_bool (λ b. not (eqb_bool a b)) r)
  eval_bool _ a r = none

  -- The end of `evalBinaryExpr`, which a case without a result reaches.
  unfoldable pub conclude : Token → Option Bool → Value Float
  unfolding is_comparison
  conclude op (some b) = Value.bool b
  conclude op none = if is_comparison op then Value.bool false else Value.nil

  unfoldable pub negate : Value Float → Value Float
  negate (Value.bool b) = Value.bool (not b)
  negate _ = Value.nil

  -- The negation of a call, where no value counts as false.
  unfoldable pub negate_call : Value Float → Value Float
  unfolding negate
  negate_call Value.nil = Value.bool true
  negate_call v = negate v

  -- An argument of a call from its value `v`. `foreach` is given some expressions as they stand, a
  -- field after the first argument by name, and nothing in place of any other kind.
  unfoldable pub eval_arg : Bool → ℕ → Expr Float → Value Float → Arg Float
  unfolding field_string
  eval_arg false i e v = Arg.value v
  eval_arg true i (Expr.binary op l r) v = Arg.raw (Expr.binary op l r)
  eval_arg true i (Expr.not_ e) v = Arg.raw (Expr.not_ e)
  eval_arg true i (Expr.bare_bound_variable name) v = Arg.raw (Expr.bare_bound_variable name)
  eval_arg true zero (Expr.field name arg) v = Arg.value v
  eval_arg true (suc i) (Expr.field name arg) v = Arg.scope (field_string name arg) v
  eval_arg true i _ v = Arg.value Value.nil

  unfoldable pub or_nil : Option (Value Float) → Value Float
  or_nil none = Value.nil
  or_nil (some v) = v

module _ (fl : Floats) (st : Strings) where
  open fl use {Float}

  -- The switch on the type of the left side.
  unfoldable pub compare_values : Token → Value Float → Value Float → Option Bool
  unfolding eval_bool eval_int eval_uint8 eval_float eval_int64 eval_uint64 eval_uint64s eval_uint32
      eval_uint16 eval_string eval_ip eval_strings
  compare_values op (Value.bool a) = eval_bool Float op a
  compare_values op (Value.int a) = eval_int fl op a
  compare_values op (Value.u8 a) = eval_uint8 fl op a
  compare_values op (Value.float a) = eval_float fl op a
  compare_values op (Value.int64 a) = eval_int64 fl op a
  compare_values op (Value.u64 a) = eval_uint64 fl op a
  compare_values op (Value.u64s a) = eval_uint64s fl op a
  compare_values op (Value.u32 a) = eval_uint32 fl op a
  compare_values op (Value.u16 a) = eval_uint16 fl op a
  compare_values op (Value.str a) = eval_string st Float op a
  compare_values op (Value.ip a) = eval_ip st Float op a
  compare_values op (Value.strs a) = eval_strings st Float op a
  compare_values op _ = λ r. none

  -- `evalBinaryExpr`, from the values of its sides. Where the left side decides, the code does not
  -- evaluate the right side, and the result does not depend on its value.
  unfoldable pub eval_binary : Token → Value Float → Value Float → Value Float
  unfolding lazy cast_lhs cast_rhs conclude compare_values
  eval_binary op lhs rhs = elim (lazy Float op lhs) [
    | some b ↦ Value.bool b
    | none ↦ conclude Float op (compare_values op (cast_lhs Float lhs rhs) (cast_rhs Float lhs rhs))
  ]

  module _ (env : Valuer Float) where
    open env use {lookup, call}

    unfoldable pub invoke : Text → List (Arg Float) → Value Float
    invoke name args = elim call [ none ↦ Value.nil | some f ↦ f name args ]

    unfoldable mutual
      unfolding eval_binary negate negate_call or_nil invoke field_string is_foreach eval_arg

      pub eval : Expr Float → Value Float
      eval (Expr.binary op l r) = eval_binary op (eval l) (eval r)
      eval (Expr.not_ e) = eval_not e
      eval (Expr.paren e) = eval e
      eval (Expr.integer i) = Value.int64 i
      eval (Expr.unsigned n) = Value.u64 n
      eval (Expr.decimal x) = Value.float x
      eval (Expr.str s) = Value.str s
      eval (Expr.ip a) = Value.ip a
      eval (Expr.list l) = Value.strs l
      eval (Expr.bool b) = Value.bool b
      eval (Expr.field name arg) = or_nil Float (lookup (field_string name arg))
      eval (Expr.bound_field name) = or_nil Float (lookup name)
      eval (Expr.bound_segment name) = or_nil Float (lookup name)
      eval (Expr.bare_bound_variable name) = or_nil Float (lookup name)
      eval (Expr.function name args) = invoke name (eval_args (is_foreach name) 0 args)

      -- The operand of `NOT`.
      pub eval_not : Expr Float → Value Float
      eval_not (Expr.binary op l r) = negate Float (eval_binary op (eval l) (eval r))
      eval_not (Expr.function name args) = elim call [
        | none ↦ Value.nil
        | some f ↦ negate_call Float (f name (eval_args (is_foreach name) 0 args))
      ]
      eval_not (Expr.paren e) = negate Float (eval e)
      eval_not (Expr.bool b) = Value.bool (not b)
      eval_not _ = Value.nil

      -- The arguments from the place `i` on.
      pub eval_args : Bool → ℕ → Exprs Float → List (Arg Float)
      eval_args foreach i Exprs.nil = []
      eval_args foreach i (Exprs.cons e es) =
          eval_arg Float foreach i e (eval e) ∷ eval_args foreach (suc i) es
