-- ===== src/Ql/Value.antt =====
-- pkg/filter/ql/ast.go: the Go values that a filter expression computes with (`interface{}`).
use fibratus.Prelude.{ℕ, Bool, List}
use fibratus.Prelude.Int.{ℤ}
use fibratus.Event.Values.{Text}

-- Go's `float64`, of which the evaluation uses the conversions and the order.
pub record Floats : Type 1 where
  pub Float : Type 0
  pub of_ℤ : ℤ → Float
  pub of_ℕ : ℕ → Float
  pub eqb_float : Float → Float → Bool
  pub ltb_float : Float → Float → Bool
  pub leb_float : Float → Float → Bool

-- One constructor for each Go type that the evaluation tells apart; `other` is any other.
pub data Value (Float : Type 0) : Type 0 where
  nil : Value Float
  bool : Bool → Value Float
  int int32 int64 : ℤ → Value Float
  u8 u16 u32 u64 : ℕ → Value Float
  float : Float → Value Float
  str ip : Text → Value Float
  strs ips : List Text → Value Float
  u16s u64s : List ℕ → Value Float
  other : Value Float
