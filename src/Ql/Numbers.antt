-- ===== src/Ql/Numbers.antt =====
-- pkg/filter/ql/ast.go: the comparisons of numbers in `evalBinaryExpr`, one function for each type on
-- the left. `none` is a type or an operator that the case does not list.
pub mod Order
use fibratus.Prelude.{
  ℕ, zero, suc, ◌+◌, ◌-◌, ◌*◌, ◌<◌, Bool, true, false, not, ◌&&◌, List, [], ◌∷◌, Option, none, some,
  ltb, leb, ◌==◌, if◌then◌else◌, exists,
}
use fibratus.Prelude.Int.{
  ℤ, pos, negsuc, is_neg, eqb_ℤ, ltb_ℤ, leb_ℤ, wrap, u16_mod, u32_mod, u64_mod,
}
use fibratus.Event.Values.{Text}
use fibratus.Ql.Token.{Token}
use fibratus.Ql.Value.{Floats, Value}

-- The six comparisons of one ordered type: its equality, `<` and `<=`.
unfoldable pub order {ℓ} :
    {A : Type ℓ} → (A → A → Bool) → (A → A → Bool) → (A → A → Bool) → Token → A → A → Option Bool
order eqb lt le Token.eq a b = some (eqb a b)
order eqb lt le Token.neq a b = some (not (eqb a b))
order eqb lt le Token.lt a b = some (lt a b)
order eqb lt le Token.lte a b = some (le a b)
order eqb lt le Token.gt a b = some (lt b a)
order eqb lt le Token.gte a b = some (le b a)
order eqb lt le _ a b = none

unfoldable pub order_ℕ : Token → ℕ → ℕ → Option Bool
unfolding order
order_ℕ = order ◌==◌ ltb leb

unfoldable pub order_ℤ : Token → ℤ → ℤ → Option Bool
unfolding order
order_ℤ = order eqb_ℤ ltb_ℤ leb_ℤ

-- A signed number against an unsigned one of 64 bits.
unfoldable pub signed_unsigned : Token → ℤ → ℕ → Option Bool
signed_unsigned Token.eq a b = some (wrap u64_mod a == b)
signed_unsigned Token.neq a b = some (not (wrap u64_mod a == b))
signed_unsigned Token.lt a b = some (if is_neg a then true else ltb (wrap u64_mod a) b)
signed_unsigned Token.lte a b = some (if is_neg a then true else leb (wrap u64_mod a) b)
signed_unsigned Token.gt a b = some (if is_neg a then false else ltb b (wrap u64_mod a))
signed_unsigned Token.gte a b = some (if is_neg a then false else leb b (wrap u64_mod a))
signed_unsigned _ a b = none

-- An unsigned number against a signed one, which is first converted to the type on the left.
unfoldable pub unsigned_signed : ℕ → Token → ℕ → ℤ → Option Bool
unsigned_signed w Token.eq a b = some (a == wrap w b)
unsigned_signed w Token.neq a b = some (not (a == wrap w b))
unsigned_signed w Token.lt a b = some (if is_neg b then false else ltb a (wrap w b))
unsigned_signed w Token.lte a b = some (if is_neg b then false else leb a (wrap w b))
unsigned_signed w Token.gt a b = some (if is_neg b then true else ltb (wrap w b) a)
unsigned_signed w Token.gte a b = some (if is_neg b then true else leb (wrap w b) a)
unsigned_signed w _ a b = none

-- Decimal digits (`strconv`): `none` is a syntax error.
unfoldable pub parse_digits : ℕ → Text → Option ℕ
parse_digits n [] = some n
parse_digits n (c ∷ s) =
    if leb b'0' c && leb c b'9' then parse_digits (n * 10 + (c - b'0')) s else none

unfoldable pub bounded : ℕ → Option ℕ → Option ℕ
bounded limit none = none
bounded limit (some n) = if ltb n limit then some n else none

-- `strconv.ParseUint(s, 10, 32)`
unfoldable pub parse_uint32 : Text → Option ℕ
unfolding parse_digits bounded
parse_uint32 [] = none
parse_uint32 (c ∷ s) = bounded u32_mod (parse_digits 0 (c ∷ s))

unfoldable pub negated : Option ℕ → Option ℤ
negated none = none
negated (some zero) = some (pos 0)
negated (some (suc n)) = some (negsuc n)

unfoldable pub positive : Option ℕ → Option ℤ
positive none = none
positive (some n) = some (pos n)

unfoldable pub parse_unsigned : Text → Option ℕ
unfolding parse_digits
parse_unsigned [] = none
parse_unsigned (c ∷ s) = parse_digits 0 (c ∷ s)

-- `strconv.Atoi`, for integers of 64 bits.
unfoldable pub atoi : Text → Option ℤ
unfolding parse_unsigned bounded negated positive
atoi [] = none
atoi (c ∷ s) =
    if c == b'-'
    then negated (bounded 9223372036854775809 (parse_unsigned s))
    else if c == b'+'
    then positive (bounded 9223372036854775808 (parse_unsigned s))
    else positive (bounded 9223372036854775808 (parse_unsigned (c ∷ s)))

unfoldable pub equals_parsed : ℕ → Option ℕ → Bool
equals_parsed a none = false
equals_parsed a (some n) = n == a

unfoldable pub equals_wrapped : ℕ → ℕ → Option ℤ → Bool
equals_wrapped w a none = false
equals_wrapped w a (some n) = wrap w n == a

unfoldable pub eval_in : Token → Bool → Option Bool
eval_in Token.in_ b = some b
eval_in _ b = none

unfoldable pub any_above : Token → List ℕ → ℕ → Option Bool
any_above Token.gt as_ b = some (exists (λ a. ltb b a) as_)
any_above Token.gte as_ b = some (exists (λ a. leb b a) as_)
any_above _ as_ b = none

module _ (fl : Floats) where
  open fl use {Float, of_ℤ, of_ℕ, eqb_float, ltb_float, leb_float}

  unfoldable pub order_float : Token → Float → Float → Option Bool
  unfolding order
  order_float = order eqb_float ltb_float leb_float

  unfoldable pub eval_int : Token → ℤ → Value Float → Option Bool
  unfolding order_float order_ℤ signed_unsigned eval_in
  eval_int op a (Value.float b) = order_float op (of_ℤ a) b
  eval_int op a (Value.int64 b) = order_ℤ op a b
  eval_int op a (Value.u64 b) = signed_unsigned op a b
  eval_int op a (Value.u16s bs) = eval_in op (exists (λ i. eqb_ℤ (pos i) a) bs)
  eval_int op a _ = none

  unfoldable pub eval_uint8 : Token → ℕ → Value Float → Option Bool
  unfolding order_float order_ℤ order_ℕ
  eval_uint8 op a (Value.float b) = order_float op (of_ℕ a) b
  eval_uint8 op a (Value.int64 b) = order_ℤ op (pos a) b
  eval_uint8 op a (Value.u64 b) = order_ℕ op a b
  eval_uint8 op a _ = none

  unfoldable pub eval_float : Token → Float → Value Float → Option Bool
  unfolding order_float
  eval_float op a (Value.float b) = order_float op a b
  eval_float op a (Value.int64 b) = order_float op a (of_ℤ b)
  eval_float op a (Value.u64 b) = order_float op a (of_ℕ b)
  eval_float Token.neq a _ = some false
  eval_float Token.eq a _ = some false
  eval_float Token.lt a _ = some false
  eval_float Token.lte a _ = some false
  eval_float Token.gt a _ = some false
  eval_float Token.gte a _ = some false
  eval_float _ a _ = none

  unfoldable pub eval_int64 : Token → ℤ → Value Float → Option Bool
  unfolding order_float order_ℤ signed_unsigned
  eval_int64 op a (Value.float b) = order_float op (of_ℤ a) b
  eval_int64 op a (Value.int64 b) = order_ℤ op a b
  eval_int64 op a (Value.u64 b) = signed_unsigned op a b
  eval_int64 op a _ = none

  unfoldable pub eval_uint64 : Token → ℕ → Value Float → Option Bool
  unfolding order_float order_ℕ unsigned_signed
  eval_uint64 op a (Value.float b) = order_float op (of_ℕ a) b
  eval_uint64 op a (Value.int64 b) = unsigned_signed u64_mod op a b
  eval_uint64 op a (Value.u64 b) = order_ℕ op a b
  eval_uint64 op a _ = none

  unfoldable pub eval_uint64s : Token → List ℕ → Value Float → Option Bool
  unfolding any_above
  eval_uint64s op as_ (Value.u64 b) = any_above op as_ b
  eval_uint64s op as_ (Value.int64 b) = any_above op as_ (wrap u64_mod b)
  eval_uint64s op as_ _ = none

  unfoldable pub eval_uint32 : Token → ℕ → Value Float → Option Bool
  unfolding order_float order_ℕ unsigned_signed eval_in equals_parsed parse_uint32
  eval_uint32 op a (Value.float b) = order_float op (of_ℕ a) b
  eval_uint32 op a (Value.int32 b) = unsigned_signed u32_mod op a b
  eval_uint32 op a (Value.int64 b) = unsigned_signed u32_mod op a b
  eval_uint32 op a (Value.u32 b) = order_ℕ op a b
  eval_uint32 op a (Value.strs bs) = eval_in op (exists (λ s. equals_parsed a (parse_uint32 s)) bs)
  eval_uint32 op a _ = none

  unfoldable pub eval_uint16 : Token → ℕ → Value Float → Option Bool
  unfolding order_float order_ℕ unsigned_signed eval_in equals_wrapped atoi
  eval_uint16 op a (Value.float b) = order_float op (of_ℕ a) b
  eval_uint16 op a (Value.int32 b) = unsigned_signed u16_mod op a b
  eval_uint16 op a (Value.int64 b) = unsigned_signed u16_mod op a b
  eval_uint16 op a (Value.u16 b) = order_ℕ op a b
  eval_uint16 op a (Value.strs bs) = eval_in op (exists (λ s. equals_wrapped u16_mod a (atoi s)) bs)
  eval_uint16 op a _ = none
