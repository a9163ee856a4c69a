-- ===== src/Ql/Numbers/Order.antt =====
-- pkg/filter/ql/ast.go: the comparisons of a signed with an unsigned number, against the order of the
-- integers.
use fibratus.Prelude.{ℕ, ◌-◌, arith, ◌%◌, ◌<◌, ◌≡◌, refl, ap, sym, ◌∙◌}
use fibratus.Prelude.Int.{ℤ, pos, negsuc, u16_mod, u32_mod, u64_mod}
use native.Mathlib.Nat.{mod-eq_of_lt}
use fibratus.Ql.Token.{Token}
use fibratus.Ql.Value.{Floats, Value}
use fibratus.Ql.Numbers.{
  order, order_ℕ, order_ℤ, signed_unsigned, unsigned_signed, eval_uint16, eval_uint32,
}

-- The conversion to `w` values keeps `b`, or the operator looks at the sign first.
abbrev pub Fits : ℕ → Token → ℤ → Type 0
Fits w op (pos b) = b < w
Fits w Token.eq (negsuc n) = ⊥
Fits w Token.neq (negsuc n) = ⊥
Fits w op (negsuc n) = Unit

mod_small : (b w : ℕ) → b < w → b % w ≡ b
mod_small b w h = mod-eq_of_lt h

unsigned_signed-wrap :
    (w : ℕ) (op : Token) (a b : ℕ) → unsigned_signed w op a (pos b) ≡ order_ℕ op a (b % w)
unfolding unsigned_signed order_ℕ order
unsigned_signed-wrap w Token.eq a b = refl
unsigned_signed-wrap w _ a b = refl

order_ℤ-pos : (op : Token) (a b : ℕ) → order_ℤ op (pos a) (pos b) ≡ order_ℕ op a b
unfolding order_ℤ order_ℕ order
order_ℤ-pos Token.eq a b = refl
order_ℤ-pos _ a b = refl

unsigned_signed-negative :
    (w : ℕ) (op : Token) (a n : ℕ)
    → Fits w op (negsuc n)
    → unsigned_signed w op a (negsuc n) ≡ order_ℤ op (pos a) (negsuc n)
unfolding unsigned_signed order_ℤ order
unsigned_signed-negative w Token.eq a n h = absurd h
unsigned_signed-negative w Token.neq a n h = absurd h
unsigned_signed-negative w _ a n h = refl

-- If the signed number is not negative and below the modulus, or negative under an operator other
-- than = and !=, comparing an unsigned number with it by the conversion to the unsigned type
-- gives what the integers give, for every operator.
pub unsigned_signed-order :
    (w : ℕ) (op : Token) (a : ℕ) (b : ℤ)
    → Fits w op b
    → unsigned_signed w op a b ≡ order_ℤ op (pos a) b
unsigned_signed-order w op a (pos b) h =
    unsigned_signed-wrap w op a b ∙ ap (order_ℕ op a) (mod_small b w h) ∙ sym (order_ℤ-pos op a b)
unsigned_signed-order w op a (negsuc n) h = unsigned_signed-negative w op a n h

signed_unsigned-pos :
    (op : Token) (a b : ℕ) → signed_unsigned op (pos a) b ≡ order_ℕ op (a % u64_mod) b
unfolding signed_unsigned order_ℕ order
signed_unsigned-pos Token.eq a b = refl
signed_unsigned-pos _ a b = refl

signed_unsigned-negative :
    (op : Token) (n b : ℕ)
    → Fits u64_mod op (negsuc n)
    → signed_unsigned op (negsuc n) b ≡ order_ℤ op (negsuc n) (pos b)
unfolding signed_unsigned order_ℤ order
signed_unsigned-negative Token.eq n b h = absurd h
signed_unsigned-negative Token.neq n b h = absurd h
signed_unsigned-negative _ n b h = refl

signed_unsigned-Fits :
    (op : Token) (a : ℤ) (b : ℕ) → Fits u64_mod op a → signed_unsigned op a b ≡ order_ℤ op a (pos b)
signed_unsigned-Fits op (pos a) b h =
    signed_unsigned-pos op a b
    ∙ ap (λ x. order_ℕ op x b) (mod_small a u64_mod h)
    ∙ sym (order_ℤ-pos op a b)
signed_unsigned-Fits op (negsuc n) b h = signed_unsigned-negative op n b h

-- The number that the comparison sees: under = and != a negative one counts with 2 to the 64th added.
abbrev pub seen : Token → ℤ → ℤ
seen op (pos a) = pos a
seen Token.eq (negsuc n) = pos (u64_mod - 1 - n)
seen Token.neq (negsuc n) = pos (u64_mod - 1 - n)
seen _ (negsuc n) = negsuc n

abbrev pub IsInt64 : ℤ → Type 0
IsInt64 (pos n) = n < 9223372036854775808
IsInt64 (negsuc n) = n < 9223372036854775808

-- For every operator, comparing a signed number of 64 bits with an unsigned one gives what the
-- integers give, except that under = and != a negative number counts with 2 to the 64th added.
pub signed_unsigned-order :
    (op : Token) (a : ℤ) (b : ℕ)
    → IsInt64 a
    → signed_unsigned op a b ≡ order_ℤ op (seen op a) (pos b)
unfolding signed_unsigned order_ℤ order
signed_unsigned-order Token.eq (negsuc n) b h = rw (mod_small n u64_mod (omega arith)) refl
signed_unsigned-order Token.neq (negsuc n) b h = rw (mod_small n u64_mod (omega arith)) refl
signed_unsigned-order op (negsuc n) b h = signed_unsigned-Fits op (negsuc n) b tt
signed_unsigned-order op (pos a) b h = signed_unsigned-Fits op (pos a) b (omega arith)

-- A literal against a field of 16 bits counts modulo 65536, and against one of 32 bits modulo
-- 4294967296.
module _ (fl : Floats) where
  open fl use {Float}

  -- For every operator, comparing a field of 16 bits with an integer literal compares it with
  -- the literal modulo 65536, and comparing a field of 32 bits compares it with the literal
  -- modulo 4294967296.
  pub narrow_literal :
      (op : Token) (a b : ℕ)
      → (eval_uint16 fl op a (Value.int64 (pos b)) ≡ eval_uint16 fl op a (Value.u16 (b % u16_mod)))
        × (eval_uint32 fl op a (Value.int64 (pos b))
            ≡ eval_uint32 fl op a (Value.u32 (b % u32_mod)))
  unfolding eval_uint16 eval_uint32
  narrow_literal op a b = (unsigned_signed-wrap u16_mod op a b, unsigned_signed-wrap u32_mod op a b)
