-- ===== src/Event/Bitsets/Mask.antt =====
-- pkg/util/bitmask: the map-backed bit set. A word is given by its 64 bits, the lowest first, and a
-- word that the map does not have is zero.
use fibratus.Prelude.{
  ℕ, zero, suc, ◌/◌, ◌%◌, ◌<◌, ◌≡◌, refl, sym, ap, ◌∙◌, Bool, true, false, not, ◌&&◌, ◌||◌, Option,
  none, some, ltb, ◌==◌, ==_iff, if◌then◌else◌, update, arith, Bool-cases, inl, inr,
}

abbrev pub Word : Type 0
Word = ℕ → Bool

abbrev pub Bitmask : Type 0
Bitmask = ℕ → Option Word

abbrev zero_word : Word
zero_word k = false

-- `1 << bit`
abbrev one_bit : ℕ → Word
one_bit bit k = bit == k

abbrev pub word_of : Option Word → Word
word_of none = zero_word
word_of (some w) = w

-- Whether one of the first `n` bits is set.
unfoldable pub some_bit : ℕ → Word → Bool
some_bit zero w = false
some_bit (suc n) w = w n || some_bit n w

unfoldable pub empty_mask : Bitmask
empty_mask i = none

unfoldable pub set_mask : Bitmask → ℕ → Bitmask
set_mask m i = update m (i / 64) (some (λ k. word_of (m (i / 64)) k || one_bit (i % 64) k))

-- A word that has become zero is deleted.
unfoldable pub or_deleted : Word → Option Word
unfolding some_bit
or_deleted w = if some_bit 64 w then some w else none

unfoldable pub clear_mask : Bitmask → ℕ → Bitmask
unfolding or_deleted
clear_mask m i =
    update m (i / 64) (or_deleted (λ k. word_of (m (i / 64)) k && not (one_bit (i % 64) k)))

unfoldable pub is_set : Bitmask → ℕ → Bool
unfolding some_bit
is_set m i = some_bit 64 (λ k. word_of (m (i / 64)) k && one_bit (i % 64) k)

bit_round :
    (n b : ℕ) (wn wb : Bool)
    → ((b == n) ≡ true → wn ≡ wb)
    → ((wn && (b == n)) || (ltb b n && wb)) ≡ (ltb b (suc n) && wb)
bit_round n b wn wb h = elim (Bool-cases (b == n)) [
  | inl e ↦ ground (arith, h e)
  | inr e ↦ ground arith
]

-- The test of one bit looks at that bit.
some_bit-one : (n b : ℕ) (w : Word) → some_bit n (λ k. w k && one_bit b k) ≡ (ltb b n && w b)
unfolding some_bit
some_bit-one zero b w = ground arith
some_bit-one (suc n) b w =
    ap (λ c. (w n && (b == n)) || c) (some_bit-one n b w)
    ∙ bit_round n b (w n) (w b) (λ e. ap w (sym ((==_iff b n).0 e)))

in_word : (i : ℕ) (b : Bool) → (ltb (i % 64) 64 && b) ≡ b
in_word i b = ground arith

is_set_bit : (m : Bitmask) (i : ℕ) → is_set m i ≡ word_of (m (i / 64)) (i % 64)
unfolding is_set
is_set_bit m i = some_bit-one 64 (i % 64) (word_of (m (i / 64))) ∙ in_word i _

-- Two numbers are equal if their words and their bits are.
same_place : (i j : ℕ) → (i == j) ≡ ((i / 64 == j / 64) && (i % 64 == j % 64))
same_place i j = ground arith

some_bit-false : (n b : ℕ) (w : Word) → some_bit n w ≡ false → b < n → w b ≡ false
unfolding some_bit
some_bit-false zero b w h lt = absurd (omega arith)
some_bit-false (suc n) b w h lt = elim (Bool-cases (b == n)) [
  | inl e ↦ ap w ((==_iff b n).0 e) ∙ ground arith
  | inr e ↦ some_bit-false n b w (ground arith) (ground arith)
]

or_deleted-bit : (w : Word) (b : ℕ) → b < 64 → word_of (or_deleted w) b ≡ w b
unfolding or_deleted
or_deleted-bit w b h = elim (Bool-cases (some_bit 64 w)) [
  | inl e ↦ rw e refl
  | inr e ↦ rw e (sym (some_bit-false 64 b w e h))
]

updated_bit :
    (m : Bitmask) (p q b : ℕ) (o : Option Word)
    → word_of (update m p o q) b ≡ (if p == q then word_of o b else word_of (m q) b)
updated_bit m p q b o =
    elim (p == q)
      as (λ c. word_of (if c then o else m q) b ≡ (if c then word_of o b else word_of (m q) b)) [
        | true ↦ refl
        | false ↦ refl
      ]

same_word : (m : Bitmask) (p q b : ℕ) → (p == q) ≡ true → word_of (m p) b ≡ word_of (m q) b
same_word m p q b e = ap (λ i. word_of (m i) b) ((==_iff p q).0 e)

set_round : (e x y b : Bool) → (e ≡ true → x ≡ y) → (if e then x || b else y) ≡ ((e && b) || y)
set_round true x y b h = ground (arith, h refl)
set_round false x y b h = refl

clear_round :
    (e x y b : Bool) → (e ≡ true → x ≡ y) → (if e then x && not b else y) ≡ (not (e && b) && y)
clear_round true x y b h = ground (arith, h refl)
clear_round false x y b h = refl

set_place :
    (m : Bitmask) (i j : ℕ)
    → word_of (set_mask m i (j / 64)) (j % 64) ≡ ((i == j) || word_of (m (j / 64)) (j % 64))
unfolding set_mask
set_place m i j =
    updated_bit m (i / 64) (j / 64) (j % 64) _
    ∙ set_round (i / 64 == j / 64) _ _ (i % 64 == j % 64) (same_word m (i / 64) (j / 64) (j % 64))
    ∙ ap (λ b. b || word_of (m (j / 64)) (j % 64)) (sym (same_place i j))

clear_place :
    (m : Bitmask) (i j : ℕ)
    → word_of (clear_mask m i (j / 64)) (j % 64) ≡ (not (i == j) && word_of (m (j / 64)) (j % 64))
unfolding clear_mask
clear_place m i j =
    updated_bit m (i / 64) (j / 64) (j % 64) _
    ∙ ap (λ x. if i / 64 == j / 64 then x else word_of (m (j / 64)) (j % 64))
        (or_deleted-bit (λ k. word_of (m (i / 64)) k && not (one_bit (i % 64) k)) (j % 64)
          (omega arith))
    ∙ clear_round (i / 64 == j / 64) _ _ (i % 64 == j % 64) (same_word m (i / 64) (j / 64) (j % 64))
    ∙ ap (λ b. not b && word_of (m (j / 64)) (j % 64)) (sym (same_place i j))

pub is_set-empty_mask : (j : ℕ) → is_set empty_mask j ≡ false
unfolding empty_mask
is_set-empty_mask j = is_set_bit empty_mask j

-- After `Set` of a number, `IsSet` is true for that number, and for every other what it was.
pub is_set-set_mask : (m : Bitmask) (i j : ℕ) → is_set (set_mask m i) j ≡ ((i == j) || is_set m j)
is_set-set_mask m i j =
    is_set_bit (set_mask m i) j ∙ set_place m i j ∙ ap (λ b. (i == j) || b) (sym (is_set_bit m j))

-- After `Clear` of a number, which may delete a word, `IsSet` is false for that number, and for
-- every other what it was.
pub is_set-clear_mask :
    (m : Bitmask) (i j : ℕ) → is_set (clear_mask m i) j ≡ (not (i == j) && is_set m j)
is_set-clear_mask m i j =
    is_set_bit (clear_mask m i) j
    ∙ clear_place m i j
    ∙ ap (λ b. not (i == j) && b) (sym (is_set_bit m j))
