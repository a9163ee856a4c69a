-- ===== src/Prelude/Lists.antt =====
-- Lists measured and indexed by native numbers, tests over lists, and predicates by recursion.
use Prim.Native.Nat.{ℕ, zero, suc, ◌+◌}
use mathlib.Core.Path.{◌≡◌}
use mathlib.Core.Bool.{Bool, true, false, ◌&&◌, ◌||◌}
use mathlib.Core.List.{List, [], ◌∷◌, ◌++◌}
use mathlib.Core.Option.{Option, none, some}
use mathlib.Core.Path.{refl, ap}
use mathlib.Core.Logic.{inl, inr}
use fibratus.Prelude.Tests.{if◌then◌else◌, Bool-cases}
use native.Mathlib.Omega.{arith}

module _ {ℓ} {A : Type ℓ} where
  abbrev pub length : List A → ℕ
  length [] = 0
  length (x ∷ xs) = suc (length xs)

  abbrev pub get_elem? : List A → ℕ → Option A
  get_elem? [] i = none
  get_elem? (x ∷ xs) zero = some x
  get_elem? (x ∷ xs) (suc i) = get_elem? xs i

  abbrev pub drop : ℕ → List A → List A
  drop zero xs = xs
  drop (suc n) [] = []
  drop (suc n) (x ∷ xs) = drop n xs

  abbrev pub take : ℕ → List A → List A
  take zero xs = []
  take (suc n) [] = []
  take (suc n) (x ∷ xs) = x ∷ take n xs

  -- A `for` loop that returns true at the first element that passes.
  abbrev pub exists : (A → Bool) → List A → Bool
  exists p [] = false
  exists p (x ∷ xs) = p x || exists p xs

  abbrev pub for_all : (A → Bool) → List A → Bool
  for_all p [] = true
  for_all p (x ∷ xs) = p x && for_all p xs

  pub length-append : (xs ys : List A) → length (xs ++ ys) ≡ length xs + length ys
  length-append [] ys = omega arith
  length-append (x ∷ xs) ys = omega (arith, length-append xs ys)

module _ {ℓ κ} {A : Type ℓ} where
  abbrev pub All : (A → Type κ) → List A → Type κ
  All P [] = Unit
  All P (x ∷ xs) = P x × All P xs

  pub All-append : (P : A → Type κ) (xs ys : List A) → All P xs → All P ys → All P (xs ++ ys)
  All-append P [] ys hx hy = hy
  All-append P (x ∷ xs) ys hx hy = (hx.0, All-append P xs ys hx.1 hy)

  pub All-map : (P Q : A → Type κ) (xs : List A) → ((x : A) → P x → Q x) → All P xs → All Q xs
  All-map P Q [] f h = h
  All-map P Q (x ∷ xs) f h = (f x h.0, All-map P Q xs f h.1)

module _ {ℓ} {A : Type ℓ} where
  abbrev pub get_or : List A → ℕ → A → A
  get_or [] i d = d
  get_or (x ∷ xs) zero d = x
  get_or (x ∷ xs) (suc i) d = get_or xs i d

-- The elements that do not pass, in their order.
abbrev pub reject {ℓ} : {A : Type ℓ} → (A → Bool) → List A → List A
reject p [] = []
reject p (x ∷ xs) = let rest = reject p xs in if p x then rest else x ∷ rest

module _ {ℓ} {A : Type ℓ} where
  pub reject_idem : (p : A → Bool) (l : List A) → reject p (reject p l) ≡ reject p l
  reject_idem p [] = refl
  reject_idem p (x ∷ l) = elim (Bool-cases (p x)) [
    | inl on ↦ rw on (reject_idem p l)
    | inr off ↦ rw off (rw off (ap (◌∷◌ x) (reject_idem p l)))
  ]

module _ {ℓ κ} {A : Type ℓ} where
  pub All-reject : (P : A → Type κ) (p : A → Bool) (l : List A) → All P l → All P (reject p l)
  All-reject P p [] h = tt
  All-reject P p (x ∷ l) h = elim (p x) as (λ b. All P (if b then reject p l else x ∷ reject p l)) [
    | true ↦ All-reject P p l h.1
    | false ↦ (h.0, All-reject P p l h.1)
  ]
