-- ===== src/Ql/Texts/Intersection.antt =====
-- pkg/util/sets: the intersection of two lists of strings, for any comparison.
use mathlib.Core.List.{append-nil, append_assoc}
use fibratus.Prelude.{
  ◌≡◌, refl, sym, ap, ◌∙◌, Bool, true, false, List, [], ◌∷◌, ◌++◌, arith, exists, if◌then◌else◌,
  Bool-cases, inl, inr,
}
use fibratus.Event.Values.{Text, eq_text}
use fibratus.Event.Values.Equal.{eq_text_refl}
use fibratus.Ql.Texts.{intersect_inner, intersection}

-- The elements of `l` that the comparison finds on the right, in their order.
abbrev pub common : (Text → Text → Bool) → List Text → List Text → List Text
common same r [] = []
common same r (i ∷ l) = let rest = common same r l in if exists (same i) r then i ∷ rest else rest

-- Each string once, where it comes first, and none of those that were seen before.
abbrev pub first_times : List Text → List Text → List Text
first_times seen [] = []
first_times seen (i ∷ l) =
    let known = first_times seen l in
    let new = i ∷ first_times (seen ++ i ∷ []) l in if exists (eq_text i) seen then known else new

exists-append : (i : Text) (l : List Text) → exists (eq_text i) (l ++ i ∷ []) ≡ true
exists-append i [] = ground (arith, eq_text_refl i)
exists-append i (y ∷ l) = ground (arith, exists-append i l)

-- The inner loop adds nothing to what is there.
inner_known :
    (same : Text → Text → Bool) (i : Text) (r found : List Text)
    → exists (eq_text i) found ≡ true
    → intersect_inner same i r found ≡ found
unfolding intersect_inner
inner_known same i [] found h = refl
inner_known same i (j ∷ r) found h = ground (arith, h, inner_known same i r found h)

inner_new :
    (same : Text → Text → Bool) (i : Text) (r found : List Text)
    → exists (eq_text i) found ≡ false
    → intersect_inner same i r found ≡ (if exists (same i) r then found ++ i ∷ [] else found)
unfolding intersect_inner
inner_new same i [] found h = refl
inner_new same i (j ∷ r) found h = rw h (elim (Bool-cases (same i j)) [
  | inl y ↦ rw y (inner_known same i r (found ++ i ∷ []) (exists-append i found))
  | inr n ↦ rw n (inner_new same i r found h)
])

skipped :
    (same : Text → Text → Bool) (i : Text) (l r found : List Text)
    → exists (eq_text i) found ≡ true
    → first_times found (common same r (i ∷ l)) ≡ first_times found (common same r l)
skipped same i l r found h = elim (Bool-cases (exists (same i) r)) [
  | inl y ↦ rw (y, h) refl
  | inr n ↦ rw n refl
]

intersection_found :
    (same : Text → Text → Bool) (l r found : List Text)
    → intersection same l r found ≡ found ++ first_times found (common same r l)
unfolding intersection
intersection_found same [] r found = sym (append-nil found)
intersection_found same (i ∷ l) r found = elim (Bool-cases (exists (eq_text i) found)) [
  | inl old ↦
      ap (λ f. intersection same l r f) (inner_known same i r found old)
      ∙ intersection_found same l r found
      ∙ ap (λ c. found ++ c) (sym (skipped same i l r found old))
  | inr new ↦ elim (Bool-cases (exists (same i) r)) [
    | inl y ↦
        ap (λ f. intersection same l r f) (inner_new same i r found new)
        ∙ rw (y, new)
            (intersection_found same l r (found ++ i ∷ [])
              ∙ append_assoc found (i ∷ []) (first_times (found ++ i ∷ []) (common same r l)))
    | inr n ↦
        ap (λ f. intersection same l r f) (inner_new same i r found new)
        ∙ rw n (intersection_found same l r found)
  ]
]

-- With any comparison, by case or without case, the intersection of two lists is the elements of
-- the left list that the comparison finds on the right, in their order, each string only once,
-- where it comes first.
pub intersection-first_times :
    (same : Text → Text → Bool) (l r : List Text)
    → intersection same l r [] ≡ first_times [] (common same r l)
intersection-first_times same l r = intersection_found same l r []
