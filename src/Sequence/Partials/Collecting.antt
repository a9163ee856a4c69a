-- ===== src/Sequence/Partials/Collecting.antt =====
-- pkg/rules/sequence.go: the garbage collection of partials. The loops remove by index, from the end
-- of each slot; they come to a filter of each slot.
use mathlib.Core.List.{append-nil}
use fibratus.Prelude.{
  reject, reject_idem, ℕ, zero, suc, ◌+◌, ◌≡◌, refl, sym, ap, ◌∙◌, Bool, true, false, ◌||◌, List,
  [], ◌∷◌, ◌++◌, some, ltb, ◌==◌, if◌then◌else◌, update, exists, length, get_elem?, arith,
}
use fibratus.Event.{Event}
use fibratus.Sequence.{SequenceState, Env, Sequence}
use fibratus.Sequence.Partials.{
  remove_at, passes, gc_slot, gc_slots, slots, lifetime, gc, is_too_old,
}

-- `r` reversed, in front of `ys`: a list seen from the place that a loop from the end has reached.
abbrev pub back {ℓ} : {A : Type ℓ} → List A → List A → List A
back [] ys = ys
back (x ∷ r) ys = back r (x ∷ ys)

module _ {ℓ} {A : Type ℓ} where
  pub get_elem?-back :
      (r ys : List A) (j : ℕ) → get_elem? (back r ys) (length r + j) ≡ get_elem? ys j
  get_elem?-back [] ys j = ap (get_elem? ys) (omega arith)
  get_elem?-back (x ∷ r) ys j =
      ap (get_elem? (back r (x ∷ ys))) (omega arith) ∙ get_elem?-back r (x ∷ ys) (suc j)

  pub remove_at-back :
      (r ys : List A) (j : ℕ) → remove_at (length r + j) (back r ys) ≡ back r (remove_at j ys)
  unfolding remove_at
  remove_at-back [] ys j = ap (λ n. remove_at n ys) (omega arith)
  remove_at-back (x ∷ r) ys j =
      ap (λ n. remove_at n (back r (x ∷ ys))) (omega arith) ∙ remove_at-back r (x ∷ ys) (suc j)

  pub reject-back :
      (p : A → Bool) (r ys : List A) → reject p (back r ys) ≡ back (reject p r) (reject p ys)
  reject-back p [] ys = refl
  reject-back p (x ∷ r) ys = reject-back p r (x ∷ ys) ∙ split (p x) refl
    where
      split :
          (b : Bool)
          → p x ≡ b
          → back (reject p r) (if b then reject p ys else x ∷ reject p ys)
            ≡ back (if b then reject p r else x ∷ reject p r) (reject p ys)
      split true e = refl
      split false e = refl

  back-back : (l ys zs : List A) → back (back l ys) zs ≡ back ys (l ++ zs)
  back-back [] ys zs = refl
  back-back (x ∷ l) ys zs = back-back l (x ∷ ys) zs

  pub length-back : (r ys : List A) → length (back r ys) ≡ length r + length ys
  length-back [] ys = omega arith
  length-back (x ∷ r) ys = omega (arith, length-back r (x ∷ ys))

module _ {ℓ} {A : Type ℓ} where
  -- The element that the loop looks at, and the list without it.
  pub get_elem?-here :
      (r : List A) (x : A) (ys : List A) → get_elem? (back r (x ∷ ys)) (length r) ≡ some x
  get_elem?-here r x ys =
      ap (get_elem? (back r (x ∷ ys))) (omega arith) ∙ get_elem?-back r (x ∷ ys) 0

  pub remove_at-here :
      (r : List A) (x : A) (ys : List A) → remove_at (length r) (back r (x ∷ ys)) ≡ back r ys
  unfolding remove_at
  remove_at-here r x ys =
      ap (λ n. remove_at n (back r (x ∷ ys))) (omega arith) ∙ remove_at-back r (x ∷ ys) 0

  -- Every list can be read from its end.
  pub back-reverse : (l : List A) → back (back l []) [] ≡ l
  back-reverse l = back-back l [] [] ∙ append-nil l

-- One round of the loop, at the event that it looks at.
gc_slot_round :
    (old : Event → Bool) (r : List Event) (x : Event) (ys : List Event)
    → (if passes old (get_elem? (back r (x ∷ ys)) (length r))
        then remove_at (length r) (back r (x ∷ ys))
        else back r (x ∷ ys))
      ≡ (if old x then back r ys else back r (x ∷ ys))
unfolding passes
gc_slot_round old r x ys = rw (get_elem?-here r x ys, remove_at-here r x ys)

gc_slot-back :
    (old : Event → Bool) (r ys : List Event)
    → gc_slot old (length r) (back r ys) ≡ back (reject old r) ys
unfolding gc_slot
gc_slot-back old [] ys = refl
gc_slot-back old (x ∷ r) ys =
    ap (gc_slot old (length r)) (gc_slot_round old r x ys)
    ∙ ground (arith, gc_slot-back old r ys, gc_slot-back old r (x ∷ ys))

-- The loop over a slot keeps just the events that are not too old.
pub gc_slot-reject : (old : Event → Bool) (l : List Event) → gc_slot old (length l) l ≡ reject old l
gc_slot-reject old l =
    let r = back l [] in
    let whole : back r [] ≡ l = back-reverse l in
    ap (λ m. gc_slot old (length m) m) (sym whole)
    ∙ (ap (λ n. gc_slot old n (back r [])) (length-back r [] ∙ omega arith)
        ∙ (gc_slot-back old r [] ∙ (sym (reject-back old r []) ∙ ap (reject old) whole)))

gc_slots-reject :
    (old : Event → Bool) (order : List ℕ) (m : ℕ → List Event) (j : ℕ)
    → gc_slots old order m j ≡ (if exists (λ i. i == j) order then reject old (m j) else m j)
unfolding gc_slots
gc_slots-reject old [] m j = refl
gc_slots-reject old (i ∷ order) m j =
    gc_slots-reject old order (update m i (gc_slot old (length (m i)) (m i))) j
    ∙ ground (arith, gc_slot-reject old (m j), reject_idem old (m j))

exists-append {ℓ} :
    {A : Type ℓ} (p : A → Bool) (xs ys : List A)
    → exists p (xs ++ ys) ≡ (exists p xs || exists p ys)
exists-append p [] ys = refl
exists-append p (x ∷ xs) ys = ground (arith, exists-append p xs ys)

pub exists-slots : (n j : ℕ) → exists (λ i. i == j) (slots n) ≡ ltb j n
unfolding slots
exists-slots zero j = ground arith
exists-slots (suc n) j =
    exists-append (λ i. i == j) (slots n) (n ∷ []) ∙ ground (arith, exists-slots n j)

-- A map's keys are visited in some order, each of them and no other.
pub record VisitsAll (order : List ℕ → List ℕ) : Type 0 where
  pub visits : (l : List ℕ) (j : ℕ) → exists (λ i. i == j) (order l) ≡ exists (λ i. i == j) l

-- If the range over the slots visits each of them and no other, in whatever order, collecting
-- leaves in each slot of the sequence just the events that are not older than the rule's span, in
-- their order, and other slots as they were.
pub gc-reject :
    (env : Env) (q : Sequence)
    → VisitsAll env.map_order
    → (now : ℕ) (s : SequenceState) (j : ℕ)
    → (gc env q now s).partials j ≡ (
        if ltb j q.size
        then reject (is_too_old now (lifetime env q)) (s.partials j)
        else s.partials j)
unfolding gc
gc-reject env q v now s j =
    gc_slots-reject (is_too_old now (lifetime env q)) (env.map_order (slots q.size)) s.partials j
    ∙ ap (λ b. if b then reject (is_too_old now (lifetime env q)) (s.partials j) else s.partials j)
        (v.visits (slots q.size) j ∙ exists-slots q.size j)
