-- ===== src/Sequence/Partials/Sorting.antt =====
-- pkg/rules/sequence.go: a slot's events stand in the order of their timestamps, and sorting keeps
-- them all.
use mathlib.Core.List.{Perm}
use mathlib.Core.List.Perm
use fibratus.Prelude.{
  suc, ◌≤◌, ◌≡◌, refl, List, [], ◌∷◌, ltb, length, All, All-map, arith, Bool-cases, inl, inr,
}
use fibratus.Event.{Event}
use fibratus.Sequence.Partials.{insert_sorted, sort_slot}

abbrev pub Sorted : List Event → Type 0
Sorted [] = Unit
Sorted (p ∷ ps) = All (λ (x : Event). p.timestamp ≤ x.timestamp) ps × Sorted ps

pub All-insert_sorted :
    (P : Event → Type 0) (e : Event) (ps : List Event) → P e → All P ps → All P (insert_sorted e ps)
unfolding insert_sorted
All-insert_sorted P e [] h hs = (h, tt)
All-insert_sorted P e (p ∷ ps) h hs = elim (Bool-cases (ltb p.timestamp e.timestamp)) [
  | inl lt ↦ rw lt (hs.0, All-insert_sorted P e ps h hs.1)
  | inr ge ↦ rw ge (h, hs)
]

pub All-sort_slot : (P : Event → Type 0) (ps : List Event) → All P ps → All P (sort_slot ps)
unfolding sort_slot
All-sort_slot P [] h = h
All-sort_slot P (p ∷ ps) h = All-insert_sorted P p (sort_slot ps) h.0 (All-sort_slot P ps h.1)

Sorted-insert_sorted : (e : Event) (ps : List Event) → Sorted ps → Sorted (insert_sorted e ps)
unfolding insert_sorted
Sorted-insert_sorted e [] h = (tt, tt)
Sorted-insert_sorted e (p ∷ ps) h = elim (Bool-cases (ltb p.timestamp e.timestamp)) [
  | inl lt ↦ rw lt (
    All-insert_sorted (λ (x : Event). p.timestamp ≤ x.timestamp) e ps (ground arith) h.0,
    Sorted-insert_sorted e ps h.1,
  )
  | inr ge ↦
      let le : e.timestamp ≤ p.timestamp = ground arith in
      rw ge (
        (
          le,
          All-map (λ (x : Event). p.timestamp ≤ x.timestamp)
              (λ (x : Event). e.timestamp ≤ x.timestamp) ps (λ x hx. omega arith) h.0,
        ),
        h,
      )
]

-- The sorted slot is in the order of the timestamps.
pub sort_slot-Sorted : (ps : List Event) → Sorted (sort_slot ps)
unfolding sort_slot
sort_slot-Sorted [] = tt
sort_slot-Sorted (p ∷ ps) = Sorted-insert_sorted p (sort_slot ps) (sort_slot-Sorted ps)

insert_sorted-perm : (e : Event) (ps : List Event) → Perm (insert_sorted e ps) (e ∷ ps)
unfolding insert_sorted
insert_sorted-perm e [] = Perm.refl (e ∷ [])
insert_sorted-perm e (p ∷ ps) = elim (Bool-cases (ltb p.timestamp e.timestamp)) [
  | inl lt ↦ rw lt (Perm.trans (Perm.cons p (insert_sorted-perm e ps)) (Perm.swap e p ps))
  | inr ge ↦ rw ge (Perm.refl (e ∷ p ∷ ps))
]

-- Sorting a slot keeps every event, as often as it was there.
pub sort_slot-perm : (ps : List Event) → Perm (sort_slot ps) ps
unfolding sort_slot
sort_slot-perm [] = Perm.refl []
sort_slot-perm (p ∷ ps) =
    Perm.trans (insert_sorted-perm p (sort_slot ps)) (Perm.cons p (sort_slot-perm ps))

length-insert_sorted : (e : Event) (ps : List Event) → length (insert_sorted e ps) ≡ suc (length ps)
unfolding insert_sorted
length-insert_sorted e [] = refl
length-insert_sorted e (p ∷ ps) = ground (arith, length-insert_sorted e ps)

pub length-sort_slot : (ps : List Event) → length (sort_slot ps) ≡ length ps
unfolding sort_slot
length-sort_slot [] = refl
length-sort_slot (p ∷ ps) =
    omega (arith, length-insert_sorted p (sort_slot ps), length-sort_slot ps)
