-- ===== src/Sequence/Partials/Adding.antt =====
-- pkg/rules/sequence.go: what `addPartial` keeps true of every slot.
use fibratus.Prelude.{
  ℕ, ◌+◌, ◌≤◌, ◌≡◌, ◌≢◌, ◌⊎◌, inl, inr, Bool, false, List, [], ◌∷◌, ◌++◌, ltb, ◌==◌, length, All,
  All-append, length-append, arith, Bool-cases,
}
use fibratus.Event.{Event}
use fibratus.Sequence.{World, Env}
use fibratus.Sequence.Machine.{max_outstanding_partials}
use fibratus.Sequence.Partials.{insert_sorted, sort_slot, is_known, add_partial}
use fibratus.Sequence.Partials.Sorting.{
  Sorted, All-insert_sorted, All-sort_slot, sort_slot-Sorted, length-sort_slot,
}

module _ (env : Env) where
  -- Two events are different to the sequence: they have different keys, or no key at all.
  abbrev Apart : Event → Event → Type 0
  Apart e p = (env.partial_key e ≡ 0) ⊎ (env.partial_key e ≢ env.partial_key p)

  abbrev pub Distinct : List Event → Type 0
  Distinct [] = Unit
  Distinct (p ∷ ps) = All (Apart p) ps × Distinct ps

  Apart-sym : (e p : Event) → Apart e p → Apart p e
  Apart-sym e p h = ground arith

  All-Apart_sym : (e : Event) (ps : List Event) → All (λ p. Apart p e) ps → All (Apart e) ps
  All-Apart_sym e [] h = h
  All-Apart_sym e (p ∷ ps) h = (Apart-sym p e h.0, All-Apart_sym e ps h.1)

  Distinct-insert_sorted :
      (e : Event) (ps : List Event) → All (Apart e) ps → Distinct ps → Distinct (insert_sorted e ps)
  unfolding insert_sorted
  Distinct-insert_sorted e [] h d = (tt, tt)
  Distinct-insert_sorted e (p ∷ ps) h d = elim (Bool-cases (ltb p.timestamp e.timestamp)) [
    | inl lt ↦ rw lt (
      All-insert_sorted (Apart p) e ps (Apart-sym e p h.0) d.0,
      Distinct-insert_sorted e ps h.1 d.1,
    )
    | inr ge ↦ rw ge (h, d)
  ]

  Distinct-sort_slot : (ps : List Event) → Distinct ps → Distinct (sort_slot ps)
  unfolding sort_slot
  Distinct-sort_slot [] d = d
  Distinct-sort_slot (p ∷ ps) d =
      Distinct-insert_sorted p (sort_slot ps) (All-sort_slot (Apart p) ps d.0)
        (Distinct-sort_slot ps d.1)

  Distinct-append :
      (e : Event) (ps : List Event)
      → All (λ p. Apart p e) ps
      → Distinct ps
      → Distinct (ps ++ e ∷ [])
  Distinct-append e [] h d = (tt, tt)
  Distinct-append e (p ∷ ps) h d =
      (All-append (Apart p) ps (e ∷ []) d.0 (h.0, tt), Distinct-append e ps h.1 d.1)

  -- An event that is not known yet differs from all in the slot.
  All-not_known :
      (e : Event) (ps : List Event) → is_known env e ps ≡ false → All (λ p. Apart p e) ps
  unfolding is_known
  All-not_known e [] h = tt
  All-not_known e (p ∷ ps) h = (ground arith, All-not_known e ps (ground arith))

  -- What the code keeps of a slot: its order, no two events with the same key, and the bound, which
  -- is one more than the constant, since the test is made before the event is added.
  pub record IsSlot (ps : List Event) : Type 0 where
    pub in_order : Sorted ps
    pub distinct : Distinct ps
    pub bounded : length ps ≤ max_outstanding_partials + 1

  IsSlot-append :
      (e : Event) (ps : List Event)
      → IsSlot ps
      → ltb max_outstanding_partials (length ps) ≡ false
      → is_known env e ps ≡ false
      → IsSlot (sort_slot (ps ++ e ∷ []))
  IsSlot-append e ps s room new = record {
    in_order = sort_slot-Sorted (ps ++ e ∷ []);
    distinct =
        Distinct-sort_slot (ps ++ e ∷ [])
          (Distinct-append e ps (All-not_known e ps new) s.distinct);
    bounded = ground (arith, length-sort_slot (ps ++ e ∷ []), length-append ps (e ∷ []));
  }

  -- If each slot is in the order of the timestamps, has no two events with the same key that is
  -- not 0, and at most 1001 events, then each slot is so after `addPartial` of any event for
  -- any slot.
  pub add_partial-IsSlot :
      (i : ℕ) (e : Event) (is_ooo : Bool) (w : World)
      → ((j : ℕ) → IsSlot (w.ss.partials j))
      → (j : ℕ) → IsSlot ((add_partial env i e is_ooo w).ss.partials j)
  unfolding add_partial
  add_partial-IsSlot i e is_ooo w s j =
      elim (Bool-cases (ltb max_outstanding_partials (length (w.ss.partials i)))) [
        | inl full ↦ rw full (s j)
        | inr room ↦ elim (Bool-cases (is_known env e (w.ss.partials i))) [
          | inl known ↦ rw (room, known) (s j)
          | inr new ↦
              rw (room, new)
                (elim (Bool-cases (i == j)) [
                  | inl same ↦ rw same (IsSlot-append e (w.ss.partials i) (s i) room new)
                  | inr other ↦ rw other (s j)
                ])
        ]
      ]
