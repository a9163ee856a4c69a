-- ===== src/Sequence/Partials/Placing.antt =====
-- pkg/rules/sequence.go: what `addPartial` puts where.
use mathlib.Core.List.{Perm}
use mathlib.Core.List.Perm
use mathlib.Core.List.{append-nil}
use fibratus.Prelude.{
  ℕ, ◌≡◌, subst, Bool, true, false, not, ◌&&◌, List, [], ◌∷◌, ◌++◌, ltb, leb, ◌==◌, length,
  if◌then◌else◌, arith, Bool-cases, inl, inr, ==_iff,
}
use fibratus.Event.{Event}
use fibratus.Sequence.{World, Env}
use fibratus.Sequence.Machine.{max_outstanding_partials}
use fibratus.Sequence.Partials.{sort_slot, is_known, add_partial}
use fibratus.Sequence.Partials.Sorting.{Sorted, sort_slot-Sorted, sort_slot-perm}

module _ (env : Env) where
  -- The slot has at most 1000 events, and none with the key of this one.
  abbrev pub admits : Event → List Event → Bool
  admits e ps = leb (length ps) max_outstanding_partials && not (is_known env e ps)

  -- What is new in slot `j`.
  abbrev pub news : ℕ → Event → World → ℕ → List Event
  news i e w j = if admits e (w.ss.partials i) && (i == j) then e ∷ [] else []

  -- Each slot has its events, and the new one besides, in the order of the timestamps, and the
  -- machine and the matches are as they were.
  pub record Placed (i : ℕ) (e : Event) (before after : World) : Type 0 where
    pub events : (j : ℕ) → Perm (after.ss.partials j) (before.ss.partials j ++ news i e before j)
    pub in_order : (j : ℕ) → Sorted (after.ss.partials j)
    pub fsm : after.ss.fsm ≡ before.ss.fsm
    pub states : after.ss.states ≡ before.ss.states
    pub matches : after.ss.matches ≡ before.ss.matches
    pub last_match : after.ss.last_match ≡ before.ss.last_match

  slot-perm :
      (i : ℕ) (e : Event) (is_ooo : Bool) (w : World) (j : ℕ)
      → Perm ((add_partial env i e is_ooo w).ss.partials j) (w.ss.partials j ++ news i e w j)
  unfolding add_partial
  slot-perm i e is_ooo w j =
      elim (Bool-cases (ltb max_outstanding_partials (length (w.ss.partials i)))) [
        | inl full ↦
            let large : leb (length (w.ss.partials i)) max_outstanding_partials ≡ false =
              ground arith in
            rw (full, large, append-nil (w.ss.partials j)) (Perm.refl (w.ss.partials j))
        | inr room ↦
            let small : leb (length (w.ss.partials i)) max_outstanding_partials ≡ true =
              ground arith in
            elim (Bool-cases (is_known env e (w.ss.partials i))) [
              | inl known ↦
                  rw (room, small, known, append-nil (w.ss.partials j))
                    (Perm.refl (w.ss.partials j))
              | inr new ↦
                  rw (room, small, new)
                    (elim (Bool-cases (i == j)) [
                      | inl same ↦ rw same (
                          subst
                            (λ k.
                              Perm (sort_slot (w.ss.partials i ++ e ∷ []))
                                (w.ss.partials k ++ e ∷ []))
                            ((==_iff i j).0 same) (sort_slot-perm (w.ss.partials i ++ e ∷ [])))
                      | inr other ↦
                          rw (other, append-nil (w.ss.partials j)) (Perm.refl (w.ss.partials j))
                    ])
            ]
      ]

  in_order_slot :
      (i : ℕ) (e : Event) (is_ooo : Bool) (w : World) (j : ℕ)
      → Sorted (w.ss.partials j)
      → Sorted ((add_partial env i e is_ooo w).ss.partials j)
  unfolding add_partial
  in_order_slot i e is_ooo w j s =
      elim (Bool-cases (ltb max_outstanding_partials (length (w.ss.partials i)))) [
        | inl full ↦ rw full s
        | inr room ↦ elim (Bool-cases (is_known env e (w.ss.partials i))) [
          | inl known ↦ rw (room, known) s
          | inr new ↦
              rw (room, new)
                (elim (Bool-cases (i == j)) [
                  | inl same ↦ rw same (sort_slot-Sorted (w.ss.partials i ++ e ∷ []))
                  | inr other ↦ rw other s
                ])
        ]
      ]

  -- If each slot is in the order of the timestamps, then after `addPartial` of any event for
  -- any slot each slot has the events that it had, as often as it had them, and that slot also
  -- the new event when it had at most 1000 events and none with the same key that is not 0;
  -- each slot is again in the order of the timestamps; and the state of the machine, the marks,
  -- the matches and the last match are as they were.
  pub add_partial-Placed :
      (i : ℕ) (e : Event) (is_ooo : Bool) (w : World)
      → ((j : ℕ) → Sorted (w.ss.partials j))
      → Placed i e w (add_partial env i e is_ooo w)
  unfolding add_partial
  add_partial-Placed i e is_ooo w s = record {
    events = slot-perm i e is_ooo w;
    in_order = λ j. in_order_slot i e is_ooo w j (s j);
    fsm = ground arith;
    states = ground arith;
    matches = ground arith;
    last_match = ground arith;
  }
