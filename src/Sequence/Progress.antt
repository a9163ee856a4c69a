-- ===== src/Sequence/Progress.antt =====
-- pkg/rules/sequence.go: how far one event takes an ordered sequence.
use fibratus.Prelude.{
  ℕ, zero, suc, ◌≤◌, ◌<◌, ◌≡◌, refl, sym, ap, ◌∙◌, ◌⊎◌, inl, inr, Bool, true, false, subst, some,
  if◌then◌else◌, arith,
}
use native.Mathlib.Decide.{dec_lt}
use fibratus.Event.{Event}
use fibratus.Sequence.{slot, terminal, SequenceState, World, Env, Sequence}
use fibratus.Sequence.Machine.{match_transition, or_unchanged}
use fibratus.Sequence.Partials.{add_partial}
use fibratus.Sequence.Run.{
  all_matched, next, is_before, set_links, with_ss, run_filter, evaluate, finish, advance, replay,
  step, run_from, run_sequence, collect_matches,
}
use fibratus.Sequence.Permits.{FollowsPermits}
use fibratus.Sequence.Slots.{
  IsAt, IsPast, further, done, match_transition-here, match_transition-before,
}
use fibratus.Sequence.Resets.{is_terminal_state-terminal, is_terminal_state-slot}

module _ (env : Env) (q : Sequence) where
  evaluate-ss :
      (e : Event) (i : ℕ) (raw : Bool) (w : World) → (evaluate env q e i raw w).1.ss ≡ w.ss
  unfolding evaluate run_filter set_links
  evaluate-ss e i raw w = ground arith

  add_partial-fsm :
      (i : ℕ) (e : Event) (b : Bool) (w : World) → (add_partial env i e b w).ss.fsm ≡ w.ss.fsm
  unfolding add_partial
  add_partial-fsm i e b w = ground arith

  add_partial-states :
      (i : ℕ) (e : Event) (b : Bool) (w : World) → (add_partial env i e b w).ss.states ≡ w.ss.states
  unfolding add_partial
  add_partial-states i e b w = ground arith

  IsAt-add_partial :
      (k i : ℕ) (e : Event) (b : Bool) (w : World)
      → IsAt q k w.ss
      → IsAt q k (add_partial env i e b w).ss
  IsAt-add_partial k i e b w at = record {
    here = add_partial-fsm i e b w ∙ at.here;
    in_range = at.in_range;
    matched = λ n. ap (λ (m : ℕ → Bool). m n) (add_partial-states i e b w) ∙ at.matched n;
  }

  -- A later slot is evaluated only after all slots before it have matched.
  next-le : (i k : ℕ) (s : SequenceState) → IsAt q k s → next i s ≡ true → i ≤ k
  unfolding next all_matched
  next-le zero k s at h = omega arith
  next-le (suc i) k s at h = ground (arith, at.matched i)

  module _ (ordered : q.is_unordered ≡ false) where
    -- Once an event has matched, it is no later than the last match, and matches nothing more.
    step_settled :
        (i : ℕ) (e : Event) (w : World)
        → w.ss.last_match ≡ some e.timestamp
        → ((step env q i e w).0 ≡ false) × ((step env q i e w).1.ss ≡ w.ss)
    unfolding step is_before
    step_settled i e w h = ground (arith, evaluate-ss e i false w)

    run_from_settled :
        (n i : ℕ) (e : Event) (w : World)
        → w.ss.last_match ≡ some e.timestamp
        → ((run_from env q n i e w).0 ≡ false) × ((run_from env q n i e w).1.ss ≡ w.ss)
    unfolding run_from
    run_from_settled zero i e w h = (refl, refl)
    run_from_settled (suc n) i e w h =
        ground (arith, step_settled i e w, run_from_settled n (suc i) e (step env q i e w).1)

    step-cases :
        (i : ℕ) (e : Event) (w : World)
        → (((step env q i e w).0 ≡ false) × ((step env q i e w).1.ss ≡ w.ss))
          ⊎ ((next i w.ss ≡ true)
              × (step env q i e w
                  ≡ finish env q (advance env q i e (evaluate env q e i false w).1)))
    unfolding step replay
    step-cases i e w = ground (arith, evaluate-ss e i false w)

    advance_fields :
        (i : ℕ) (e : Event) (w : World)
        → let w1 = add_partial env i e false w in
          (advance env q i e w).ss ≡ record (or_unchanged (match_transition env q i w1.ss) w1.ss) {
            last_match = some e.timestamp;
          }
    unfolding advance with_ss
    advance_fields i e w = rw ordered

-- A step that matched: it answers true just in the last slot.
data Matched (q : Sequence) (k : ℕ) (e : Event) (r : Bool × World) : Type 0 where
  stays : r.0 ≡ false → IsAt q k r.1.ss → r.1.ss.last_match ≡ some e.timestamp → Matched q k e r
  moves :
      r.0 ≡ false → IsAt q (suc k) r.1.ss → r.1.ss.last_match ≡ some e.timestamp → Matched q k e r
  ends : r.0 ≡ true → suc k ≡ q.size → r.1.ss.fsm ≡ slot 0 → Matched q k e r

-- What one event does to an ordered sequence that stands at slot `k`.
pub data Outcome (q : Sequence) (k : ℕ) (r : Bool × World) : Type 0 where
  waits : r.0 ≡ false → IsAt q k r.1.ss → Outcome q k r
  advances : r.0 ≡ false → IsAt q (suc k) r.1.ss → Outcome q k r
  completes : r.0 ≡ true → suc k ≡ q.size → r.1.ss.fsm ≡ slot 0 → Outcome q k r

module _ (env : Env) (q : Sequence) (laws : FollowsPermits env.fire) where
  module _ (ordered : q.is_unordered ≡ false) where
    advance-before :
        (i k : ℕ) (e : Event) (w : World)
        → IsAt q k w.ss
        → i < k
        → IsAt q k (advance env q i e w).ss
    unfolding or_unchanged
    advance-before i k e w at h =
        let at1 = IsAt-add_partial env q k i e false w at in
        rw
          (
            advance_fields env q ordered i e w,
            match_transition-before env q laws i k (add_partial env i e false w).ss at1 h,
          )
          (record { here = at1.here; in_range = at1.in_range; matched = at1.matched })

    advance-here :
        (k : ℕ) (e : Event) (w : World) → IsAt q k w.ss → IsPast q k (advance env q k e w).ss
    unfolding or_unchanged
    advance-here k e w at =
        let at1 = IsAt-add_partial env q k k e false w at in
        let (s, moved, past) =
          match_transition-here env q laws k (add_partial env k e false w).ss at1 in
        rw (advance_fields env q ordered k e w, moved)
          (elim past [
            | further at' ↦
                further (record { here = at'.here; in_range = at'.in_range; matched = at'.matched })
            | done last end ↦ done last end
          ])

    advance-last_match :
        (i : ℕ) (e : Event) (w : World) → (advance env q i e w).ss.last_match ≡ some e.timestamp
    advance-last_match i e w = rw (advance_fields env q ordered i e w)

  finish-slot : (k : ℕ) (w : World) → w.ss.fsm ≡ slot k → finish env q w ≡ (false, with_ss w.ss w)
  unfolding finish
  finish-slot k w h = rw (is_terminal_state-slot env q laws k w.ss h)

  finish-terminal :
      (w : World)
      → w.ss.fsm ≡ terminal
      → finish env q w ≡ (true, collect_matches env q (with_ss (record w.ss { fsm = slot 0 }) w))
  unfolding finish
  finish-terminal w h = rw (is_terminal_state-terminal env q laws w.ss h)

  collect_matches-fsm : (w : World) → (collect_matches env q w).ss.fsm ≡ w.ss.fsm
  unfolding collect_matches
  collect_matches-fsm w = refl

  module _ (ordered : q.is_unordered ≡ false) where
    Matched-before :
        (i k : ℕ) (e : Event) (w : World)
        → IsAt q k w.ss
        → i < k
        → Matched q k e (finish env q (advance env q i e w))
    unfolding with_ss
    Matched-before i k e w at h =
        let at' = advance-before ordered i k e w at h in
        rw (finish-slot k (advance env q i e w) at'.here)
          (stays refl at' (advance-last_match ordered i e w))

    Matched-here :
        (k : ℕ) (e : Event) (w : World)
        → IsAt q k w.ss
        → Matched q k e (finish env q (advance env q k e w))
    unfolding with_ss
    Matched-here k e w at =
        let w' = advance env q k e w in
        elim (advance-here ordered k e w at) [
          | further at' ↦
              rw (finish-slot (suc k) w' at'.here)
                (moves refl at' (advance-last_match ordered k e w))
          | done last end ↦
              rw (finish-terminal w' end)
                (ends refl last (collect_matches-fsm (with_ss (record w'.ss { fsm = slot 0 }) w')))
        ]

    Matched-slot :
        (i k : ℕ) (e : Event) (w : World)
        → IsAt q k w.ss
        → i ≤ k
        → Matched q k e (finish env q (advance env q i e w))
    Matched-slot i k e w at h = elim (dec_lt i k) [
      | yes lt ↦ Matched-before i k e w at lt
      | no nlt ↦
          let same : i ≡ k = omega arith in
          subst (λ j. Matched q k e (finish env q (advance env q j e w))) (sym same)
            (Matched-here k e w at)
    ]

    IsAt-ss : (k : ℕ) (s t : SequenceState) → s ≡ t → IsAt q k t → IsAt q k s
    IsAt-ss k s t h at = rw h at

    -- After a match the rest of the loop changes nothing.
    Outcome-Matched :
        (n i k : ℕ) (e : Event) (r : Bool × World)
        → Matched q k e r
        → Outcome q k (if r.0 then (true, r.1) else run_from env q n i e r.1)
    Outcome-Matched n i k e r (stays off at last) =
        let (no_match, same) = run_from_settled env q ordered n i e r.1 last in
        rw off (waits no_match (IsAt-ss k _ _ same at))
    Outcome-Matched n i k e r (moves off at last) =
        let (no_match, same) = run_from_settled env q ordered n i e r.1 last in
        rw off (advances no_match (IsAt-ss (suc k) _ _ same at))
    Outcome-Matched n i k e r (ends on last reset) = rw on (completes refl last reset)

    Outcome-run_from :
        (n i k : ℕ) (e : Event) (w : World) → IsAt q k w.ss → Outcome q k (run_from env q n i e w)
    unfolding run_from
    Outcome-run_from zero i k e w at = waits refl at
    Outcome-run_from (suc n) i k e w at =
        let w1 = (evaluate env q e i false w).1 in
        elim (step-cases env q ordered i e w) [
          | inl (off, same) ↦
              rw off (Outcome-run_from n (suc i) k e (step env q i e w).1 (IsAt-ss k _ _ same at))
          | inr (turn, eq) ↦ Outcome-Matched n (suc i) k e (step env q i e w) (
              subst (Matched q k e) (sym eq) (
                Matched-slot i k e w1 (IsAt-ss k _ _ (evaluate-ss env q e i false w) at)
                  (next-le env q i k w.ss at turn)))
        ]

    -- For an ordered sequence, and a state machine library that follows its configuration: in
    -- a state where the machine stands at slot `k`, with the slots before `k` and no others
    -- marked, one event either leaves it so, or takes it to slot `k + 1` with slot `k` marked
    -- too, and is then not a match; or it is a match, `k` is the last slot, and the machine
    -- is back at slot 0.
    pub run_sequence-Outcome :
        (k : ℕ) (e : Event) (w : World) → IsAt q k w.ss → Outcome q k (run_sequence env q e w)
    unfolding run_sequence
    run_sequence-Outcome k e w at = Outcome-run_from q.size 0 k e w at
