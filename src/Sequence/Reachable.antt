-- ===== src/Sequence/Reachable.antt =====
-- pkg/rules/sequence.go and the calls of it in engine.go: everything that can happen to an ordered
-- sequence, in any order, and what is true of its state all the while.
use mathlib.Core.Bool.{false≢true}
use fibratus.Prelude.{
  ==_iff, ℕ, zero, suc, ◌<◌, ◌-◌, ◌≡◌, refl, sym, ap, ◌∙◌, subst, Bool, true, false, not, List, [],
  ◌∷◌, inl, inr, if◌then◌else◌, update, length, get_elem?, ◌==◌, arith, Bool-cases,
}
use fibratus.Event.{Event, Metadata}
use fibratus.Sequence.{SequenceState, World, Env, Sequence}
use fibratus.Sequence.Machine.{new_sequence_state, deadline_fires, clear}
use fibratus.Sequence.Partials.{
  gc, expire, expire_slot, expire_slots, retract, remove_at, can_expire, passes, is_empty, slots,
  is_terminate_process,
}
use fibratus.Sequence.Run.{run_sequence, clear_locked, with_ss}
use fibratus.Sequence.Permits.{FollowsPermits}
use fibratus.Sequence.Slots.{IsAt}
use fibratus.Sequence.Resets.{deadline_fires-here, deadline_fires-elsewhere, retract-IsCleared}
use fibratus.Sequence.Progress.{Outcome, waits, advances, completes, run_sequence-Outcome}

-- One thing that happens: an event that is no match, an event that is one, after which the engine
-- clears the state, a timer of any slot, the end of a process, and a collection.
pub data Step (env : Env) (q : Sequence) : World → World → Type 0 where
  an_event :
      (e : Event) (w : World)
      → (run_sequence env q e w).0 ≡ false
      → Step env q w ((run_sequence env q e w).1)
  a_match :
      (e : Event) (w : World)
      → (run_sequence env q e w).0 ≡ true
      → Step env q w (clear_locked env q ((run_sequence env q e w).1))
  a_deadline : (n : ℕ) (w : World) → Step env q w (with_ss (deadline_fires env q n (w.ss)) w)
  an_end : (e : Event) (w : World) → Step env q w (with_ss ((expire env q e (w.ss)).1) w)
  a_collection : (now : ℕ) (w : World) → Step env q w (with_ss (gc env q now (w.ss)) w)

pub data Reachable (env : Env) (q : Sequence) : World → Type 0 where
  start : (meta : Metadata) → Reachable env q (record { ss = new_sequence_state; meta = meta })
  then_ : {v w : World} → Reachable env q v → Step env q v w → Reachable env q w

-- An expiry either leaves the machine alone, or retracts everything.
data Expired (env : Env) (q : Sequence) (s : SequenceState) (r : Bool × SequenceState)
    : Type 0 where
  lives : r.1.fsm ≡ s.fsm → r.1.states ≡ s.states → Expired env q s r
  retracted :
      r.0 ≡ true → (t : SequenceState) → t.fsm ≡ s.fsm → r.1 ≡ retract env q t → Expired env q s r

module _ (env : Env) (q : Sequence) where
  Expired-if :
      (s : SequenceState) (b : Bool) {r1 r2 : Bool × SequenceState}
      → Expired env q s r1
      → Expired env q s r2
      → Expired env q s (if b then r1 else r2)
  Expired-if s true h1 h2 = h1
  Expired-if s false h1 h2 = h2

  Expired-from :
      (s t : SequenceState) (r : Bool × SequenceState)
      → t.fsm ≡ s.fsm
      → t.states ≡ s.states
      → Expired env q t r
      → Expired env q s r
  Expired-from s t r f g (lives a b) = lives (a ∙ f) (b ∙ g)
  Expired-from s t r f g (retracted on u a b) = retracted on u (a ∙ f) b

  expire_slot-Expired :
      (e : Event) (idx i : ℕ) (s : SequenceState) → Expired env q s (expire_slot env q e idx i s)
  unfolding expire_slot
  expire_slot-Expired e idx zero s = lives refl refl
  expire_slot-Expired e idx (suc i) s =
      let s' : SequenceState = record s {
        partials = update (s.partials) idx (remove_at i (s.partials idx));
      } in
      Expired-if s (passes (λ p. can_expire p e (idx == q.size - 1)) (get_elem? (s.partials idx) i))
        (Expired-if s (is_empty (s'.partials idx)) (retracted refl s' refl refl)
          (Expired-from s s' _ refl refl (expire_slot-Expired e idx i s')))
        (expire_slot-Expired e idx i s)

  expire_slots-Expired :
      (e : Event) (order : List ℕ) (s : SequenceState)
      → Expired env q s (expire_slots env q e order s)
  unfolding expire_slots
  expire_slots-Expired e [] s = lives refl refl
  expire_slots-Expired e (idx ∷ order) s =
      later (expire_slot env q e idx (length (s.partials idx)) s)
        (expire_slot-Expired e idx (length (s.partials idx)) s) (expire_slots-Expired e order)
    where
      later :
          (r : Bool × SequenceState)
          → Expired env q s r
          → ((t : SequenceState) → Expired env q t (expire_slots env q e order t))
          → Expired env q s (if r.0 then (true, r.1) else expire_slots env q e order (r.1))
      later r (lives f g) rest =
          Expired-if s (r.0) (lives f g) (Expired-from s (r.1) _ f g (rest (r.1)))
      later r (retracted on t f back) rest =
          subst (λ b. Expired env q s (if b then (true, r.1) else expire_slots env q e order (r.1)))
            (sym on) (retracted refl t f back)

  expire-Expired : (e : Event) (s : SequenceState) → Expired env q s (expire env q e s)
  unfolding expire
  expire-Expired e s =
      Expired-if s (not (is_terminate_process (e.type))) (lives refl refl)
        (expire_slots-Expired e (env.map_order (slots (q.size))) s)

  -- The sequence stands at some slot.
  abbrev pub Stands : SequenceState → Type 0
  Stands s = (k : ℕ) × IsAt q k s

  Stands-same : (s t : SequenceState) → t.fsm ≡ s.fsm → t.states ≡ s.states → Stands s → Stands t
  Stands-same s t f g (k, at) = (
    k,
    record {
      here = f ∙ at.here;
      in_range = at.in_range;
      matched = λ n. ap (λ m. m n) g ∙ at.matched n;
    },
  )

  Stands-start : 0 < q.size → Stands new_sequence_state
  unfolding new_sequence_state
  Stands-start h = (0, record { here = refl; in_range = h; matched = λ n. ground arith })

  module _ (laws : FollowsPermits (env.fire)) where
    Stands-deadline : (n : ℕ) (s : SequenceState) → Stands s → Stands (deadline_fires env q n s)
    Stands-deadline n s (k, at) = elim (Bool-cases (n == k)) [
      | inl same ↦ (
        0,
        subst (λ i. IsAt q 0 (deadline_fires env q i s)) (sym ((==_iff n k).0 same))
            (deadline_fires-here env q laws k s (at.here) (at.in_range)).start,
      )
      | inr other ↦ (
        k,
        subst (IsAt q k) (sym (deadline_fires-elsewhere env q laws k n s (at.here) (ground arith)))
            at,
      )
    ]

    Stands-Expired :
        (s : SequenceState) (r : Bool × SequenceState) → Stands s → Expired env q s r → Stands (r.1)
    Stands-Expired s r at (lives f g) = Stands-same s (r.1) f g at
    Stands-Expired s r (k, at) (retracted on t f back) = (
      0,
      subst (IsAt q 0) (sym back)
          (retract-IsCleared env q laws k t (f ∙ at.here) (at.in_range)).start,
    )

    Stands-cleared :
        (k : ℕ) (r : Bool × World)
        → r.0 ≡ true
        → Outcome q k r
        → Stands ((clear_locked env q (r.1)).ss)
    unfolding clear_locked with_ss clear
    Stands-cleared k r on (waits off at) = absurd (false≢true (sym off ∙ on))
    Stands-cleared k r on (advances off at) = absurd (false≢true (sym off ∙ on))
    Stands-cleared k r on (completes _ last back) =
        (0, record { here = back; in_range = omega (arith, last); matched = λ n. ground arith })

    Stands-running : (k : ℕ) (r : Bool × World) → r.0 ≡ false → Outcome q k r → Stands (r.1.ss)
    Stands-running k r off (waits _ at) = (k, at)
    Stands-running k r off (advances _ at) = (suc k, at)
    Stands-running k r off (completes on last back) = absurd (false≢true (sym off ∙ on))

    module _ (ordered : q.is_unordered ≡ false) where
      Stands-Step : {v w : World} → Step env q v w → Stands (v.ss) → Stands (w.ss)
      unfolding with_ss gc
      Stands-Step (an_event e w off) (k, at) =
          Stands-running k (run_sequence env q e w) off
            (run_sequence-Outcome env q laws ordered k e w at)
      Stands-Step (a_match e w on) (k, at) =
          Stands-cleared k (run_sequence env q e w) on
            (run_sequence-Outcome env q laws ordered k e w at)
      Stands-Step (a_deadline n w) at = Stands-deadline n (w.ss) at
      Stands-Step (an_end e w) at =
          Stands-Expired (w.ss) (expire env q e (w.ss)) at (expire-Expired e (w.ss))
      Stands-Step (a_collection now w) at = Stands-same (w.ss) (gc env q now (w.ss)) refl refl at

      -- For an ordered sequence of at least one expression, and a library that follows its
      -- configuration: after any events, matches that the engine clears, timers of any slot
      -- (also forgotten ones), ends of processes and collections, in any order, from the
      -- new state with any metadata, the machine stands at some slot, and the slots before
      -- it, and no others, are marked as matched.
      pub Reachable-Stands : {w : World} → 0 < q.size → Reachable env q w → Stands (w.ss)
      Reachable-Stands h (start meta) = Stands-start h
      Reachable-Stands h (then_ r step) = Stands-Step step (Reachable-Stands h r)
