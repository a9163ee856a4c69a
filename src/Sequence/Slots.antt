-- ===== src/Sequence/Slots.antt =====
-- pkg/rules/sequence.go: which slots have matched when the machine stands at slot `k`, and that every
-- transition of the machine keeps it so.
use mathlib.Core.Path.{ap₂}
use native.Mathlib.Decide.{dec_lt}
use fibratus.Prelude.{◌∙◌, ℕ, suc, ◌<◌, ◌≡◌, refl, ap, true, false, some, ltb, update, arith}
use fibratus.Sequence.{State, slot, terminal, Trigger, SequenceState, Env, Sequence}
use fibratus.Sequence.Machine.{
  configure_fsm, on_trigger, on_match, stop_deadline, schedule_max_span_deadline,
  is_state_schedulable, fire_trigger, move_to, on_transitioned, match_transition, clear,
}
use fibratus.Sequence.Permits.{
  FollowsPermits, slot_destination, after_match, configured, configured-configure_fsm,
}

-- The machine stands at slot `k`, and the slots before it are those that have matched.
pub record IsAt (q : Sequence) (k : ℕ) (s : SequenceState) : Type 0 where
  pub here : s.fsm ≡ slot k
  pub in_range : k < q.size
  pub matched : (n : ℕ) → s.states n ≡ ltb n k

pub on_transitioned-fsm :
    (q : Sequence) (source : State) (t : Trigger) (s : SequenceState)
    → (on_transitioned q source t s).fsm ≡ s.fsm
unfolding on_transitioned on_trigger on_match stop_deadline clear schedule_max_span_deadline
    is_state_schedulable
on_transitioned-fsm q source t s = ground arith

-- A match marks its source.
pub on_transitioned-states_match :
    (q : Sequence) (k : ℕ) (s : SequenceState) (n : ℕ)
    → (on_transitioned q (slot k) Trigger.match s).states n ≡ update s.states k true n
unfolding on_transitioned on_trigger on_match stop_deadline schedule_max_span_deadline
    is_state_schedulable
on_transitioned-states_match q k s n = ground arith

pub on_transitioned-states_reset :
    (q : Sequence) (source : State) (s : SequenceState) (n : ℕ)
    → (on_transitioned q source Trigger.reset s).states n ≡ s.states n
unfolding on_transitioned on_trigger schedule_max_span_deadline is_state_schedulable
on_transitioned-states_reset q source s n = ground arith

pub on_transitioned-states_cancel :
    (q : Sequence) (source : State) (s : SequenceState) (n : ℕ)
    → (on_transitioned q source Trigger.cancel s).states n ≡ false
unfolding on_transitioned on_trigger clear
on_transitioned-states_cancel q source s n = refl

pub on_transitioned-states_expire :
    (q : Sequence) (source : State) (s : SequenceState) (n : ℕ)
    → (on_transitioned q source Trigger.expire s).states n ≡ false
unfolding on_transitioned on_trigger clear
on_transitioned-states_expire q source s n = refl

-- Where the machine stands after slot `k` has matched.
pub data IsPast (q : Sequence) (k : ℕ) (s : SequenceState) : Type 0 where
  further : IsAt q (suc k) s → IsPast q k s
  done : suc k ≡ q.size → s.fsm ≡ terminal → IsPast q k s

after_match-lt : (size k : ℕ) → suc k < size → after_match size k ≡ slot (suc k)
after_match-lt size k h = ground arith

after_match-last : (size k : ℕ) → suc k ≡ size → after_match size k ≡ terminal
after_match-last size k h = ground arith

module _ {q : Sequence} where
  states-here : (k : ℕ) (s : SequenceState) → IsAt q k s → s.states k ≡ false
  states-here k s at = ground (arith, at.matched k)

  states-before : (i k : ℕ) (s : SequenceState) → IsAt q k s → i < k → s.states i ≡ true
  states-before i k s at h = ground (arith, at.matched i)

  IsPast-match :
      (k : ℕ) (s : SequenceState)
      → IsAt q k s
      → IsPast q k
          (on_transitioned q (slot k) Trigger.match (record s { fsm = after_match q.size k }))
  IsPast-match k s at =
      let t : SequenceState = record s { fsm = after_match q.size k } in
      let moved = on_transitioned-fsm q (slot k) Trigger.match t in
      let marked = on_transitioned-states_match q k t in
      elim (dec_lt (suc k) q.size) [
        | yes h ↦ further (record {
          here = moved ∙ after_match-lt q.size k h;
          in_range = h;
          matched = λ n. marked n ∙ ground (arith, at.matched n);
        })
        | no h ↦
            let last : suc k ≡ q.size = omega (arith, at.in_range) in
            done last (moved ∙ after_match-last q.size k last)
      ]

module _ (env : Env) (q : Sequence) (laws : FollowsPermits env.fire) where
  pub fire_trigger-slot :
      (k : ℕ) (t : Trigger) (d : State) (s : SequenceState)
      → s.fsm ≡ slot k
      → k < q.size
      → slot_destination q.size k t ≡ some d
      → fire_trigger env q t s ≡ some (on_transitioned q (slot k) t (record s { fsm = d }))
  unfolding fire_trigger move_to
  fire_trigger-slot k t d s h hk hd =
      ap₂ (λ f o. move_to env q f t o s) h
        (ap (λ f. env.fire (configure_fsm q.size) f t) h
          ∙ laws.permitted (configure_fsm q.size) (slot k) t d
              (configured-configure_fsm q.size k t hk ∙ hd))

  pub fire_trigger-meta :
      (f : State) (s : SequenceState)
      → s.fsm ≡ f
      → configured (configure_fsm q.size) f Trigger.reset ≡ some (slot 0)
      → fire_trigger env q Trigger.reset s
        ≡ some (on_transitioned q f Trigger.reset (record s { fsm = slot 0 }))
  unfolding fire_trigger move_to
  fire_trigger-meta f s h c =
      ap₂ (λ f' o. move_to env q f' Trigger.reset o s) h
        (ap (λ f'. env.fire (configure_fsm q.size) f' Trigger.reset) h
          ∙ laws.permitted (configure_fsm q.size) f Trigger.reset (slot 0) c)

  -- For a library that follows its configuration, a match in the slot where the machine stands,
  -- with the slots before it and no others marked, succeeds: the machine goes to the next slot
  -- with this slot marked too, or, from the last slot, to the terminal state.
  pub match_transition-here :
      (k : ℕ) (s : SequenceState)
      → IsAt q k s
      → (s' : SequenceState) × (match_transition env q k s ≡ some s') × IsPast q k s'
  unfolding match_transition
  match_transition-here k s at = (
    on_transitioned q (slot k) Trigger.match (record s { fsm = after_match q.size k }),
    rw (states-here k s at)
        (fire_trigger-slot k Trigger.match (after_match q.size k) s at.here at.in_range refl),
    IsPast-match k s at,
  )

  -- In a state where the machine stands at slot `k`, with the slots before it and no others
  -- marked, a match in a slot before `k` succeeds and changes nothing.
  pub match_transition-before :
      (i k : ℕ) (s : SequenceState) → IsAt q k s → i < k → match_transition env q i s ≡ some s
  unfolding match_transition
  match_transition-before i k s at h = rw (states-before i k s at h)
