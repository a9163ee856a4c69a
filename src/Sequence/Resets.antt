-- ===== src/Sequence/Resets.antt =====
-- pkg/rules/sequence.go: the ways back to the first slot. The terminal state is left as soon as it is
-- seen; the deadline of a slot and the end of a process clear all that the sequence had gathered.
use fibratus.Prelude.{ℕ, ◌<◌, ◌≡◌, refl, ap, ◌∙◌, ◌≢◌, true, false, [], none, some, ==_refl, arith}
use fibratus.Sequence.{
  State, slot, terminal, deadline, expired, Trigger, SequenceState, Env, Sequence,
}
use fibratus.Sequence.Machine.{
  on_transitioned, on_trigger, clear, is_initial, is_terminal, is_in_state, configure_fsm,
  fire_trigger, or_unchanged, is_terminal_state, set_in_deadline, set_in_expired, cancelled,
  expired_or, deadline_fires, is_state_schedulable,
}
use fibratus.Sequence.Partials.{retract}
use fibratus.Sequence.Permits.{
  FollowsPermits, configured, configured-terminal, configured-deadline, configured-expired,
}
use fibratus.Sequence.Slots.{IsAt, fire_trigger-slot, fire_trigger-meta, on_transitioned-fsm}

-- The state after everything gathered was dropped.
pub record IsCleared (q : Sequence) (s : SequenceState) : Type 0 where
  pub start : IsAt q 0 s
  pub no_partials : (n : ℕ) → s.partials n ≡ []
  pub no_matches : (n : ℕ) → s.matches n ≡ none
  pub no_last : s.last_match ≡ none

-- The same, but for the machine, which stands in a meta state yet.
record IsEmptied (s : SequenceState) : Type 0 where
  no_partials : (n : ℕ) → s.partials n ≡ []
  no_matches : (n : ℕ) → s.matches n ≡ none
  no_states : (n : ℕ) → s.states n ≡ false
  no_last : s.last_match ≡ none

IsEmptied-cancel :
    (q : Sequence) (f : State) (s : SequenceState)
    → IsEmptied (on_transitioned q f Trigger.cancel s)
unfolding on_transitioned on_trigger clear
IsEmptied-cancel q f s = record {
  no_partials = λ n. refl;
  no_matches = λ n. refl;
  no_states = λ n. refl;
  no_last = refl;
}

IsEmptied-expire :
    (q : Sequence) (f : State) (s : SequenceState)
    → IsEmptied (on_transitioned q f Trigger.expire s)
unfolding on_transitioned on_trigger clear
IsEmptied-expire q f s = record {
  no_partials = λ n. refl;
  no_matches = λ n. refl;
  no_states = λ n. refl;
  no_last = refl;
}

-- A reset from a meta state moves the machine to the first slot and changes nothing else.
reset_lem :
    (q : Sequence) (f : State) (s : SequenceState)
    → is_initial f ≡ false
    → on_transitioned q f Trigger.reset (record s { fsm = slot 0 }) ≡ record s { fsm = slot 0 }
unfolding on_transitioned on_trigger is_state_schedulable
reset_lem q f s h = ground arith

is_in_state-here : (k : ℕ) (f : State) → f ≡ slot k → is_in_state k f ≡ true
unfolding is_in_state
is_in_state-here k f h = rw h (==_refl k)

module _ (env : Env) (q : Sequence) (laws : FollowsPermits env.fire) where
  fire_trigger-reset :
      (f : State) (s : SequenceState)
      → s.fsm ≡ f
      → is_initial f ≡ false
      → configured (configure_fsm q.size) f Trigger.reset ≡ some (slot 0)
      → fire_trigger env q Trigger.reset s ≡ some (record s { fsm = slot 0 })
  fire_trigger-reset f s h hf hc =
      fire_trigger-meta env q laws f s h hc ∙ ap some (reset_lem q f s hf)

  -- For a library that follows its configuration, the check for the terminal state answers true
  -- in it, and takes the machine back to slot 0 with all else as it was.
  pub is_terminal_state-terminal :
      (s : SequenceState)
      → s.fsm ≡ terminal
      → is_terminal_state env q s ≡ (true, record s { fsm = slot 0 })
  unfolding is_terminal_state is_terminal or_unchanged is_initial
  is_terminal_state-terminal s h =
      ground
        (arith, fire_trigger-reset terminal s h refl (configured-terminal q.size Trigger.reset))

  pub is_terminal_state-slot :
      (k : ℕ) (s : SequenceState) → s.fsm ≡ slot k → is_terminal_state env q s ≡ (false, s)
  unfolding is_terminal_state is_terminal
  is_terminal_state-slot k s h = rw (h, is_terminal)

  IsCleared-reset :
      (f : State) (s : SequenceState)
      → 0 < q.size
      → IsEmptied s
      → s.fsm ≡ f
      → is_initial f ≡ false
      → configured (configure_fsm q.size) f Trigger.reset ≡ some (slot 0)
      → IsCleared q (or_unchanged (fire_trigger env q Trigger.reset s) s)
  unfolding or_unchanged
  IsCleared-reset f s hq e h hf hc = rw (fire_trigger-reset f s h hf hc) (record {
    start = record { here = refl; in_range = hq; matched = λ n. ground (arith, e.no_states n) };
    no_partials = e.no_partials;
    no_matches = e.no_matches;
    no_last = e.no_last;
  })

  -- For a library that follows its configuration, the deadline of the slot where the machine
  -- stands takes it back to slot 0, with no slot marked, no partials, no matches and no last
  -- match.
  pub deadline_fires-here :
      (k : ℕ) (s : SequenceState)
      → s.fsm ≡ slot k
      → k < q.size
      → IsCleared q (deadline_fires env q k s)
  unfolding deadline_fires cancelled set_in_deadline is_initial
  deadline_fires-here k s h hk =
      let s1 : SequenceState = record s { in_deadline = true } in
      let s2 : SequenceState = record s1 { fsm = deadline } in
      rw
        (
          is_in_state-here k s.fsm h,
          fire_trigger-slot env q laws k Trigger.cancel deadline s1 h hk refl,
        )
        (IsCleared-reset deadline (on_transitioned q (slot k) Trigger.cancel s2) (omega arith)
          (IsEmptied-cancel q (slot k) s2) (on_transitioned-fsm q (slot k) Trigger.cancel s2) refl
          (configured-deadline q.size Trigger.reset))

  -- The deadline of a slot other than the one where the machine stands changes nothing.
  pub deadline_fires-elsewhere :
      (k n : ℕ) (s : SequenceState) → s.fsm ≡ slot k → n ≢ k → deadline_fires env q n s ≡ s
  unfolding deadline_fires is_in_state
  deadline_fires-elsewhere k n s h ne = ground arith

  -- For a library that follows its configuration, when a slot's last partial is retracted while
  -- the machine stands at a slot, it is taken back to slot 0, with no slot marked, no partials,
  -- no matches and no last match.
  pub retract-IsCleared :
      (k : ℕ) (s : SequenceState) → s.fsm ≡ slot k → k < q.size → IsCleared q (retract env q s)
  unfolding retract expired_or set_in_expired is_initial
  retract-IsCleared k s h hk =
      let s1 : SequenceState = record s { in_expired = true } in
      let s2 : SequenceState = record s1 { fsm = expired } in
      rw (fire_trigger-slot env q laws k Trigger.expire expired s1 h hk refl) (
        IsCleared-reset expired (on_transitioned q (slot k) Trigger.expire s2) (omega arith)
          (IsEmptied-expire q (slot k) s2) (on_transitioned-fsm q (slot k) Trigger.expire s2) refl
          (configured-expired q.size Trigger.reset))
