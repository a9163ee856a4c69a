-- ===== src/Sequence/Machine.antt =====
-- pkg/rules/sequence.go: the state machine. `configure_fsm` lists the transitions, `on_transitioned`
-- is the callback that `initFSM` installs, and `fire_trigger` is a call of the library: it asks for the
-- destination, moves there and runs the callback.
use fibratus.Prelude.{
  ℕ, zero, suc, ◌+◌, ◌-◌, Bool, true, false, not, ◌&&◌, List, [], ◌∷◌, ◌++◌, Option, none, some,
  leb, ◌==◌, if◌then◌else◌, update,
}
use fibratus.Sequence.{
  State, slot, terminal, deadline, expired, Trigger, Permit, Timer, SequenceState, Env, Sequence,
}

abbrev pub max_outstanding_partials : ℕ
max_outstanding_partials = 1000

-- Four hours, in nanoseconds.
abbrev pub max_sequence_partial_lifetime : ℕ
max_sequence_partial_lifetime = 14400000000000

abbrev pub sequence_initial_state : State
sequence_initial_state = slot 0

unfoldable pub new_sequence_state : SequenceState
new_sequence_state = record {
  partials = λ n. [];
  keys = [];
  matches = λ n. none;
  fsm = sequence_initial_state;
  span_deadlines = λ n. none;
  timers = [];
  next_timer = 0;
  in_deadline = false;
  in_expired = false;
  is_partials_breached = false;
  states = λ n. false;
  last_match = none;
}

unfoldable pub is_initial : State → Bool
is_initial (slot n) = n == 0
is_initial _ = false

unfoldable pub is_terminal : State → Bool
is_terminal terminal = true
is_terminal _ = false

unfoldable pub is_in_state : ℕ → State → Bool
is_in_state n (slot m) = n == m
is_in_state n _ = false

-- Every state but the initial one and the three meta states.
unfoldable pub is_state_schedulable : State → Bool
is_state_schedulable (slot n) = not (n == 0)
is_state_schedulable _ = false

-- The three transitions of slot `i`; the last slot's match leads to the terminal state.
unfoldable pub configure_slot : ℕ → ℕ → List Permit
configure_slot size i =
    record {
      source = slot i;
      trigger = Trigger.match;
      destination = if leb (size - 1) i then terminal else slot (i + 1);
    }
    ∷ record { source = slot i; trigger = Trigger.cancel; destination = deadline }
    ∷ record { source = slot i; trigger = Trigger.expire; destination = expired }
    ∷ []

-- `n` slots are left, from slot `i` on.
unfoldable pub configure_slots : ℕ → ℕ → ℕ → List Permit
configure_slots size zero i = []
configure_slots size (suc n) i = configure_slot size i ++ configure_slots size n (suc i)

unfoldable pub configure_resets : List Permit
configure_resets =
    record { source = terminal; trigger = Trigger.reset; destination = sequence_initial_state }
    ∷ record { source = deadline; trigger = Trigger.reset; destination = sequence_initial_state }
    ∷ record { source = expired; trigger = Trigger.reset; destination = sequence_initial_state }
    ∷ []

unfoldable pub configure_fsm : ℕ → List Permit
configure_fsm size = configure_slots size size 0 ++ configure_resets

unfoldable pub clear : SequenceState → SequenceState
clear s = record s {
  partials = λ n. [];
  keys = [];
  matches = λ n. none;
  states = λ n. false;
  span_deadlines = λ n. none;
  is_partials_breached = false;
  last_match = none;
}

-- `time.AfterFunc`: a new timer runs, and the map knows it by its state.
unfoldable pub schedule_max_span_deadline : State → SequenceState → SequenceState
schedule_max_span_deadline (slot n) s = record s {
  timers = record { id = s.next_timer; at = n } ∷ s.timers;
  span_deadlines = update s.span_deadlines n (some s.next_timer);
  next_timer = s.next_timer + 1;
}
schedule_max_span_deadline _ s = s

unfoldable pub stop : ℕ → List Timer → List Timer
stop i [] = []
stop i (t ∷ ts) = let rest = stop i ts in if t.id == i then rest else t ∷ rest

-- Stops the timer that the map knows for slot `n`, and forgets it.
unfoldable pub stop_deadline : ℕ → Option ℕ → SequenceState → SequenceState
stop_deadline n none s = s
stop_deadline n (some i) s = record s {
  timers = stop i s.timers;
  span_deadlines = update s.span_deadlines n none;
}

-- Only a slot has a match transition, so only a slot is ever the source here.
unfoldable pub on_match : State → SequenceState → SequenceState
on_match (slot n) s =
    let s' = stop_deadline n (s.span_deadlines n) s in
    record s' { states = update s'.states n true }
on_match _ s = s

unfoldable pub on_trigger : State → Trigger → SequenceState → SequenceState
on_trigger source Trigger.match s = on_match source s
on_trigger source Trigger.cancel s = clear s
on_trigger source Trigger.expire s = clear s
on_trigger source Trigger.reset s = s

-- The first three `if`s of the callback; the machine is in the destination already.
unfoldable pub on_transitioned : Sequence → State → Trigger → SequenceState → SequenceState
on_transitioned q source trigger s =
    let s1 =
      if not (q.max_span == 0) && is_state_schedulable s.fsm
      then schedule_max_span_deadline s.fsm s
      else s in
    let s2 = record s1 {
      in_deadline = if is_initial source && s1.in_deadline then false else s1.in_deadline;
      in_expired = if is_initial source && s1.in_expired then false else s1.in_expired;
    } in
    on_trigger source trigger s2

-- Where the caller logs an error and goes on.
unfoldable pub or_unchanged : Option SequenceState → SequenceState → SequenceState
or_unchanged none s = s
or_unchanged (some t) s = t

unfoldable pub set_in_deadline : Bool → SequenceState → SequenceState
set_in_deadline b s = record s { in_deadline = b }

unfoldable pub set_in_expired : Bool → SequenceState → SequenceState
set_in_expired b s = record s { in_expired = b }

-- `some` is the state after the transition, `none` its failure, after which the flag is taken back.
unfoldable pub cancelled : Option SequenceState → SequenceState → SequenceState
cancelled none s = set_in_deadline false s
cancelled (some t) s = t

unfoldable pub expired_or : Option SequenceState → SequenceState → SequenceState
expired_or none s = set_in_expired false s
expired_or (some t) s = t

module _ (env : Env) (q : Sequence) where
  -- The machine after the library has decided: `none` is its error, which changes nothing.
  unfoldable pub move_to : State → Trigger → Option State → SequenceState → Option SequenceState
  move_to source trigger none s = none
  move_to source trigger (some d) s = some (on_transitioned q source trigger (record s { fsm = d }))

  unfoldable pub fire_trigger : Trigger → SequenceState → Option SequenceState
  fire_trigger t s = move_to s.fsm t (env.fire (configure_fsm q.size) s.fsm t) s

  unfoldable pub match_transition : ℕ → SequenceState → Option SequenceState
  match_transition i s = if not (s.states i) then fire_trigger Trigger.match s else some s

  -- Whether the terminal state was reached, and the machine after its reset.
  unfoldable pub is_terminal_state : SequenceState → Bool × SequenceState
  is_terminal_state s =
      if is_terminal s.fsm
      then (true, or_unchanged (fire_trigger Trigger.reset s) s)
      else (false, s)

  -- The function that the timer of slot `n` runs.
  unfoldable pub deadline_fires : ℕ → SequenceState → SequenceState
  deadline_fires n s =
      if is_in_state n s.fsm
      then (let s1 = set_in_deadline true s in
          let s2 = cancelled (fire_trigger Trigger.cancel s1) s1 in
          or_unchanged (fire_trigger Trigger.reset s2) s2)
      else s
