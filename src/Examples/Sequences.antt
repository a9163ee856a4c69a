-- ===== src/Examples/Sequences.antt =====
-- pkg/rules/sequence.go on a sequence of three expressions, of which the `i`-th wants the event `i`.
use fibratus.Prelude.{ℕ, suc, ◌≡◌, refl, true, false, none, some, ltb, ◌==◌, arith}
use fibratus.Event.{Event, Metadata}
use fibratus.Event.Types.{EventType}
use fibratus.Event.Values.{eq_text}
use fibratus.Sequence.{State, Trigger, SequenceState, World, Env, Sequence}
use fibratus.Sequence.Machine.{configure_fsm, new_sequence_state, match_transition, deadline_fires}
use fibratus.Sequence.Partials.{retract}
use fibratus.Sequence.Run.{run_sequence, all_of_run}
use fibratus.Sequence.Permits.{configured, FollowsPermits, destination, configured-destination}
use fibratus.Sequence.Slots.{IsAt, IsPast, match_transition-here}
use fibratus.Sequence.Resets.{IsCleared, deadline_fires-here, retract-IsCleared}
use fibratus.Sequence.Reachable.{Reachable, then_, an_event, Stands, Reachable-Stands}
use fibratus.Sequence.Progress.{Outcome, run_sequence-Outcome}

abbrev pub event : ℕ → ℕ → Event
event ref timestamp = record {
  ref = ref;
  type = EventType.open_process;
  pid = 4;
  tid = 8;
  timestamp = timestamp;
  param_pid = 12;
  param_tid = 16;
  param_ppid = 20;
  param_real_ppid = 20;
}

abbrev pub env : Env
env = record {
  fire = configured;
  is_evaluable = λ i e. true;
  run_sequence = λ e i partials raw meta. (e.ref == i, meta.links);
  partial_key = λ e. suc (e.ref);
  find_ps = λ pid. none;
  equal_fold = eq_text;
  map_order = λ keys. keys;
}

abbrev pub three : Sequence
three = record { size = 3; max_span = 60000000000; is_unordered = false; is_constrained = false }

abbrev no_meta : Metadata
no_meta = record { ooo = λ e. false; links = λ e. none; ps = λ e. none }

abbrev pub start : World
start = record { ss = new_sequence_state; meta = no_meta }

-- The first two expressions have matched.
abbrev at_last : SequenceState
at_last = record new_sequence_state {
  fsm = State.slot 2;
  states = λ n. ltb n 2;
  last_match = some 20;
}

abbrev at_last_world : World
at_last_world = record start { ss = at_last }

laws : FollowsPermits configured
laws = record { permitted = λ ps s t d h. h; refused = λ ps s t h. h }

at_last-IsAt : IsAt three 2 at_last
at_last-IsAt = record { here = refl; in_range = omega arith; matched = λ n. refl }

-- The three events, in their order, complete the sequence with the third.
test_in_order :
    let w1 = (run_sequence env three (event 0 10) start).1 in
    let w2 = (run_sequence env three (event 1 20) w1).1 in
    (run_sequence env three (event 2 30) w2).0 ≡ true
unfolding all_of_run
test_in_order = refl

-- The second event does not count before the first.
test_out_of_order :
    let w1 = (run_sequence env three (event 1 20) start).1 in w1.ss.fsm ≡ State.slot 0
unfolding all_of_run
test_out_of_order = refl

configured-destination_example :
    configured (configure_fsm 3) State.expired Trigger.reset
    ≡ destination 3 State.expired Trigger.reset
configured-destination_example = configured-destination 3 State.expired Trigger.reset

run_sequence-Outcome_example : Outcome three 2 (run_sequence env three (event 2 30) at_last_world)
run_sequence-Outcome_example =
    run_sequence-Outcome env three laws refl 2 (event 2 30) at_last_world at_last-IsAt

match_transition-here_example :
    (s : SequenceState) × (match_transition env three 2 at_last ≡ some s) × IsPast three 2 s
match_transition-here_example = match_transition-here env three laws 2 at_last at_last-IsAt

deadline_fires-here_example : IsCleared three (deadline_fires env three 2 at_last)
deadline_fires-here_example = deadline_fires-here env three laws 2 at_last refl (omega arith)

retract-IsCleared_example : IsCleared three (retract env three at_last)
retract-IsCleared_example = retract-IsCleared env three laws 2 at_last refl (omega arith)

-- The first event takes the sequence to its second slot.
first_step : (run_sequence env three (event 0 10) start).0 ≡ false
unfolding all_of_run
first_step = refl

Reachable-Stands_example : Stands env three (run_sequence env three (event 0 10) start).1.ss
Reachable-Stands_example =
    Reachable-Stands env three laws refl (omega arith)
      (then_ (Reachable.start no_meta) (an_event (event 0 10) start first_step))
