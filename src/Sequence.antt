-- ===== src/Sequence.antt =====
-- pkg/rules/sequence.go: the state of a sequence rule, and what it is given from outside.
--
-- A sequence is a list of expressions, one to a slot. Its state holds the events that matched each
-- slot (the partials), and a state machine whose state is the slot that has to match next.
pub mod Machine
pub mod Partials
pub mod Run
pub mod Permits
pub mod Slots
pub mod Resets
pub mod Progress
pub mod Reachable
use fibratus.Prelude.{ℕ, Bool, List, Option}
use fibratus.Event.{Event, Metadata}
use fibratus.Event.Values.{Text, Link}

-- `slot n` is the machine's state `n`; the machine starts in `slot 0`.
pub data State : Type 0 where
  slot : ℕ → State
  terminal deadline expired : State

pub data Trigger : Type 0 where
  match cancel reset expire : Trigger

pub record Permit : Type 0 where
  pub source : State
  pub trigger : Trigger
  pub destination : State

-- A timer that the runtime will fire: `at` is the state whose deadline it is.
pub record Timer : Type 0 where
  pub id : ℕ
  pub at : ℕ

-- `keys` are the keys that the map of partials has, and `timers` the runtime's timers that are
-- neither stopped nor fired; `span_deadlines` are those that the map of that name can still reach.
pub record SequenceState : Type 0 where
  pub partials : ℕ → List Event
  pub keys : List ℕ
  pub matches : ℕ → Option Event
  pub fsm : State
  pub span_deadlines : ℕ → Option ℕ
  pub timers : List Timer
  pub next_timer : ℕ
  pub in_deadline : Bool
  pub in_expired : Bool
  pub is_partials_breached : Bool
  pub states : ℕ → Bool
  pub last_match : Option ℕ

-- A sequence's state and the metadata of the events, which all sequences share.
pub record World : Type 0 where
  pub ss : SequenceState
  pub meta : Metadata

-- What the sequence takes from outside: `fire` is the state machine library's decision on a trigger,
-- `is_evaluable`, `run_sequence` and `partial_key` are the filter's and the event's methods
-- (`run_sequence` answers with the links of all events after the call), `find_ps` is the process
-- snapshotter's lookup, and `map_order` the order in which a map's keys are visited.
pub record Env : Type 0 where
  pub fire : List Permit → State → Trigger → Option State
  pub is_evaluable : ℕ → Event → Bool
  pub run_sequence :
      Event → ℕ → (ℕ → List Event) → Bool → Metadata → Bool × (ℕ → Option (List Link))
  pub partial_key : Event → ℕ
  pub find_ps : ℕ → Option ℕ
  pub equal_fold : Text → Text → Bool
  pub map_order : List ℕ → List ℕ

-- The rule's sequence: `size` expressions, and what its definition says of them. A `max_span` of 0
-- means that the rule names none.
pub record Sequence : Type 0 where
  pub size : ℕ
  pub max_span : ℕ
  pub is_unordered : Bool
  pub is_constrained : Bool
