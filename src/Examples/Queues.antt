-- ===== src/Examples/Queues.antt =====
-- pkg/event/queue.go, stackwalk.go: a queue with callstacks and one listener that wants every event.
use fibratus.Prelude.{
  ℕ, ◌≡◌, refl, true, false, List, [], ◌∷◌, ◌++◌, none, some, ◌==◌, if◌then◌else◌,
}
use mathlib.Core.Option.{none-ne-some}
use fibratus.Event.{Event}
use fibratus.Event.Types.{EventType}
use fibratus.Queue.Decorator.{
  State, stack_id, is_create_process, is_terminate_thread, is_create_remote_thread,
}
use fibratus.Queue.Push.{
  Listener, Config, Outcome, push_event, pop, flush, stale, contents, all_of_push,
}
use fibratus.Queue.Fifo.{of_stack, hold_all, Taken, pop-hold_all}
use fibratus.Queue.Blocking.{Live, push_event-Live}
use fibratus.Queue.Popping.{Decorated, pop-Decorated}
use fibratus.Queue.Flush.{Returned, Safe, flush-Returned}
use fibratus.Queue.Deadlock.{flush-blocked}

abbrev event : ℕ → EventType → Event
event ref type = record {
  ref = ref;
  type = type;
  pid = 4;
  tid = 8;
  timestamp = 100;
  param_pid = 12;
  param_tid = 16;
  param_ppid = 20;
  param_real_ppid = 20;
}

abbrev load : Event
load = event 0 EventType.load_image

abbrev ended : Event
ended = event 1 EventType.terminate_thread

abbrev walk : Event
walk = event 2 EventType.stack_walk

-- The listener counts the events.
abbrev wants_all : Listener ℕ
wants_all = record { process = λ n e stack. (n, some true); can_enqueue = true }

abbrev config : Config ℕ
config = record { stack_enrichment = true; enqueue_always = false; listeners = wants_all ∷ [] }

abbrev start : State ℕ
start = record {
  buckets = λ id. none;
  procs = λ pid. none;
  stacks = λ ref. if ref == 2 then some (7 ∷ 9 ∷ []) else none;
  sent = [];
  outer = 0;
}

-- The thread 12 holds two events.
abbrev waiting : State ℕ
waiting = record start { buckets = λ id. if id == 12 then some (load ∷ ended ∷ []) else none }

abbrev waiting_load : State ℕ
waiting_load = record start { buckets = λ id. if id == 12 then some (load ∷ []) else none }

abbrev sent_of : Outcome ℕ → List Event
sent_of Outcome.blocked = []
sent_of (Outcome.returned s ok) = s.sent

-- The stack walk sends the event that waits.
test_walk : sent_of (push_event config waiting walk) ≡ load ∷ []
unfolding all_of_push
test_walk = refl

push_event-Live_example : Live (push_event config waiting walk)
push_event-Live_example = push_event-Live config waiting walk (λ pid e h. absurd (none-ne-some e h))

pop-Decorated_example : Decorated (some (7 ∷ 9 ∷ [])) load (pop config waiting walk)
unfolding stack_id is_create_process
pop-Decorated_example =
    pop-Decorated config waiting walk load (ended ∷ []) (λ pid e h. absurd (none-ne-some e h)) refl

-- The thread 12 holds its events, one more comes, and the stack walk takes the oldest.
pop-hold_all_example :
    Taken
      (some (7 ∷ 9 ∷ []))
      load
      (λ id.
        if stack_id walk == id
        then ended ∷ load ∷ []
        else contents (waiting.buckets id) ++ of_stack id (load ∷ []))
      (pop config (hold_all waiting (load ∷ [])) walk)
unfolding contents of_stack stack_id is_create_process is_create_remote_thread
pop-hold_all_example =
    pop-hold_all config waiting (load ∷ []) walk load (ended ∷ load ∷ []) refl refl

waiting_load-Safe : (id : ℕ) → Safe 20000000000 (contents (waiting_load.buckets id))
unfolding contents is_terminate_thread
waiting_load-Safe id =
    elim (id == 12) as (λ b. Safe 20000000000 (contents (if b then some (load ∷ []) else none))) [
      | true ↦ ((λ h. refl), tt)
      | false ↦ tt
    ]

flush-Returned_example :
    Returned 20000000000 (12 ∷ []) waiting_load (flush config 20000000000 (12 ∷ []) waiting_load)
flush-Returned_example = flush-Returned config 20000000000 (12 ∷ []) waiting_load waiting_load-Safe

-- The end of the thread has waited for twenty seconds.
flush-blocked_example : flush config 20000000000 (12 ∷ []) waiting ≡ none
unfolding stale contents is_terminate_thread
flush-blocked_example =
    flush-blocked config 20000000000 12 [] waiting ((λ w e c. (true, refl)), tt) refl refl
