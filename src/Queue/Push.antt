-- ===== src/Queue/Push.antt =====
-- pkg/event/queue.go: `Queue.push`, and what rests on it: `StackwalkDecorator.Pop`, `Queue.Push` and
-- `flush`.
use fibratus.Prelude.{
  ℕ, ◌-◌, Bool, true, false, not, ◌&&◌, ◌||◌, List, [], ◌∷◌, ◌++◌, Option, none, some, ltb,
  if◌then◌else◌,
}
use fibratus.Event.{Event}
use fibratus.Event.Types.Traits.{can_enrich_stack}
use fibratus.Queue.Decorator.{
  State, is_terminate_thread, is_stack_walk, stack_id, is_create_remote_thread,
  is_surrogate_process, thread_id, without_process, set_bucket, set_proc, set_stack, hold,
  remove_bucket,
}

-- What a listener does with an event and its callstack; no answer is an error.
pub record Listener (S : Type 0) : Type 0 where
  pub process : S → Event → Option (List ℕ) → S × Option Bool
  pub can_enqueue : Bool

pub record Config (S : Type 0) : Type 0 where
  pub stack_enrichment : Bool
  pub enqueue_always : Bool
  pub listeners : List (Listener S)

-- A call that waits for a mutex which its own goroutine holds never returns. The flag of `returned`
-- is false for an error.
pub data Outcome (S : Type 0) : Type 0 where
  blocked : Outcome S
  returned : State S → Bool → Outcome S

pub data Popped (S : Type 0) : Type 0 where
  blocked : Popped S
  popped : State S → Event → Popped S

-- `maxQueueTTLPeriod`, in nanoseconds.
abbrev pub max_queue_ttl_period : ℕ
max_queue_ttl_period = 10000000000

unfoldable pub is_none {ℓ} : {A : Type ℓ} → List A → Bool
is_none [] = true
is_none (x ∷ xs) = false

unfoldable pub contents : Option (List Event) → List Event
contents none = []
contents (some q) = q

-- What follows a call, when it returns.
unfoldable pub and_then {ℓ} :
    {S : Type 0} {A : Type ℓ} → Outcome S → (State S → Option A) → Option A
and_then Outcome.blocked f = none
and_then (Outcome.returned s ok) f = f s

unfoldable pub stale : ℕ → Event → Bool
stale now e = not (ltb (now - e.timestamp) max_queue_ttl_period)

module _ {S : Type 0} where
  unfoldable pub set_outer : State S → S → State S
  set_outer s w = record s { outer = w }

  -- The loop over the listeners: the state, and whether one of them wants the event on the channel.
  unfoldable pub notify : List (Listener S) → Bool → State S → Event → State S × Option Bool
  unfolding set_outer
  notify [] enqueue s e = (s, some enqueue)
  notify (l ∷ ls) enqueue s e =
      let r = l.process (s.outer) e (s.stacks (e.ref)) in
      let next = set_outer s (r.0) in
      elim r.1 [
        | none ↦ (next, none)
        | some enq ↦ notify ls (if l.can_enqueue && enq then true else enqueue) next e
      ]

  -- What `flush` does with the rest of a bucket.
  unfoldable pub put_back : State S → ℕ → List Event → State S
  unfolding set_bucket
  put_back s id [] = set_bucket s id none
  put_back s id (e ∷ q) = set_bucket s id (some (e ∷ q))

  module _ (cf : Config S) where
    open cf use {stack_enrichment, enqueue_always, listeners}

    unfoldable pub send : Bool → State S → Event → State S
    unfolding is_none
    send enqueue s e =
        if enqueue || is_none listeners then record s { sent = s.sent ++ e ∷ [] } else s

    -- `Queue.push`, with the mutex of the decorator held or not.
    unfoldable pub push_after : Bool → State S × Option Bool → Event → Outcome S
    unfolding send remove_bucket is_terminate_thread thread_id
    push_after locked (s, none) e = Outcome.returned s false
    push_after locked (s, some enqueue) e =
        if stack_enrichment && is_terminate_thread (e.type)
        then (if locked
            then Outcome.blocked
            else Outcome.returned (send enqueue (remove_bucket s (thread_id e)) e) true)
        else Outcome.returned (send enqueue s e) true

    unfoldable pub push : Bool → State S → Event → Outcome S
    unfolding push_after notify
    push locked s e = push_after locked (notify listeners enqueue_always s e) e

    -- The end of `Pop` for a thread that a surrogate process starts: the process `ev` that waits in
    -- the cache takes the callstack and is pushed, under the mutex, and leaves its bucket.
    unfoldable pub release_after : ℕ → Event → Event → Outcome S → Popped S
    unfolding set_proc set_bucket stack_id without_process contents
    release_after pid ev evt Outcome.blocked = Popped.blocked
    release_after pid ev evt (Outcome.returned s ok) =
        let s1 = set_proc s pid none in
        Popped.popped
          (set_bucket s1 (stack_id ev)
            (some (without_process pid (contents (s1.buckets (stack_id ev))))))
          evt

    unfoldable pub release : State S → ℕ → Event → Option (List ℕ) → Event → Popped S
    unfolding push set_stack release_after
    release s pid ev stack evt = release_after pid ev evt (push true (set_stack s ev stack) ev)

    -- `Pop` once the bucket gave its oldest event `evt`.
    unfoldable pub decorate : State S → Option (List ℕ) → Event → Popped S
    unfolding release set_stack set_proc is_surrogate_process is_create_remote_thread
    decorate s stack evt =
        let s1 = if is_surrogate_process evt then set_proc s (evt.param_pid) none else s in
        let s2 = set_stack s1 evt stack in
        if is_create_remote_thread evt
        then elim (s2.procs (evt.param_pid)) [
          | none ↦ Popped.popped s2 evt
          | some ev ↦ release s2 (evt.param_pid) ev stack evt
        ]
        else Popped.popped s2 evt

    unfoldable pub pop_from : State S → Event → Option (List Event) → Popped S
    unfolding decorate set_bucket stack_id
    pop_from s e none = Popped.popped s e
    pop_from s e (some []) = Popped.popped s e
    pop_from s e (some (evt ∷ rest)) =
        decorate (set_bucket s (stack_id e) (some rest)) (s.stacks (e.ref)) evt

    -- `StackwalkDecorator.Pop`
    unfoldable pub pop : State S → Event → Popped S
    unfolding pop_from stack_id
    pop s e = pop_from s e (s.buckets (stack_id e))

    unfoldable pub forward : State S → Event → Outcome S
    unfolding push is_stack_walk
    forward s e = if is_stack_walk (e.type) then Outcome.returned s true else push false s e

    unfoldable pub forward_popped : Popped S → Outcome S
    unfolding forward
    forward_popped Popped.blocked = Outcome.blocked
    forward_popped (Popped.popped s e) = forward s e

    -- `Queue.Push`
    unfoldable pub push_event : State S → Event → Outcome S
    unfolding forward forward_popped pop hold is_stack_walk can_enrich_stack
    push_event s e =
        if stack_enrichment
        then (if can_enrich_stack (e.type)
            then Outcome.returned (hold s e) true
            else if is_stack_walk (e.type)
            then forward_popped (pop s e)
            else forward s e)
        else forward s e

    -- The inner loop of `flush`: what stays in the bucket. The time does not pass during a flush.
    unfoldable pub flush_bucket :
        ℕ → List Event → List Event → State S → Option (List Event × State S)
    unfolding push stale and_then
    flush_bucket now [] kept s = some (kept, s)
    flush_bucket now (e ∷ q) kept s = elim (stale now e) [
      | true ↦ and_then (push true s e) (λ s1. flush_bucket now q kept s1)
      | false ↦ flush_bucket now q (kept ++ e ∷ []) s
    ]

    unfoldable pub flush_one : ℕ → ℕ → State S → Option (List Event) → Option (State S)
    unfolding flush_bucket put_back
    flush_one now id s none = some s
    flush_one now id s (some q) = elim (flush_bucket now q [] s) [
      | none ↦ none
      | some (kept, s1) ↦ some (put_back s1 id kept)
    ]

    -- `flush`, over the keys of the map in the order of the range. It never returns on `none`.
    unfoldable pub flush : ℕ → List ℕ → State S → Option (State S)
    unfolding flush_one
    flush now [] s = some s
    flush now (id ∷ ids) s = elim (flush_one now id s (s.buckets id)) [
      | none ↦ none
      | some s1 ↦ flush now ids s1
    ]

-- Every function that an event goes through, for the tests by evaluation.
unfoldable pub all_of_push : Unit {0}
unfolding is_terminate_thread is_stack_walk stack_id is_create_remote_thread is_surrogate_process
    thread_id without_process set_bucket set_proc set_stack hold remove_bucket is_none contents
    and_then stale set_outer notify put_back send push_after push release_after release decorate
    pop_from pop forward forward_popped push_event flush_bucket flush_one flush can_enrich_stack
all_of_push = tt
