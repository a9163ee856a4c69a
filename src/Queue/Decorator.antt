-- ===== src/Queue/Decorator.antt =====
-- pkg/event/stackwalk.go: the state of the queue and its decorator, and the operations that need no
-- listener.
--
-- The mutex is not a field: an operation knows whether its caller holds it. `sent` is the channel,
-- without its capacity, `stacks` the callstack parameter of an event by its pointer, and `outer` what
-- the listeners keep.
use fibratus.Prelude.{
  ℕ, ◌+◌, ◌%◌, Bool, true, false, not, ◌&&◌, List, [], ◌∷◌, ◌++◌, Option, none, some, ◌==◌,
  if◌then◌else◌, update,
}
use fibratus.Prelude.Int.{u32_mod}
use fibratus.Event.{Event}
use fibratus.Event.Types.{EventType}

pub record State (S : Type 0) : Type 0 where
  pub buckets : ℕ → Option (List Event)
  pub procs : ℕ → Option Event
  pub stacks : ℕ → Option (List ℕ)
  pub sent : List Event
  pub outer : S

unfoldable pub is_create_process : EventType → Bool
is_create_process EventType.create_process = true
is_create_process _ = false

unfoldable pub is_create_thread : EventType → Bool
is_create_thread EventType.create_thread = true
is_create_thread _ = false

unfoldable pub is_terminate_thread : EventType → Bool
is_terminate_thread EventType.terminate_thread = true
is_terminate_thread _ = false

unfoldable pub is_stack_walk : EventType → Bool
is_stack_walk EventType.stack_walk = true
is_stack_walk _ = false

-- The sums are of 32 bits.
unfoldable pub stack_id : Event → ℕ
unfolding is_create_process
stack_id e =
    if is_create_process (e.type)
    then (e.param_ppid + e.tid) % u32_mod
    else (e.pid + e.tid) % u32_mod

unfoldable pub is_create_remote_thread : Event → Bool
unfolding is_create_thread
is_create_remote_thread e = is_create_thread (e.type) && not (e.pid == e.param_pid)

unfoldable pub is_surrogate_process : Event → Bool
unfolding is_create_process
is_surrogate_process e = is_create_process (e.type) && not (e.param_ppid == e.param_real_ppid)

-- The bucket of a thread that ends.
unfoldable pub thread_id : Event → ℕ
thread_id e = (e.param_pid + e.param_tid) % u32_mod

-- `append` to the bucket that may be missing.
unfoldable pub appended : Option (List Event) → Event → List Event
appended none e = e ∷ []
appended (some q) e = q ++ e ∷ []

-- The loop of `Pop` over the bucket, from its end: what stays are events of another process that do
-- not create one.
unfoldable pub without_process : ℕ → List Event → List Event
unfolding is_create_process
without_process pid [] = []
without_process pid (e ∷ q) =
    let rest = without_process pid q in
    if not (is_create_process (e.type)) && not (e.param_pid == pid) then e ∷ rest else rest

module _ {S : Type 0} where
  unfoldable pub set_bucket : State S → ℕ → Option (List Event) → State S
  set_bucket s id q = record s { buckets = update (s.buckets) id q }

  unfoldable pub set_proc : State S → ℕ → Option Event → State S
  set_proc s pid e = record s { procs = update (s.procs) pid e }

  unfoldable pub set_stack : State S → Event → Option (List ℕ) → State S
  set_stack s e stack = record s { stacks = update (s.stacks) (e.ref) stack }

  -- `StackwalkDecorator.Push`
  unfoldable pub hold : State S → Event → State S
  unfolding set_bucket set_proc appended stack_id is_surrogate_process
  hold s e =
      let s1 = if is_surrogate_process e then set_proc s (e.param_pid) (some e) else s in
      set_bucket s1 (stack_id e) (some (appended (s1.buckets (stack_id e)) e))

  unfoldable pub remove_bucket : State S → ℕ → State S
  unfolding set_bucket
  remove_bucket s id = set_bucket s id none
