-- ===== src/Queue/Popping.antt =====
-- pkg/event/stackwalk.go: `Pop`, on every branch. While it holds the mutex it pushes a process that was
-- waiting, which is never the end of a thread.
use mathlib.Core.Bool.{false≢true}
use mathlib.Core.Option.{none-ne-some, some-injective}
use fibratus.Prelude.{
  ℕ, ◌≡◌, refl, sym, ap, ◌∙◌, subst, Bool, true, false, ◌&&◌, List, ◌∷◌, Option, none, some,
  if◌then◌else◌, update, update_self, ◌==◌,
}
use fibratus.Event.{Event}
use fibratus.Event.Types.{EventType}
use fibratus.Queue.Decorator.{
  State, is_create_process, is_terminate_thread, stack_id, is_surrogate_process,
  is_create_remote_thread, set_bucket, set_proc, set_stack, hold,
}
use fibratus.Queue.Push.{Config, Outcome, Popped, release, decorate, pop, pop_from, release_after}
use fibratus.Queue.Frames.{push-Returns}

create_process-terminate :
    (t : EventType) → is_create_process t ≡ true → is_terminate_thread t ≡ false
unfolding is_create_process is_terminate_thread
create_process-terminate EventType.terminate_thread h = absurd (false≢true h)
create_process-terminate _ h = refl

and_left : (a b : Bool) → (a && b) ≡ true → a ≡ true
and_left true b h = refl
and_left false b h = h

surrogate-create_process :
    (e : Event) → is_surrogate_process e ≡ true → is_create_process (e.type) ≡ true
unfolding is_surrogate_process
surrogate-create_process e h = and_left (is_create_process (e.type)) _ h

module _ {S : Type 0} where
  -- The processes that wait for a callstack are events that create a process.
  abbrev pub ProcsCreate : State S → Type 0
  ProcsCreate s = (pid : ℕ) (e : Event) → s.procs pid ≡ some e → is_create_process (e.type) ≡ true

  -- The event is given back with the callstack.
  pub record Decorated (stack : Option (List ℕ)) (evt : Event) (o : Popped S) : Type 0 where
    pub after : State S
    pub outcome : o ≡ Popped.popped after evt
    pub procs : ProcsCreate after
    pub gained : after.stacks (evt.ref) ≡ stack

  set_proc-ProcsCreate :
      (s : State S) (pid : ℕ) (p : Option Event)
      → ProcsCreate s
      → ((e : Event) → p ≡ some e → is_create_process (e.type) ≡ true)
      → ProcsCreate (set_proc s pid p)
  unfolding set_proc
  set_proc-ProcsCreate s pid p inv new j e =
      elim (pid == j)
        as (λ b. (if b then p else s.procs j) ≡ some e → is_create_process (e.type) ≡ true) [
          | true ↦ new e
          | false ↦ inv j e
        ]

  removed-ProcsCreate : (s : State S) (pid : ℕ) → ProcsCreate s → ProcsCreate (set_proc s pid none)
  removed-ProcsCreate s pid inv =
      set_proc-ProcsCreate s pid none inv (λ e h. absurd (none-ne-some e h))

  pub hold-ProcsCreate : (s : State S) (e : Event) → ProcsCreate s → ProcsCreate (hold s e)
  unfolding hold set_bucket
  hold-ProcsCreate s e inv = go (is_surrogate_process e) refl
    where
      go :
          (b : Bool)
          → is_surrogate_process e ≡ b
          → ProcsCreate (if b then set_proc s (e.param_pid) (some e) else s)
      go true h = set_proc-ProcsCreate s (e.param_pid) (some e) inv (λ e' same.
          subst (λ x. is_create_process (x.type) ≡ true) (some-injective _ _ same)
            (surrogate-create_process e h))
      go false h = inv

  module _ (cf : Config S) where
    open cf use {stack_enrichment, enqueue_always, listeners}

    released-Decorated :
        (s t : State S) (pid : ℕ) (ev : Event) (stack : Option (List ℕ)) (evt : Event) (ok : Bool)
        → ProcsCreate s
        → s.stacks (evt.ref) ≡ stack
        → t.procs ≡ s.procs
        → t.stacks ≡ update (s.stacks) (ev.ref) stack
        → Decorated stack evt (release_after cf pid ev evt (Outcome.returned t ok))
    unfolding release_after set_bucket set_proc
    released-Decorated s t pid ev stack evt ok inv has procs stacks = record {
      after = _;
      outcome = refl;
      procs = removed-ProcsCreate t pid (λ j e h. inv j e (ap (λ m. m j) (sym procs) ∙ h));
      gained =
          ap (λ m. m (evt.ref)) stacks
          ∙ (elim (ev.ref == evt.ref) as (λ b. (if b then stack else s.stacks (evt.ref)) ≡ stack) [
            | true ↦ refl
            | false ↦ has
          ]);
    }

    release-Decorated :
        (s : State S) (pid : ℕ) (ev : Event) (stack : Option (List ℕ)) (evt : Event)
        → ProcsCreate s
        → is_create_process (ev.type) ≡ true
        → s.stacks (evt.ref) ≡ stack
        → Decorated stack evt (release cf s pid ev stack evt)
    unfolding release set_stack
    release-Decorated s pid ev stack evt inv created has =
        let r =
          push-Returns cf true (set_stack s ev stack) ev
            (create_process-terminate (ev.type) created) in
        subst (λ o. Decorated stack evt (release_after cf pid ev evt o)) (sym (r.outcome))
          (released-Decorated s (r.after) pid ev stack evt (r.ok) inv has (r.procs) (r.stacks))

    attached-Decorated :
        (s : State S) (stack : Option (List ℕ)) (evt : Event)
        → ProcsCreate s
        → s.stacks (evt.ref) ≡ stack
        → Decorated stack evt (
            if is_create_remote_thread evt
            then elim (s.procs (evt.param_pid)) as (λ x. Popped S) [
              | none ↦ Popped.popped s evt
              | some ev ↦ release cf s (evt.param_pid) ev stack evt
            ]
            else Popped.popped s evt)
    attached-Decorated s stack evt inv has =
        elim (is_create_remote_thread evt)
          as (λ b. Decorated stack evt (
            if b
            then elim (s.procs (evt.param_pid)) as (λ x. Popped S) [
              | none ↦ Popped.popped s evt
              | some ev ↦ release cf s (evt.param_pid) ev stack evt
            ]
            else Popped.popped s evt)) [
              | true ↦ waiting (s.procs (evt.param_pid)) refl
              | false ↦ plain
            ]
      where
        plain : Decorated stack evt (Popped.popped s evt)
        plain = record { after = s; outcome = refl; procs = inv; gained = has }

        waiting :
            (p : Option Event)
            → s.procs (evt.param_pid) ≡ p
            → Decorated stack evt (elim p as (λ x. Popped S) [
              | none ↦ Popped.popped s evt
              | some ev ↦ release cf s (evt.param_pid) ev stack evt
            ])
        waiting none h = plain
        waiting (some ev) h =
            release-Decorated s (evt.param_pid) ev stack evt inv (inv (evt.param_pid) ev h) has

    pub decorate-Decorated :
        (s : State S) (stack : Option (List ℕ)) (evt : Event)
        → ProcsCreate s
        → Decorated stack evt (decorate cf s stack evt)
    unfolding decorate set_stack
    decorate-Decorated s stack evt inv =
        let s1 = if is_surrogate_process evt then set_proc s (evt.param_pid) none else s in
        attached-Decorated (set_stack s1 evt stack) stack evt
          (elim (is_surrogate_process evt)
            as (λ b. ProcsCreate (if b then set_proc s (evt.param_pid) none else s)) [
              | true ↦ removed-ProcsCreate s (evt.param_pid) inv
              | false ↦ inv
            ])
          (update_self (s1.stacks) (evt.ref) stack)

    -- When the bucket of a stack walk is not empty, and the processes that wait for a
    -- callstack are events that create a process, `Pop` gives back the oldest event of the
    -- bucket, which now has the callstack of the stack walk.
    pub pop-Decorated :
        (s : State S) (walk evt : Event) (rest : List Event)
        → ProcsCreate s
        → s.buckets (stack_id walk) ≡ some (evt ∷ rest)
        → Decorated (s.stacks (walk.ref)) evt (pop cf s walk)
    unfolding pop set_bucket
    pop-Decorated s walk evt rest inv h =
        subst (λ q. Decorated (s.stacks (walk.ref)) evt (pop_from cf s walk q)) (sym h)
          (unfold pop_from in
            decorate-Decorated (set_bucket s (stack_id walk) (some rest)) (s.stacks (walk.ref)) evt
              inv)
