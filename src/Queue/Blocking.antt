-- ===== src/Queue/Blocking.antt =====
-- pkg/event/queue.go, stackwalk.go: `Queue.Push` always returns. `Pop` calls `Queue.push` while it holds
-- the mutex of the decorator, and `Queue.push` takes it again for the end of a thread only.
use fibratus.Prelude.{
  ◌≡◌, refl, sym, ap, ◌∙◌, subst, Bool, true, false, List, [], ◌∷◌, Option, none, some,
  if◌then◌else◌,
}
use fibratus.Event.{Event}
use fibratus.Event.Types.Traits.{can_enrich_stack}
use fibratus.Queue.Decorator.{State, is_stack_walk, stack_id, set_bucket, hold}
use fibratus.Queue.Push.{Config, Outcome, push, pop, pop_from, forward, forward_popped, push_event}
use fibratus.Queue.Frames.{push-Returns}
use fibratus.Queue.Popping.{ProcsCreate, hold-ProcsCreate, decorate-Decorated}

module _ {S : Type 0} where
  -- The call returns, and keeps the invariant.
  pub record Live (o : Outcome S) : Type 0 where
    pub after : State S
    pub ok : Bool
    pub outcome : o ≡ Outcome.returned after ok
    pub procs : ProcsCreate after

  choose-Live : (b : Bool) {o1 o2 : Outcome S} → Live o1 → Live o2 → Live (if b then o1 else o2)
  choose-Live true l1 l2 = l1
  choose-Live false l1 l2 = l2

  module _ (cf : Config S) where
    open cf use {stack_enrichment, enqueue_always, listeners}

    push-Live : (s : State S) (e : Event) → ProcsCreate s → Live (push cf false s e)
    push-Live s e inv =
        let r = push-Returns cf false s e refl in
        record {
          after = r.after;
          ok = r.ok;
          outcome = r.outcome;
          procs = λ j x h. inv j x (ap (λ m. m j) (sym (r.procs)) ∙ h);
        }

    forward-Live : (s : State S) (e : Event) → ProcsCreate s → Live (forward cf s e)
    unfolding forward
    forward-Live s e inv =
        elim (is_stack_walk (e.type))
          as (λ b. Live (if b then Outcome.returned s true else push cf false s e)) [
            | true ↦ record { after = s; ok = true; outcome = refl; procs = inv }
            | false ↦ push-Live s e inv
          ]

    popped-Live :
        (s : State S) (e : Event) (q : Option (List Event))
        → ProcsCreate s
        → Live (forward_popped cf (pop_from cf s e q))
    unfolding forward_popped pop_from set_bucket
    popped-Live s e none inv = forward-Live s e inv
    popped-Live s e (some []) inv = forward-Live s e inv
    popped-Live s e (some (evt ∷ rest)) inv =
        let d =
          decorate-Decorated cf (set_bucket s (stack_id e) (some rest)) (s.stacks (e.ref)) evt
            inv in
        subst (λ o. Live (forward_popped cf o)) (sym (d.outcome))
          (forward-Live (d.after) evt (d.procs))

    held-Live : (s : State S) (e : Event) → ProcsCreate s → Live (Outcome.returned (hold s e) true)
    held-Live s e inv = record {
      after = hold s e;
      ok = true;
      outcome = refl;
      procs = hold-ProcsCreate s e inv;
    }

    -- As long as the processes that wait for a callstack are events that create a process,
    -- `Queue.Push` returns for every event, for any listeners, and keeps that so: it never
    -- waits for the mutex that it holds.
    pub push_event-Live : (s : State S) (e : Event) → ProcsCreate s → Live (push_event cf s e)
    unfolding push_event pop
    push_event-Live s e inv =
        choose-Live stack_enrichment
          (choose-Live (can_enrich_stack (e.type)) (held-Live s e inv) (
            choose-Live (is_stack_walk (e.type)) (popped-Live s e (s.buckets (stack_id e)) inv)
              (forward-Live s e inv)))
          (forward-Live s e inv)
