-- ===== src/Queue/Frames.antt =====
-- pkg/event/queue.go: what `Queue.push` leaves as it was, and when it returns.
use fibratus.Prelude.{
  ◌≡◌, refl, sym, ◌∙◌, Bool, true, false, ◌&&◌, ◌||◌, List, [], ◌∷◌, ◌++◌, Option, none, some,
  if◌then◌else◌,
}
use mathlib.Core.Bool.{false≢true}
use fibratus.Event.{Event}
use fibratus.Queue.Decorator.{State, is_terminate_thread, thread_id, set_bucket, remove_bucket}
use fibratus.Queue.Push.{
  Listener, Config, Outcome, is_none, set_outer, notify, send, push_after, push,
}

-- The same buckets, processes and callstacks.
pub record Frame {S : Type 0} (s t : State S) : Type 0 where
  pub buckets : t.buckets ≡ s.buckets
  pub procs : t.procs ≡ s.procs
  pub stacks : t.stacks ≡ s.stacks

-- The call returns. Only the end of a thread removes a bucket.
pub record Returns {S : Type 0} (s : State S) (ends : Bool) (o : Outcome S) : Type 0 where
  pub after : State S
  pub ok : Bool
  pub outcome : o ≡ Outcome.returned after ok
  pub buckets : ends ≡ false → after.buckets ≡ s.buckets
  pub procs : after.procs ≡ s.procs
  pub stacks : after.stacks ≡ s.stacks

module _ {S : Type 0} where
  notify-Frame :
      (ls : List (Listener S)) (enqueue : Bool) (s : State S) (e : Event)
      → Frame s ((notify ls enqueue s e).0)
  unfolding notify set_outer
  notify-Frame [] enqueue s e = record { buckets = refl; procs = refl; stacks = refl }
  notify-Frame (l ∷ ls) enqueue s e =
      answer (λ enq w. notify-Frame ls enq (set_outer s w) e)
        (l.process (s.outer) e (s.stacks (e.ref)))
    where
      answer :
          ((enq : Bool) (w : S) → Frame (set_outer s w) ((notify ls enq (set_outer s w) e).0))
          → (r : S × Option Bool)
          → Frame s (
              (elim r.1 as (λ x. State S × Option Bool) [
                | none ↦ (set_outer s (r.0), none)
                | some enq ↦
                    notify ls (if l.can_enqueue && enq then true else enqueue) (set_outer s (r.0)) e
              ]).0)
      answer rest (w, none) = record { buckets = refl; procs = refl; stacks = refl }
      answer rest (w, some enq) =
          let f = rest (if l.can_enqueue && enq then true else enqueue) w in
          record { buckets = f.buckets; procs = f.procs; stacks = f.stacks }

  module _ (cf : Config S) where
    open cf use {stack_enrichment, enqueue_always, listeners}

    send-Frame :
        (enqueue : Bool) (s t : State S) (e : Event) → Frame s t → Frame s (send cf enqueue t e)
    unfolding send
    send-Frame enqueue s t e f =
        elim (enqueue || is_none listeners)
          as (λ b. Frame s (if b then record t { sent = t.sent ++ e ∷ [] } else t)) [
            | true ↦ record { buckets = f.buckets; procs = f.procs; stacks = f.stacks }
            | false ↦ f
          ]

    settle :
        (ends locked : Bool) (s t1 t2 : State S)
        → (ends ≡ true → locked ≡ false)
        → (t1.procs ≡ s.procs)
        → (t1.stacks ≡ s.stacks)
        → Frame s t2
        → (term : Bool) → (ends ≡ true → term ≡ true)
        → Returns s term (
            if ends
            then (if locked then Outcome.blocked else Outcome.returned t1 true)
            else Outcome.returned t2 true)
    settle true true s t1 t2 free p k f term h = absurd (false≢true (sym (free refl)))
    settle true false s t1 t2 free p k f term h = record {
      after = t1;
      ok = true;
      outcome = refl;
      buckets = λ no. absurd (false≢true (sym no ∙ h refl));
      procs = p;
      stacks = k;
    }
    settle false locked s t1 t2 free p k f term h = record {
      after = t2;
      ok = true;
      outcome = refl;
      buckets = λ no. f.buckets;
      procs = f.procs;
      stacks = f.stacks;
    }

    and_right : (a b : Bool) → (a && b) ≡ true → b ≡ true
    and_right true b h = h
    and_right false b h = absurd (false≢true h)

    and_true : (a b : Bool) → (a && b) ≡ false → b ≡ true → a ≡ false
    and_true true b h e = absurd (false≢true (sym h ∙ e))
    and_true false b h e = refl

    push_after-Returns :
        (locked : Bool) (s : State S) (x : State S × Option Bool) (e : Event)
        → Frame s (x.0)
        → (locked && is_terminate_thread (e.type)) ≡ false
        → Returns s (is_terminate_thread (e.type)) (push_after cf locked x e)
    unfolding push_after remove_bucket set_bucket
    push_after-Returns locked s (t, none) e f h = record {
      after = t;
      ok = false;
      outcome = refl;
      buckets = λ no. f.buckets;
      procs = f.procs;
      stacks = f.stacks;
    }
    push_after-Returns locked s (t, some enqueue) e f h =
        let g =
          send-Frame enqueue (remove_bucket t (thread_id e)) (remove_bucket t (thread_id e)) e
            (record { buckets = refl; procs = refl; stacks = refl }) in
        settle (stack_enrichment && is_terminate_thread (e.type)) locked s
          (send cf enqueue (remove_bucket t (thread_id e)) e) (send cf enqueue t e)
          (λ both.
            and_true locked (is_terminate_thread (e.type)) h
              (and_right stack_enrichment (is_terminate_thread (e.type)) both))
          (g.procs ∙ f.procs) (g.stacks ∙ f.stacks) (send-Frame enqueue s t e f)
          (is_terminate_thread (e.type)) (and_right stack_enrichment (is_terminate_thread (e.type)))

    pub push-Returns :
        (locked : Bool) (s : State S) (e : Event)
        → (locked && is_terminate_thread (e.type)) ≡ false
        → Returns s (is_terminate_thread (e.type)) (push cf locked s e)
    unfolding push
    push-Returns locked s e h =
        push_after-Returns locked s (notify listeners enqueue_always s e) e
          (notify-Frame listeners enqueue_always s e) h
