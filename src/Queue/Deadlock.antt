-- ===== src/Queue/Deadlock.antt =====
-- pkg/event/stackwalk.go, queue.go: `flush` holds the mutex of the decorator while it calls
-- `Queue.push`, which for the end of a thread takes it again, in `RemoveBucket`.
use mathlib.Core.Bool.{false≢true}
use mathlib.Core.Option.{none-ne-some}
use fibratus.Prelude.{
  ℕ, ◌≡◌, refl, sym, ap, ◌∙◌, subst, Bool, true, false, ◌&&◌, ◌||◌, List, [], ◌∷◌, ◌++◌, Option,
  none, some, if◌then◌else◌, All, exists,
}
use fibratus.Event.{Event}
use fibratus.Queue.Decorator.{State, is_terminate_thread}
use fibratus.Queue.Push.{
  Config, Outcome, Listener, contents, and_then, stale, push, push_after, notify, set_outer,
  flush_bucket, put_back, flush_one, flush,
}
use fibratus.Queue.Frames.{push-Returns}

module _ {S : Type 0} (cf : Config S) where
  open cf use {stack_enrichment, enqueue_always, listeners}

  -- The listener answers, without an error.
  abbrev pub Answers : Listener S → Type 0
  Answers l =
      (w : S) (e : Event) (c : Option (List ℕ)) → (b : Bool) × ((l.process w e c).1 ≡ some b)

  notify-some :
      (ls : List (Listener S)) (enqueue : Bool) (s : State S) (e : Event)
      → All Answers ls
      → (b : Bool) × ((notify ls enqueue s e).1 ≡ some b)
  unfolding notify set_outer
  notify-some [] enqueue s e h = (enqueue, refl)
  notify-some (l ∷ ls) enqueue s e h =
      let c = s.stacks (e.ref) in
      let r = l.process (s.outer) e c in
      let next = set_outer s (r.0) in
      let a = h.0 (s.outer) e c in
      subst
        (λ o.
          (b : Bool) × ((elim o as (λ x. State S × Option Bool) [
            | none ↦ (next, none)
            | some enq ↦ notify ls (if l.can_enqueue && enq then true else enqueue) next e
          ]).1
            ≡ some b))
        (sym (a.1)) (notify-some ls (if l.can_enqueue && a.0 then true else enqueue) next e h.1)

  push_after-blocked :
      (x : State S × Option Bool) (b : Bool) (e : Event)
      → x.1 ≡ some b
      → stack_enrichment ≡ true
      → is_terminate_thread (e.type) ≡ true
      → push_after cf true x e ≡ Outcome.blocked
  unfolding push_after
  push_after-blocked (s, none) b e has on ends = absurd (none-ne-some b has)
  push_after-blocked (s, some c) b e has on ends = rw on (rw ends refl)

  push-blocked :
      (s : State S) (e : Event)
      → All Answers listeners
      → stack_enrichment ≡ true
      → is_terminate_thread (e.type) ≡ true
      → push cf true s e ≡ Outcome.blocked
  unfolding push
  push-blocked s e h on ends =
      let n = notify-some listeners enqueue_always s e h in
      push_after-blocked (notify listeners enqueue_always s e) (n.0) e (n.1) on ends

  flush_bucket-none :
      (now : ℕ) (q kept : List Event) (s : State S)
      → All Answers listeners
      → stack_enrichment ≡ true
      → exists (λ e. stale now e && is_terminate_thread (e.type)) q ≡ true
      → flush_bucket cf now q kept s ≡ none
  unfolding flush_bucket
  flush_bucket-none now [] kept s h on some_one = absurd (false≢true some_one)
  flush_bucket-none now (e ∷ q) kept s h on some_one =
      step (stale now e) (is_terminate_thread (e.type)) refl some_one
        (λ k t. flush_bucket-none now q k t h on)
    where
      some_later : List Event → Type 0
      some_later q = exists (λ e. stale now e && is_terminate_thread (e.type)) q ≡ true

      after_push :
          (b : Bool)
          → is_terminate_thread (e.type) ≡ b
          → (b || exists (λ e. stale now e && is_terminate_thread (e.type)) q) ≡ true
          → ((k : List Event) (t : State S) → some_later q → flush_bucket cf now q k t ≡ none)
          → and_then (push cf true s e) (λ t. flush_bucket cf now q kept t) ≡ none
      after_push true ends found rest =
          ap (λ o. and_then o (λ t. flush_bucket cf now q kept t)) (push-blocked s e h on ends)
      after_push false ends found rest =
          let r = push-Returns cf true s e ends in
          ap (λ o. and_then o (λ t. flush_bucket cf now q kept t)) (r.outcome)
          ∙ rest kept (r.after) found

      step :
          (b ends : Bool)
          → is_terminate_thread (e.type) ≡ ends
          → ((b && ends) || exists (λ e. stale now e && is_terminate_thread (e.type)) q) ≡ true
          → ((k : List Event) (t : State S) → some_later q → flush_bucket cf now q k t ≡ none)
          → (elim b as (λ x. Option (List Event × State S)) [
            | true ↦ and_then (push cf true s e) (λ t. flush_bucket cf now q kept t)
            | false ↦ flush_bucket cf now q (kept ++ e ∷ []) s
          ])
            ≡ none
      step true ends same found rest = after_push ends same found rest
      step false ends same found rest = rest (kept ++ e ∷ []) s found

  -- With callstacks on, and listeners that answer without an error, `flush` does not return
  -- once it comes to a bucket that holds the stale end of a thread: it waits for the mutex that
  -- it holds.
  pub flush-blocked :
      (now id : ℕ) (ids : List ℕ) (s : State S)
      → All Answers listeners
      → stack_enrichment ≡ true
      → exists (λ e. stale now e && is_terminate_thread (e.type)) (contents (s.buckets id)) ≡ true
      → flush cf now (id ∷ ids) s ≡ none
  unfolding flush contents
  flush-blocked now id ids s h on found =
      ap (λ o. elim o as (λ x. Option (State S)) [ none ↦ none | some s1 ↦ flush cf now ids s1 ])
        (one (s.buckets id) found)
    where
      one :
          (q : Option (List Event))
          → exists (λ e. stale now e && is_terminate_thread (e.type)) (contents q) ≡ true
          → flush_one cf now id s q ≡ none
      one none found = absurd (false≢true found)
      one (some q) found =
          unfold flush_one in
          ap
            (λ o. elim o as (λ x. Option (State S)) [
              | none ↦ none
              | some (kept, s1) ↦ some (put_back s1 id kept)
            ])
            (flush_bucket-none now q [] s h on found)
