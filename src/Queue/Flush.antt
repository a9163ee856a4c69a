-- ===== src/Queue/Flush.antt =====
-- pkg/event/stackwalk.go: `flush`, which pushes the stale events of the buckets under the mutex.
use mathlib.Core.List.{append-nil, append_assoc}
use fibratus.Prelude.{
  ==_iff, All-reject, ℕ, ◌≡◌, refl, sym, ap, ◌∙◌, subst, Bool, true, false, ◌||◌, List, [], ◌∷◌,
  ◌++◌, Option, none, some, if◌then◌else◌, All, Bool-cases, inl, inr, ◌==◌, exists, reject,
  reject_idem,
}
use fibratus.Event.{Event}
use fibratus.Queue.Decorator.{State, is_terminate_thread, set_bucket}
use fibratus.Queue.Push.{
  Config, contents, and_then, stale, push, flush_bucket, put_back, flush_one, flush,
}
use fibratus.Queue.Frames.{push-Returns}

-- No event of the bucket is the stale end of a thread.
abbrev pub Safe : ℕ → List Event → Type 0
Safe now q = All (λ e. stale now e ≡ true → is_terminate_thread (e.type) ≡ false) q

-- A flush returns, and leaves in the buckets that it visits what is not stale.
pub record Returned {S : Type 0} (now : ℕ) (ids : List ℕ) (s : State S) (o : Option (State S))
    : Type 0 where
  pub after : State S
  pub outcome : o ≡ some after
  pub buckets :
      (i : ℕ)
      → contents (after.buckets i) ≡ (
          if exists (λ id. id == i) ids
          then reject (stale now) (contents (s.buckets i))
          else contents (s.buckets i))

module _ {S : Type 0} (cf : Config S) where
  open cf use {stack_enrichment, enqueue_always, listeners}

  -- The loop returns with `kept`, and the buckets are as they were.
  pub record Flushed (s : State S) (kept : List Event) (o : Option (List Event × State S))
      : Type 0 where
    pub after : State S
    pub outcome : o ≡ some (kept, after)
    pub buckets : after.buckets ≡ s.buckets

  weaken :
      (s t : State S) (k : List Event) (o : Option (List Event × State S))
      → t.buckets ≡ s.buckets
      → Flushed t k o
      → Flushed s k o
  weaken s t k o e f = record { after = f.after; outcome = f.outcome; buckets = f.buckets ∙ e }

  pushed-Flushed :
      (s : State S) (e : Event) (k : List Event) (f : State S → Option (List Event × State S))
      → is_terminate_thread (e.type) ≡ false
      → ((t : State S) → Flushed t k (f t))
      → Flushed s k (and_then (push cf true s e) f)
  unfolding and_then
  pushed-Flushed s e k f lives on =
      let r = push-Returns cf true s e lives in
      subst (λ o. Flushed s k (and_then o f)) (sym (r.outcome))
        (weaken s (r.after) k (f (r.after)) (r.buckets lives) (on (r.after)))

  flush_bucket-Flushed :
      (now : ℕ) (q kept : List Event) (s : State S)
      → Safe now q
      → Flushed s (kept ++ reject (stale now) q) (flush_bucket cf now q kept s)
  unfolding flush_bucket
  flush_bucket-Flushed now [] kept s safe = record {
    after = s;
    outcome = ap (λ k. some (k, s)) (sym (append-nil kept));
    buckets = refl;
  }
  flush_bucket-Flushed now (e ∷ q) kept s safe =
      step (stale now e) refl (λ t. flush_bucket-Flushed now q kept t safe.1)
        (flush_bucket-Flushed now q (kept ++ e ∷ []) s safe.1)
    where
      step :
          (b : Bool)
          → stale now e ≡ b
          → ((t : State S)
              → Flushed t (kept ++ reject (stale now) q) (flush_bucket cf now q kept t))
          → Flushed s
              ((kept ++ e ∷ []) ++ reject (stale now) q)
              (flush_bucket cf now q (kept ++ e ∷ []) s)
          → Flushed s
              (kept ++ (if b then reject (stale now) q else e ∷ reject (stale now) q))
              (elim b as (λ x. Option (List Event × State S)) [
                | true ↦ and_then (push cf true s e) (λ s1. flush_bucket cf now q kept s1)
                | false ↦ flush_bucket cf now q (kept ++ e ∷ []) s
              ])
      step true h on off = pushed-Flushed s e _ (λ s1. flush_bucket cf now q kept s1) (safe.0 h) on
      step false h on off =
          subst (λ k. Flushed s k (flush_bucket cf now q (kept ++ e ∷ []) s))
            (append_assoc kept (e ∷ []) _) off

  -- The pass over one bucket returns, and leaves in it what is not stale.
  record Passed (now id : ℕ) (s : State S) (o : Option (State S)) : Type 0 where
    after : State S
    outcome : o ≡ some after
    buckets :
        (i : ℕ)
        → contents (after.buckets i) ≡ (
            if id == i then reject (stale now) (contents (s.buckets i)) else contents (s.buckets i))

  put_back-contents :
      (s : State S) (id : ℕ) (k : List Event) (i : ℕ)
      → contents ((put_back s id k).buckets i) ≡ (if id == i then k else contents (s.buckets i))
  unfolding put_back set_bucket contents
  put_back-contents s id [] i =
      elim (id == i)
        as (λ b.
          contents (if b then none else s.buckets i) ≡ (if b then [] else contents (s.buckets i))) [
            | true ↦ refl
            | false ↦ refl
          ]
  put_back-contents s id (e ∷ k) i =
      elim (id == i)
        as (λ b.
          contents (if b then some (e ∷ k) else s.buckets i)
          ≡ (if b then e ∷ k else contents (s.buckets i))) [ true ↦ refl | false ↦ refl ]

  same_key :
      (now id i : ℕ) (s : State S) (q : Option (List Event))
      → s.buckets id ≡ q
      → (if id == i then reject (stale now) (contents q) else contents (s.buckets i))
        ≡ (if id == i then reject (stale now) (contents (s.buckets i)) else contents (s.buckets i))
  same_key now id i s q h = elim (Bool-cases (id == i)) [
    | inl e ↦
        rw e
          (ap (λ x. reject (stale now) (contents x)) (sym h ∙ ap (s.buckets) ((==_iff id i).0 e)))
    | inr e ↦ rw e refl
  ]

  flush_one-Passed :
      (now id : ℕ) (s : State S) (q : Option (List Event))
      → s.buckets id ≡ q
      → Safe now (contents q)
      → Passed now id s (flush_one cf now id s q)
  unfolding flush_one contents
  flush_one-Passed now id s none h safe = record {
    after = s;
    outcome = refl;
    buckets = λ i. missing i ∙ same_key now id i s none h;
  }
    where
      missing : (i : ℕ) → contents (s.buckets i) ≡ (if id == i then [] else contents (s.buckets i))
      missing i = elim (Bool-cases (id == i)) [
        | inl e ↦ rw e (ap contents (sym (ap (s.buckets) ((==_iff id i).0 e)) ∙ h))
        | inr e ↦ rw e refl
      ]
  flush_one-Passed now id s (some q) h safe =
      let f = flush_bucket-Flushed now q [] s safe in
      subst
        (λ o. Passed now id s (elim o as (λ x. Option (State S)) [
          | none ↦ none
          | some (kept, s1) ↦ some (put_back s1 id kept)
        ]))
        (sym (f.outcome))
        (record {
          after = put_back (f.after) id (reject (stale now) q);
          outcome = refl;
          buckets = λ i.
              put_back-contents (f.after) id (reject (stale now) q) i
              ∙ ap (λ m. if id == i then reject (stale now) q else contents (m i)) (f.buckets)
              ∙ same_key now id i s (some q) h;
        })

  kept_Safe :
      (now : ℕ) (b : Bool) (c k : List Event)
      → k ≡ (if b then reject (stale now) c else c)
      → Safe now c
      → Safe now k
  kept_Safe now true c k e safe = subst (Safe now) (sym e) (All-reject _ (stale now) c safe)
  kept_Safe now false c k e safe = subst (Safe now) (sym e) safe

  both_passes :
      (now : ℕ) (a b : Bool) (c k m : List Event)
      → k ≡ (if a then reject (stale now) c else c)
      → m ≡ (if b then reject (stale now) k else k)
      → m ≡ (if a || b then reject (stale now) c else c)
  both_passes now true true c k m e f = f ∙ ap (reject (stale now)) e ∙ reject_idem (stale now) c
  both_passes now true false c k m e f = f ∙ e
  both_passes now false true c k m e f = f ∙ ap (reject (stale now)) e
  both_passes now false false c k m e f = f ∙ e

  extend :
      (now id : ℕ) (ids : List ℕ) (s t : State S) (o : Option (State S))
      → ((i : ℕ)
          → contents (t.buckets i) ≡ (
              if id == i
              then reject (stale now) (contents (s.buckets i))
              else contents (s.buckets i)))
      → Returned now ids t o
      → Returned now (id ∷ ids) s o
  extend now id ids s t o pass r = record {
    after = r.after;
    outcome = r.outcome;
    buckets = λ i.
        both_passes now (id == i) (exists (λ j. j == i) ids) (contents (s.buckets i))
          (contents (t.buckets i)) (contents (r.after.buckets i)) (pass i) (r.buckets i);
  }

  -- When no bucket holds the stale end of a thread, `flush` returns, for any listeners, and
  -- afterwards each bucket that it visits holds its events that are not stale, in their order,
  -- and each other bucket what it held.
  pub flush-Returned :
      (now : ℕ) (ids : List ℕ) (s : State S)
      → ((id : ℕ) → Safe now (contents (s.buckets id)))
      → Returned now ids s (flush cf now ids s)
  unfolding flush
  flush-Returned now [] s safe = record { after = s; outcome = refl; buckets = λ i. refl }
  flush-Returned now (id ∷ ids) s safe =
      let p = flush_one-Passed now id s (s.buckets id) refl (safe id) in
      subst
        (λ o.
          Returned now (id ∷ ids) s
            (elim o as (λ x. Option (State S)) [ none ↦ none | some s1 ↦ flush cf now ids s1 ]))
        (sym (p.outcome))
        (extend now id ids s (p.after) (flush cf now ids (p.after)) (p.buckets) (
          flush-Returned now ids (p.after)
            (λ i. kept_Safe now (id == i) (contents (s.buckets i)) _ (p.buckets i) (safe i))))
