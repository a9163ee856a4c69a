-- ===== src/Rules/Dispatch.antt =====
-- What an event that goes through the filters leaves behind.
use fibratus.Prelude.{
  ℕ, ◌≡◌, refl, sym, Bool, true, false, List, [], ◌∷◌, ◌++◌, Option, none, some, get_elem?, subst,
  if◌then◌else◌,
}
use fibratus.Event.{Event}
use fibratus.Rules.{Rule, Filter, Tracked, has_no_filters, collect}
use fibratus.Rules.Engine.{
  Effect, Actions, Engine, run, run_at, run_tracked, append_match, note, note_at, note_tracked,
  process_actions, act_all, expired, go_on, process_filters, process_event,
}

-- The engine without what the actions did.
abbrev pub forget : Engine → Engine
forget s = record s { effects = [] }

-- Two answers that differ in nothing else.
abbrev pub Agrees : Bool × Engine → Bool × Engine → Type 0
Agrees (u, s) (v, t) = (u ≡ v) × (forget s ≡ forget t)

abbrev with_effects : List Effect → Engine → Engine
with_effects x s = record s { effects = x }

run_tracked-effects :
    (x : List Effect) (i : ℕ) (q : Option Tracked) (e : Event) (s : Engine)
    → run_tracked i q e (with_effects x s)
      ≡ ((run_tracked i q e s).0, with_effects x (run_tracked i q e s).1)
unfolding run_tracked
run_tracked-effects x i none e s = refl
run_tracked-effects x i (some q) e s = refl

run-effects :
    (x : List Effect) (r : Rule) (o : Option ℕ) (e : Event) (s : Engine)
    → run_at r o e (with_effects x s) ≡ ((run_at r o e s).0, with_effects x (run_at r o e s).1)
unfolding run_at
run-effects x r none e s = refl
run-effects x r (some i) e s = run_tracked-effects x i (get_elem? s.sequences i) e s

note_tracked-effects :
    (x : List Effect) (r : Rule) (i : ℕ) (q : Option Tracked) (s : Engine)
    → note_tracked r i q (with_effects x s) ≡ with_effects x (note_tracked r i q s)
unfolding note_tracked
note_tracked-effects x r i none s = refl
note_tracked-effects x r i (some q) s = refl

note-effects :
    (x : List Effect) (r : Rule) (o : Option ℕ) (e : Event) (s : Engine)
    → note_at r o e (with_effects x s) ≡ with_effects x (note_at r o e s)
unfolding note_at append_match
note-effects x r none e s = refl
note-effects x r (some i) e s = note_tracked-effects x r i (get_elem? s.sequences i) s

go_on-Agrees :
    (ok match_all : Bool) (p q r p' q' r' : Bool × Engine)
    → Agrees p p'
    → Agrees q q'
    → Agrees r r'
    → Agrees (go_on ok match_all p q r) (go_on ok match_all p' q' r')
unfolding go_on
go_on-Agrees false match_all p q r p' q' r' h g k = h
go_on-Agrees true true p q r p' q' r' h g k = g
go_on-Agrees true false p q r p' q' r' h g k = k

module _ (a b : Actions) (match_all : Bool) where
  -- The rest of the loop behind a filter.
  behind : List Filter → Event → Bool → Bool × Engine → Engine → Bool × Engine
  behind fs e m w n =
      go_on w.0 match_all (process_filters b match_all fs e m w.1)
        (process_filters b match_all fs e true (process_actions b n)) (true, process_actions b n)

  process_filters-actions :
      (fs : List Filter) (e : Event) (m : Bool) (s : Engine) (x : List Effect)
      → Agrees
          (process_filters a match_all fs e m s)
          (process_filters b match_all fs e m (with_effects x s))
  unfolding process_filters run note process_actions behind
  process_filters-actions [] e m s x = (refl, refl)
  process_filters-actions (f ∷ fs) e m s x =
      let s1 = (run_at f.rule f.ss e s).1 in
      let n = note_at f.rule f.ss e s1 in
      let s2 = process_actions a n in
      let y = x ++ (act_all b n.matches).1 in
      let (ok, _) = run_at f.rule f.ss e s in
      let whole = process_filters a match_all (f ∷ fs) e m s in
      subst (λ w. Agrees whole (behind fs e m w (note_at f.rule f.ss e w.1)))
        (sym (run-effects x f.rule f.ss e s))
        (subst (λ k. Agrees whole (behind fs e m (ok, with_effects x s1) k))
          (sym (note-effects x f.rule f.ss e s1))
          (go_on-Agrees ok match_all _ _ _ _ _ _ (process_filters-actions fs e m s1 x)
            (process_filters-actions fs e true s2 y) (refl, refl)))

  -- For any two ways in which actions may succeed or fail, `ProcessEvent` gives the same answer
  -- and leaves the same engine, sequences, metadata, tags and matches included, but for the
  -- effects of the actions.
  pub process_event-actions :
      (e : Event) (s : Engine)
      → Agrees (process_event a match_all e s) (process_event b match_all e s)
  unfolding process_event
  process_event-actions e s =
      elim (has_no_filters s.filters)
        as (λ c.
          Agrees
            (if c
              then (true, s)
              else process_filters a match_all (collect s.filters e) e false (expired e s))
            (if c
              then (true, s)
              else process_filters b match_all (collect s.filters e) e false (expired e s))) [
                | true ↦ (refl, refl)
                | false ↦
                    process_filters-actions (collect s.filters e) e false (expired e s)
                      (expired e s).effects
              ]
