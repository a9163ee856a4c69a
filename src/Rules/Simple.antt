-- ===== src/Rules/Simple.antt =====
-- What an event leaves behind that only filters of single events look at.
use mathlib.Core.List.{append_assoc, append-nil}
use mathlib.Core.Bool.{false≢true}
use fibratus.Prelude.{
  ◌==◌, ℕ, ◌≡◌, refl, ap, sym, ◌∙◌, Bool, true, false, not, ◌||◌, ◌&&◌, Bool-cases, inl, inr, List,
  [], ◌∷◌, ◌++◌, none, take, map, All, reject, if◌then◌else◌,
}
use fibratus.Event.{Event}
use fibratus.Event.Values.{eq_text}
use fibratus.Event.Types.Guids.{bytes}
use fibratus.Event.Types.Traits.{category}
use fibratus.Event.Bitsets.{index}
use fibratus.Sequence.Partials.{is_empty, is_terminate_process}
use fibratus.Rules.{Rule, Filter, Tracked, Filterset, has_no_filters, collect, at_key}
use fibratus.Rules.Engine.{
  Match, Effect, Actions, Engine, run, run_at, append_match, note, note_at, process_actions, act_on,
  act_all, expired, expire_all, go_on, process_filters, process_event,
}

abbrev pub IsSimple : Filter → Type 0
IsSimple f = f.ss ≡ none

-- The filters that accept an event, and those of them that are reported.
unfoldable pub accepting : Event → List Filter → List Filter
accepting e fs = reject (λ f. not (f.rule.accepts e)) fs

unfoldable pub reported : Bool → List Filter → List Filter
reported true fs = fs
reported false fs = take 1 fs

unfoldable pub match_of : Event → Filter → Match
match_of e f = record { rule = f.rule; events = e ∷ [] }

-- The effects of the actions of each match.
unfoldable pub effects_of : Actions → List Match → List Effect
effects_of a [] = []
effects_of a (m ∷ ms) = (act_on a m).1 ++ effects_of a ms

module _ (a : Actions) where
  -- Of an engine that has seen an event: the verdict, the matches that were passed on, and what their
  -- actions did.
  pub record Dispatched (match_all : Bool) (kept : List Filter) (e : Event) (before : Bool)
      (s : Engine) (w : Bool × Engine) : Type 0 where
    pub verdict : w.0 ≡ (before || not (is_empty kept))
    pub told : w.1.calls ≡ s.calls ++ map (match_of e) (reported match_all kept)
    pub acted : w.1.effects ≡ s.effects ++ effects_of a (map (match_of e) (reported match_all kept))
    pub settled : w.1.matches ≡ []

  either_effects :
      (ok : Bool) (effects : List Effect)
      → (if◌then◌else◌ {A = Bool × List Effect} ok (true, effects ++ []) (false, effects)).1
        ≡ effects
  either_effects true effects = append-nil effects
  either_effects false effects = refl

  single : (m : Match) → (act_all a (m ∷ [])).1 ≡ (act_on a m).1
  unfolding act_all
  single m = either_effects (act_on a m).0 (act_on a m).1

  or_true : (b : Bool) → (b || true) ≡ true
  or_true true = refl
  or_true false = refl

  or_false : (b : Bool) → (b || false) ≡ b
  or_false true = refl
  or_false false = refl

  noted : Rule → Event → Engine → Engine
  noted r e s = process_actions a (append_match r (e ∷ []) s)

  noted-effects :
      (f : Filter) (e : Event) (s : Engine)
      → s.matches ≡ []
      → (noted f.rule e s).effects ≡ s.effects ++ (act_on a (match_of e f)).1
  unfolding noted process_actions append_match match_of
  noted-effects f e s h =
      rw h (ap (◌++◌ s.effects) (single (record { rule = f.rule; events = e ∷ [] })))

  found :
      (match_all : Bool) (f : Filter) (kept : List Filter) (e : Event) (m : Bool) (s : Engine)
      (other rest : Bool × Engine)
      → s.matches ≡ []
      → Dispatched match_all kept e true (noted f.rule e s) rest
      → Dispatched match_all
          (f ∷ kept)
          e
          m
          s
          (go_on true match_all other rest (true, noted f.rule e s))
  unfolding go_on reported effects_of is_empty
  found true f kept e m s other rest h w = record {
    verdict = w.verdict ∙ sym (or_true m);
    told = w.told ∙ unfold noted process_actions append_match match_of in append_assoc s.calls _ _;
    acted =
        w.acted
        ∙ (ap (λ l. l ++ effects_of a (map (match_of e) kept)) (noted-effects f e s h)
            ∙ append_assoc s.effects _ _);
    settled = w.settled;
  }
  found false f kept e m s other rest h w = record {
    verdict = sym (or_true m);
    told = unfold noted process_actions append_match match_of in refl;
    acted =
        noted-effects f e s h ∙ ap (◌++◌ s.effects) (sym (append-nil (act_on a (match_of e f)).1));
    settled = unfold noted process_actions in refl;
  }

  nothing :
      (match_all : Bool) (e : Event) (m : Bool) (s : Engine)
      → s.matches ≡ []
      → Dispatched match_all [] e m s (m, s)
  unfolding reported effects_of is_empty
  nothing true e m s h = record {
    verdict = sym (or_false m);
    told = sym (append-nil s.calls);
    acted = sym (append-nil s.effects);
    settled = h;
  }
  nothing false e m s h = record {
    verdict = sym (or_false m);
    told = sym (append-nil s.calls);
    acted = sym (append-nil s.effects);
    settled = h;
  }

  process_filters-simple :
      (match_all : Bool) (fs : List Filter) (e : Event) (m : Bool) (s : Engine)
      → All IsSimple fs
      → s.matches ≡ []
      → Dispatched match_all (accepting e fs) e m s (process_filters a match_all fs e m s)
  unfolding process_filters run run_at note note_at accepting noted go_on
  process_filters-simple match_all [] e m s h settled = nothing match_all e m s settled
  process_filters-simple match_all (f ∷ fs) e m s h settled = elim (Bool-cases (f.rule.accepts e)) [
    | inl t ↦
        simp (h.0, t)
          (found match_all f (accepting e fs) e m s _ _ settled
            (process_filters-simple match_all fs e true (noted f.rule e s) h.1 refl))
    | inr n ↦ simp (h.0, n) (process_filters-simple match_all fs e m s h.1 settled)
  ]

  collect-empty : (fs : Filterset) (e : Event) → has_no_filters fs ≡ true → collect fs e ≡ []
  unfolding has_no_filters collect at_key is_empty
  collect-empty fs e h = empty fs.types fs.categories e h
    where
      empty :
          (ts : List (List ℕ × List Filter)) (cs : List (ℕ × List Filter)) (e : Event)
          → (is_empty ts && is_empty cs) ≡ true
          → (if is_empty cs
              then at_key eq_text (bytes e.type) ts
              else at_key eq_text (bytes e.type) ts ++ at_key ◌==◌ (index (category e.type)) cs)
            ≡ []
      empty [] [] e h = refl
      empty [] (c ∷ cs) e h = absurd (false≢true h)
      empty (t ∷ ts) cs e h = absurd (false≢true h)

  expired-Dispatched :
      (c match_all : Bool) (kept : List Filter) (e : Event) (s : Engine) (qs : List Tracked)
      (w : Bool × Engine)
      → Dispatched match_all kept e false (if c then record s { sequences = qs } else s) w
      → Dispatched match_all kept e false s w
  expired-Dispatched true match_all kept e s qs w d = record {
    verdict = d.verdict;
    told = d.told;
    acted = d.acted;
    settled = d.settled;
  }
  expired-Dispatched false match_all kept e s qs w d = d

  expired-matches : (e : Event) (s : Engine) → (expired e s).matches ≡ s.matches
  unfolding expired
  expired-matches e s =
      elim (is_terminate_process e.type)
        as (λ c.
          (if◌then◌else◌ {A = Engine} c (record s { sequences = expire_all e s.sequences })
            s).matches
          ≡ s.matches) [ true ↦ refl | false ↦ refl ]

  -- Where no filter that the event meets is a sequence and no match is left over:
  -- `ProcessEvent` answers true just when there are no filters at all or one of them accepts
  -- the event; it passes on the match of each filter that accepts the event, in order, or only
  -- of the first where the setting does not ask for all; it runs the actions of each of these
  -- matches once, whether or not actions before them failed; and it leaves no match over.
  pub process_event-simple :
      (match_all : Bool) (e : Event) (s : Engine)
      → All IsSimple (collect s.filters e)
      → s.matches ≡ []
      → Dispatched match_all
          (accepting e (collect s.filters e))
          e
          (has_no_filters s.filters)
          s
          (process_event a match_all e s)
  unfolding process_event
  process_event-simple match_all e s h settled = elim (Bool-cases (has_no_filters s.filters)) [
    | inl t ↦
        simp (t, collect-empty s.filters e t)
          (unfold accepting in nothing match_all e true s settled)
    | inr n ↦ simp n (
        unfold expired in
        expired-Dispatched (is_terminate_process e.type) match_all _ e s (expire_all e s.sequences)
          _
          (process_filters-simple match_all (collect s.filters e) e false (expired e s) h
            (expired-matches e s ∙ settled)))
  ]
