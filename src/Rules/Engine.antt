-- ===== src/Rules/Engine.antt =====
-- pkg/rules/engine.go: an event goes through the filters of the rules, and a match runs the actions of
-- its rule.
--
-- What an action does to the host is a parameter, and so is whether it fails; the effects that were
-- asked for are listed in their order.
use fibratus.Prelude.{
  ℕ, zero, suc, Bool, true, false, List, [], ◌∷◌, ◌++◌, Option, none, some, get_elem?,
  if◌then◌else◌, update,
}
use fibratus.Event.{Event, Metadata}
use fibratus.Event.Values.{Text}
use fibratus.Capture.Maps.{set_key}
use fibratus.Sequence.{SequenceState, World, Env, Sequence}
use fibratus.Sequence.Partials.{sort_slot, slots, is_terminate_process, expire, gc, gc}
use fibratus.Sequence.Run.{run_sequence, clear_locked}
use fibratus.Rules.{Rule, Filter, Tracked, Filterset, has_no_filters, collect}

-- `config.ActionContext`
pub record Match : Type 0 where
  pub rule : Rule
  pub events : List Event

pub data Action : Type 0 where
  kill : Action
  isolate : (whitelist : List Text) → Action

pub data Effect : Type 0 where
  alert : Match → Effect
  kill : Match → Effect
  isolate : List Text → Effect

-- `action.Alert`, `DecodeActions`, `action.Kill` and `action.Isolate`; false and none are errors.
pub record Actions : Type 0 where
  pub alert : Match → Bool
  pub decode : Rule → Option (List Action)
  pub kill : Match → Bool
  pub isolate : List Text → Bool

-- `tags` is the metadata with a rule's name and labels, by the pointer of the event, and `calls` are the
-- calls of the function that `RegisterMatchFunc` sets.
pub record Engine : Type 0 where
  pub filters : Filterset
  pub sequences : List Tracked
  pub meta : Metadata
  pub tags : ℕ → List (Text × Text)
  pub matches : List Match
  pub calls : List Match
  pub effects : List Effect

unfoldable pub put_at : ℕ → SequenceState → List Tracked → List Tracked
put_at i s [] = []
put_at zero s (q ∷ qs) = record q { state = s } ∷ qs
put_at (suc i) s (q ∷ qs) = q ∷ put_at i s qs

-- The world of the sequence that stands at a place.
unfoldable pub set_world : ℕ → World → Engine → Engine
unfolding put_at
set_world i w s = record s { sequences = put_at i w.ss s.sequences; meta = w.meta }

-- `run`
unfoldable pub run_tracked : ℕ → Option Tracked → Event → Engine → Bool × Engine
unfolding set_world
run_tracked i none e s = (false, s)
run_tracked i (some q) e s =
    let (ok, w) = run_sequence q.env q.sequence e (record { ss = q.state; meta = s.meta }) in
    (ok, set_world i w s)

unfoldable pub run_at : Rule → Option ℕ → Event → Engine → Bool × Engine
unfolding run_tracked
run_at r none e s = (r.accepts e, s)
run_at r (some i) e s = run_tracked i (get_elem? s.sequences i) e s

unfoldable pub run : Filter → Event → Engine → Bool × Engine
unfolding run_at
run f e s = run_at f.rule f.ss e s

-- `expire` of all sequences
unfoldable pub expire_all : Event → List Tracked → List Tracked
expire_all e [] = []
expire_all e (q ∷ qs) = record q { state = (expire q.env q.sequence e q.state).1 } ∷ expire_all e qs

-- One tick of `gcSequences`
unfoldable pub gc_sequences : ℕ → List Tracked → List Tracked
unfolding gc
gc_sequences now [] = []
gc_sequences now (q ∷ qs) =
    record q { state = gc q.env q.sequence now q.state } ∷ gc_sequences now qs

-- The end of a process expires the sequences.
unfoldable pub expired : Event → Engine → Engine
unfolding expire_all
expired e s =
    if is_terminate_process e.type then record s { sequences = expire_all e s.sequences } else s

-- `AddMeta` of the labels
unfoldable pub add_labels : List (Text × Text) → List (Text × Text) → List (Text × Text)
unfolding set_key
add_labels [] m = m
add_labels ((k, v) ∷ labels) m = add_labels labels (set_key k v m)

-- `RuleNameKey`
abbrev pub rule_name_key : Text
rule_name_key = b'r' ∷ b'u' ∷ b'l' ∷ b'e' ∷ b'.' ∷ b'n' ∷ b'a' ∷ b'm' ∷ b'e' ∷ []

unfoldable pub tag_events : Rule → List Event → (ℕ → List (Text × Text)) → ℕ → List (Text × Text)
unfolding add_labels
tag_events r [] tags = tags
tag_events r (e ∷ es) tags =
    tag_events r es
      (update tags e.ref (add_labels r.labels (set_key rule_name_key r.name (tags e.ref))))

-- `appendMatch`
unfoldable pub append_match : Rule → List Event → Engine → Engine
unfolding tag_events
append_match r es s = record s {
  tags = tag_events r es s.tags;
  matches = s.matches ++ record { rule = r; events = es } ∷ [];
  calls = s.calls ++ record { rule = r; events = es } ∷ [];
}

-- `events`
unfoldable pub present : (ℕ → Option Event) → List ℕ → List Event
present matches [] = []
present matches (i ∷ is) = elim (matches i) [
  | none ↦ present matches is
  | some e ↦ e ∷ present matches is
]

unfoldable pub events : Env → Sequence → SequenceState → List Event
unfolding present
events env q s = sort_slot (present s.matches (env.map_order (slots q.size)))

-- The match of a filter: of a sequence, its events, after which it is cleared.
unfoldable pub note_tracked : Rule → ℕ → Option Tracked → Engine → Engine
unfolding append_match events set_world
note_tracked r i none s = s
note_tracked r i (some q) s =
    let s1 = append_match r (events q.env q.sequence q.state) s in
    set_world i (clear_locked q.env q.sequence (record { ss = q.state; meta = s1.meta })) s1

unfoldable pub note_at : Rule → Option ℕ → Event → Engine → Engine
unfolding note_tracked
note_at r none e s = append_match r (e ∷ []) s
note_at r (some i) e s = note_tracked r i (get_elem? s.sequences i) s

unfoldable pub note : Filter → Event → Engine → Engine
unfolding note_at
note f e s = note_at f.rule f.ss e s

-- After a filter: without a match, and after a match where all filters are to match or only the first.
unfoldable pub go_on : {A : Type 0} → (ok match_all : Bool) → A → A → A → A
go_on false match_all p q r = p
go_on true true p q r = q
go_on true false p q r = r

module _ (a : Actions) where
  -- The loops of `processActions`, each of which an error ends.
  unfoldable pub act : Match → List Action → Bool × List Effect
  act m [] = (true, [])
  act m (Action.kill ∷ acts) =
      let (ok, effects) = act m acts in
      if a.kill m then (ok, Effect.kill m ∷ effects) else (false, Effect.kill m ∷ [])
  act m (Action.isolate whitelist ∷ acts) =
      let (ok, effects) = act m acts in
      if a.isolate whitelist
      then (ok, Effect.isolate whitelist ∷ effects)
      else (false, Effect.isolate whitelist ∷ [])

  unfoldable pub act_decoded : Match → Option (List Action) → Bool × List Effect
  unfolding act
  act_decoded m none = (false, [])
  act_decoded m (some acts) = act m acts

  unfoldable pub act_on : Match → Bool × List Effect
  unfolding act_decoded
  act_on m =
      let (ok, effects) = act_decoded m (a.decode m.rule) in
      if a.alert m then (ok, Effect.alert m ∷ effects) else (false, Effect.alert m ∷ [])

  unfoldable pub act_all : List Match → Bool × List Effect
  unfolding act_on
  act_all [] = (true, [])
  act_all (m ∷ ms) =
      let (ok, effects) = act_on m in
      let (oks, more) = act_all ms in if ok then (oks, effects ++ more) else (false, effects)

  -- `processActions`; its error is logged.
  unfoldable pub process_actions : Engine → Engine
  unfolding act_all
  process_actions s = record s { matches = []; effects = s.effects ++ (act_all s.matches).1 }

  -- The loop over the filters; `match_all` is the setting.
  unfoldable pub process_filters : Bool → List Filter → Event → Bool → Engine → Bool × Engine
  unfolding run note process_actions go_on
  process_filters match_all [] e matched s = (matched, s)
  process_filters match_all (f ∷ fs) e matched s =
      let (ok, s1) = run f e s in
      let s2 = process_actions (note f e s1) in
      go_on ok match_all (process_filters match_all fs e matched s1)
        (process_filters match_all fs e true s2) (true, s2)

  -- `ProcessEvent`
  unfoldable pub process_event : Bool → Event → Engine → Bool × Engine
  unfolding process_filters expired has_no_filters collect
  process_event match_all e s =
      if has_no_filters s.filters
      then (true, s)
      else process_filters match_all (collect s.filters e) e false (expired e s)
