-- ===== src/Sequence/Run.antt =====
-- pkg/rules/sequence.go: `runSequence` takes one event through the slots. On an event that completes
-- the sequence it answers true and has collected the events that match one another.
use fibratus.Prelude.{
  ℕ, zero, suc, Bool, true, false, not, ◌&&◌, ◌||◌, List, [], ◌∷◌, Option, none, some, ltb,
  if◌then◌else◌, update, length,
}
use fibratus.Event.{Event}
use fibratus.Event.Values.{Link, compare_seq_links}
use fibratus.Sequence.{SequenceState, World, Env, Sequence}
use fibratus.Sequence.Machine.{
  new_sequence_state, is_initial, is_terminal, is_in_state, is_state_schedulable, configure_slot,
  configure_slots, configure_resets, configure_fsm, clear, schedule_max_span_deadline, stop,
  stop_deadline, on_match, on_trigger, on_transitioned, move_to, fire_trigger, or_unchanged,
  set_in_deadline, set_in_expired, cancelled, expired_or, match_transition, is_terminal_state,
  deadline_fires,
}
use fibratus.Sequence.Partials.{
  insert_sorted, sort_slot, add_key, is_known, add_partial, remove_at, is_too_old, passes, gc_slot,
  gc_slots, slots, lifetime, gc, is_terminate_process, can_expire_type, can_expire, is_empty,
  retract, expire_slot, expire_slots, expire,
}

unfoldable pub all_matched : ℕ → (ℕ → Bool) → Bool
all_matched zero states = true
all_matched (suc n) states = all_matched n states && states n

-- Whether slot `i` is to be evaluated: the first always, a later one after all slots before it.
unfoldable pub next : ℕ → SequenceState → Bool
next zero s = true
next (suc i) s = all_matched (suc i) s.states && not s.in_deadline && not s.in_expired

unfoldable pub is_before : Option ℕ → ℕ → Bool
is_before none t = true
is_before (some last) t = ltb last t

unfoldable pub set_links : (ℕ → Option (List Link)) → World → World
set_links links w = record w { meta = record w.meta { links = links } }

unfoldable pub set_ooo : ℕ → Bool → World → World
set_ooo r b w = record w { meta = record w.meta { ooo = update w.meta.ooo r b } }

unfoldable pub with_ss : SequenceState → World → World
with_ss s w = record w { ss = s }

unfoldable pub no_links : Option (List Link) → Bool
no_links none = true
no_links (some _) = false

module _ (env : Env) (q : Sequence) where
  -- `RunSequence`, which may add links to the events it looks at.
  unfoldable pub run_filter : Event → ℕ → Bool → World → Bool × World
  run_filter e i raw w =
      let (ok, links) = env.run_sequence e i w.ss.partials raw w.meta in (ok, set_links links w)

  unfoldable pub evaluate : Event → ℕ → Bool → World → Bool × World
  evaluate e i raw w = if env.is_evaluable i e then run_filter e i raw w else (false, w)

  unfoldable pub find_ps : Option ℕ → Event → World → World
  find_ps (some p) e w = w
  find_ps none e w = record w {
    meta = record w.meta { ps = update w.meta.ps e.ref (env.find_ps e.pid) };
  }

  -- An event that arrived early is evaluated again, now in its turn.
  unfoldable pub replay_event : ℕ → Event → World → World
  replay_event i e w =
      if not (w.meta.ooo e.ref)
      then w
      else (let (ok, w1) = run_filter e i false (find_ps (w.meta.ps e.ref) e w) in
          if not ok
          then w1
          else set_ooo e.ref false
              (with_ss (or_unchanged (match_transition env q i w1.ss) w1.ss) w1))

  unfoldable pub replay_slot : ℕ → List Event → World → World
  replay_slot i [] w = w
  replay_slot i (e ∷ es) w = replay_slot i es (replay_event i e w)

  unfoldable pub replay_slots : List ℕ → World → World
  replay_slots [] w = w
  replay_slots (i ∷ order) w = replay_slots order (replay_slot i (w.ss.partials i) w)

  -- Keeps the first event that a slot is given.
  unfoldable pub set_match : ℕ → Event → (ℕ → Option Event) → ℕ → Option Event
  set_match i e m = elim (m i) [ none ↦ update m i (some e) | some _ ↦ m ]

  unfoldable pub is_linked : World → Event → Event → Bool
  is_linked w outer inner =
      compare_seq_links env.equal_fold (w.meta.links outer.ref) (w.meta.links inner.ref)
      || not q.is_constrained
        && no_links (w.meta.links outer.ref)
        && no_links (w.meta.links inner.ref)

  unfoldable pub match_inner :
      World → ℕ → Event → List Event → (ℕ → Option Event) → ℕ → Option Event
  match_inner w i outer [] m = m
  match_inner w i outer (inner ∷ es) m =
      match_inner w i outer es
        (if is_linked w outer inner then set_match (suc i) inner (set_match i outer m) else m)

  unfoldable pub match_outer : World → ℕ → List Event → (ℕ → Option Event) → ℕ → Option Event
  match_outer w i [] m = m
  match_outer w i (outer ∷ es) m =
      match_outer w i es (match_inner w i outer (w.ss.partials (suc i)) m)

  -- `n` slots are left, from slot `i` on.
  unfoldable pub match_slots : World → ℕ → ℕ → (ℕ → Option Event) → ℕ → Option Event
  match_slots w zero i m = m
  match_slots w (suc n) i m = match_slots w n (suc i) (match_outer w i (w.ss.partials i) m)

  unfoldable pub collect_matches : World → World
  collect_matches w = record w {
    ss = record w.ss { matches = match_slots w (length w.ss.keys) 0 w.ss.matches };
  }

  unfoldable pub finish : World → Bool × World
  finish w =
      let (done, s) = is_terminal_state env q w.ss in
      if done then (true, collect_matches (with_ss s w)) else (false, with_ss s w)

  -- The event matches slot `i` in its turn.
  unfoldable pub advance : ℕ → Event → World → World
  advance i e w =
      let w1 = add_partial env i e false w in
      let w2 = with_ss (or_unchanged (match_transition env q i w1.ss) w1.ss) w1 in
      if not q.is_unordered then with_ss (record w2.ss { last_match = some e.timestamp }) w2 else w2

  unfoldable pub replay : World → World
  replay w =
      if q.is_unordered && not (is_terminal w.ss.fsm)
      then replay_slots (env.map_order w.ss.keys) w
      else w

  -- One round of the loop over the expressions; true is the early return.
  unfoldable pub step : ℕ → Event → World → Bool × World
  step i e w =
      if not (next i w.ss)
      then (if not q.is_unordered
          then (false, w)
          else (let (ok, w1) = evaluate e i true w in
              if ok then (false, add_partial env i e true w1) else (false, w1)))
      else (let (ok, w1) = evaluate e i false w in
          if not ok
          then (false, w1)
          else if not q.is_unordered && not (is_before w1.ss.last_match e.timestamp)
          then (false, w1)
          else finish (replay (advance i e w1)))

  -- `n` expressions are left, from the `i`-th on.
  unfoldable pub run_from : ℕ → ℕ → Event → World → Bool × World
  run_from zero i e w = (false, w)
  run_from (suc n) i e w =
      let (done, w1) = step i e w in
      let rest = run_from n (suc i) e w1 in if done then (true, w1) else rest

  unfoldable pub run_sequence : Event → World → Bool × World
  run_sequence e w = run_from q.size 0 e w

  -- What the engine does after a match: it takes the events and clears the state.
  unfoldable pub clear_locked : World → World
  clear_locked w = with_ss (clear w.ss) w

-- Every function that a run goes through, for the tests by evaluation.
unfoldable pub all_of_run : Unit {0}
unfolding new_sequence_state is_initial is_terminal is_in_state is_state_schedulable configure_slot
    configure_slots configure_resets configure_fsm clear schedule_max_span_deadline stop
    stop_deadline on_match on_trigger on_transitioned move_to fire_trigger or_unchanged
    set_in_deadline set_in_expired cancelled expired_or match_transition is_terminal_state
    deadline_fires insert_sorted sort_slot add_key is_known add_partial remove_at is_too_old passes
    gc_slot gc_slots slots lifetime gc is_terminate_process can_expire_type can_expire is_empty
    retract expire_slot expire_slots expire all_matched next is_before set_links set_ooo with_ss
    run_filter evaluate find_ps replay_event replay_slot replay_slots set_match no_links is_linked
    match_inner match_outer match_slots collect_matches finish advance replay step run_from
    run_sequence clear_locked
all_of_run = tt
