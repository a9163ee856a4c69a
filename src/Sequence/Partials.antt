-- ===== src/Sequence/Partials.antt =====
-- pkg/rules/sequence.go: the partials of each slot, how they are added, collected when they are too
-- old, and removed when their process ends. The counters that the program publishes are left out.
pub mod Sorting
pub mod Collecting
pub mod Adding
pub mod Placing
pub mod Owners
pub mod Expiring
use fibratus.Prelude.{
  ℕ, zero, suc, ◌+◌, ◌-◌, Bool, true, false, not, ◌&&◌, List, [], ◌∷◌, ◌++◌, Option, none, some,
  ltb, leb, ◌==◌, if◌then◌else◌, update, length, get_elem?, exists,
}
use fibratus.Event.{Event, Metadata}
use fibratus.Event.Types.{EventType, terminate_process, create_process, create_thread}
use fibratus.Sequence.{Trigger, SequenceState, World, Env, Sequence}
use fibratus.Sequence.Machine.{
  max_outstanding_partials, max_sequence_partial_lifetime, set_in_expired, expired_or, or_unchanged,
  fire_trigger,
}

-- `sort.Slice` by the timestamps. Go leaves the order of equal ones open; here they keep theirs.
unfoldable pub insert_sorted : Event → List Event → List Event
insert_sorted e [] = e ∷ []
insert_sorted e (p ∷ ps) =
    let rest = insert_sorted e ps in if ltb p.timestamp e.timestamp then p ∷ rest else e ∷ p ∷ ps

unfoldable pub sort_slot : List Event → List Event
sort_slot [] = []
sort_slot (p ∷ ps) = insert_sorted p (sort_slot ps)

unfoldable pub add_key : ℕ → List ℕ → List ℕ
add_key k ks = if exists (λ j. j == k) ks then ks else ks ++ k ∷ []

module _ (env : Env) where
  -- Whether the slot has an event with the same key already; a key of 0 is no key.
  unfoldable pub is_known : Event → List Event → Bool
  is_known e slot =
      not (env.partial_key e == 0) && exists (λ p. env.partial_key e == env.partial_key p) slot

  unfoldable pub add_partial : ℕ → Event → Bool → World → World
  add_partial i e is_ooo w =
      if ltb max_outstanding_partials (length (w.ss.partials i))
      then record w { ss = record w.ss { is_partials_breached = true } }
      else if is_known e (w.ss.partials i)
      then w
      else record {
        ss = record w.ss {
          partials = update w.ss.partials i (sort_slot (w.ss.partials i ++ e ∷ []));
          keys = add_key i w.ss.keys;
        };
        meta = if is_ooo then record w.meta { ooo = update w.meta.ooo e.ref true } else w.meta;
      }

-- `append(l[:i], l[i+1:]...)`
unfoldable pub remove_at {ℓ} : {A : Type ℓ} → ℕ → List A → List A
remove_at i [] = []
remove_at zero (x ∷ xs) = xs
remove_at (suc i) (x ∷ xs) = x ∷ remove_at i xs

unfoldable pub is_too_old : ℕ → ℕ → Event → Bool
is_too_old now dur e = ltb dur (now - e.timestamp)

unfoldable pub passes {ℓ} : {A : Type ℓ} → (A → Bool) → Option A → Bool
passes p none = false
passes p (some x) = p x

-- The loop over one slot, from its last event down to the first; `n` events are left to look at.
unfoldable pub gc_slot : (Event → Bool) → ℕ → List Event → List Event
gc_slot old zero l = l
gc_slot old (suc i) l = gc_slot old i (if passes old (get_elem? l i) then remove_at i l else l)

-- The loop over the slots, in any order: each is collected by itself.
unfoldable pub gc_slots : (Event → Bool) → List ℕ → (ℕ → List Event) → ℕ → List Event
gc_slots old [] m = m
gc_slots old (i ∷ order) m = gc_slots old order (update m i (gc_slot old (length (m i)) (m i)))

unfoldable pub slots : ℕ → List ℕ
slots zero = []
slots (suc n) = slots n ++ n ∷ []

module _ (env : Env) (q : Sequence) where
  unfoldable pub lifetime : ℕ
  lifetime = if q.max_span == 0 then max_sequence_partial_lifetime else q.max_span

  unfoldable pub gc : ℕ → SequenceState → SequenceState
  gc now s = record s {
    partials = gc_slots (is_too_old now lifetime) (env.map_order (slots q.size)) s.partials;
  }

unfoldable pub is_terminate_process : EventType → Bool
is_terminate_process terminate_process = true
is_terminate_process _ = false

-- What the end of a process has to do with a partial `lhs`: `pid` is that process.
unfoldable pub can_expire_type : EventType → Event → ℕ → Bool → Bool
can_expire_type create_process lhs pid is_final =
    if is_final then lhs.param_pid == pid else lhs.pid == pid
can_expire_type create_thread lhs pid is_final =
    if not (lhs.pid == lhs.param_pid) then lhs.param_pid == pid else lhs.pid == pid
can_expire_type _ lhs pid is_final = lhs.pid == pid

unfoldable pub can_expire : Event → Event → Bool → Bool
can_expire lhs rhs is_final = can_expire_type lhs.type lhs rhs.param_pid is_final

unfoldable pub is_empty {ℓ} : {A : Type ℓ} → List A → Bool
is_empty [] = true
is_empty (_ ∷ _) = false

module _ (env : Env) (q : Sequence) where
  -- All partials of a slot are gone: the machine goes to the expired state and is reset.
  unfoldable pub retract : SequenceState → SequenceState
  retract s =
      let s1 = set_in_expired true s in
      let s2 = expired_or (fire_trigger env q Trigger.expire s1) s1 in
      or_unchanged (fire_trigger env q Trigger.reset s2) s2

  -- One slot, from its last event down; true means that the slot ran empty and the call returned.
  unfoldable pub expire_slot : Event → ℕ → ℕ → SequenceState → Bool × SequenceState
  expire_slot e idx zero s = (false, s)
  expire_slot e idx (suc i) s =
      let s' = record s { partials = update s.partials idx (remove_at i (s.partials idx)) } in
      let kept = expire_slot e idx i s in
      let removed = expire_slot e idx i s' in
      if passes (λ p. can_expire p e (idx == q.size - 1)) (get_elem? (s.partials idx) i)
      then (if is_empty (s'.partials idx) then (true, retract s') else removed)
      else kept

  unfoldable pub expire_slots : Event → List ℕ → SequenceState → Bool × SequenceState
  expire_slots e [] s = (false, s)
  expire_slots e (idx ∷ order) s =
      let (done, s') = expire_slot e idx (length (s.partials idx)) s in
      let rest = expire_slots e order s' in if done then (true, s') else rest

  unfoldable pub expire : Event → SequenceState → Bool × SequenceState
  expire e s =
      if not (is_terminate_process e.type)
      then (false, s)
      else expire_slots e (env.map_order (slots q.size)) s
