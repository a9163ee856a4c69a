-- ===== src/Sequence/Permits.antt =====
-- The transitions that `configureFSM` (pkg/rules/sequence.go) permits, and what the state machine
-- library is relied on for.
use fibratus.Prelude.{
  ℕ, zero, suc, ◌+◌, ◌-◌, ◌≤◌, ◌<◌, ◌≡◌, refl, Bool, true, false, ◌&&◌, List, [], ◌∷◌, ◌++◌, Option,
  none, some, leb, ltb, ◌==◌, if◌then◌else◌, arith, Bool-cases, inl, inr,
}
use fibratus.Sequence.{State, slot, terminal, deadline, expired, Trigger, Permit}
use fibratus.Sequence.Machine.{configure_slot, configure_slots, configure_resets, configure_fsm}

abbrev pub same_state : State → State → Bool
same_state (slot m) (slot n) = m == n
same_state terminal terminal = true
same_state deadline deadline = true
same_state expired expired = true
same_state _ _ = false

abbrev pub same_trigger : Trigger → Trigger → Bool
same_trigger Trigger.match Trigger.match = true
same_trigger Trigger.cancel Trigger.cancel = true
same_trigger Trigger.reset Trigger.reset = true
same_trigger Trigger.expire Trigger.expire = true
same_trigger _ _ = false

-- The destination that a configuration names for a trigger in a state.
abbrev pub configured : List Permit → State → Trigger → Option State
configured [] s t = none
configured (p ∷ ps) s t =
    if same_state p.source s && same_trigger p.trigger t
    then some p.destination
    else configured ps s t

-- The library goes where the configuration says, and refuses a trigger that is not configured.
pub record FollowsPermits (fire : List Permit → State → Trigger → Option State) : Type 0 where
  pub permitted :
      (ps : List Permit) (s : State) (t : Trigger) (d : State)
      → configured ps s t ≡ some d
      → fire ps s t ≡ some d
  pub refused :
      (ps : List Permit) (s : State) (t : Trigger) → configured ps s t ≡ none → fire ps s t ≡ none

abbrev pub after_match : ℕ → ℕ → State
after_match size k = if leb (size - 1) k then terminal else slot (k + 1)

abbrev pub slot_destination : ℕ → ℕ → Trigger → Option State
slot_destination size k Trigger.match = some (after_match size k)
slot_destination size k Trigger.cancel = some deadline
slot_destination size k Trigger.expire = some expired
slot_destination size k Trigger.reset = none

configured-resets : (k : ℕ) (t : Trigger) → configured configure_resets (slot k) t ≡ none
unfolding configure_resets
configured-resets k t = refl

-- No slot resets the machine, however many slots there are.
configured-slots_reset :
    (size n i k : ℕ)
    → configured (configure_slots size n i ++ configure_resets) (slot k) Trigger.reset ≡ none
unfolding configure_slots configure_slot
configured-slots_reset size zero i k = configured-resets k Trigger.reset
configured-slots_reset size (suc n) i k = ground (arith, configured-slots_reset size n (suc i) k)

configured-slots :
    (size n i k : ℕ) (t : Trigger)
    → i ≤ k
    → k < i + n
    → configured (configure_slots size n i ++ configure_resets) (slot k) t
      ≡ slot_destination size k t
unfolding configure_slots configure_slot
configured-slots size zero i k t h h' = absurd (omega arith)
configured-slots size (suc n) i k Trigger.match h h' =
    ground (arith, configured-slots size n (suc i) k Trigger.match)
configured-slots size (suc n) i k Trigger.cancel h h' =
    ground (arith, configured-slots size n (suc i) k Trigger.cancel)
configured-slots size (suc n) i k Trigger.expire h h' =
    ground (arith, configured-slots size n (suc i) k Trigger.expire)
configured-slots size (suc n) i k Trigger.reset h h' = configured-slots_reset size (suc n) i k

-- In each slot of a sequence of any size the configuration permits a match, to the next slot or
-- from the last to the terminal state, a cancellation to the deadline state and an expiry to the
-- expired state, and no reset.
pub configured-configure_fsm :
    (size k : ℕ) (t : Trigger)
    → k < size
    → configured (configure_fsm size) (slot k) t ≡ slot_destination size k t
unfolding configure_fsm
configured-configure_fsm size k t h = configured-slots size size 0 k t (omega arith) (omega arith)

abbrev pub meta_destination : Trigger → Option State
meta_destination Trigger.reset = some (slot 0)
meta_destination _ = none

data IsMeta : State → Type 0 where
  at_terminal : IsMeta terminal
  at_deadline : IsMeta deadline
  at_expired : IsMeta expired

configured-meta :
    (size n i : ℕ) (s : State) (t : Trigger)
    → IsMeta s
    → configured (configure_slots size n i ++ configure_resets) s t ≡ meta_destination t
unfolding configure_slots configure_slot configure_resets
configured-meta size zero i s Trigger.reset at_terminal = refl
configured-meta size zero i s Trigger.match at_terminal = refl
configured-meta size zero i s Trigger.cancel at_terminal = refl
configured-meta size zero i s Trigger.expire at_terminal = refl
configured-meta size zero i s Trigger.reset at_deadline = refl
configured-meta size zero i s Trigger.match at_deadline = refl
configured-meta size zero i s Trigger.cancel at_deadline = refl
configured-meta size zero i s Trigger.expire at_deadline = refl
configured-meta size zero i s Trigger.reset at_expired = refl
configured-meta size zero i s Trigger.match at_expired = refl
configured-meta size zero i s Trigger.cancel at_expired = refl
configured-meta size zero i s Trigger.expire at_expired = refl
configured-meta size (suc n) i s t at_terminal = configured-meta size n (suc i) s t at_terminal
configured-meta size (suc n) i s t at_deadline = configured-meta size n (suc i) s t at_deadline
configured-meta size (suc n) i s t at_expired = configured-meta size n (suc i) s t at_expired

-- The three meta states only lead back to the initial state.
pub configured-terminal :
    (size : ℕ) (t : Trigger) → configured (configure_fsm size) terminal t ≡ meta_destination t
unfolding configure_fsm
configured-terminal size t = configured-meta size size 0 terminal t at_terminal

pub configured-deadline :
    (size : ℕ) (t : Trigger) → configured (configure_fsm size) deadline t ≡ meta_destination t
unfolding configure_fsm
configured-deadline size t = configured-meta size size 0 deadline t at_deadline

pub configured-expired :
    (size : ℕ) (t : Trigger) → configured (configure_fsm size) expired t ≡ meta_destination t
unfolding configure_fsm
configured-expired size t = configured-meta size size 0 expired t at_expired

-- Beyond the last slot nothing is permitted.
configured-beyond :
    (size n i k : ℕ) (t : Trigger)
    → i + n ≤ k
    → configured (configure_slots size n i ++ configure_resets) (slot k) t ≡ none
unfolding configure_slots configure_slot
configured-beyond size zero i k t h = configured-resets k t
configured-beyond size (suc n) i k Trigger.match h =
    ground (arith, configured-beyond size n (suc i) k Trigger.match)
configured-beyond size (suc n) i k Trigger.cancel h =
    ground (arith, configured-beyond size n (suc i) k Trigger.cancel)
configured-beyond size (suc n) i k Trigger.expire h =
    ground (arith, configured-beyond size n (suc i) k Trigger.expire)
configured-beyond size (suc n) i k Trigger.reset h = configured-slots_reset size (suc n) i k

-- The automaton of a sequence of `size` expressions, as a table.
abbrev pub destination : ℕ → State → Trigger → Option State
destination size (slot k) t = if ltb k size then slot_destination size k t else none
destination size terminal t = meta_destination t
destination size deadline t = meta_destination t
destination size expired t = meta_destination t

-- For a sequence of any size, every state and every trigger, the configuration permits just these
-- transitions: from each slot of the sequence a match to the next slot, or from the last to the
-- terminal state, a cancellation to the deadline state and an expiry to the expired state; from
-- the terminal, the deadline and the expired state a reset to slot 0; and from a slot beyond the
-- last nothing.
pub configured-destination :
    (size : ℕ) (s : State) (t : Trigger)
    → configured (configure_fsm size) s t ≡ destination size s t
configured-destination size (slot k) t = elim (Bool-cases (ltb k size)) [
  | inl inside ↦ rw inside (configured-configure_fsm size k t (ground arith))
  | inr outside ↦
      rw outside (unfold configure_fsm in configured-beyond size size 0 k t (ground arith))
]
configured-destination size terminal t = configured-terminal size t
configured-destination size deadline t = configured-deadline size t
configured-destination size expired t = configured-expired size t
