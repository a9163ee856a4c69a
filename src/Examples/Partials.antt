-- ===== src/Examples/Partials.antt =====
-- pkg/rules/sequence.go: the partials of the sequence of three expressions.
use fibratus.Prelude.{
  ◌≡◌, refl, List, [], ◌∷◌, ltb, if◌then◌else◌, arith, reject, true, false, ◌==◌,
}
use fibratus.Event.{Event}
use fibratus.Event.Types.{EventType}
use fibratus.Sequence.{SequenceState}
use fibratus.Sequence.Machine.{new_sequence_state}
use fibratus.Sequence.Partials.{
  can_expire, can_expire_type, expire, expire_slots, expire_slot, passes, slots, remove_at,
  is_empty, is_terminate_process, insert_sorted, sort_slot, add_partial, gc, lifetime, is_too_old,
}
use fibratus.Sequence.Partials.Placing.{Placed, add_partial-Placed}
use fibratus.Sequence.Partials.Owners.{Left, belongs}
use fibratus.Sequence.Partials.Expiring.{expire-Left}
use fibratus.Sequence.Partials.Adding.{IsSlot, add_partial-IsSlot}
use fibratus.Sequence.Partials.Collecting.{gc-reject}
use fibratus.Examples.Sequences.{event, env, three, start}

abbrev late_first : List Event
late_first = event 1 20 ∷ event 0 10 ∷ []

test_sorted : sort_slot late_first ≡ event 0 10 ∷ event 1 20 ∷ []
unfolding sort_slot insert_sorted
test_sorted = refl

add_partial-Placed_example :
    Placed env 1 (event 1 20) start (add_partial env 1 (event 1 20) false start)
unfolding new_sequence_state
add_partial-Placed_example = add_partial-Placed env 1 (event 1 20) false start (λ j. tt)

add_partial-IsSlot_example : IsSlot env ((add_partial env 1 (event 1 20) false start).ss.partials 1)
unfolding new_sequence_state
add_partial-IsSlot_example =
    add_partial-IsSlot env 1 (event 1 20) false start
      (λ j. record { in_order = tt; distinct = tt; bounded = omega arith }) 1

abbrev holding : SequenceState
holding = record new_sequence_state { partials = λ n. late_first }

-- One minute and ten nanoseconds later the first event is too old.
gc-reject_example : (gc env three 60000000015 holding).partials 0 ≡ (
    if ltb 0 3 then reject (is_too_old 60000000015 (lifetime env three)) late_first else late_first)
gc-reject_example = gc-reject env three (record { visits = λ l j. refl }) 60000000015 holding 0

-- The process 12 ends, which the new thread in the first slot, and nothing else, waits for.
abbrev thread : Event
thread = record (event 3 25) { type = EventType.create_thread }

abbrev threads : SequenceState
threads = record new_sequence_state {
  partials = λ n. if n == 0 then event 0 10 ∷ thread ∷ [] else late_first;
}

abbrev ends : Event
ends = record (event 5 30) { type = EventType.terminate_process }

test_expire : (expire env three ends threads).1.partials 0 ≡ event 0 10 ∷ []
unfolding expire expire_slots expire_slot passes slots remove_at is_empty can_expire can_expire_type
    is_terminate_process
test_expire = refl

expire-Left_example :
    Left threads
      (λ j.
        if ltb j 3 then reject (belongs three 12 j) (threads.partials j) else threads.partials j)
      (expire env three ends threads)
unfolding is_terminate_process is_empty
expire-Left_example =
    expire-Left env three ends (record { visits = λ l j. refl }) threads refl
      (λ i.
        elim (i == 0)
          as (λ b.
            let l = if b then event 0 10 ∷ thread ∷ [] else late_first in
            is_empty l ≡ is_empty (reject (belongs three 12 i) l)) [ true ↦ refl | false ↦ refl ])
