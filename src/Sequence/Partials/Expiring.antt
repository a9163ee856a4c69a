-- ===== src/Sequence/Partials/Expiring.antt =====
-- pkg/rules/sequence.go: `expire`, which removes by index the partials of a process that has ended.
use fibratus.Prelude.{
  reject, reject_idem, ℕ, suc, ◌≡◌, refl, sym, ap, ◌∙◌, subst, Bool, true, false, ◌||◌, List, [],
  ◌∷◌, some, ltb, ◌-◌, ◌==◌, if◌then◌else◌, update, update_self, exists, length, get_elem?, arith,
  Bool-cases, inl, inr,
}
use fibratus.Event.{Event}
use fibratus.Sequence.{SequenceState, Env, Sequence}
use fibratus.Sequence.Partials.{
  remove_at, passes, slots, is_empty, expire_slot, expire_slots, expire, is_terminate_process,
  retract,
}
use fibratus.Sequence.Partials.Collecting.{
  back, get_elem?-here, remove_at-here, back-reverse, length-back, reject-back, VisitsAll,
  exists-slots,
}
use fibratus.Sequence.Partials.Owners.{
  belongs, can_expire-owner, Left, not_empty, not_empty-back, update_twice, update-reject,
  empty-nil, update_same,
}

module _ (env : Env) (q : Sequence) (e : Event) where
  abbrev without : ℕ → ℕ → SequenceState → SequenceState
  without idx i s = record s { partials = update s.partials idx (remove_at i (s.partials idx)) }

  without-back :
      (idx : ℕ) (x : Event) (r ys : List Event) (s : SequenceState)
      → s.partials idx ≡ back r (x ∷ ys)
      → (without idx (length r) s).partials idx ≡ back r ys
  without-back idx x r ys s h =
      update_self s.partials idx (remove_at (length r) (s.partials idx))
      ∙ (ap (remove_at (length r)) h ∙ remove_at-here r x ys)

  -- One round of the loop over a slot, at an event that goes.
  expire_slot_round :
      (idx : ℕ) (x : Event) (r ys : List Event) (s : SequenceState)
      → s.partials idx ≡ back r (x ∷ ys)
      → expire_slot env q e idx (suc (length r)) s ≡ (
          if belongs q e.param_pid idx x
          then (if is_empty (back r ys)
              then (true, retract env q (without idx (length r) s))
              else expire_slot env q e idx (length r) (without idx (length r) s))
          else expire_slot env q e idx (length r) s)
  unfolding expire_slot passes
  expire_slot_round idx x r ys s h =
      let found : get_elem? (s.partials idx) (length r) ≡ some x =
        ap (λ l. get_elem? l (length r)) h ∙ get_elem?-here r x ys in
      rw (found, can_expire-owner x e (idx == q.size - 1), without-back idx x r ys s h) refl

  expire_slot-back :
      (idx : ℕ) (r ys : List Event) (s : SequenceState)
      → s.partials idx ≡ back r ys
      → is_empty (back (reject (belongs q e.param_pid idx) r) ys) ≡ false
      → Left s
          (update s.partials idx (back (reject (belongs q e.param_pid idx) r) ys))
          (expire_slot env q e idx (length r) s)
  expire_slot-back idx [] ys s h k = record {
    goes_on = unfold expire_slot in refl;
    partials = unfold expire_slot in λ j. update_same s.partials idx ys j h;
    others = unfold expire_slot in refl;
  }
  expire_slot-back idx (x ∷ r) ys s h k = elim (Bool-cases (belongs q e.param_pid idx x)) [
    | inl on ↦
        let p = belongs q e.param_pid idx in
        let some_left : is_empty (back (reject p r) ys) ≡ false =
          subst (λ b. is_empty (back (if b then reject p r else x ∷ reject p r) ys) ≡ false) on k in
        let o =
          expire_slot-back idx r ys (without idx (length r) s) (without-back idx x r ys s h)
            some_left in
        rw (expire_slot_round idx x r ys s h, on, not_empty-back p r ys some_left)
          (record {
            goes_on = o.goes_on;
            partials = λ j.
                o.partials j
                ∙ update_twice s.partials idx (remove_at (length r) (s.partials idx))
                    (back (reject p r) ys) j;
            others = o.others;
          })
    | inr off ↦
        let p = belongs q e.param_pid idx in
        rw (expire_slot_round idx x r ys s h, off)
          (expire_slot-back idx r (x ∷ ys) s h (not_empty (reject p r) x ys))
  ]

  -- The slot does not run empty: it is empty before, or some partial stays.
  abbrev pub Stays : SequenceState → ℕ → Type 0
  Stays s idx =
      is_empty (s.partials idx) ≡ is_empty (reject (belongs q e.param_pid idx) (s.partials idx))

  expire_slot-Left :
      (idx : ℕ) (s : SequenceState)
      → Stays s idx
      → Left s
          (update s.partials idx (reject (belongs q e.param_pid idx) (s.partials idx)))
          (expire_slot env q e idx (length (s.partials idx)) s)
  expire_slot-Left idx s h = elim (Bool-cases (is_empty (s.partials idx))) [
    | inl empty ↦
        let nil : s.partials idx ≡ [] = empty-nil (s.partials idx) empty in
        rw nil (record {
          goes_on = unfold expire_slot in refl;
          partials = unfold expire_slot in λ j. update_same s.partials idx [] j nil;
          others = unfold expire_slot in refl;
        })
    | inr full ↦
        let p = belongs q e.param_pid idx in
        let l = s.partials idx in
        let r = back l [] in
        let whole : back r [] ≡ l = back-reverse l in
        let kept : back (reject p r) [] ≡ reject p l =
          sym (reject-back p r []) ∙ ap (reject p) whole in
        let size : length r ≡ length l = length-back l [] ∙ omega arith in
        subst (λ n. Left s (update s.partials idx (reject p l)) (expire_slot env q e idx n s)) size
          (subst (λ k. Left s (update s.partials idx k) (expire_slot env q e idx (length r) s)) kept
            (expire_slot-back idx r [] s (sym whole) (ap is_empty kept ∙ sym h ∙ full)))
  ]

  -- What two passes over slots do to one slot.
  filtered_twice :
      (p : Event → Bool) (l : List Event) (a b : Bool)
      → (if b then reject p (if a then reject p l else l) else if a then reject p l else l)
        ≡ (if a || b then reject p l else l)
  filtered_twice p l true true = reject_idem p l
  filtered_twice p l true false = refl
  filtered_twice p l false b = refl

  still_Stays :
      (idx : ℕ) (s s' : SequenceState)
      → ((i : ℕ) → Stays s i)
      → ((j : ℕ)
          → s'.partials j
            ≡ (if idx == j then reject (belongs q e.param_pid j) (s.partials j) else s.partials j))
      → (i : ℕ) → Stays s' i
  still_Stays idx s s' h here i =
      let p = belongs q e.param_pid i in
      let l = s.partials i in
      subst (λ m. is_empty m ≡ is_empty (reject p m)) (sym (here i))
        (elim (idx == i)
          as (λ b.
            is_empty (if b then reject p l else l)
            ≡ is_empty (reject p (if b then reject p l else l))) [
              | true ↦ ap is_empty (sym (reject_idem p l))
              | false ↦ h i
            ])

  chain-Left :
      (idx : ℕ) (order : List ℕ) (s s' : SequenceState) (o : Bool × SequenceState)
      → ((j : ℕ)
          → s'.partials j
            ≡ (if idx == j then reject (belongs q e.param_pid j) (s.partials j) else s.partials j))
      → s' ≡ record s { partials = s'.partials }
      → Left s'
          (λ j.
            if exists (λ i. i == j) order
            then reject (belongs q e.param_pid j) (s'.partials j)
            else s'.partials j)
          o
      → Left s
          (λ j.
            if exists (λ i. i == j) (idx ∷ order)
            then reject (belongs q e.param_pid j) (s.partials j)
            else s.partials j)
          o
  chain-Left idx order s s' o here others l = record {
    goes_on = l.goes_on;
    partials = λ j.
        let p = belongs q e.param_pid j in
        let b = exists (λ i. i == j) order in
        l.partials j
        ∙ ap (λ m. if b then reject p m else m) (here j)
        ∙ filtered_twice p (s.partials j) (idx == j) b;
    others = l.others ∙ ap (λ (x : SequenceState). record x { partials = o.1.partials }) others;
  }

  expire_slots-Left :
      (order : List ℕ) (s : SequenceState)
      → ((i : ℕ) → Stays s i)
      → Left s
          (λ j.
            if exists (λ i. i == j) order
            then reject (belongs q e.param_pid j) (s.partials j)
            else s.partials j)
          (expire_slots env q e order s)
  unfolding expire_slots
  expire_slots-Left [] s h = record { goes_on = refl; partials = λ j. refl; others = refl }
  expire_slots-Left (idx ∷ order) s h =
      let o = expire_slot-Left idx s (h idx) in
      let s' = (expire_slot env q e idx (length (s.partials idx)) s).1 in
      let here : (j : ℕ)
          → s'.partials j
            ≡ (if idx == j then reject (belongs q e.param_pid j) (s.partials j) else s.partials j) =
        λ j. o.partials j ∙ update-reject (belongs q e.param_pid) s.partials idx j in
      rw o.goes_on (
        chain-Left idx order s s' (expire_slots env q e order s') here o.others
          (expire_slots-Left order s' (still_Stays idx s s' h here)))

  -- If the range over the slots visits each of them and no other, in whatever order, and no
  -- slot runs empty by it, then at the end of a process `expire` answers false and leaves in
  -- each slot of the sequence just the events that do not wait for that process, in their
  -- order, other slots as they were, and everything but the partials unchanged. An event waits
  -- for the process that it creates when it stands in the last slot, for the other process when
  -- it creates a thread in another process, and else for its own.
  pub expire-Left :
      VisitsAll env.map_order
      → (s : SequenceState) → is_terminate_process e.type ≡ true
      → ((i : ℕ) → Stays s i)
      → Left s
          (λ j.
            if ltb j q.size then reject (belongs q e.param_pid j) (s.partials j) else s.partials j)
          (expire env q e s)
  unfolding expire
  expire-Left v s t h = rw t (
      let o = expire_slots-Left (env.map_order (slots q.size)) s h in
      record {
        goes_on = o.goes_on;
        partials = λ j.
            o.partials j
            ∙ ap (λ b. if b then reject (belongs q e.param_pid j) (s.partials j) else s.partials j)
                (v.visits (slots q.size) j ∙ exists-slots q.size j);
        others = o.others;
      })
