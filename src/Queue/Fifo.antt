-- ===== src/Queue/Fifo.antt =====
-- pkg/event/stackwalk.go: the buckets are queues, one for each stack identifier.
use mathlib.Core.List.{append-nil, append_assoc}
use fibratus.Prelude.{
  ℕ, ◌≡◌, refl, sym, ap, ◌∙◌, true, false, List, [], ◌∷◌, ◌++◌, Option, none, some, if◌then◌else◌,
  Bool-cases, inl, inr, ◌==◌, ==_iff, update_self, subst, arith,
}
use fibratus.Event.{Event}
use fibratus.Queue.Decorator.{
  State, appended, stack_id, is_surrogate_process, set_bucket, set_proc, set_stack, hold,
  is_create_remote_thread,
}
use fibratus.Queue.Push.{contents, Config, Popped, pop, pop_from, decorate}

-- The events of one stack identifier, in their order.
unfoldable pub of_stack : ℕ → List Event → List Event
of_stack id [] = []
of_stack id (e ∷ es) = if stack_id e == id then e ∷ of_stack id es else of_stack id es

appended-contents : (q : Option (List Event)) (e : Event) → appended q e ≡ contents q ++ e ∷ []
unfolding appended contents
appended-contents none e = refl
appended-contents (some q) e = refl

of_stack-cons :
    (e : Event) (es : List Event) (id : ℕ)
    → (if stack_id e == id then e ∷ [] else []) ++ of_stack id es ≡ of_stack id (e ∷ es)
unfolding of_stack
of_stack-cons e es id =
    elim (stack_id e == id)
      as (λ b.
        (if b then e ∷ [] else []) ++ of_stack id es
        ≡ (if b then e ∷ of_stack id es else of_stack id es)) [ true ↦ refl | false ↦ refl ]

module _ {S : Type 0} where
  -- The events come one after the other.
  unfoldable pub hold_all : State S → List Event → State S
  unfolding hold
  hold_all s [] = s
  hold_all s (e ∷ es) = hold_all (hold s e) es

  set_bucket-contents :
      (s : State S) (e : Event) (id : ℕ)
      → contents
          ((set_bucket s (stack_id e) (some (appended (s.buckets (stack_id e)) e))).buckets id)
        ≡ contents (s.buckets id) ++ (if stack_id e == id then e ∷ [] else [])
  unfolding set_bucket contents
  set_bucket-contents s e id = elim (Bool-cases (stack_id e == id)) [
    | inl y ↦ rw y (
        appended-contents (s.buckets (stack_id e)) e
        ∙ ap (λ i. contents (s.buckets i) ++ e ∷ []) ((==_iff (stack_id e) id).0 y))
    | inr n ↦ rw n (sym (append-nil (contents (s.buckets id))))
  ]

  hold-contents :
      (s : State S) (e : Event) (id : ℕ)
      → contents ((hold s e).buckets id)
        ≡ contents (s.buckets id) ++ (if stack_id e == id then e ∷ [] else [])
  unfolding hold set_proc
  hold-contents s e id =
      elim (is_surrogate_process e)
        as (λ b.
          let s1 = if b then set_proc s (e.param_pid) (some e) else s in
          contents
            ((set_bucket s1 (stack_id e) (some (appended (s1.buckets (stack_id e)) e))).buckets id)
          ≡ contents (s.buckets id) ++ (if stack_id e == id then e ∷ [] else [])) [
            | true ↦ set_bucket-contents (set_proc s (e.param_pid) (some e)) e id
            | false ↦ set_bucket-contents s e id
          ]

  -- After any events were held back, one after the other, the bucket of each stack identifier
  -- is what it was followed by the events of that identifier, in their order.
  pub hold_all-of_stack :
      (s : State S) (es : List Event) (id : ℕ)
      → contents ((hold_all s es).buckets id) ≡ contents (s.buckets id) ++ of_stack id es
  unfolding hold_all of_stack
  hold_all-of_stack s [] id = sym (append-nil (contents (s.buckets id)))
  hold_all-of_stack s (e ∷ es) id =
      hold_all-of_stack (hold s e) es id
      ∙ ap (λ q. q ++ of_stack id es) (hold-contents s e id)
      ∙ append_assoc (contents (s.buckets id)) (if stack_id e == id then e ∷ [] else [])
          (of_stack id es)
      ∙ ap (λ q. contents (s.buckets id) ++ q) (of_stack-cons e es id)

module _ {S : Type 0} where
  hold-stacks : (s : State S) (e : Event) → (hold s e).stacks ≡ s.stacks
  unfolding hold set_bucket set_proc
  hold-stacks s e = ground arith

  hold_all-stacks : (s : State S) (es : List Event) → (hold_all s es).stacks ≡ s.stacks
  unfolding hold_all
  hold_all-stacks s [] = refl
  hold_all-stacks s (e ∷ es) = hold_all-stacks (hold s e) es ∙ hold-stacks s e

contents-some :
    (q : Option (List Event)) (e : Event) (rest : List Event)
    → contents q ≡ e ∷ rest
    → q ≡ some (e ∷ rest)
unfolding contents
contents-some none e rest h = ground arith
contents-some (some q) e rest h = ap some h

module _ {S : Type 0} where
  -- The event is given back with the callstack, and each bucket holds what it is said to.
  pub record Taken (stack : Option (List ℕ)) (evt : Event) (left : ℕ → List Event) (o : Popped S)
      : Type 0 where
    pub after : State S
    pub outcome : o ≡ Popped.popped after evt
    pub gained : after.stacks (evt.ref) ≡ stack
    pub leaves : (id : ℕ) → contents (after.buckets id) ≡ left id

module _ {S : Type 0} (cf : Config S) where
  decorate-Taken :
      (s : State S) (stack : Option (List ℕ)) (evt : Event)
      → is_create_remote_thread evt ≡ false
      → Taken stack evt (λ id. contents (s.buckets id)) (decorate cf s stack evt)
  unfolding decorate set_stack set_proc
  decorate-Taken s stack evt h = rw h (record {
    after = _;
    outcome = refl;
    gained =
        update_self
          ((if is_surrogate_process evt then set_proc s (evt.param_pid) none else s).stacks)
          (evt.ref) stack;
    leaves = λ id.
        elim (is_surrogate_process evt)
          as (λ b.
            contents ((if b then set_proc s (evt.param_pid) none else s).buckets id)
            ≡ contents (s.buckets id)) [ true ↦ refl | false ↦ refl ];
  })

  -- After any events were held back, one after the other, `Pop` takes the first of what the
  -- bucket of the stack walk held and the new events of its stack identifier, in this order,
  -- when that event is not the creation of a remote thread: it gives the event back with the
  -- callstack of the stack walk, leaves the rest in its order, and every other bucket as it
  -- was, followed by the new events of its own identifier.
  pub pop-hold_all :
      (s : State S) (es : List Event) (walk evt : Event) (rest : List Event)
      → contents (s.buckets (stack_id walk)) ++ of_stack (stack_id walk) es ≡ evt ∷ rest
      → is_create_remote_thread evt ≡ false
      → Taken
          (s.stacks (walk.ref))
          evt
          (λ id. if stack_id walk == id then rest else contents (s.buckets id) ++ of_stack id es)
          (pop cf (hold_all s es) walk)
  unfolding pop set_bucket contents
  pop-hold_all s es walk evt rest h local =
      let t = hold_all s es in
      let q : t.buckets (stack_id walk) ≡ some (evt ∷ rest) =
        contents-some _ evt rest (hold_all-of_stack s es (stack_id walk) ∙ h) in
      subst
        (λ b.
          Taken (s.stacks (walk.ref)) evt
            (λ id. if stack_id walk == id then rest else contents (s.buckets id) ++ of_stack id es)
            (pop_from cf t walk b))
        (sym q) (unfold pop_from in taken)
    where
      taken :
          Taken
            (s.stacks (walk.ref))
            evt
            (λ id. if stack_id walk == id then rest else contents (s.buckets id) ++ of_stack id es)
            (decorate cf
              (set_bucket (hold_all s es) (stack_id walk) (some rest))
              ((hold_all s es).stacks (walk.ref))
              evt)
      taken =
          let t = hold_all s es in
          let r =
            decorate-Taken (set_bucket t (stack_id walk) (some rest)) (t.stacks (walk.ref)) evt
              local in
          record {
            after = r.after;
            outcome = r.outcome;
            gained = r.gained ∙ ap (λ m. m (walk.ref)) (hold_all-stacks s es);
            leaves = λ id.
                r.leaves id
                ∙ elim (stack_id walk == id)
                    as (λ b.
                      contents (if b then some rest else t.buckets id)
                      ≡ (if b then rest else contents (s.buckets id) ++ of_stack id es)) [
                        | true ↦ refl
                        | false ↦ hold_all-of_stack s es id
                      ];
          }
