-- ===== src/Sequence/Partials/Owners.antt =====
-- pkg/rules/sequence.go: which process a partial waits for, and lemmas on what a loop over the slots
-- leaves of them.
use mathlib.Core.Bool.{false≢true}
use fibratus.Prelude.{
  reject, ℕ, ◌-◌, ◌≡◌, refl, sym, ap, ◌∙◌, Bool, true, false, not, ◌&&◌, List, [], ◌∷◌, ◌==◌,
  ==_iff, if◌then◌else◌, update, arith, Bool-cases, inl, inr,
}
use fibratus.Event.{Event}
use fibratus.Event.Types.{EventType, create_process, create_thread}
use fibratus.Sequence.{SequenceState, Sequence}
use fibratus.Sequence.Partials.{can_expire, can_expire_type, is_empty}
use fibratus.Sequence.Partials.Collecting.{back}

abbrev makes_process : EventType → Bool
makes_process create_process = true
makes_process _ = false

abbrev makes_thread : EventType → Bool
makes_thread create_thread = true
makes_thread _ = false

-- The process whose end a partial waits for: the new process, in the last slot, of the event that
-- creates it, the other process of an event that creates a remote thread, and else its own.
abbrev pub owner : Bool → Event → ℕ
owner is_final p =
    if makes_process p.type && is_final
    then p.param_pid
    else if makes_thread p.type && not (p.pid == p.param_pid)
    then p.param_pid
    else p.pid

pub can_expire-owner :
    (p e : Event) (is_final : Bool) → can_expire p e is_final ≡ (owner is_final p == e.param_pid)
unfolding can_expire can_expire_type
can_expire-owner p e is_final = go p.type is_final
  where
    go :
        (t : EventType) (b : Bool)
        → can_expire_type t p e.param_pid b ≡ (
            (if makes_process t && b
              then p.param_pid
              else if makes_thread t && not (p.pid == p.param_pid)
              then p.param_pid
              else p.pid)
            == e.param_pid)
    go create_process true = refl
    go create_process false = refl
    go create_thread b = ground arith
    go _ b = refl

-- The partials of slot `idx` that the end of the process `pid` takes away.
abbrev pub belongs : Sequence → ℕ → ℕ → Event → Bool
belongs q pid idx p = owner (idx == q.size - 1) p == pid

-- The call goes on, nothing but the partials changes, and slot `j` has the partials `m j`.
pub record Left (s : SequenceState) (m : ℕ → List Event) (o : Bool × SequenceState) : Type 0 where
  pub goes_on : o.0 ≡ false
  pub partials : (j : ℕ) → o.1.partials j ≡ m j
  pub others : o.1 ≡ record s { partials = o.1.partials }

pub not_empty : (r : List Event) (x : Event) (ys : List Event) → is_empty (back r (x ∷ ys)) ≡ false
unfolding is_empty
not_empty [] x ys = refl
not_empty (y ∷ r) x ys = not_empty r y (x ∷ ys)

pub not_empty-back :
    (p : Event → Bool) (r ys : List Event)
    → is_empty (back (reject p r) ys) ≡ false
    → is_empty (back r ys) ≡ false
not_empty-back p [] ys h = h
not_empty-back p (x ∷ r) ys h = not_empty r x ys

pub update_twice :
    (m : ℕ → List Event) (i : ℕ) (a b : List Event) (j : ℕ)
    → update (update m i a) i b j ≡ update m i b j
update_twice m i a b j = elim (Bool-cases (i == j)) [
  | inl same ↦ rw same refl
  | inr other ↦ rw other refl
]

-- Where a list was filtered, for one slot.
pub update-reject :
    (p : ℕ → Event → Bool) (m : ℕ → List Event) (i j : ℕ)
    → update m i (reject (p i) (m i)) j ≡ (if i == j then reject (p j) (m j) else m j)
update-reject p m i j = elim (Bool-cases (i == j)) [
  | inl same ↦ rw same (ap (λ k. reject (p k) (m k)) ((==_iff i j).0 same))
  | inr other ↦ rw other refl
]

pub empty-nil : (l : List Event) → is_empty l ≡ true → l ≡ []
unfolding is_empty
empty-nil [] h = refl
empty-nil (x ∷ l) h = absurd (false≢true h)

pub update_same :
    (m : ℕ → List Event) (i : ℕ) (a : List Event) (j : ℕ) → m i ≡ a → m j ≡ update m i a j
update_same m i a j h = elim (Bool-cases (i == j)) [
  | inl same ↦ rw same (ap m (sym ((==_iff i j).0 same)) ∙ h)
  | inr other ↦ rw other refl
]
