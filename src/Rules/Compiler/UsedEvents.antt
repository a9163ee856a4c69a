-- ===== src/Rules/Compiler/UsedEvents.antt =====
-- The summary of the rules says of each group of events whether a type of the group is used.
use Prim.Native.String.{String}
use mathlib.Core.Bool.{false≢true}
use fibratus.Prelude.{
  ℕ, ◌≡◌, refl, ap, sym, ◌∙◌, Bool, true, false, ◌||◌, Bool-cases, inl, inr, List, [], ◌∷◌, ◌++◌,
  subst, exists, if◌then◌else◌, ◌+◌,
}
use fibratus.Event.Types.{EventType}
use fibratus.Event.Types.Guids.{id, hook_id, bytes}
use fibratus.Event.Types.Names.{includes, name_to_types}
use fibratus.Event.Types.Unique.{id-injective}
use fibratus.Event.Values.{eq_text}
use fibratus.Event.Values.Equal.{eq_text_same}
use fibratus.Rules.{Field, Rule}
use fibratus.Rules.Compiler.{
  Summary, no_summary, note_type, note_types, note_values, note_fields, note_rules,
  build_compile_result,
}
use fibratus.Rules.Compiler.Flags.{Group, has, is_of, used-note_type, has-note_type}

-- What a summary says is so of the types that are used.
abbrev pub IsSummary : Summary → Type 0
IsSummary s = (g : Group) → has g s ≡ exists (is_of g) s.used_events

bytes-injective : (s t : EventType) → bytes s ≡ bytes t → s ≡ t
bytes-injective s t h = id-injective s t (unfold id hook_id in cc h)

or_second : (b c : Bool) → c ≡ true → (b || c) ≡ true
or_second true c h = refl
or_second false c h = h

exists-includes :
    (p : EventType → Bool) (t : EventType) (l : List EventType)
    → includes t l ≡ true
    → p t ≡ true
    → exists p l ≡ true
unfolding includes
exists-includes p t [] h e = absurd (false≢true h)
exists-includes p t (u ∷ l) h e = elim (Bool-cases (eq_text (bytes t) (bytes u))) [
  | inl y ↦
      let same = bytes-injective t u (eq_text_same (bytes t) (bytes u) y) in
      rw (ap p (sym same) ∙ e) refl
  | inr n ↦
      let rest : includes t l ≡ true = subst (λ c. (c || includes t l) ≡ true) n h in
      or_second (p u) (exists p l) (exists-includes p t l rest e)
]

exists-behind :
    (p : EventType → Bool) (l : List EventType) (t : EventType)
    → exists p (l ++ t ∷ []) ≡ (p t || exists p l)
exists-behind p [] t = refl
exists-behind p (u ∷ l) t = rw (exists-behind p l t) (swap (p u) (p t) (exists p l))
  where
    swap : (a b c : Bool) → (a || (b || c)) ≡ (b || (a || c))
    swap true true c = refl
    swap true false c = refl
    swap false b c = refl

listed :
    (p : EventType → Bool) (t : EventType) (l : List EventType)
    → exists p (if includes t l then l else l ++ t ∷ []) ≡ (p t || exists p l)
listed p t l = elim (Bool-cases (includes t l)) [
  | inl y ↦ elim (Bool-cases (p t)) [
    | inl e ↦ rw (y, e) (exists-includes p t l y e)
    | inr n ↦ rw (y, n) refl
  ]
  | inr n ↦ rw n (exists-behind p l t)
]

note_type-IsSummary : (t : EventType) (s : Summary) → IsSummary s → IsSummary (note_type t s)
note_type-IsSummary t s h g =
    has-note_type g t s
    ∙ (ap (λ b. is_of g t || b) (h g)
        ∙ (sym (listed (is_of g) t s.used_events)
            ∙ ap (exists (is_of g)) (sym (used-note_type t s))))

note_types-IsSummary :
    (ts : List EventType) (s : Summary) → IsSummary s → IsSummary (note_types ts s)
unfolding note_types
note_types-IsSummary [] s h = h
note_types-IsSummary (t ∷ ts) s h =
    note_types-IsSummary ts (note_type t s) (note_type-IsSummary t s h)

note_values-IsSummary :
    (vs : List String) (s : Summary) → IsSummary s → IsSummary (note_values vs s)
unfolding note_values
note_values-IsSummary [] s h = h
note_values-IsSummary (v ∷ vs) s h =
    note_values-IsSummary vs _ (note_types-IsSummary (name_to_types v) s h)

note_fields-IsSummary :
    (fields : List (Field × List String)) (s : Summary)
    → IsSummary s
    → IsSummary (note_fields fields s)
unfolding note_fields
note_fields-IsSummary [] s h = h
note_fields-IsSummary ((Field.evt_name, vs) ∷ fields) s h =
    note_fields-IsSummary fields _ (note_values-IsSummary vs s h)
note_fields-IsSummary ((Field.evt_category, vs) ∷ fields) s h =
    note_fields-IsSummary fields _ (note_values-IsSummary vs s h)
note_fields-IsSummary ((_, vs) ∷ fields) s h = note_fields-IsSummary fields s h

has-number_rules :
    (g : Group) (n : ℕ) (s : Summary) → has g (record s { number_rules = n }) ≡ has g s
unfolding has
has-number_rules Group.dns n s = refl
has-number_rules _ n s = refl

note_rules-IsSummary : (rs : List Rule) (s : Summary) → IsSummary s → IsSummary (note_rules rs s)
unfolding note_rules
note_rules-IsSummary [] s h = h
note_rules-IsSummary (r ∷ rs) s h =
    note_rules-IsSummary rs _
      (note_fields-IsSummary r.fields _ (λ g. has-number_rules g (s.number_rules + 1) s ∙ h g))

no_summary-IsSummary : IsSummary no_summary
unfolding has
no_summary-IsSummary Group.dns = refl
no_summary-IsSummary _ = refl

-- For any rules, the summary says of each group of events (those of a category, of DNS, of mapped
-- views, of the audit API) that the rules need it just when one of the event types that it lists
-- is of that group.
pub build_compile_result-IsSummary : (rs : List Rule) → IsSummary (build_compile_result rs)
unfolding build_compile_result
build_compile_result-IsSummary rs = note_rules-IsSummary rs no_summary no_summary-IsSummary
