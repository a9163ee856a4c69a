-- ===== src/Rules/Index.antt =====
-- The index gives an event the filters of the rules that name its type or its category.
use Prim.Native.String.{String}
use mathlib.Core.Bool.{false≢true}
use mathlib.Core.List.{append_assoc, append-nil}
use fibratus.Prelude.{
  ℕ, ◌≡◌, refl, ap, sym, ◌∙◌, false, Bool-cases, inl, inr, List, [], ◌∷◌, ◌++◌, length, map, ◌==◌,
  if◌then◌else◌,
}
use fibratus.Event.{Event}
use fibratus.Event.Values.{Text, eq_text}
use fibratus.Event.Types.{EventType}
use fibratus.Event.Types.Guids.{bytes}
use fibratus.Event.Types.Traits.{category}
use fibratus.Event.Types.Names.{name_to_types}
use fibratus.Event.Bitsets.{index}
use fibratus.Sequence.Partials.{is_empty}
use fibratus.Rules.{
  Field, Rule, Filter, Tracked, Filterset, append_at, at_key, category_index, is_scoped,
  index_types, index_values, index_fields, place, track, compile_rules, new_filterset, compile,
  collect,
}
use fibratus.Rules.Keys.{
  copies, text-IsEquality, number-IsEquality, at_key-append_at, extend, none_more,
}

-- The types and the categories that a rule names.
unfoldable pub value_types : List String → List Text
value_types [] = []
value_types (v ∷ vs) = map bytes (name_to_types v) ++ value_types vs

unfoldable pub field_types : Field → List String → List Text
field_types Field.evt_name values = value_types values
field_types _ values = []

unfoldable pub field_categories : Field → List String → List ℕ
field_categories Field.evt_category values = map category_index values
field_categories _ values = []

unfoldable pub type_keys : List (Field × List String) → List Text
type_keys [] = []
type_keys ((field, values) ∷ fields) = field_types field values ++ type_keys fields

unfoldable pub category_keys : List (Field × List String) → List ℕ
category_keys [] = []
category_keys ((field, values) ∷ fields) = field_categories field values ++ category_keys fields

module _ (e : Event) where
  typed : Filterset → List Filter
  typed s = at_key eq_text (bytes e.type) s.types

  categorized : Filterset → List Filter
  categorized s = at_key ◌==◌ (index (category e.type)) s.categories

  of_type : List Text → Filter → List Filter
  of_type ks f = copies eq_text (bytes e.type) ks f

  of_category : List ℕ → Filter → List Filter
  of_category ks f = copies ◌==◌ (index (category e.type)) ks f

  at_type-index_types :
      (f : Filter) (ts : List EventType) (m : List (Text × List Filter))
      → at_key eq_text (bytes e.type) (index_types f ts m)
        ≡ at_key eq_text (bytes e.type) m ++ of_type (map bytes ts) f
  unfolding index_types of_type
  at_type-index_types f [] m = none_more eq_text (bytes e.type) f _
  at_type-index_types f (t ∷ ts) m =
      extend eq_text _ (bytes e.type) f (bytes t ∷ []) (map bytes ts)
        (at_type-index_types f ts (append_at eq_text (bytes t) f m))
        (at_key-append_at text-IsEquality (bytes e.type) (bytes t) f m)

  typed-index_values :
      (f : Filter) (field : Field) (vs : List String) (s : Filterset)
      → typed (index_values f field vs s) ≡ typed s ++ of_type (field_types field vs) f
  unfolding typed index_values field_types value_types of_type
  typed-index_values f Field.evt_name [] s = none_more eq_text (bytes e.type) f _
  typed-index_values f Field.evt_category [] s = none_more eq_text (bytes e.type) f _
  typed-index_values f Field.other [] s = none_more eq_text (bytes e.type) f _
  typed-index_values f Field.kevt_name [] s = none_more eq_text (bytes e.type) f _
  typed-index_values f Field.kevt_category [] s = none_more eq_text (bytes e.type) f _
  typed-index_values f Field.evt_name (v ∷ vs) s =
      extend eq_text _ (bytes e.type) f (map bytes (name_to_types v)) (value_types vs)
        (typed-index_values f Field.evt_name vs _) (at_type-index_types f (name_to_types v) s.types)
  typed-index_values f Field.evt_category (v ∷ vs) s = typed-index_values f Field.evt_category vs _
  typed-index_values f Field.other (v ∷ vs) s = typed-index_values f Field.other vs s
  typed-index_values f Field.kevt_name (v ∷ vs) s = typed-index_values f Field.kevt_name vs s
  typed-index_values f Field.kevt_category (v ∷ vs) s =
      typed-index_values f Field.kevt_category vs s

  categorized-index_values :
      (f : Filter) (field : Field) (vs : List String) (s : Filterset)
      → categorized (index_values f field vs s)
        ≡ categorized s ++ of_category (field_categories field vs) f
  unfolding categorized index_values field_categories of_category
  categorized-index_values f Field.evt_name [] s = none_more ◌==◌ (index (category e.type)) f _
  categorized-index_values f Field.evt_category [] s = none_more ◌==◌ (index (category e.type)) f _
  categorized-index_values f Field.other [] s = none_more ◌==◌ (index (category e.type)) f _
  categorized-index_values f Field.kevt_name [] s = none_more ◌==◌ (index (category e.type)) f _
  categorized-index_values f Field.kevt_category [] s = none_more ◌==◌ (index (category e.type)) f _
  categorized-index_values f Field.evt_name (v ∷ vs) s =
      categorized-index_values f Field.evt_name vs _
  categorized-index_values f Field.evt_category (v ∷ vs) s =
      extend ◌==◌ _ (index (category e.type)) f (category_index v ∷ []) (map category_index vs)
        (categorized-index_values f Field.evt_category vs _)
        (at_key-append_at number-IsEquality (index (category e.type)) (category_index v) f
          s.categories)
  categorized-index_values f Field.other (v ∷ vs) s = categorized-index_values f Field.other vs s
  categorized-index_values f Field.kevt_name (v ∷ vs) s =
      categorized-index_values f Field.kevt_name vs s
  categorized-index_values f Field.kevt_category (v ∷ vs) s =
      categorized-index_values f Field.kevt_category vs s

  typed-index_fields :
      (f : Filter) (fields : List (Field × List String)) (s : Filterset)
      → typed (index_fields f fields s) ≡ typed s ++ of_type (type_keys fields) f
  unfolding index_fields type_keys of_type
  typed-index_fields f [] s = none_more eq_text (bytes e.type) f _
  typed-index_fields f ((field, values) ∷ fields) s =
      extend eq_text _ (bytes e.type) f (field_types field values) (type_keys fields)
        (typed-index_fields f fields (index_values f field values s))
        (typed-index_values f field values s)

  categorized-index_fields :
      (f : Filter) (fields : List (Field × List String)) (s : Filterset)
      → categorized (index_fields f fields s)
        ≡ categorized s ++ of_category (category_keys fields) f
  unfolding index_fields category_keys of_category
  categorized-index_fields f [] s = none_more ◌==◌ (index (category e.type)) f _
  categorized-index_fields f ((field, values) ∷ fields) s =
      extend ◌==◌ _ (index (category e.type)) f (field_categories field values)
        (category_keys fields) (categorized-index_fields f fields (index_values f field values s))
        (categorized-index_values f field values s)

-- The rules as filters, with the places of their sequences.
unfoldable pub filters_of : List Rule → List Tracked → List Filter
filters_of [] qs = []
filters_of (r ∷ rs) qs = record { rule = r; ss = place r (length qs) } ∷ filters_of rs (track r qs)

-- Each filter as often as its rule names the type of the event, and as often as it names its category.
unfoldable pub by_type : Event → List Filter → List Filter
by_type e [] = []
by_type e (f ∷ fs) = copies eq_text (bytes e.type) (type_keys f.rule.fields) f ++ by_type e fs

unfoldable pub by_category : Event → List Filter → List Filter
by_category e [] = []
by_category e (f ∷ fs) =
    copies ◌==◌ (index (category e.type)) (category_keys f.rule.fields) f ++ by_category e fs

unscoped_types :
    (fields : List (Field × List String)) → is_scoped fields ≡ false → type_keys fields ≡ []
unfolding is_scoped type_keys field_types
unscoped_types [] h = refl
unscoped_types ((Field.evt_name, values) ∷ fields) h = absurd (false≢true (sym h))
unscoped_types ((Field.evt_category, values) ∷ fields) h = absurd (false≢true (sym h))
unscoped_types ((Field.other, values) ∷ fields) h = unscoped_types fields h
unscoped_types ((Field.kevt_name, values) ∷ fields) h = unscoped_types fields h
unscoped_types ((Field.kevt_category, values) ∷ fields) h = unscoped_types fields h

unscoped_categories :
    (fields : List (Field × List String)) → is_scoped fields ≡ false → category_keys fields ≡ []
unfolding is_scoped category_keys field_categories
unscoped_categories [] h = refl
unscoped_categories ((Field.evt_name, values) ∷ fields) h = absurd (false≢true (sym h))
unscoped_categories ((Field.evt_category, values) ∷ fields) h = absurd (false≢true (sym h))
unscoped_categories ((Field.other, values) ∷ fields) h = unscoped_categories fields h
unscoped_categories ((Field.kevt_name, values) ∷ fields) h = unscoped_categories fields h
unscoped_categories ((Field.kevt_category, values) ∷ fields) h = unscoped_categories fields h

module _ (e : Event) where
  typed-scoped :
      (f : Filter) (s : Filterset)
      → typed e (if is_scoped f.rule.fields then index_fields f f.rule.fields s else s)
        ≡ typed e s ++ copies eq_text (bytes e.type) (type_keys f.rule.fields) f
  typed-scoped f s = elim (Bool-cases (is_scoped f.rule.fields)) [
    | inl t ↦ rw t (unfold of_type in typed-index_fields e f f.rule.fields s)
    | inr n ↦
        rw (n, unscoped_types f.rule.fields n) (none_more eq_text (bytes e.type) f (typed e s))
  ]

  categorized-scoped :
      (f : Filter) (s : Filterset)
      → categorized e (if is_scoped f.rule.fields then index_fields f f.rule.fields s else s)
        ≡ categorized e s ++ copies ◌==◌ (index (category e.type)) (category_keys f.rule.fields) f
  categorized-scoped f s = elim (Bool-cases (is_scoped f.rule.fields)) [
    | inl t ↦ rw t (unfold of_category in categorized-index_fields e f f.rule.fields s)
    | inr n ↦
        rw (n, unscoped_categories f.rule.fields n)
          (none_more ◌==◌ (index (category e.type)) f (categorized e s))
  ]

  typed-compile_rules :
      (rs : List Rule) (s : Filterset) (qs : List Tracked)
      → typed e (compile_rules rs s qs).0 ≡ typed e s ++ by_type e (filters_of rs qs)
  unfolding compile_rules by_type filters_of
  typed-compile_rules [] s qs = sym (append-nil (typed e s))
  typed-compile_rules (r ∷ rs) s qs =
      typed-compile_rules rs _ (track r qs)
      ∙ (ap (λ l. l ++ by_type e (filters_of rs (track r qs)))
            (typed-scoped (record { rule = r; ss = place r (length qs) }) s)
          ∙ append_assoc (typed e s) _ _)

  categorized-compile_rules :
      (rs : List Rule) (s : Filterset) (qs : List Tracked)
      → categorized e (compile_rules rs s qs).0
        ≡ categorized e s ++ by_category e (filters_of rs qs)
  unfolding compile_rules by_category filters_of
  categorized-compile_rules [] s qs = sym (append-nil (categorized e s))
  categorized-compile_rules (r ∷ rs) s qs =
      categorized-compile_rules rs _ (track r qs)
      ∙ (ap (λ l. l ++ by_category e (filters_of rs (track r qs)))
            (categorized-scoped (record { rule = r; ss = place r (length qs) }) s)
          ∙ append_assoc (categorized e s) _ _)

  both_parts : (s : Filterset) → collect s e ≡ typed e s ++ categorized e s
  unfolding collect typed categorized is_empty
  both_parts s =
      elim s.categories
        as (λ (c : List (ℕ × List Filter)).
          (if is_empty c
            then at_key eq_text (bytes e.type) s.types
            else at_key eq_text (bytes e.type) s.types ++ at_key ◌==◌ (index (category e.type)) c)
          ≡ at_key eq_text (bytes e.type) s.types ++ at_key ◌==◌ (index (category e.type)) c) [
            | [] ↦ unfold at_key in sym (append-nil _)
            | x ∷ l ↦ refl
          ]

  -- For any rules, in the order in which the compiler ranges over them, and any event: the
  -- filters that the engine runs for the event are those of the rules, in that order, each as
  -- often as its `evt.name` values stand for the type of the event, and behind them once more
  -- those of the rules, each as often as its `evt.category` values have the index of the
  -- event's category. A rule without either is never run.
  pub collect-compile :
      (rs : List Rule)
      → collect (compile rs).0 e ≡ by_type e (filters_of rs []) ++ by_category e (filters_of rs [])
  unfolding compile
  collect-compile rs =
      both_parts (compile rs).0
      ∙ rw (typed-compile_rules rs new_filterset [], categorized-compile_rules rs new_filterset [])
          (unfold typed categorized at_key in refl)
