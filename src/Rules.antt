-- ===== src/Rules.antt =====
-- pkg/rules/engine.go: the filters of the rules, and the index by which an event finds them.
--
-- A rule is what the compiler hands over: its definition with the compiled filter. The values of its
-- string fields are listed in the order in which the code ranges over the map. Go's maps are lists of
-- pairs. The category of an event is that of its type, as the event sources set it.
pub mod Keys
pub mod Index
pub mod Engine
pub mod Dispatch
pub mod Simple
pub mod Compiler
use Prim.Native.String.{String}
use fibratus.Prelude.{
  ℕ, suc, ◌+◌, Bool, true, false, ◌||◌, ◌&&◌, List, [], ◌∷◌, ◌++◌, Option, none, some, length, ◌==◌,
  if◌then◌else◌,
}
use fibratus.Event.{Event}
use fibratus.Event.Values.{Text, eq_text}
use fibratus.Event.Types.{EventType}
use fibratus.Event.Types.Guids.{bytes}
use fibratus.Event.Types.Traits.{category}
use fibratus.Event.Types.Names.{eq_string, name_to_types}
use fibratus.Event.Bitsets.{index, max_category_index}
use fibratus.Sequence.{SequenceState, Env, Sequence}
use fibratus.Sequence.Machine.{new_sequence_state}
use fibratus.Sequence.Partials.{is_empty}

-- The fields that name an event, the deprecated ones among them, and all others.
pub data Field : Type 0 where
  evt_name evt_category kevt_name kevt_category other : Field

pub record Rule : Type 0 where
  pub name : Text
  pub labels : List (Text × Text)
  pub fields : List (Field × List String)
  pub accepts : Event → Bool  -- `Run`
  pub sequence : Option (Env × Sequence)

-- `compiledFilter`; a sequence is known by its place in the engine's list.
pub record Filter : Type 0 where
  pub rule : Rule
  pub ss : Option ℕ

-- A sequence that the engine keeps.
pub record Tracked : Type 0 where
  pub env : Env
  pub sequence : Sequence
  pub state : SequenceState

pub record Filterset : Type 0 where
  pub types : List (Text × List Filter)
  pub categories : List (ℕ × List Filter)

-- `m[k] = append(m[k], v)` and `m[k]`
module _ {K V : Type 0} (eq : K → K → Bool) where
  unfoldable pub append_at : K → V → List (K × List V) → List (K × List V)
  append_at k v [] = (k, v ∷ []) ∷ []
  append_at k v ((j, l) ∷ m) = if eq j k then (j, l ++ v ∷ []) ∷ m else (j, l) ∷ append_at k v m

  unfoldable pub at_key : K → List (K × List V) → List V
  at_key k [] = []
  at_key k ((j, l) ∷ m) = if eq j k then l else at_key k m

-- `Category.Index`, of a category by its name.
unfoldable pub category_index : String → ℕ
unfolding eq_string
category_index c =
    if eq_string c "registry"
    then 1
    else if eq_string c "file"
    then 2
    else if eq_string c "net"
    then 3
    else if eq_string c "process"
    then 4
    else if eq_string c "thread"
    then 5
    else if eq_string c "image"
    then 6
    else if eq_string c "handle"
    then 7
    else if eq_string c "driver"
    then 8
    else if eq_string c "mem"
    then 9
    else if eq_string c "object"
    then 10
    else if eq_string c "threadpool"
    then 11
    else if eq_string c "other"
    then 12
    else max_category_index

-- `isScoped`
unfoldable pub is_scoped : List (Field × List String) → Bool
is_scoped [] = false
is_scoped ((Field.evt_name, values) ∷ fields) = true
is_scoped ((Field.evt_category, values) ∷ fields) = true
is_scoped ((_, values) ∷ fields) = is_scoped fields

unfoldable pub index_types :
    Filter → List EventType → List (Text × List Filter) → List (Text × List Filter)
unfolding append_at
index_types f [] m = m
index_types f (t ∷ ts) m = index_types f ts (append_at eq_text (bytes t) f m)

unfoldable pub index_values : Filter → Field → List String → Filterset → Filterset
unfolding index_types append_at name_to_types category_index
index_values f field [] s = s
index_values f Field.evt_name (v ∷ vs) s =
    index_values f Field.evt_name vs (record s { types = index_types f (name_to_types v) s.types })
index_values f Field.evt_category (v ∷ vs) s =
    index_values f Field.evt_category vs
      (record s { categories = append_at ◌==◌ (category_index v) f s.categories })
index_values f field (v ∷ vs) s = index_values f field vs s

unfoldable pub index_fields : Filter → List (Field × List String) → Filterset → Filterset
unfolding index_values
index_fields f [] s = s
index_fields f ((field, values) ∷ fields) s = index_fields f fields (index_values f field values s)

-- The place of a rule's sequence, if it has one, behind `n` others; and the sequences with it.
unfoldable pub place : Rule → ℕ → Option ℕ
place r n = elim r.sequence [ none ↦ none | some q ↦ some n ]

unfoldable pub track : Rule → List Tracked → List Tracked
unfolding new_sequence_state
track r qs = elim r.sequence [
  | none ↦ qs
  | some (env, q) ↦ qs ++ record { env = env; sequence = q; state = new_sequence_state } ∷ []
]

-- The loop of `Compile`. A rule without a scope is left out of the index, but its sequence is kept.
unfoldable pub compile_rules : List Rule → Filterset → List Tracked → Filterset × List Tracked
unfolding place track is_scoped index_fields
compile_rules [] s qs = (s, qs)
compile_rules (r ∷ rs) s qs =
    let f : Filter = record { rule = r; ss = place r (length qs) } in
    let s1 = if is_scoped r.fields then index_fields f r.fields s else s in
    compile_rules rs s1 (track r qs)

-- `newFilterset`
abbrev pub new_filterset : Filterset
new_filterset = record { types = []; categories = [] }

unfoldable pub compile : List Rule → Filterset × List Tracked
unfolding compile_rules
compile rs = compile_rules rs new_filterset []

-- `empty`
unfoldable pub has_no_filters : Filterset → Bool
unfolding is_empty
has_no_filters s = is_empty s.types && is_empty s.categories

unfoldable pub collect : Filterset → Event → List Filter
unfolding at_key is_empty
collect s e =
    if is_empty s.categories
    then at_key eq_text (bytes e.type) s.types
    else at_key eq_text (bytes e.type) s.types ++ at_key ◌==◌ (index (category e.type)) s.categories
