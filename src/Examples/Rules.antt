-- ===== src/Examples/Rules.antt =====
-- pkg/rules/engine.go on a few rules.
use fibratus.Prelude.{exists, Bool}
use fibratus.Event.Values.{Text}
use fibratus.Prelude.{◌≡◌, refl, true, false, List, [], ◌∷◌, ◌++◌, none, some, ◌==◌, All}
use fibratus.Event.{Event}
use fibratus.Event.Types.{create_process, accept_tcpv6, unknown_type}
use fibratus.Event.Types.Names.{includes, all_types, name_to_types, name_to_types-name}
use fibratus.Event.Types.Traits.{name, category}
use fibratus.Event.Bitsets.{index}
use fibratus.Event.Types.Guids.{bytes}
use fibratus.Rules.Compiler.{
  Definition, Compiled, Tools, compile_all, check_fields, build_compile_result,
}
use fibratus.Rules.Compiler.Flags.{Group, has, is_of}
use fibratus.Rules.Compiler.UsedEvents.{build_compile_result-IsSummary}
use fibratus.Rules.{is_scoped, Field, Rule, Filter, compile, collect, has_no_filters}
use fibratus.Rules.Index.{filters_of, by_type, by_category, collect-compile}
use fibratus.Rules.Engine.{Action, Actions, Engine, process_event}
use fibratus.Rules.Dispatch.{Agrees, process_event-actions}
use fibratus.Rules.Simple.{accepting, Dispatched, process_event-simple}

abbrev created : Event
created = record {
  ref = 1;
  type = create_process;
  pid = 4;
  tid = 8;
  timestamp = 10;
  param_pid = 5480;
  param_tid = 0;
  param_ppid = 4;
  param_real_ppid = 4;
}

-- A rule on the type, one on the type and the category, one on another type, and one without a scope.
abbrev by_name : Rule
by_name = record {
  name = b'n' ∷ [];
  labels = (b't' ∷ [], b'1' ∷ []) ∷ [];
  fields = (Field.other, "x" ∷ []) ∷ (Field.evt_name, "CreateProcess" ∷ []) ∷ [];
  accepts = λ e. e.pid == 4;
  sequence = none;
}

abbrev by_both : Rule
by_both = record {
  name = b'b' ∷ [];
  labels = [];
  fields = (Field.evt_name, "CreateProcess" ∷ []) ∷ (Field.evt_category, "process" ∷ []) ∷ [];
  accepts = λ e. true;
  sequence = none;
}

abbrev on_accept : Rule
on_accept = record {
  name = b'a' ∷ [];
  labels = [];
  fields = (Field.evt_name, "Accept" ∷ []) ∷ [];
  accepts = λ e. true;
  sequence = none;
}

abbrev unscoped : Rule
unscoped = record {
  name = b'u' ∷ [];
  labels = [];
  fields = (Field.other, "process" ∷ []) ∷ [];
  accepts = λ e. true;
  sequence = none;
}

abbrev rules : List Rule
rules = by_name ∷ by_both ∷ on_accept ∷ unscoped ∷ []

abbrev as_filter : Rule → Filter
as_filter r = record { rule = r; ss = none }

collect-compile_example :
    collect (compile rules).0 created
    ≡ by_type created (filters_of rules []) ++ by_category created (filters_of rules [])
collect-compile_example = collect-compile created rules

-- The rule that names the type and the category is run twice.
test_collect :
    collect (compile rules).0 created
    ≡ as_filter by_name ∷ as_filter by_both ∷ as_filter by_both ∷ []
unfolding collect compile bytes index category
test_collect = refl

accept-listed : includes accept_tcpv6 all_types ≡ true
unfolding includes all_types bytes
accept-listed = refl

name_to_types-name_example : includes accept_tcpv6 (name_to_types (name accept_tcpv6)) ≡ true
name_to_types-name_example = name_to_types-name accept_tcpv6 accept-listed

abbrev engine : Engine
engine = record {
  filters = (compile rules).0;
  sequences = [];
  meta = record { ooo = λ r. false; links = λ r. none; ps = λ r. none };
  tags = λ r. [];
  matches = [];
  calls = [];
  effects = [];
}

-- All actions work; and no alert can be sent.
abbrev working : Actions
working = record {
  alert = λ m. true;
  decode = λ r. some (Action.kill ∷ []);
  kill = λ m. true;
  isolate = λ l. true;
}

abbrev failing : Actions
failing = record working { alert = λ m. false }

process_event-actions_example :
    Agrees (process_event working true created engine) (process_event failing true created engine)
process_event-actions_example = process_event-actions working failing true created engine

created_filters : All (λ f. f.ss ≡ none) (collect engine.filters created)
unfolding collect compile bytes index category
created_filters = (refl, (refl, (refl, tt)))

process_event-simple_example :
    Dispatched working true
      (accepting created (collect engine.filters created))
      created
      (has_no_filters engine.filters)
      engine
      (process_event working true created engine)
process_event-simple_example = process_event-simple working true created engine created_filters refl

-- A rule on a category alone: its value is taken for the name of an event.
abbrev on_category : Rule
on_category = record {
  name = b'c' ∷ [];
  labels = [];
  fields = (Field.evt_category, "process" ∷ []) ∷ [];
  accepts = λ e. true;
  sequence = none;
}

test_category_alone :
    (has Group.proc (build_compile_result (on_category ∷ [])) ≡ false)
    × ((build_compile_result (on_category ∷ [])).used_events ≡ unknown_type ∷ [])
    × (collect (compile (on_category ∷ [])).0 created ≡ as_filter on_category ∷ [])
unfolding build_compile_result has collect compile bytes index category
test_category_alone = (refl, refl, refl)

build_compile_result-IsSummary_example :
    has Group.proc (build_compile_result rules)
    ≡ exists (is_of Group.proc) (build_compile_result rules).used_events
build_compile_result-IsSummary_example = build_compile_result-IsSummary rules Group.proc

-- The deprecated name is known to the compiler, and unknown names are refused.
abbrev tools : Tools
tools = record {
  compile_filter = λ d. elim d.id [
    | [] ↦ some (record by_name { fields = (Field.kevt_name, "Nothing" ∷ []) ∷ [] })
    | c ∷ l ↦ some (record by_name { fields = (Field.kevt_name, "Accept" ∷ []) ∷ [] })
  ];
  is_dev = false;
  is_newer = λ v. some false;
}

abbrev definition : Text → Bool → Definition
definition id off = record { id = id; is_disabled = off; min_engine_version = [] }

test_unknown_name :
    compile_all tools (definition [] true ∷ definition [] false ∷ [])
    ≡ Compiled.unknown_event_name (definition [] false) "Nothing"
unfolding compile_all name
test_unknown_name = refl

test_unscoped :
    (is_scoped ((Field.kevt_name, "Accept" ∷ []) ∷ []) ≡ false)
    × (check_fields (definition [] false) ((Field.kevt_name, "Accept" ∷ []) ∷ [])
        ≡ Compiled.compiled tt)
unfolding is_scoped check_fields name
test_unscoped = (refl, refl)
