-- ===== src/Rules/Compiler.antt =====
-- pkg/rules/compiler.go: the rules that are loaded are checked and summed up.
--
-- The compiler of filters and the versions are parameters. The summary says which groups of events the
-- rules need, by which the event sources are set up. Proofs are in Flags and
-- UsedEvents.
pub mod Flags
pub mod UsedEvents
use Prim.Native.String.{String}
use fibratus.Prelude.{
  ℕ, ◌+◌, Bool, true, false, not, ◌||◌, List, [], ◌∷◌, ◌++◌, Option, none, some, exists,
  if◌then◌else◌,
}
use fibratus.Event.Types.{
  EventType, Category, accept_tcpv4, accept_tcpv6, close_file, close_handle, connect_tcpv4,
  connect_tcpv6, create_file, create_handle, create_process, create_symbolic_link_object,
  create_thread, delete_file, disconnect_tcpv4, disconnect_tcpv6, duplicate_handle, enum_directory,
  load_image, map_view_file, open_process, open_thread, query_dns, read_file, reconnect_tcpv4,
  reconnect_tcpv6, recv_tcpv4, recv_tcpv6, recv_udpv4, recv_udpv6, reg_close_key, reg_create_key,
  reg_delete_key, reg_delete_value, reg_open_key, reg_query_key, reg_query_value, reg_set_value,
  rename_file, reply_dns, retransmit_tcpv4, retransmit_tcpv6, send_tcpv4, send_tcpv6, send_udpv4,
  send_udpv6, set_file_information, set_thread_context, set_threadpool_timer,
  submit_threadpool_callback, submit_threadpool_work, terminate_process, terminate_thread,
  unload_image, unmap_view_file, virtual_alloc, virtual_free, write_file,
}
use fibratus.Event.Types.Traits.{name, category}
use fibratus.Event.Types.Names.{eq_string, name_to_types, includes}
use fibratus.Event.Values.{Text}
use fibratus.Rules.{Field, Rule}

-- `FilterConfig` as it is loaded
pub record Definition : Type 0 where
  pub id : Text
  pub is_disabled : Bool
  pub min_engine_version : Text

pub data Compiled (A : Type 0) : Type 0 where
  compiled : A → Compiled A
  invalid_filter malformed_version incompatible_filter : Definition → Compiled A
  unknown_event_name unknown_category_name : Definition → String → Compiled A

-- `filter.New` with `Compile`, and the versions; `is_newer` compares with the version of the engine, and
-- `none` is a version that does not parse.
pub record Tools : Type 0 where
  pub compile_filter : Definition → Option Rule
  pub is_dev : Bool
  pub is_newer : Text → Option Bool

-- The keys of the map `events`
abbrev pub described_types : List EventType
described_types =
    create_process ∷ terminate_process ∷ open_process ∷ create_thread ∷ terminate_thread
    ∷ open_thread ∷ set_thread_context ∷ read_file ∷ write_file ∷ create_file ∷ close_file
    ∷ delete_file ∷ rename_file ∷ set_file_information ∷ enum_directory ∷ reg_create_key
    ∷ reg_open_key ∷ reg_close_key ∷ reg_set_value ∷ reg_query_value ∷ reg_query_key
    ∷ reg_delete_key ∷ reg_delete_value ∷ accept_tcpv4 ∷ accept_tcpv6 ∷ send_tcpv4 ∷ send_tcpv6
    ∷ send_udpv4 ∷ send_udpv6 ∷ recv_tcpv4 ∷ recv_tcpv6 ∷ recv_udpv4 ∷ recv_udpv6 ∷ connect_tcpv4
    ∷ connect_tcpv6 ∷ disconnect_tcpv4 ∷ disconnect_tcpv6 ∷ reconnect_tcpv4 ∷ reconnect_tcpv6
    ∷ retransmit_tcpv4 ∷ retransmit_tcpv6 ∷ load_image ∷ unload_image ∷ create_handle ∷ close_handle
    ∷ duplicate_handle ∷ virtual_alloc ∷ virtual_free ∷ map_view_file ∷ unmap_view_file ∷ query_dns
    ∷ reply_dns ∷ create_symbolic_link_object ∷ submit_threadpool_work ∷ submit_threadpool_callback
    ∷ set_threadpool_timer ∷ []

-- `IsKnown`
unfoldable pub is_known_name : String → Bool
unfolding eq_string
is_known_name v = exists (λ t. eq_string (name t) v) described_types

-- `Categories`
abbrev pub categories : List String
categories =
    "registry" ∷ "file" ∷ "net" ∷ "process" ∷ "thread" ∷ "image" ∷ "handle" ∷ "mem" ∷ "driver"
    ∷ "other" ∷ "unknown" ∷ "object" ∷ "threadpool" ∷ []

-- `IsCategoryKnown`
unfoldable pub is_category_known : String → Bool
unfolding eq_string
is_category_known v = exists (λ c. eq_string c v) categories

-- The first value that is not known.
unfoldable pub first_unknown : (String → Bool) → List String → Option String
first_unknown known [] = none
first_unknown known (v ∷ vs) = if known v then first_unknown known vs else some v

unfoldable pub check_names : Definition → Option String → Compiled Unit
check_names d none = Compiled.compiled tt
check_names d (some v) = Compiled.unknown_event_name d v

unfoldable pub check_categories : Definition → Option String → Compiled Unit
check_categories d none = Compiled.compiled tt
check_categories d (some v) = Compiled.unknown_category_name d v

unfoldable pub check_field : Definition → Field → List String → Compiled Unit
unfolding check_names check_categories first_unknown is_known_name is_category_known
check_field d Field.evt_name vs = check_names d (first_unknown is_known_name vs)
check_field d Field.kevt_name vs = check_names d (first_unknown is_known_name vs)
check_field d Field.evt_category vs = check_categories d (first_unknown is_category_known vs)
check_field d Field.kevt_category vs = check_categories d (first_unknown is_category_known vs)
check_field d Field.other vs = Compiled.compiled tt

infixl 50 ◌>>=◌
unfoldable pub ◌>>=◌ : {A B : Type 0} → Compiled A → (A → Compiled B) → Compiled B
Compiled.compiled a >>= f = f a
Compiled.invalid_filter d >>= f = Compiled.invalid_filter d
Compiled.malformed_version d >>= f = Compiled.malformed_version d
Compiled.incompatible_filter d >>= f = Compiled.incompatible_filter d
Compiled.unknown_event_name d v >>= f = Compiled.unknown_event_name d v
Compiled.unknown_category_name d v >>= f = Compiled.unknown_category_name d v

unfoldable pub check_fields : Definition → List (Field × List String) → Compiled Unit
unfolding check_field ◌>>=◌
check_fields d [] = Compiled.compiled tt
check_fields d ((field, vs) ∷ fields) = do _ ← check_field d field vs; check_fields d fields

unfoldable pub check_version : Definition → Bool → Option Bool → Compiled Unit
check_version d true newer = Compiled.compiled tt
check_version d false none = Compiled.malformed_version d
check_version d false (some true) = Compiled.incompatible_filter d
check_version d false (some false) = Compiled.compiled tt

unfoldable pub compile_filter_of : Tools → Definition → Option Rule → Compiled Rule
unfolding check_version check_fields
compile_filter_of tools d none = Compiled.invalid_filter d
compile_filter_of tools d (some r) = do
  _ ← check_version d tools.is_dev (tools.is_newer d.min_engine_version)
  _ ← check_fields d r.fields
  Compiled.compiled r

-- The loop of `compile`, which stops at the first error.
unfoldable pub compile_all : Tools → List Definition → Compiled (List Rule)
unfolding compile_filter_of
compile_all tools [] = Compiled.compiled []
compile_all tools (d ∷ ds) =
    if d.is_disabled
    then compile_all tools ds
    else (compile_filter_of tools d (tools.compile_filter d) >>= λ r.
        compile_all tools ds >>= λ rs. Compiled.compiled (r ∷ rs))

-- `RulesCompileResult`
pub record Summary : Type 0 where
  pub has_proc_events : Bool
  pub has_thread_events : Bool
  pub has_image_events : Bool
  pub has_file_events : Bool
  pub has_network_events : Bool
  pub has_registry_events : Bool
  pub has_mem_events : Bool
  pub has_handle_events : Bool
  pub has_threadpool_events : Bool
  pub has_va_map_events : Bool
  pub has_dns_events : Bool
  pub has_audit_api_events : Bool
  pub used_events : List EventType
  pub number_rules : ℕ

abbrev pub no_summary : Summary
no_summary = record {
  has_proc_events = false;
  has_thread_events = false;
  has_image_events = false;
  has_file_events = false;
  has_network_events = false;
  has_registry_events = false;
  has_mem_events = false;
  has_handle_events = false;
  has_threadpool_events = false;
  has_va_map_events = false;
  has_dns_events = false;
  has_audit_api_events = false;
  used_events = [];
  number_rules = 0;
}

-- The switch on the category
unfoldable pub note_category : Category → Summary → Summary
note_category Category.process s = record s { has_proc_events = true }
note_category Category.thread s = record s { has_thread_events = true }
note_category Category.image s = record s { has_image_events = true }
note_category Category.file s = record s { has_file_events = true }
note_category Category.net s = record s { has_network_events = true }
note_category Category.registry s = record s { has_registry_events = true }
note_category Category.mem s = record s { has_mem_events = true }
note_category Category.handle s = record s { has_handle_events = true }
note_category Category.threadpool s = record s { has_threadpool_events = true }
note_category _ s = s

-- `Subcategory() == DNS`
unfoldable pub is_dns : EventType → Bool
unfolding includes
is_dns t = includes t (query_dns ∷ reply_dns ∷ [])

unfoldable pub is_va_map : EventType → Bool
unfolding includes
is_va_map t = includes t (map_view_file ∷ unmap_view_file ∷ [])

unfoldable pub is_audit_api : EventType → Bool
unfolding includes
is_audit_api t =
    includes t (open_process ∷ open_thread ∷ set_thread_context ∷ create_symbolic_link_object ∷ [])

unfoldable pub note_dns : Bool → Summary → Summary
note_dns true s = record s { has_dns_events = true }
note_dns false s = s

unfoldable pub note_va_map : Bool → Summary → Summary
note_va_map true s = record s { has_va_map_events = true }
note_va_map false s = s

unfoldable pub note_audit_api : Bool → Summary → Summary
note_audit_api true s = record s { has_audit_api_events = true }
note_audit_api false s = s

-- A type is listed once; the map of the types that were seen has the same keys.
unfoldable pub note_used : Bool → EventType → Summary → Summary
note_used true t s = s
note_used false t s = record s { used_events = s.used_events ++ t ∷ [] }

unfoldable pub note_type : EventType → Summary → Summary
unfolding note_category note_dns note_va_map note_audit_api is_dns is_va_map is_audit_api note_used
note_type t s =
    let s1 =
      note_audit_api (is_audit_api t)
        (note_va_map (is_va_map t) (note_dns (is_dns t) (note_category (category t) s))) in
    note_used (includes t s.used_events) t s1

unfoldable pub note_types : List EventType → Summary → Summary
unfolding note_type
note_types [] s = s
note_types (t ∷ ts) s = note_types ts (note_type t s)

unfoldable pub note_values : List String → Summary → Summary
unfolding note_types name_to_types
note_values [] s = s
note_values (v ∷ vs) s = note_values vs (note_types (name_to_types v) s)

-- The values of both fields are taken for names of events.
unfoldable pub note_fields : List (Field × List String) → Summary → Summary
unfolding note_values
note_fields [] s = s
note_fields ((Field.evt_name, vs) ∷ fields) s = note_fields fields (note_values vs s)
note_fields ((Field.evt_category, vs) ∷ fields) s = note_fields fields (note_values vs s)
note_fields ((_, vs) ∷ fields) s = note_fields fields s

unfoldable pub note_rules : List Rule → Summary → Summary
unfolding note_fields
note_rules [] s = s
note_rules (r ∷ rs) s =
    note_rules rs (note_fields r.fields (record s { number_rules = s.number_rules + 1 }))

-- `buildCompileResult`
unfoldable pub build_compile_result : List Rule → Summary
unfolding note_rules
build_compile_result rs = note_rules rs no_summary
