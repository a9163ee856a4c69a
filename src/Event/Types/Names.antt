-- ===== src/Event/Types/Names.antt =====
-- pkg/event/metainfo_windows.go: the types that a name stands for, in rules.
use Prim.Native.String.{String, compare}
use Prim.Native.Nat.{Ordering}
use mathlib.Core.Bool.{false≢true}
use fibratus.Prelude.{map, ◌≡◌, refl, Bool, true, false, ◌||◌, List, [], ◌∷◌, if◌then◌else◌}
use fibratus.Event.Types.{
  EventType, process_rundown, create_process_internal, process_rundown_internal, thread_rundown,
  map_file_rundown, file_rundown, release_file, file_op_end, reg_create_kcb, reg_delete_kcb,
  reg_kcb_rundown, reg_set_value_internal, image_rundown, load_image_internal, stack_walk,
  unknown_type, accept_tcpv4, accept_tcpv6, close_file, close_handle, connect_tcpv4, connect_tcpv6,
  create_file, create_handle, create_process, create_symbolic_link_object, create_thread,
  delete_file, disconnect_tcpv4, disconnect_tcpv6, duplicate_handle, enum_directory, load_image,
  map_view_file, open_process, open_thread, query_dns, read_file, reconnect_tcpv4, reconnect_tcpv6,
  recv_tcpv4, recv_tcpv6, recv_udpv4, recv_udpv6, reg_close_key, reg_create_key, reg_delete_key,
  reg_delete_value, reg_open_key, reg_query_key, reg_query_value, reg_set_value, rename_file,
  reply_dns, retransmit_tcpv4, retransmit_tcpv6, send_tcpv4, send_tcpv6, send_udpv4, send_udpv6,
  set_file_information, set_thread_context, set_threadpool_timer, submit_threadpool_callback,
  submit_threadpool_work, terminate_process, terminate_thread, unload_image, unmap_view_file,
  virtual_alloc, virtual_free, write_file,
}
use fibratus.Event.Types.Traits.{name}
use fibratus.Event.Types.Guids.{bytes}
use fibratus.Event.Values.{eq_text}

unfoldable pub eq_string : String → String → Bool
eq_string a b = elim (compare a b) [
  | Ordering.lt ↦ false
  | Ordering.eq ↦ true
  | Ordering.gt ↦ false
]

-- The map `types`
abbrev pub named_types : List (String × EventType)
named_types =
    ("CreateProcess", create_process)
    ∷ ("TerminateProcess", terminate_process)
    ∷ ("OpenProcess", open_process)
    ∷ ("CreateThread", create_thread)
    ∷ ("TerminateThread", terminate_thread)
    ∷ ("OpenThread", open_thread)
    ∷ ("SetThreadContext", set_thread_context)
    ∷ ("LoadImage", load_image)
    ∷ ("UnloadImage", unload_image)
    ∷ ("CreateFile", create_file)
    ∷ ("CloseFile", close_file)
    ∷ ("ReadFile", read_file)
    ∷ ("WriteFile", write_file)
    ∷ ("SetFileInformation", set_file_information)
    ∷ ("DeleteFile", delete_file)
    ∷ ("RenameFile", rename_file)
    ∷ ("EnumDirectory", enum_directory)
    ∷ ("RegCreateKey", reg_create_key)
    ∷ ("RegOpenKey", reg_open_key)
    ∷ ("RegSetValue", reg_set_value)
    ∷ ("RegQueryValue", reg_query_value)
    ∷ ("RegQueryKey", reg_query_key)
    ∷ ("RegDeleteKey", reg_delete_key)
    ∷ ("RegDeleteValue", reg_delete_value)
    ∷ ("RegCloseKey", reg_close_key)
    ∷ ("AcceptTCP4", accept_tcpv4)
    ∷ ("AcceptTCP6", accept_tcpv6)
    ∷ ("SendTCP4", send_tcpv4)
    ∷ ("SendTCP6", send_tcpv6)
    ∷ ("SendUDP4", send_udpv4)
    ∷ ("SendUDP6", send_udpv6)
    ∷ ("RecvTCP4", recv_tcpv4)
    ∷ ("RecvTCP6", recv_tcpv6)
    ∷ ("RecvUDP4", recv_udpv4)
    ∷ ("RecvUDP6", recv_udpv6)
    ∷ ("ConnectTCP4", connect_tcpv4)
    ∷ ("ConnectTCP6", connect_tcpv6)
    ∷ ("ReconnectTCP4", reconnect_tcpv4)
    ∷ ("ReconnectTCP6", reconnect_tcpv6)
    ∷ ("DisconnectTCP4", disconnect_tcpv4)
    ∷ ("DisconnectTCP6", disconnect_tcpv6)
    ∷ ("RetransmitTCP4", retransmit_tcpv4)
    ∷ ("RetransmitTCP6", retransmit_tcpv6)
    ∷ ("CreateHandle", create_handle)
    ∷ ("CloseHandle", close_handle)
    ∷ ("DuplicateHandle", duplicate_handle)
    ∷ ("VirtualAlloc", virtual_alloc)
    ∷ ("VirtualFree", virtual_free)
    ∷ ("MapViewFile", map_view_file)
    ∷ ("UnmapViewFile", unmap_view_file)
    ∷ ("QueryDns", query_dns)
    ∷ ("ReplyDns", reply_dns)
    ∷ ("CreateSymbolicLinkObject", create_symbolic_link_object)
    ∷ ("SubmitThreadpoolWork", submit_threadpool_work)
    ∷ ("SubmitThreadpoolCallback", submit_threadpool_callback)
    ∷ ("SetThreadpoolTimer", set_threadpool_timer)
    ∷ []

unfoldable pub look_up : List (String × EventType) → String → EventType
unfolding eq_string
look_up [] n = unknown_type
look_up ((m, t) ∷ l) n = if eq_string m n then t else look_up l n

-- `NameToType`
unfoldable pub name_to_type : String → EventType
unfolding look_up
name_to_type n = look_up named_types n

-- `NameToTypes`
unfoldable pub name_to_types : String → List EventType
unfolding name_to_type eq_string
name_to_types n =
    if eq_string n "Accept"
    then accept_tcpv4 ∷ accept_tcpv6 ∷ []
    else if eq_string n "Send"
    then send_tcpv4 ∷ send_tcpv6 ∷ send_udpv4 ∷ send_udpv6 ∷ []
    else if eq_string n "Recv"
    then recv_tcpv4 ∷ recv_tcpv6 ∷ recv_udpv4 ∷ recv_udpv6 ∷ []
    else if eq_string n "Connect"
    then connect_tcpv4 ∷ connect_tcpv6 ∷ []
    else if eq_string n "Reconnect"
    then reconnect_tcpv4 ∷ reconnect_tcpv6 ∷ []
    else if eq_string n "Disconnect"
    then disconnect_tcpv4 ∷ disconnect_tcpv6 ∷ []
    else if eq_string n "Retransmit"
    then retransmit_tcpv4 ∷ retransmit_tcpv6 ∷ []
    else name_to_type n ∷ []

-- Whether the types that a name stands for include one.
unfoldable pub includes : EventType → List EventType → Bool
includes t [] = false
includes t (u ∷ us) = eq_text (bytes t) (bytes u) || includes t us

-- `All`
unfoldable pub all_types : List EventType
all_types = map (λ row. row.1) named_types

-- Each event type that rules can name is among the types that its own name stands for.
pub name_to_types-name :
    (t : EventType) → includes t all_types ≡ true → includes t (name_to_types (name t)) ≡ true
unfolding includes all_types name_to_types name bytes
name_to_types-name process_rundown h = absurd (false≢true h)
name_to_types-name create_process_internal h = absurd (false≢true h)
name_to_types-name process_rundown_internal h = absurd (false≢true h)
name_to_types-name thread_rundown h = absurd (false≢true h)
name_to_types-name map_file_rundown h = absurd (false≢true h)
name_to_types-name file_rundown h = absurd (false≢true h)
name_to_types-name release_file h = absurd (false≢true h)
name_to_types-name file_op_end h = absurd (false≢true h)
name_to_types-name reg_create_kcb h = absurd (false≢true h)
name_to_types-name reg_delete_kcb h = absurd (false≢true h)
name_to_types-name reg_kcb_rundown h = absurd (false≢true h)
name_to_types-name reg_set_value_internal h = absurd (false≢true h)
name_to_types-name image_rundown h = absurd (false≢true h)
name_to_types-name load_image_internal h = absurd (false≢true h)
name_to_types-name stack_walk h = absurd (false≢true h)
name_to_types-name unknown_type h = absurd (false≢true h)
name_to_types-name _ h = refl
