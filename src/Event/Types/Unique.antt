-- ===== src/Event/Types/Unique.antt =====
-- pkg/event/types_windows.go: no two event types share the number that the bit sets use.
use fibratus.Prelude.{ℕ, ◌≡◌, refl, List, [], ◌∷◌, Option, none, some, ◌==◌, if◌then◌else◌}
use fibratus.Event.Types.{
  EventType, create_process, terminate_process, process_rundown, open_process,
  create_process_internal, process_rundown_internal, create_thread, terminate_thread,
  thread_rundown, open_thread, set_thread_context, map_view_file, unmap_view_file, map_file_rundown,
  file_rundown, create_file, release_file, close_file, read_file, write_file, set_file_information,
  delete_file, rename_file, enum_directory, file_op_end, reg_create_key, reg_open_key,
  reg_close_key, reg_delete_key, reg_query_key, reg_set_value, reg_delete_value, reg_query_value,
  reg_create_kcb, reg_delete_kcb, reg_kcb_rundown, reg_set_value_internal, unload_image,
  image_rundown, load_image, load_image_internal, accept_tcpv4, accept_tcpv6, send_tcpv4,
  send_tcpv6, send_udpv4, send_udpv6, recv_tcpv4, recv_tcpv6, recv_udpv4, recv_udpv6, connect_tcpv4,
  connect_tcpv6, disconnect_tcpv4, disconnect_tcpv6, reconnect_tcpv4, reconnect_tcpv6,
  retransmit_tcpv4, retransmit_tcpv6, create_handle, close_handle, duplicate_handle, virtual_alloc,
  virtual_free, query_dns, reply_dns, stack_walk, create_symbolic_link_object,
  submit_threadpool_work, submit_threadpool_callback, set_threadpool_timer, unknown_type,
}
use fibratus.Event.Types.Guids.{id}

abbrev all_types : List EventType
all_types =
    create_process ∷ terminate_process ∷ process_rundown ∷ open_process ∷ create_process_internal
    ∷ process_rundown_internal ∷ create_thread ∷ terminate_thread ∷ thread_rundown ∷ open_thread
    ∷ set_thread_context ∷ map_view_file ∷ unmap_view_file ∷ map_file_rundown ∷ file_rundown
    ∷ create_file ∷ release_file ∷ close_file ∷ read_file ∷ write_file ∷ set_file_information
    ∷ delete_file ∷ rename_file ∷ enum_directory ∷ file_op_end ∷ reg_create_key ∷ reg_open_key
    ∷ reg_close_key ∷ reg_delete_key ∷ reg_query_key ∷ reg_set_value ∷ reg_delete_value
    ∷ reg_query_value ∷ reg_create_kcb ∷ reg_delete_kcb ∷ reg_kcb_rundown ∷ reg_set_value_internal
    ∷ unload_image ∷ image_rundown ∷ load_image ∷ load_image_internal ∷ accept_tcpv4 ∷ accept_tcpv6
    ∷ send_tcpv4 ∷ send_tcpv6 ∷ send_udpv4 ∷ send_udpv6 ∷ recv_tcpv4 ∷ recv_tcpv6 ∷ recv_udpv4
    ∷ recv_udpv6 ∷ connect_tcpv4 ∷ connect_tcpv6 ∷ disconnect_tcpv4 ∷ disconnect_tcpv6
    ∷ reconnect_tcpv4 ∷ reconnect_tcpv6 ∷ retransmit_tcpv4 ∷ retransmit_tcpv6 ∷ create_handle
    ∷ close_handle ∷ duplicate_handle ∷ virtual_alloc ∷ virtual_free ∷ query_dns ∷ reply_dns
    ∷ stack_walk ∷ create_symbolic_link_object ∷ submit_threadpool_work ∷ submit_threadpool_callback
    ∷ set_threadpool_timer ∷ unknown_type ∷ []

find : ℕ → List EventType → Option EventType
find n [] = none
find n (t ∷ ts) = if id t == n then some t else find n ts

-- The first declared type with the number of `t` is `t`.
find-id : (t : EventType) → find (id t) all_types ≡ some t
unfolding find id
find-id create_process = refl
find-id terminate_process = refl
find-id process_rundown = refl
find-id open_process = refl
find-id create_process_internal = refl
find-id process_rundown_internal = refl
find-id create_thread = refl
find-id terminate_thread = refl
find-id thread_rundown = refl
find-id open_thread = refl
find-id set_thread_context = refl
find-id map_view_file = refl
find-id unmap_view_file = refl
find-id map_file_rundown = refl
find-id file_rundown = refl
find-id create_file = refl
find-id release_file = refl
find-id close_file = refl
find-id read_file = refl
find-id write_file = refl
find-id set_file_information = refl
find-id delete_file = refl
find-id rename_file = refl
find-id enum_directory = refl
find-id file_op_end = refl
find-id reg_create_key = refl
find-id reg_open_key = refl
find-id reg_close_key = refl
find-id reg_delete_key = refl
find-id reg_query_key = refl
find-id reg_set_value = refl
find-id reg_delete_value = refl
find-id reg_query_value = refl
find-id reg_create_kcb = refl
find-id reg_delete_kcb = refl
find-id reg_kcb_rundown = refl
find-id reg_set_value_internal = refl
find-id unload_image = refl
find-id image_rundown = refl
find-id load_image = refl
find-id load_image_internal = refl
find-id accept_tcpv4 = refl
find-id accept_tcpv6 = refl
find-id send_tcpv4 = refl
find-id send_tcpv6 = refl
find-id send_udpv4 = refl
find-id send_udpv6 = refl
find-id recv_tcpv4 = refl
find-id recv_tcpv6 = refl
find-id recv_udpv4 = refl
find-id recv_udpv6 = refl
find-id connect_tcpv4 = refl
find-id connect_tcpv6 = refl
find-id disconnect_tcpv4 = refl
find-id disconnect_tcpv6 = refl
find-id reconnect_tcpv4 = refl
find-id reconnect_tcpv6 = refl
find-id retransmit_tcpv4 = refl
find-id retransmit_tcpv6 = refl
find-id create_handle = refl
find-id close_handle = refl
find-id duplicate_handle = refl
find-id virtual_alloc = refl
find-id virtual_free = refl
find-id query_dns = refl
find-id reply_dns = refl
find-id stack_walk = refl
find-id create_symbolic_link_object = refl
find-id submit_threadpool_work = refl
find-id submit_threadpool_callback = refl
find-id set_threadpool_timer = refl
find-id unknown_type = refl

-- Two event types with the same number are the same type.
pub id-injective : (s t : EventType) → id s ≡ id t → s ≡ t
id-injective s t h = cc (find-id s, find-id t)
