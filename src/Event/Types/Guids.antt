-- ===== src/Event/Types/Guids.antt =====
-- pkg/event/types_windows.go: each type is the 18 bytes of a provider's GUID and an
-- operation code, from which the numbers that index the bit sets are read.
use Prim.Native.Nat.{bit_or}
use fibratus.Prelude.{ℕ, ◌*◌, ◌/◌, ◌%◌, ◌^◌, ◌+◌, List, [], ◌∷◌, ◌++◌, get_or}
use fibratus.Event.Types.Providers.{
  Guid, process_event_guid, thread_event_guid, image_event_guid, file_event_guid,
  registry_event_guid, network_tcp_event_guid, network_udp_event_guid, handle_event_guid,
  mem_event_guid, audit_api_event_guid, dns_event_guid, threadpool_guid, stack_walk_guid,
  process_kernel_event_guid, registry_kernel_event_guid, zero_guid,
}
use fibratus.Event.Types.{
  EventType, create_process, terminate_process, process_rundown, open_process,
  create_process_internal, process_rundown_internal, create_thread, terminate_thread,
  thread_rundown, open_thread, set_thread_context, map_view_file, unmap_view_file, map_file_rundown,
  file_rundown, create_file, release_file, close_file, read_file, write_file, set_file_information,
  delete_file, rename_file, enum_directory, file_op_end, reg_create_key, reg_open_key,
  reg_close_key, reg_delete_key, reg_query_key, reg_set_value, reg_delete_value, reg_query_value,
  reg_create_kcb, reg_delete_kcb, reg_kcb_rundown, reg_set_value_internal, unload_image,
  image_rundown, load_image, load_image_internal, accept_tcpv4, accept_tcpv6, send_tcpv4,
  send_tcpv6, send_udpv4, send_udpv6, recv_tcpv4, recv_tcpv6, recv_udpv4, recv_udpv6, connect_tcpv4,
  connect_tcpv6, disconnect_tcpv4, disconnect_tcpv6, reconnect_tcpv4, reconnect_tcpv6,
  retransmit_tcpv4, retransmit_tcpv6, create_handle, close_handle, duplicate_handle, virtual_alloc,
  virtual_free, query_dns, reply_dns, stack_walk, create_symbolic_link_object,
  submit_threadpool_work, submit_threadpool_callback, set_threadpool_timer, unknown_type,
}

-- The GUID and the operation code that each type is declared with.
unfoldable pub declared : EventType → Guid × ℕ
declared create_process = (process_event_guid, 1)
declared terminate_process = (process_event_guid, 2)
declared process_rundown = (process_event_guid, 3)
declared open_process = (audit_api_event_guid, 5)
declared create_process_internal = (process_kernel_event_guid, 1)
declared process_rundown_internal = (process_kernel_event_guid, 15)
declared create_thread = (thread_event_guid, 1)
declared terminate_thread = (thread_event_guid, 2)
declared thread_rundown = (thread_event_guid, 3)
declared open_thread = (audit_api_event_guid, 6)
declared set_thread_context = (audit_api_event_guid, 4)
declared map_view_file = (file_event_guid, 37)
declared unmap_view_file = (file_event_guid, 38)
declared map_file_rundown = (file_event_guid, 39)
declared file_rundown = (file_event_guid, 36)
declared create_file = (file_event_guid, 64)
declared release_file = (file_event_guid, 65)
declared close_file = (file_event_guid, 66)
declared read_file = (file_event_guid, 67)
declared write_file = (file_event_guid, 68)
declared set_file_information = (file_event_guid, 69)
declared delete_file = (file_event_guid, 70)
declared rename_file = (file_event_guid, 71)
declared enum_directory = (file_event_guid, 72)
declared file_op_end = (file_event_guid, 76)
declared reg_create_key = (registry_event_guid, 10)
declared reg_open_key = (registry_event_guid, 11)
declared reg_close_key = (registry_event_guid, 27)
declared reg_delete_key = (registry_event_guid, 12)
declared reg_query_key = (registry_event_guid, 13)
declared reg_set_value = (registry_event_guid, 14)
declared reg_delete_value = (registry_event_guid, 15)
declared reg_query_value = (registry_event_guid, 16)
declared reg_create_kcb = (registry_event_guid, 22)
declared reg_delete_kcb = (registry_event_guid, 23)
declared reg_kcb_rundown = (registry_event_guid, 25)
declared reg_set_value_internal = (registry_kernel_event_guid, 36)
declared unload_image = (image_event_guid, 2)
declared image_rundown = (image_event_guid, 3)
declared load_image = (image_event_guid, 10)
declared load_image_internal = (process_kernel_event_guid, 5)
declared accept_tcpv4 = (network_tcp_event_guid, 15)
declared accept_tcpv6 = (network_tcp_event_guid, 31)
declared send_tcpv4 = (network_tcp_event_guid, 10)
declared send_tcpv6 = (network_tcp_event_guid, 26)
declared send_udpv4 = (network_udp_event_guid, 10)
declared send_udpv6 = (network_udp_event_guid, 26)
declared recv_tcpv4 = (network_tcp_event_guid, 11)
declared recv_tcpv6 = (network_tcp_event_guid, 27)
declared recv_udpv4 = (network_udp_event_guid, 11)
declared recv_udpv6 = (network_udp_event_guid, 27)
declared connect_tcpv4 = (network_tcp_event_guid, 12)
declared connect_tcpv6 = (network_tcp_event_guid, 28)
declared disconnect_tcpv4 = (network_tcp_event_guid, 13)
declared disconnect_tcpv6 = (network_tcp_event_guid, 29)
declared reconnect_tcpv4 = (network_tcp_event_guid, 16)
declared reconnect_tcpv6 = (network_tcp_event_guid, 32)
declared retransmit_tcpv4 = (network_tcp_event_guid, 14)
declared retransmit_tcpv6 = (network_tcp_event_guid, 30)
declared create_handle = (handle_event_guid, 32)
declared close_handle = (handle_event_guid, 33)
declared duplicate_handle = (handle_event_guid, 34)
declared virtual_alloc = (mem_event_guid, 98)
declared virtual_free = (mem_event_guid, 99)
declared query_dns = (dns_event_guid, 3006)
declared reply_dns = (dns_event_guid, 3008)
declared stack_walk = (stack_walk_guid, 32)
declared create_symbolic_link_object = (audit_api_event_guid, 3)
declared submit_threadpool_work = (threadpool_guid, 32)
declared submit_threadpool_callback = (threadpool_guid, 34)
declared set_threadpool_timer = (threadpool_guid, 44)
declared unknown_type = (zero_guid, 0)

abbrev byte : ℕ → ℕ
byte x = x % 256

abbrev shl : ℕ → ℕ → ℕ
shl x k = x * 2 ^ k

abbrev shr : ℕ → ℕ → ℕ
shr x k = x / 2 ^ k

-- The array has eighteen bytes: the GUID's, then the operation code's.
unfoldable pub pack : Guid → ℕ → List ℕ
pack g id =
    (byte (shr g.data1 24) ∷ byte (shr g.data1 16) ∷ byte (shr g.data1 8) ∷ byte g.data1 ∷ [])
    ++ (byte (shr g.data2 8) ∷ byte g.data2 ∷ byte (shr g.data3 8) ∷ byte g.data3 ∷ [])
    ++ (g.data4 ++ (byte (shr id 8) ∷ byte id ∷ []))

-- The declared value of a type.
unfoldable pub bytes : EventType → List ℕ
unfolding declared pack
bytes t = let (g, id) = declared t in pack g id

unfoldable pub hook_id : EventType → ℕ
unfolding bytes
hook_id t = shl (get_or (bytes t) 16 0) 8 + get_or (bytes t) 17 0

-- The number by which the mask-based bit set knows a type.
unfoldable pub id : EventType → ℕ
unfolding hook_id bytes
id t = bit_or (shl (get_or (bytes t) 0 0) 56) (
    bit_or (shl (get_or (bytes t) 1 0) 48) (
      bit_or (shl (get_or (bytes t) 2 0) 40) (
        bit_or (shl (get_or (bytes t) 3 0) 32) (
          bit_or (shl (get_or (bytes t) 4 0) 24)
            (bit_or (shl (get_or (bytes t) 5 0) 16) (hook_id t))))))
