-- ===== src/Event/Types/Traits.antt =====
-- pkg/event/types_windows.go: the name and the category of a type, and how its events are treated.
use Prim.Native.String.{String}
use fibratus.Prelude.{Bool, true, false}
use fibratus.Event.Types.{
  EventType, Category, create_process, terminate_process, process_rundown, open_process,
  create_process_internal, process_rundown_internal, create_thread, terminate_thread,
  thread_rundown, open_thread, set_thread_context, map_view_file, unmap_view_file, map_file_rundown,
  file_rundown, create_file, release_file, close_file, read_file, write_file, set_file_information,
  delete_file, rename_file, enum_directory, file_op_end, reg_create_key, reg_open_key,
  reg_close_key, reg_delete_key, reg_query_key, reg_set_value, reg_delete_value, reg_query_value,
  reg_create_kcb, reg_delete_kcb, reg_kcb_rundown, reg_set_value_internal, unload_image,
  image_rundown, load_image, load_image_internal, accept_tcpv4, accept_tcpv6, send_tcpv4,
  send_tcpv6, send_udpv4, send_udpv6, recv_tcpv4, recv_tcpv6, recv_udpv4, recv_udpv6, connect_tcpv4,
  connect_tcpv6, disconnect_tcpv4, disconnect_tcpv6, reconnect_tcpv4, reconnect_tcpv6,
  retransmit_tcpv4, retransmit_tcpv6, create_handle, close_handle, duplicate_handle, virtual_alloc,
  virtual_free, query_dns, reply_dns, stack_walk, create_symbolic_link_object,
  submit_threadpool_work, submit_threadpool_callback, set_threadpool_timer, unknown_type,
}

unfoldable pub name : EventType → String
name create_process = "CreateProcess"
name terminate_process = "TerminateProcess"
name process_rundown = "ProcessRundown"
name open_process = "OpenProcess"
name create_process_internal = "CreateProcess"
name process_rundown_internal = "ProcessRundown"
name create_thread = "CreateThread"
name terminate_thread = "TerminateThread"
name thread_rundown = "ThreadRundown"
name open_thread = "OpenThread"
name set_thread_context = "SetThreadContext"
name map_view_file = "MapViewFile"
name unmap_view_file = "UnmapViewFile"
name map_file_rundown = "MapFileRundown"
name file_rundown = "FileRundown"
name create_file = "CreateFile"
name release_file = "ReleaseFile"
name close_file = "CloseFile"
name read_file = "ReadFile"
name write_file = "WriteFile"
name set_file_information = "SetFileInformation"
name delete_file = "DeleteFile"
name rename_file = "RenameFile"
name enum_directory = "EnumDirectory"
name file_op_end = "FileOpEnd"
name reg_create_key = "RegCreateKey"
name reg_open_key = "RegOpenKey"
name reg_close_key = "RegCloseKey"
name reg_delete_key = "RegDeleteKey"
name reg_query_key = "RegQueryKey"
name reg_set_value = "RegSetValue"
name reg_delete_value = "RegDeleteValue"
name reg_query_value = "RegQueryValue"
name reg_create_kcb = "RegCreateKCB"
name reg_delete_kcb = ""
name reg_kcb_rundown = "RegKCBRundown"
name reg_set_value_internal = "RegSetValue"
name unload_image = "UnloadImage"
name image_rundown = "ImageRundown"
name load_image = "LoadImage"
name load_image_internal = "LoadImage"
name accept_tcpv4 = "Accept"
name accept_tcpv6 = "Accept"
name send_tcpv4 = "Send"
name send_tcpv6 = "Send"
name send_udpv4 = "Send"
name send_udpv6 = "Send"
name recv_tcpv4 = "Recv"
name recv_tcpv6 = "Recv"
name recv_udpv4 = "Recv"
name recv_udpv6 = "Recv"
name connect_tcpv4 = "Connect"
name connect_tcpv6 = "Connect"
name disconnect_tcpv4 = "Disconnect"
name disconnect_tcpv6 = "Disconnect"
name reconnect_tcpv4 = "Reconnect"
name reconnect_tcpv6 = "Reconnect"
name retransmit_tcpv4 = "Retransmit"
name retransmit_tcpv6 = "Retransmit"
name create_handle = "CreateHandle"
name close_handle = "CloseHandle"
name duplicate_handle = "DuplicateHandle"
name virtual_alloc = "VirtualAlloc"
name virtual_free = "VirtualFree"
name query_dns = "QueryDns"
name reply_dns = "ReplyDns"
name stack_walk = "StackWalk"
name create_symbolic_link_object = "CreateSymbolicLinkObject"
name submit_threadpool_work = "SubmitThreadpoolWork"
name submit_threadpool_callback = "SubmitThreadpoolCallback"
name set_threadpool_timer = "SetThreadpoolTimer"
name unknown_type = ""

unfoldable pub category : EventType → Category
category create_process = Category.process
category terminate_process = Category.process
category process_rundown = Category.process
category open_process = Category.process
category create_process_internal = Category.process
category process_rundown_internal = Category.process
category create_thread = Category.thread
category terminate_thread = Category.thread
category stack_walk = Category.thread
category thread_rundown = Category.thread
category open_thread = Category.thread
category set_thread_context = Category.thread
category map_view_file = Category.file
category unmap_view_file = Category.file
category map_file_rundown = Category.file
category file_rundown = Category.file
category create_file = Category.file
category release_file = Category.file
category close_file = Category.file
category read_file = Category.file
category write_file = Category.file
category set_file_information = Category.file
category delete_file = Category.file
category rename_file = Category.file
category enum_directory = Category.file
category file_op_end = Category.file
category reg_create_key = Category.registry
category reg_open_key = Category.registry
category reg_close_key = Category.registry
category reg_delete_key = Category.registry
category reg_query_key = Category.registry
category reg_set_value = Category.registry
category reg_delete_value = Category.registry
category reg_query_value = Category.registry
category reg_create_kcb = Category.registry
category reg_delete_kcb = Category.registry
category reg_kcb_rundown = Category.registry
category reg_set_value_internal = Category.registry
category unload_image = Category.image
category image_rundown = Category.image
category load_image = Category.image
category load_image_internal = Category.image
category accept_tcpv4 = Category.net
category accept_tcpv6 = Category.net
category send_tcpv4 = Category.net
category send_tcpv6 = Category.net
category send_udpv4 = Category.net
category send_udpv6 = Category.net
category recv_tcpv4 = Category.net
category recv_tcpv6 = Category.net
category recv_udpv4 = Category.net
category recv_udpv6 = Category.net
category connect_tcpv4 = Category.net
category connect_tcpv6 = Category.net
category disconnect_tcpv4 = Category.net
category disconnect_tcpv6 = Category.net
category reconnect_tcpv4 = Category.net
category reconnect_tcpv6 = Category.net
category retransmit_tcpv4 = Category.net
category retransmit_tcpv6 = Category.net
category create_handle = Category.handle
category close_handle = Category.handle
category duplicate_handle = Category.handle
category virtual_alloc = Category.mem
category virtual_free = Category.mem
category query_dns = Category.net
category reply_dns = Category.net
category create_symbolic_link_object = Category.object
category submit_threadpool_work = Category.threadpool
category submit_threadpool_callback = Category.threadpool
category set_threadpool_timer = Category.threadpool
category unknown_type = Category.unknown

-- Types that only keep the state of the program current.
unfoldable pub only_state : EventType → Bool
only_state process_rundown = true
only_state process_rundown_internal = true
only_state create_process_internal = true
only_state thread_rundown = true
only_state image_rundown = true
only_state load_image_internal = true
only_state file_rundown = true
only_state reg_kcb_rundown = true
only_state file_op_end = true
only_state release_file = true
only_state map_file_rundown = true
only_state reg_create_kcb = true
only_state reg_delete_kcb = true
only_state reg_set_value_internal = true
only_state _ = false

-- Types whose events wait for the call stack that a later event carries.
unfoldable pub can_enrich_stack : EventType → Bool
can_enrich_stack create_process = true
can_enrich_stack create_thread = true
can_enrich_stack terminate_thread = true
can_enrich_stack load_image = true
can_enrich_stack reg_create_key = true
can_enrich_stack reg_delete_key = true
can_enrich_stack reg_set_value = true
can_enrich_stack reg_delete_value = true
can_enrich_stack delete_file = true
can_enrich_stack rename_file = true
can_enrich_stack virtual_alloc = true
can_enrich_stack submit_threadpool_work = true
can_enrich_stack submit_threadpool_callback = true
can_enrich_stack set_threadpool_timer = true
can_enrich_stack _ = false
