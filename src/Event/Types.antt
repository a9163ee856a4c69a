-- ===== src/Event/Types.antt =====
-- pkg/event/types_windows.go: the event types that the program knows, by name.
pub mod Providers
pub mod Guids
pub mod Traits
pub mod Unique
pub mod Names

pub data EventType : Type 0 where
  create_process terminate_process process_rundown open_process : EventType
  create_process_internal process_rundown_internal create_thread terminate_thread : EventType
  thread_rundown open_thread set_thread_context map_view_file unmap_view_file : EventType
  map_file_rundown file_rundown create_file release_file close_file read_file : EventType
  write_file set_file_information delete_file rename_file enum_directory : EventType
  file_op_end reg_create_key reg_open_key reg_close_key reg_delete_key : EventType
  reg_query_key reg_set_value reg_delete_value reg_query_value reg_create_kcb : EventType
  reg_delete_kcb reg_kcb_rundown reg_set_value_internal unload_image image_rundown : EventType
  load_image load_image_internal accept_tcpv4 accept_tcpv6 send_tcpv4 send_tcpv6 : EventType
  send_udpv4 send_udpv6 recv_tcpv4 recv_tcpv6 recv_udpv4 recv_udpv6 connect_tcpv4 : EventType
  connect_tcpv6 disconnect_tcpv4 disconnect_tcpv6 reconnect_tcpv4 reconnect_tcpv6 : EventType
  retransmit_tcpv4 retransmit_tcpv6 create_handle close_handle duplicate_handle : EventType
  virtual_alloc virtual_free query_dns reply_dns create_symbolic_link_object : EventType
  stack_walk submit_threadpool_work submit_threadpool_callback set_threadpool_timer : EventType
  unknown_type : EventType

pub data Category : Type 0 where
  process thread image file registry net handle mem object threadpool unknown : Category
