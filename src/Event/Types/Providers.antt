-- ===== src/Event/Types/Providers.antt =====
-- pkg/event/types_windows.go: the GUIDs of the event providers.
use fibratus.Prelude.{ℕ, List, [], ◌∷◌}

pub record Guid : Type 0 where
  pub data1 : ℕ
  pub data2 : ℕ
  pub data3 : ℕ
  pub data4 : List ℕ

abbrev pub process_event_guid : Guid
process_event_guid = record {
  data1 = 0x3d6fa8d0;
  data2 = 0xfe05;
  data3 = 0x11d0;
  data4 = 0x9d ∷ 0xda ∷ 0x0 ∷ 0xc0 ∷ 0x4f ∷ 0xd7 ∷ 0xba ∷ 0x7c ∷ [];
}

abbrev pub thread_event_guid : Guid
thread_event_guid = record {
  data1 = 0x3d6fa8d1;
  data2 = 0xfe05;
  data3 = 0x11d0;
  data4 = 0x9d ∷ 0xda ∷ 0x0 ∷ 0xc0 ∷ 0x4f ∷ 0xd7 ∷ 0xba ∷ 0x7c ∷ [];
}

abbrev pub image_event_guid : Guid
image_event_guid = record {
  data1 = 0x2cb15d1d;
  data2 = 0x5fc1;
  data3 = 0x11d2;
  data4 = 0xab ∷ 0xe1 ∷ 0x0 ∷ 0xa0 ∷ 0xc9 ∷ 0x11 ∷ 0xf5 ∷ 0x18 ∷ [];
}

abbrev pub file_event_guid : Guid
file_event_guid = record {
  data1 = 0x90cbdc39;
  data2 = 0x4a3e;
  data3 = 0x11d1;
  data4 = 0x84 ∷ 0xf4 ∷ 0x0 ∷ 0x0 ∷ 0xf8 ∷ 0x04 ∷ 0x64 ∷ 0xe3 ∷ [];
}

abbrev pub registry_event_guid : Guid
registry_event_guid = record {
  data1 = 0xae53722e;
  data2 = 0xc863;
  data3 = 0x11d2;
  data4 = 0x86 ∷ 0x59 ∷ 0x0 ∷ 0xc0 ∷ 0x4f ∷ 0xa3 ∷ 0x21 ∷ 0xa1 ∷ [];
}

abbrev pub network_tcp_event_guid : Guid
network_tcp_event_guid = record {
  data1 = 0x9a280ac0;
  data2 = 0xc8e0;
  data3 = 0x11d1;
  data4 = 0x84 ∷ 0xe2 ∷ 0x0 ∷ 0xc0 ∷ 0x4f ∷ 0xb9 ∷ 0x98 ∷ 0xa2 ∷ [];
}

abbrev pub network_udp_event_guid : Guid
network_udp_event_guid = record {
  data1 = 0xbf3a50c5;
  data2 = 0xa9c9;
  data3 = 0x4988;
  data4 = 0xa0 ∷ 0x05 ∷ 0x2d ∷ 0xf0 ∷ 0xb7 ∷ 0xc8 ∷ 0x0f ∷ 0x80 ∷ [];
}

abbrev pub handle_event_guid : Guid
handle_event_guid = record {
  data1 = 0x89497f50;
  data2 = 0xeffe;
  data3 = 0x4440;
  data4 = 0x8c ∷ 0xf2 ∷ 0xce ∷ 0x6b ∷ 0x1c ∷ 0xdc ∷ 0xac ∷ 0xa7 ∷ [];
}

abbrev pub mem_event_guid : Guid
mem_event_guid = record {
  data1 = 0x3d6fa8d3;
  data2 = 0xfe05;
  data3 = 0x11d0;
  data4 = 0x9d ∷ 0xda ∷ 0x00 ∷ 0xc0 ∷ 0x4f ∷ 0xd7 ∷ 0xba ∷ 0x7c ∷ [];
}

abbrev pub audit_api_event_guid : Guid
audit_api_event_guid = record {
  data1 = 0xe02a841c;
  data2 = 0x75a3;
  data3 = 0x4fa7;
  data4 = 0xaf ∷ 0xc8 ∷ 0xae ∷ 0x09 ∷ 0xcf ∷ 0x9b ∷ 0x7f ∷ 0x23 ∷ [];
}

abbrev pub dns_event_guid : Guid
dns_event_guid = record {
  data1 = 0x1c95126e;
  data2 = 0x7eea;
  data3 = 0x49a9;
  data4 = 0xa3 ∷ 0xfe ∷ 0xa3 ∷ 0x78 ∷ 0xb0 ∷ 0x3d ∷ 0xdb ∷ 0x4d ∷ [];
}

abbrev pub threadpool_guid : Guid
threadpool_guid = record {
  data1 = 0xc861d0e2;
  data2 = 0xa2c1;
  data3 = 0x4d36;
  data4 = 0x9f ∷ 0x9c ∷ 0x97 ∷ 0x0b ∷ 0xab ∷ 0x94 ∷ 0x3a ∷ 0x12 ∷ [];
}

-- The identifier that `StackWalk` writes out.
abbrev pub stack_walk_guid : Guid
stack_walk_guid = record {
  data1 = 0xdef2fe46;
  data2 = 0x7bd6;
  data3 = 0x4b80;
  data4 = 0xbd ∷ 0x94 ∷ 0xf5 ∷ 0x7f ∷ 0xe2 ∷ 0x0d ∷ 0x0c ∷ 0xe3 ∷ [];
}

abbrev pub process_kernel_event_guid : Guid
process_kernel_event_guid = record {
  data1 = 0x22fb2cd6;
  data2 = 0x0e7b;
  data3 = 0x422b;
  data4 = 0xa0 ∷ 0xc7 ∷ 0x2f ∷ 0xad ∷ 0x1f ∷ 0xd0 ∷ 0xe7 ∷ 0x16 ∷ [];
}

abbrev pub registry_kernel_event_guid : Guid
registry_kernel_event_guid = record {
  data1 = 0x70eb4f03;
  data2 = 0xc1de;
  data3 = 0x4f73;
  data4 = 0xa0 ∷ 0x51 ∷ 0x33 ∷ 0xd1 ∷ 0x3d ∷ 0x54 ∷ 0x13 ∷ 0xbd ∷ [];
}

abbrev pub zero_guid : Guid
zero_guid = record { data1 = 0; data2 = 0; data3 = 0; data4 = 0 ∷ 0 ∷ 0 ∷ 0 ∷ 0 ∷ 0 ∷ 0 ∷ 0 ∷ [] }
