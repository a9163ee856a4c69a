-- ===== src/Capture/ParamTypes.antt =====
-- pkg/event/params/types_windows.go: the types of event parameters, and the type that a capture gives
-- to a parameter (`CaptureType` in pkg/event/param.go).
use fibratus.Prelude.{ℕ}

-- `params.Type`
pub data ParamType : Type 0 where
  null unicode_string ansi_string int8 uint8 int16 uint16 int32 uint32 int64 uint64 : ParamType
  float double bool binary guid pointer sid pid tid wbem_sid port ip ipv4 ipv6 time : ParamType
  slice enum map_type object dos_path path status key flags flags64 address handle_type : ParamType

unfoldable pub code : ParamType → ℕ
code ParamType.null = 0
code ParamType.unicode_string = 1
code ParamType.ansi_string = 2
code ParamType.int8 = 3
code ParamType.uint8 = 4
code ParamType.int16 = 5
code ParamType.uint16 = 6
code ParamType.int32 = 7
code ParamType.uint32 = 8
code ParamType.int64 = 9
code ParamType.uint64 = 10
code ParamType.float = 11
code ParamType.double = 12
code ParamType.bool = 13
code ParamType.binary = 14
code ParamType.guid = 15
code ParamType.pointer = 16
code ParamType.sid = 17
code ParamType.pid = 18
code ParamType.tid = 19
code ParamType.wbem_sid = 20
code ParamType.port = 21
code ParamType.ip = 22
code ParamType.ipv4 = 23
code ParamType.ipv6 = 24
code ParamType.time = 25
code ParamType.slice = 26
code ParamType.enum = 27
code ParamType.map_type = 28
code ParamType.object = 29
code ParamType.dos_path = 30
code ParamType.path = 31
code ParamType.status = 32
code ParamType.key = 33
code ParamType.flags = 34
code ParamType.flags64 = 35
code ParamType.address = 36
code ParamType.handle_type = 37

-- `CaptureType`
unfoldable pub capture_type : ParamType → ParamType
capture_type ParamType.handle_type = ParamType.unicode_string
capture_type ParamType.dos_path = ParamType.unicode_string
capture_type ParamType.key = ParamType.unicode_string
capture_type t = t
