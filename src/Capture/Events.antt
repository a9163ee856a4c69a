-- ===== src/Capture/Events.antt =====
-- pkg/event/marshaller_windows.go: an event in a capture, with `MarshalRaw`. Reading it back is in
-- Restoring, for the values, and Reading.
--
-- A parameter's value is one of the Go types behind the interface; a value of another type than the
-- parameter's type asks for makes the type assertion of `MarshalRaw` panic. Floats are their bits.
pub mod Restoring
pub mod Reading
pub mod Values
pub mod Addresses
pub mod Single
pub mod Each
pub mod Loops
pub mod Ends
pub mod Whole
pub mod RoundTrip
use fibratus.Prelude.{
  ℕ, ◌%◌, ◌||◌, ◌&&◌, Bool, true, false, List, [], ◌∷◌, ◌++◌, Option, none, some, length, ◌==◌,
  if◌then◌else◌,
}
use fibratus.Prelude.Int.{ℤ, wrap, u8_mod, u16_mod, u32_mod, u64_mod}
use fibratus.Event.Types.{create_process, process_rundown}
use fibratus.Event.Types.Guids.{bytes}
use fibratus.Event.Values.{eq_text, v4_in_v6_prefix}
use fibratus.Capture.Bytes.{
  Bytes, Decoded, done, crashed, ◌>>=◌, ByteOrder, write_uint16, write_uint32, write_uint64, btoi,
  sized,
}
use fibratus.Capture.Sections.{SectionType, section, process_sec_v4}
use fibratus.Capture.Times.{TimeFormat}
use fibratus.Capture.Processes.{PeCodec, Process, write_args, write_envs}
use fibratus.Capture.Processes
use fibratus.Capture.ParamTypes.{ParamType, code, capture_type}

pub data Value (Time : Type 0) : Type 0 where
  text : Bytes → Value Time
  u8 u16 u32 u64 : ℕ → Value Time
  i8 i16 i32 i64 : ℤ → Value Time
  f32 f64 : ℕ → Value Time
  ip : Bytes → Value Time
  bool : Bool → Value Time
  time : Time → Value Time
  texts : List Bytes → Value Time
  addresses : List ℕ → Value Time
  binary : Bytes → Value Time
  other : Value Time

-- The cases of the switch on the type.
pub data Layout : Type 0 where
  text shown u8 i8 u16 i16 u32 i32 u64 i64 double float ipv4 ipv6 bool time slice binary : Layout
  unwritten : Layout

unfoldable pub layout : ParamType → Layout
layout ParamType.ansi_string = Layout.text
layout ParamType.unicode_string = Layout.text
layout ParamType.key = Layout.shown
layout ParamType.path = Layout.shown
layout ParamType.dos_path = Layout.shown
layout ParamType.handle_type = Layout.shown
layout ParamType.uint8 = Layout.u8
layout ParamType.int8 = Layout.i8
layout ParamType.uint16 = Layout.u16
layout ParamType.port = Layout.u16
layout ParamType.int16 = Layout.i16
layout ParamType.uint32 = Layout.u32
layout ParamType.status = Layout.u32
layout ParamType.enum = Layout.u32
layout ParamType.flags = Layout.u32
layout ParamType.pid = Layout.u32
layout ParamType.tid = Layout.u32
layout ParamType.int32 = Layout.i32
layout ParamType.uint64 = Layout.u64
layout ParamType.address = Layout.u64
layout ParamType.flags64 = Layout.u64
layout ParamType.int64 = Layout.i64
layout ParamType.double = Layout.double
layout ParamType.float = Layout.float
layout ParamType.ipv4 = Layout.ipv4
layout ParamType.ipv6 = Layout.ipv6
layout ParamType.bool = Layout.bool
layout ParamType.time = Layout.time
layout ParamType.slice = Layout.slice
layout ParamType.binary = Layout.binary
layout ParamType.sid = Layout.binary
layout ParamType.wbem_sid = Layout.binary
layout _ = Layout.unwritten

-- A parameter with the text that `GetParamAsString` makes of it.
pub record Param (Time : Type 0) : Type 0 where
  pub type : ParamType
  pub value : Value Time
  pub shown : Bytes

-- `To4` and `To16` of `net.IP`
unfoldable pub to_4 : Bytes → Bytes
to_4 (a ∷ b ∷ c ∷ d ∷ []) = a ∷ b ∷ c ∷ d ∷ []
to_4 (a1 ∷ a2 ∷ a3 ∷ a4 ∷ a5 ∷ a6 ∷ a7 ∷ a8 ∷ a9 ∷ a10 ∷ a11 ∷ a12 ∷ a ∷ b ∷ c ∷ d ∷ []) =
    if eq_text (a1 ∷ a2 ∷ a3 ∷ a4 ∷ a5 ∷ a6 ∷ a7 ∷ a8 ∷ a9 ∷ a10 ∷ a11 ∷ a12 ∷ []) v4_in_v6_prefix
    then a ∷ b ∷ c ∷ d ∷ []
    else []
to_4 _ = []

unfoldable pub to_16 : Bytes → Bytes
to_16 a = if length a == 4 then v4_in_v6_prefix ++ a else if length a == 16 then a else []

-- An event, with `P` for what a parameter is, and of its type the 18 bytes.
pub record EventState (P Time Pe : Type 0) : Type 0 where
  pub seq : ℕ
  pub pid : ℕ
  pub tid : ℕ
  pub type : Bytes
  pub cpu : ℕ
  pub name : Bytes
  pub category : Bytes
  pub description : Bytes
  pub host : Bytes
  pub timestamp : Time
  pub params : List (Bytes × P)
  pub metadata : List (Bytes × Bytes)
  pub ps : Option (Process Time Pe)

-- `IsCreateProcess() || IsProcessRundown()`
unfoldable pub carries_process : Bytes → Bool
carries_process t = eq_text t (bytes create_process) || eq_text t (bytes process_rundown)

module _ (o : ByteOrder) where
  unfoldable pub write_addresses : List ℕ → Bytes
  write_addresses [] = []
  write_addresses (a ∷ l) = write_uint64 o a ++ write_addresses l

  module _ (tf : TimeFormat) (codec : PeCodec) where
    open tf use {Time, format}
    open codec use {Pe}

    -- The value of a parameter.
    unfoldable pub write_value : Layout → Value Time → Bytes → Decoded Bytes
    unfolding write_addresses write_args to_4 to_16 btoi
    write_value Layout.text (Value.text s) str = done (sized o s)
    write_value Layout.shown v str = done (sized o str)
    write_value Layout.u8 (Value.u8 n) str = done (n ∷ [])
    write_value Layout.i8 (Value.i8 z) str = done (wrap u8_mod z ∷ [])
    write_value Layout.u16 (Value.u16 n) str = done (write_uint16 o n)
    write_value Layout.i16 (Value.i16 z) str = done (write_uint16 o (wrap u16_mod z))
    write_value Layout.u32 (Value.u32 n) str = done (write_uint32 o n)
    write_value Layout.i32 (Value.i32 z) str = done (write_uint32 o (wrap u32_mod z))
    write_value Layout.u64 (Value.u64 n) str = done (write_uint64 o n)
    write_value Layout.i64 (Value.i64 z) str = done (write_uint64 o (wrap u64_mod z))
    write_value Layout.double (Value.f32 n) str = done (write_uint32 o n)
    write_value Layout.float (Value.f64 n) str = done (write_uint64 o n)
    write_value Layout.ipv4 (Value.ip a) str = done (to_4 a)
    write_value Layout.ipv6 (Value.ip a) str = done (to_16 a)
    write_value Layout.bool (Value.bool x) str = done (btoi x ∷ [])
    write_value Layout.time (Value.time t) str = done (sized o (format t))
    write_value Layout.slice (Value.texts l) str =
        done (b's' ∷ (write_uint16 o (length l % u16_mod) ++ write_args o l))
    write_value Layout.slice (Value.addresses l) str =
        done (b'8' ∷ (write_uint16 o (length l % u16_mod) ++ write_addresses l))
    write_value Layout.slice v str = done []
    write_value Layout.binary (Value.binary s) str = done (write_uint32 o (length s % u32_mod) ++ s)
    write_value Layout.unwritten v str = done []
    write_value l v str = crashed

    unfoldable pub write_params : List (Bytes × Param Time) → Decoded Bytes
    unfolding write_value layout capture_type code
    write_params [] = done []
    write_params ((name, p) ∷ params) = do
      value ← write_value (layout p.type) p.value p.shown
      rest ← write_params params
      done (write_uint16 o (code (capture_type p.type)) ++ (sized o name ++ (value ++ rest)))

    -- The process of an event of a type.
    unfoldable pub write_process : Bytes → Option (Process Time Pe) → Bytes
    unfolding carries_process
    write_process type none = section o SectionType.process process_sec_v4 0 0
    write_process type (some ps) =
        if carries_process type
        then section o SectionType.process process_sec_v4 0
            (length (Processes.marshal o tf codec ps) % u32_mod)
          ++ Processes.marshal o tf codec ps
        else section o SectionType.process process_sec_v4 0 0

    -- `MarshalRaw`
    unfoldable pub marshal_raw : EventState (Param Time) Time Pe → Decoded Bytes
    unfolding write_params write_process write_envs
    marshal_raw e = do
      params ← write_params e.params
      done (
          write_uint64 o e.seq
          ++ (write_uint32 o e.pid
              ++ (write_uint32 o e.tid
                  ++ (e.type
                      ++ e.cpu
                        ∷ (sized o e.name
                            ++ (sized o e.category
                                ++ (sized o e.description
                                    ++ (sized o e.host
                                        ++ (sized o (format e.timestamp)
                                            ++ (write_uint16 o (length e.params % u16_mod)
                                                ++ (params
                                                    ++ (write_uint16 o (length e.metadata % u16_mod)
                                                        ++ (write_envs o e.metadata
                                                            ++ write_process e.type
                                                            e.ps)))))))))))))
