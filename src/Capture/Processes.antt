-- ===== src/Capture/Processes.antt =====
-- pkg/ps/types: the state of a process in a capture, with `Marshal`. Reading it
-- back is in Reading.
--
-- A map is the list of its pairs, in the order in which the code ranges over it. Of the state of a
-- process the model has the fields that are written.
pub mod Reading
pub mod Loops
pub mod Keeps
pub mod Lists
pub mod Ends
pub mod RoundTrip
use fibratus.Prelude.{
  ℕ, zero, suc, ◌+◌, ◌-◌, ◌%◌, Bool, true, false, ◌&&◌, false, List, [], ◌∷◌, ◌++◌, Option, none,
  some, length, take, ltb, leb, ◌==◌, if◌then◌else◌,
}
use fibratus.Prelude.Int.{u16_mod, u32_mod}
use fibratus.Event.Values.{eq_text}
use fibratus.Capture.Bytes.{
  Bytes, Decoded, done, failed, crashed, ◌>>=◌, ByteOrder, write_uint16, write_uint32, write_uint64,
  btoi, itob, slice, string_of, byte_at, uint16_at, uint32_at, uint64_at, sized, sized_at,
  sized_if_any_at,
}
use fibratus.Capture.Sections.{
  SectionType, section, read_section, sec_version, sec_len, sec_size, handle_sec_v1, pe_sec_v2,
  process_sec_v2, process_sec_v3, process_sec_v4,
}
use fibratus.Capture.Times.{TimeFormat}
use fibratus.Capture.Handles.{Handle}
use fibratus.Capture.Handles

-- The metadata of an executable, with `Marshal` and `NewFromCapture`.
pub record PeCodec : Type 1 where
  pub Pe : Type 0
  pub marshal_pe : Pe → Bytes
  pub unmarshal_pe : Bytes → ℕ → Decoded Pe

pub record Process (Time Pe : Type 0) : Type 0 where
  pub pid : ℕ
  pub ppid : ℕ
  pub name : Bytes
  pub cmdline : Bytes
  pub exe : Bytes
  pub cwd : Bytes
  pub sid : Bytes
  pub args : List Bytes
  pub session_id : ℕ
  pub envs : List (Bytes × Bytes)
  pub handles : List Handle
  pub pe : Option Pe
  pub start_time : Time
  pub uuid : ℕ
  pub username : Bytes
  pub domain : Bytes
  pub is_wow64 : Bool
  pub is_packaged : Bool
  pub is_protected : Bool

module _ (o : ByteOrder) where
  unfoldable pub write_args : List Bytes → Bytes
  write_args [] = []
  write_args (arg ∷ args) = sized o arg ++ write_args args

  unfoldable pub write_envs : List (Bytes × Bytes) → Bytes
  write_envs [] = []
  write_envs ((k, v) ∷ envs) = sized o k ++ (sized o v ++ write_envs envs)

  unfoldable pub write_handles : List Handle → Bytes
  write_handles [] = []
  write_handles (h ∷ handles) =
      write_uint16 o (Handles.offset h) ++ (Handles.marshal o h ++ write_handles handles)

module _ (o : ByteOrder) (tf : TimeFormat) (codec : PeCodec) where
  open tf use {Time, format}
  open codec use {Pe, marshal_pe}

  unfoldable pub marshal_executable : Option Pe → Bytes
  marshal_executable none = section o SectionType.pe pe_sec_v2 0 0
  marshal_executable (some pe) =
      section o SectionType.pe pe_sec_v2 0 (length (marshal_pe pe) % u32_mod) ++ marshal_pe pe

  -- What comes after the executable.
  unfoldable pub marshal_end : Process Time Pe → Bytes
  unfolding btoi
  marshal_end ps =
      sized o (format ps.start_time)
      ++ (write_uint64 o ps.uuid
          ++ (sized o ps.username
              ++ (sized o ps.domain
                  ++ btoi ps.is_wow64 ∷ btoi ps.is_packaged ∷ btoi ps.is_protected ∷ [])))

  -- What comes after the strings.
  unfoldable pub marshal_lists : Process Time Pe → Bytes
  unfolding write_args write_envs write_handles marshal_executable marshal_end
  marshal_lists ps =
      write_uint16 o (length ps.args % u16_mod)
      ++ (write_args o ps.args
          ++ (write_uint32 o ps.session_id
              ++ (write_uint16 o (length ps.envs % u16_mod)
                  ++ (write_envs o ps.envs
                      ++ (section o SectionType.handle handle_sec_v1 (length ps.handles % u32_mod) 0
                          ++ (write_handles o ps.handles
                              ++ (marshal_executable ps.pe ++ marshal_end ps)))))))

  unfoldable pub marshal : Process Time Pe → Bytes
  unfolding marshal_lists
  marshal ps =
      write_uint32 o ps.pid
      ++ (write_uint32 o ps.ppid
          ++ (sized o ps.name
              ++ (sized o ps.cmdline
                  ++ (sized o ps.exe ++ (sized o ps.cwd ++ (sized o ps.sid ++ marshal_lists ps))))))
