-- ===== src/Capture/Processes/RoundTrip.antt =====
-- A process that was written is read back, but for its user and its domain.
use fibratus.Prelude.{◌<◌, ◌≡◌, refl, false, ◌++◌, length, take, map, ltb, All, arith, ◌==◌}
use fibratus.Prelude.Int.{u16_mod, u32_mod, u64_mod}
use fibratus.Capture.Bytes.{done, ByteOrder, write_uint32, sized}
use fibratus.Capture.Bytes.Placed.{Stands, begins, past_uint32, uint32_at-Stands, lengths}
use fibratus.Capture.Sections.{process_sec_v4}
use fibratus.Capture.Handles.RoundTrip.{IsHandle}
use fibratus.Capture.Times.{TimeFormat, ParsesBack}
use fibratus.Capture.Processes.{PeCodec, Process, write_args, write_envs, marshal_lists, marshal}
use fibratus.Capture.Processes.Reading.{unmarshal}
use fibratus.Capture.Processes.Loops.{kept}
use fibratus.Capture.Maps.{IsMap}
use fibratus.Capture.Processes.Keeps.{KeepsPe, PeFits}
use fibratus.Capture.Processes.Lists.{read_strings-Stands, read_lists-Stands, marshal_end_pos}
use fibratus.Capture.Processes.Ends.{read_executable-Stands, read_end-Stands}

-- What the widths of the format ask of a process.
pub record IsProcess (o : ByteOrder) (tf : TimeFormat) (codec : PeCodec) (keeps : KeepsPe codec)
    (ps : Process tf.Time codec.Pe) : Type 0 where
  pub pid_fits : ps.pid < u32_mod
  pub ppid_fits : ps.ppid < u32_mod
  pub session_fits : ps.session_id < u32_mod
  pub uuid_fits : ps.uuid < u64_mod
  pub name_short : length ps.name < u16_mod
  pub cmdline_short : length ps.cmdline < u16_mod
  pub exe_short : length ps.exe < u16_mod
  pub cwd_short : length ps.cwd < u16_mod
  pub sid_short : length ps.sid < u16_mod
  pub username_short : length ps.username < u16_mod
  pub domain_short : length ps.domain < u16_mod
  pub args_few : length ps.args < u16_mod
  -- The loops over the arguments and the variables count in a `uint16`.
  pub args_short : length (write_args o ps.args) < u16_mod
  pub envs_few : length ps.envs < u16_mod
  pub envs_short : length (write_envs o ps.envs) < u16_mod
  pub envs_map : IsMap ps.envs
  pub handles_few : length ps.handles < u32_mod
  pub handles_fit : All IsHandle ps.handles
  pub pe_fits : PeFits keeps ps.pe
  pub all_short : length (marshal o tf codec ps) < u32_mod

-- A process as it comes back.
abbrev pub kept_process :
    (o : ByteOrder) (tf : TimeFormat) (codec : PeCodec)
    → Process tf.Time codec.Pe
    → Process tf.Time codec.Pe
kept_process o tf codec ps = record ps {
  handles = map kept ps.handles;
  username = take (length ps.username) (marshal o tf codec ps);
  domain = take (length ps.domain) (marshal o tf codec ps);
}

module _ (o : ByteOrder) {tf : TimeFormat} {codec : PeCodec} (parses : ParsesBack tf)
    (keeps : KeepsPe codec) where
  open tf use {Time}
  open codec use {Pe}

  pub process_size : (ps : Process Time Pe) → 7 < length (marshal o tf codec ps)
  unfolding marshal
  process_size ps = omega lengths

  -- For times whose texts parse back, and metadata of executables that keeps a process: a
  -- process of the widths of the format is read back from what `Marshal` writes of it, but that
  -- its user and its domain are as many of the first bytes of the whole as they had bytes, and
  -- that metadata of a handle that is of no known type is lost.
  pub process_unmarshal-marshal :
      (ps : Process Time Pe)
      → IsProcess o tf codec keeps ps
      → unmarshal o tf codec (marshal o tf codec ps) process_sec_v4
        ≡ done (kept_process o tf codec ps)
  unfolding unmarshal
  process_unmarshal-marshal ps w =
      let small = w.all_short in
      let s0 = starts ps in
      let s1 = past_uint32 o _ _ s0 in
      let s2 = past_uint32 o _ _ s1 in
      let (strings, s3) =
        read_strings-Stands o tf codec small ps.name ps.cmdline ps.exe ps.cwd ps.sid _ s2
          w.name_short w.cmdline_short w.exe_short w.cwd_short w.sid_short in
      let (lists, s4) =
        read_lists-Stands o tf codec small ps _ s3 w.args_few w.args_short w.session_fits w.envs_few
          w.envs_short w.envs_map w.handles_few w.handles_fit in
      let (size, exe, s5) =
        read_executable-Stands o tf codec small keeps ps.pe _ _ s4 w.pe_fits
          (marshal_end_pos o tf codec ps) in
      let end =
        read_end-Stands o tf codec small parses ps (size == 0) _ s5 w.uuid_fits w.username_short
          w.domain_short in
      rw (
        long ps,
        uint32_at-Stands small o 0 _ _ s0 refl w.pid_fits,
        uint32_at-Stands small o 4 _ _ s1 refl w.ppid_fits,
        strings,
        lists,
        exe,
        end,
      )
    where
      starts :
          (ps : Process Time Pe)
          → Stands (marshal o tf codec ps) 0 (
              write_uint32 o ps.pid
              ++ (write_uint32 o ps.ppid
                  ++ (sized o ps.name
                      ++ (sized o ps.cmdline
                          ++ (sized o ps.exe
                              ++ (sized o ps.cwd
                                  ++ (sized o ps.sid ++ marshal_lists o tf codec ps)))))))
      starts ps = unfold marshal in begins (marshal o tf codec ps)

      long : (ps : Process Time Pe) → ltb (length (marshal o tf codec ps)) 8 ≡ false
      long ps = ground (arith, process_size ps)
