-- ===== src/Capture/Processes/Lists.antt =====
-- The strings and the lists of a process are read back.
use fibratus.Prelude.{
  ℕ, ◌+◌, ◌%◌, ◌<◌, ◌≡◌, refl, ◌++◌, Option, none, some, length, map, All, arith,
}
use fibratus.Prelude.Int.{u16_mod, u32_mod}
use fibratus.Capture.Bytes.{Bytes, done, ByteOrder, sized}
use fibratus.Capture.Bytes.Placed.{
  Stands, at, moves, past_uint16, past_uint32, past_sized, uint16_at-Stands, uint32_at-Stands,
  sized_at-Stands, sized_if_any_at-Stands, lengths,
}
use fibratus.Capture.Sections.{
  SectionType, read_section-Stands, past_section, sec_len-section, length-section, process_sec_v4,
  pe_sec_v2, handle_sec_v1,
}
use fibratus.Capture.Handles.RoundTrip.{IsHandle}
use fibratus.Capture.Times.{TimeFormat}
use fibratus.Capture.Processes.{
  PeCodec, Process, write_args, write_envs, write_handles, marshal_executable, marshal_end,
  marshal_lists,
}
use fibratus.Capture.Processes.Reading.{read_strings, read_session, read_lists}
use fibratus.Capture.Maps.{IsMap}
use fibratus.Capture.Processes.Loops.{kept, read_args-write, read_envs_whole, read_handles-write}

module _ (o : ByteOrder) (tf : TimeFormat) (codec : PeCodec) where
  open tf use {Time, format}
  open codec use {Pe, marshal_pe}

  abbrev pub lists_end : Process Time Pe → ℕ → ℕ
  lists_end ps offset =
      offset
      + length (write_args o ps.args)
      + length (write_envs o ps.envs)
      + 10
      + length (write_handles o ps.handles)

  pub marshal_end_pos : (ps : Process Time Pe) → 0 < length (marshal_end o tf codec ps)
  unfolding marshal_end
  marshal_end_pos ps = omega lengths

  pub executable_pos :
      (pe : Option Pe) (rest : Bytes) → 0 < length (marshal_executable o tf codec pe ++ rest)
  unfolding marshal_executable
  executable_pos none rest = omega (lengths, length-section o SectionType.pe pe_sec_v2 0 0)
  executable_pos (some pe) rest =
      omega
        (lengths, length-section o SectionType.pe pe_sec_v2 0 (length (marshal_pe pe) % u32_mod))

module _ (o : ByteOrder) (tf : TimeFormat) (codec : PeCodec) {b : Bytes}
    (small : length b < u32_mod) where
  open tf use {Time, zero_time, format, parse}
  open codec use {Pe, marshal_pe, unmarshal_pe}

  pub read_strings-Stands :
      (t1 t2 t3 t4 t5 rest : Bytes)
      → Stands b 8
          (sized o t1 ++ (sized o t2 ++ (sized o t3 ++ (sized o t4 ++ (sized o t5 ++ rest)))))
      → length t1 < u16_mod
      → length t2 < u16_mod
      → length t3 < u16_mod
      → length t4 < u16_mod
      → length t5 < u16_mod
      → let offset = length t1 + length t2 + length t3 + length t4 + length t5 in
        (read_strings o tf codec b ≡ done (t1, t2, t3, t4, t5, offset))
        × Stands b (18 + offset) rest
  unfolding read_strings
  read_strings-Stands t1 t2 t3 t4 t5 rest s1 h1 h2 h3 h4 h5 =
      let s2 = past_sized o _ _ s1 in
      let s3 = past_sized o _ _ s2 in
      let s4 = past_sized o _ _ s3 in
      let s5 = past_sized o _ _ s4 in
      let s6 = past_sized o _ _ s5 in
      let l1 = length t1 in
      let l2 = length t2 in
      let l3 = length t3 in
      let l4 = length t4 in
      (
        rw (
          sized_at-Stands small o 8 10 t1 _ s1 refl refl h1 (omega lengths),
          sized_at-Stands small o (10 + l1) (12 + l1) t2 _ s2 (omega arith) (omega arith) h2
              (omega lengths),
          sized_at-Stands small o (12 + (l1 + l2)) (14 + (l1 + l2)) t3 _ s3 (omega arith)
              (omega arith) h3 (omega lengths),
          sized_at-Stands small o (14 + (l1 + l2 + l3)) (16 + (l1 + l2 + l3)) t4 _ s4 (omega arith)
              (omega arith) h4 (omega lengths),
          sized_if_any_at-Stands small o (16 + (l1 + l2 + l3 + l4)) (18 + (l1 + l2 + l3 + l4)) t5 _
              s5 (omega arith) (omega arith) h5,
        ),
        at s6 (omega arith),
      )

  pub read_lists-Stands :
      (ps : Process Time Pe) (offset : ℕ)
      → Stands b (18 + offset) (marshal_lists o tf codec ps)
      → length ps.args < u16_mod
      → length (write_args o ps.args) < u16_mod
      → ps.session_id < u32_mod
      → length ps.envs < u16_mod
      → length (write_envs o ps.envs) < u16_mod
      → IsMap ps.envs
      → length ps.handles < u32_mod
      → All IsHandle ps.handles
      → (read_lists o tf codec b process_sec_v4 offset
          ≡ done (
            ps.args,
            ps.session_id,
            ps.envs,
            map kept ps.handles,
            26,
            lists_end o tf codec ps offset,
          ))
        × Stands b
            (26 + lists_end o tf codec ps offset)
            (marshal_executable o tf codec ps.pe ++ marshal_end o tf codec ps)
  unfolding read_lists read_session marshal_lists
  read_lists-Stands ps offset s0 nargs sargs session nenvs senvs keys nhandles fine =
      let a = length (write_args o ps.args) in
      let e = length (write_envs o ps.envs) in
      let wargs : length ps.args % u16_mod ≡ length ps.args = omega arith in
      let wenvs : length ps.envs % u16_mod ≡ length ps.envs = omega arith in
      let whandles : length ps.handles % u32_mod ≡ length ps.handles = omega arith in
      let s1 = past_uint16 o _ _ s0 in
      let s2 = moves (write_args o ps.args) s1 refl in
      let s3 = past_uint32 o _ _ s2 in
      let s4 = past_uint16 o _ _ s3 in
      let s5 = moves (write_envs o ps.envs) s4 refl in
      let s6 = past_section o _ _ _ _ _ s5 in
      let s7 = moves (write_handles o ps.handles) s6 refl in
      (
        rw (
          uint16_at-Stands small o (18 + offset) _ _ s0 refl (omega arith),
          wargs,
          read_args-write o small (20 + offset) 0 ps.args _ a (at s1 (omega arith)) (omega arith)
              sargs (omega lengths),
          uint32_at-Stands small o (20 + (offset + a)) _ _ s2 (omega arith) session,
          uint16_at-Stands small o (24 + (offset + a)) _ _ s3 (omega arith) (omega arith),
          wenvs,
          read_envs_whole o small (26 + (offset + a)) ps.envs _ (at s4 (omega arith)) senvs
              (omega (
                lengths,
                length-section o SectionType.handle handle_sec_v1 (length ps.handles % u32_mod) 0,
              ))
              keys,
          read_section-Stands o small (26 + (offset + a + e)) _ _ _ _ _ s5 (omega arith),
          sec_len-section o SectionType.handle handle_sec_v1 (length ps.handles % u32_mod) 0
              (omega arith),
          whandles,
          read_handles-write o small (26 + (offset + a + e + 10)) 0 ps.handles _
              (length (write_handles o ps.handles)) (at s6 (omega arith)) fine (omega arith),
        ),
        at s7 (omega arith),
      )
