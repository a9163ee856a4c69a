-- ===== src/Capture/Executables/Tables.antt =====
-- The head, the tables and the format of an executable are read back.
use fibratus.Prelude.{ℕ, ◌+◌, ◌%◌, ◌<◌, ◌≡◌, refl, false, ◌++◌, length, All, arith}
use fibratus.Prelude.Int.{u16_mod, u32_mod}
use fibratus.Capture.Bytes.{Bytes, done, ByteOrder, write_uint16, sized}
use fibratus.Capture.Bytes.Placed.{
  Stands, at, moves, past_byte, past_uint16, past_sized, byte_at-Stands, uint16_at-Stands,
  sized_at-Stands, itob-btoi, lengths,
}
use fibratus.Capture.Times.{TimeFormat, ParsesBack, time_at-Stands}
use fibratus.Capture.Processes.{write_args, write_envs}
use fibratus.Capture.Processes.Loops.{regroup}
use fibratus.Capture.Maps.{IsMap}
use fibratus.Capture.Executables.{
  Executable, write_sections, marshal_format, marshal_signature, marshal_tables,
}
use fibratus.Capture.Executables.Reading.{narrow, wide, read_head, read_tables, read_format}
use fibratus.Capture.Executables.Loops.{
  IsShort, IsSec, IsResource, Ended, read_texts-Ended, narrow_lem, wide_lem, read_texts-write,
  read_sections-write, read_resources_whole,
}
use fibratus.Capture.Executables.Certificates.{signature_pos, tables_end}

pub tables_long :
    (o : ByteOrder) (tf : TimeFormat) (pe : Executable tf.Time) (rest : Bytes)
    → 0 < length (marshal_tables o tf pe ++ rest)
unfolding marshal_tables
tables_long o tf pe rest = omega lengths

module _ {tf : TimeFormat} (parses : ParsesBack tf) (o : ByteOrder) {b : Bytes}
    (small : length b < u32_mod) where
  open tf use {Time, format}

  pub read_head-Stands :
      (base entry : Bytes) (link : Time) (rest : Bytes)
      → Stands b 6 (sized o base ++ (sized o entry ++ (sized o (format link) ++ rest)))
      → length base < u16_mod
      → length entry < u16_mod
      → 0 < length rest
      → let offset = length base + length entry + length (format link) in
        (read_head o tf b ≡ done (base, entry, link, offset)) × Stands b (12 + offset) rest
  unfolding read_head
  read_head-Stands base entry link rest s0 hbase hentry left =
      let s1 = past_sized o _ _ s0 in
      let s2 = past_sized o _ _ s1 in
      let l1 = length base in
      let l2 = length entry in
      (
        rw (
          sized_at-Stands small o 6 8 base _ s0 refl refl hbase (omega lengths),
          sized_at-Stands small o (8 + l1) (10 + l1) entry _ s1 (omega arith) (omega arith) hentry
              (omega lengths),
          time_at-Stands tf parses o small false (10 + (l1 + l2)) (12 + (l1 + l2)) link rest s2
              (omega arith) (omega arith) left,
        ),
        at (past_sized o _ _ s2) (omega arith),
      )

  pub read_format-Stands :
      (pe : Executable Time) (rest : Bytes) (offset : ℕ)
      → Stands b (26 + offset) (marshal_format o tf pe ++ rest)
      → length pe.imphash < u16_mod
      → length pe.anomalies < u16_mod
      → All IsShort pe.anomalies
      → Ended pe.anomalies rest
      → read_format o tf b offset
        ≡ done (pe.is_driver, pe.is_dll, pe.is_executable, pe.is_dotnet, pe.imphash, pe.anomalies)
  unfolding read_format marshal_format
  read_format-Stands pe rest offset s0 himphash few short left =
      let s1 = past_byte s0 in
      let s2 = past_byte s1 in
      let s3 = past_byte s2 in
      let s4 = regroup (sized o pe.imphash) _ rest (past_byte s3) in
      let s5 =
        regroup (write_uint16 o (length pe.anomalies % u16_mod)) _ rest (past_sized o _ _ s4) in
      let s6 = past_uint16 o _ _ s5 in
      let l = length pe.imphash in
      let same : length pe.anomalies % u16_mod ≡ length pe.anomalies = omega arith in
      rw (
        byte_at-Stands small (26 + offset) _ _ s0 refl,
        byte_at-Stands small (27 + offset) _ _ s1 (omega arith),
        byte_at-Stands small (28 + offset) _ _ s2 (omega arith),
        byte_at-Stands small (29 + offset) _ _ s3 (omega arith),
        sized_at-Stands small o (30 + offset) (32 + offset) pe.imphash _ s4 (omega arith)
            (omega arith) himphash (omega lengths),
        uint16_at-Stands small o (32 + (offset + l)) _ _ s5 (omega arith) (omega arith),
        same,
        read_texts-Ended o small wide wide_lem (34 + (offset + l)) 0 pe.anomalies rest _
            (at s6 (omega arith)) short refl left,
        itob-btoi pe.is_driver,
        itob-btoi pe.is_dll,
        itob-btoi pe.is_executable,
        itob-btoi pe.is_dotnet,
      )

  pub read_tables-Stands :
      (pe : Executable Time) (rest : Bytes) (offset : ℕ)
      → Stands b (12 + offset) (marshal_tables o tf pe ++ rest)
      → length pe.sections < u16_mod
      → All IsSec pe.sections
      → length pe.symbols < u16_mod
      → All IsShort pe.symbols
      → length pe.imports < u16_mod
      → All IsShort pe.imports
      → length pe.version_resources < u16_mod
      → All IsResource pe.version_resources
      → IsMap pe.version_resources
      → let end = tables_end o tf pe offset in
        (read_tables o tf b offset
          ≡ done (pe.sections, pe.symbols, pe.imports, pe.version_resources, end))
        × Stands b (20 + end) (marshal_signature o tf pe ++ rest)
  unfolding read_tables marshal_tables
  read_tables-Stands pe rest offset s nsec fsec nsym fsym nimp fimp nres fres keys =
      let a = length (write_sections o pe.sections) in
      let c = length (write_args o pe.symbols) in
      let d = length (write_args o pe.imports) in
      let w1 : length pe.sections % u16_mod ≡ length pe.sections = omega arith in
      let w2 : length pe.symbols % u16_mod ≡ length pe.symbols = omega arith in
      let w3 : length pe.imports % u16_mod ≡ length pe.imports = omega arith in
      let w4 : length pe.version_resources % u16_mod ≡ length pe.version_resources = omega arith in
      let s0 = regroup (write_uint16 o (length pe.sections % u16_mod)) _ rest s in
      let s1 = regroup (write_sections o pe.sections) _ rest (past_uint16 o _ _ s0) in
      let s2 =
        regroup (write_uint16 o (length pe.symbols % u16_mod)) _ rest
          (moves (write_sections o pe.sections) s1 refl) in
      let s3 = regroup (write_args o pe.symbols) _ rest (past_uint16 o _ _ s2) in
      let s4 =
        regroup (write_uint16 o (length pe.imports % u16_mod)) _ rest
          (moves (write_args o pe.symbols) s3 refl) in
      let s5 = regroup (write_args o pe.imports) _ rest (past_uint16 o _ _ s4) in
      let s6 =
        regroup (write_uint16 o (length pe.version_resources % u16_mod)) _ rest
          (moves (write_args o pe.imports) s5 refl) in
      let s7 = regroup (write_envs o pe.version_resources) _ rest (past_uint16 o _ _ s6) in
      let s8 = moves (write_envs o pe.version_resources) s7 refl in
      (
        rw (
          uint16_at-Stands small o (12 + offset) _ _ s0 refl (omega arith),
          w1,
          read_sections-write o small (14 + offset) 0 pe.sections _ a (at s1 (omega arith)) fsec
              (omega arith) (omega lengths),
          uint16_at-Stands small o (14 + (offset + a)) _ _ s2 (omega arith) (omega arith),
          w2,
          read_texts-write o small narrow narrow_lem (16 + (offset + a)) 0 pe.symbols _ c
              (at s3 (omega arith)) fsym (omega arith) (omega lengths),
          uint16_at-Stands small o (16 + (offset + a + c)) _ _ s4 (omega arith) (omega arith),
          w3,
          read_texts-write o small narrow narrow_lem (18 + (offset + a + c)) 0 pe.imports _ d
              (at s5 (omega arith)) fimp (omega arith) (omega lengths),
          uint16_at-Stands small o (18 + (offset + a + c + d)) _ _ s6 (omega arith) (omega arith),
          w4,
          read_resources_whole o small (20 + (offset + a + c + d)) pe.version_resources _
              (at s7 (omega arith)) fres (signature_pos o tf pe rest) keys,
        ),
        at s8 (omega arith),
      )
