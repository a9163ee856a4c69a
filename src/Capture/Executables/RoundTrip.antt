-- ===== src/Capture/Executables/RoundTrip.antt =====
-- The metadata of an executable that was written is read back, alone or with bytes behind it.
use mathlib.Core.List.{append_assoc}
use fibratus.Prelude.{
  ap, subst, ◌∙◌, length-append, ℕ, ◌<◌, ◌≡◌, refl, false, ◌++◌, length, ltb, All, arith,
}
use fibratus.Prelude.Int.{u16_mod, u32_mod}
use fibratus.Capture.Bytes.{Bytes, done, ByteOrder, write_uint16, write_uint32, sized}
use fibratus.Capture.Bytes.Placed.{
  Stands, begins, past_uint16, past_uint32, uint16_at-Stands, uint32_at-Stands, lengths,
}
use fibratus.Capture.Sections.{pe_sec_v2}
use fibratus.Capture.Times.{TimeFormat, ParsesBack}
use fibratus.Capture.Processes.{PeCodec}
use fibratus.Capture.Processes.Loops.{regroup}
use fibratus.Capture.Maps.{IsMap}
use fibratus.Capture.Processes.Keeps.{KeepsPe}
use fibratus.Capture.Executables.{Executable, marshal_tables, marshal_executable}
use fibratus.Capture.Executables.Reading.{unmarshal_executable, read_rest}
use fibratus.Capture.Executables.Loops.{IsShort, IsSec, IsResource, Ended, Ended-rest}
use fibratus.Capture.Executables.Certificates.{CertFits, read_signature-Stands}
use fibratus.Capture.Executables.Tables.{
  tables_long, read_head-Stands, read_tables-Stands, read_format-Stands,
}

-- What the widths of the format ask of the metadata.
pub record IsExecutable {Time : Type 0} (pe : Executable Time) : Type 0 where
  pub sections_fit : pe.number_of_sections < u16_mod
  pub symbols_fit : pe.number_of_symbols < u32_mod
  pub base_short : length pe.image_base < u16_mod
  pub entry_short : length pe.entry_point < u16_mod
  pub few_sections : length pe.sections < u16_mod
  pub each_section : All IsSec pe.sections
  pub few_symbols : length pe.symbols < u16_mod
  pub each_symbol : All IsShort pe.symbols
  pub few_imports : length pe.imports < u16_mod
  pub each_import : All IsShort pe.imports
  pub few_resources : length pe.version_resources < u16_mod
  pub each_resource : All IsResource pe.version_resources
  pub resources_map : IsMap pe.version_resources
  pub cert_fits : CertFits pe.cert
  pub imphash_short : length pe.imphash < u16_mod
  pub few_anomalies : length pe.anomalies < u16_mod
  pub each_anomaly : All IsShort pe.anomalies

-- The executables as the metadata that a process is written with.
abbrev pub executable_codec : ByteOrder → TimeFormat → PeCodec
executable_codec o tf = record {
  Pe = Executable tf.Time;
  marshal_pe = marshal_executable o tf;
  unmarshal_pe = unmarshal_executable o tf;
}

regroup_twice :
    {b : Bytes} {p : ℕ} (xs ys zs ts rest : Bytes)
    → Stands b p (xs ++ ((ys ++ (zs ++ ts)) ++ rest))
    → Stands b p (xs ++ (ys ++ (zs ++ (ts ++ rest))))
regroup_twice {b} {p} xs ys zs ts rest s =
    subst (λ c. Stands b p (xs ++ c))
      (append_assoc ys (zs ++ ts) rest ∙ ap (◌++◌ ys) (append_assoc zs ts rest)) s

module _ {tf : TimeFormat} (parses : ParsesBack tf) (o : ByteOrder) where
  open tf use {Time, format}

  pub executable_size : (pe : Executable Time) → 5 < length (marshal_executable o tf pe)
  unfolding marshal_executable
  executable_size pe = omega lengths

  -- For times whose texts parse back: the metadata of an executable of the widths of the
  -- format, with no empty key and no empty value among its resources, is read back whole from
  -- what `Marshal` writes of it, with nothing or any bytes behind it, as long as the last of
  -- its anomalies is not empty or something stands behind it, and the whole is shorter than 2
  -- to the 32nd bytes.
  pub executable_unmarshal-marshal :
      (pe : Executable Time) (rest : Bytes)
      → IsExecutable pe
      → Ended pe.anomalies rest
      → length (marshal_executable o tf pe ++ rest) < u32_mod
      → unmarshal_executable o tf (marshal_executable o tf pe ++ rest) pe_sec_v2 ≡ done pe
  unfolding unmarshal_executable read_rest
  executable_unmarshal-marshal pe rest w left small =
      let s0 = starts pe rest in
      let s1 = regroup (write_uint32 o pe.number_of_symbols) _ rest (past_uint16 o _ _ s0) in
      let s2 = regroup (sized o pe.image_base) _ rest (past_uint32 o _ _ s1) in
      let (head, s3) =
        read_head-Stands parses o small pe.image_base pe.entry_point pe.link_time
          (marshal_tables o tf pe ++ rest)
          (regroup_twice (sized o pe.image_base) (sized o pe.entry_point)
            (sized o (format pe.link_time)) (marshal_tables o tf pe) rest s2)
          w.base_short w.entry_short (tables_long o tf pe rest) in
      let (tables, s4) =
        read_tables-Stands parses o small pe rest _ s3 w.few_sections w.each_section w.few_symbols
          w.each_symbol w.few_imports w.each_import w.few_resources w.each_resource
          w.resources_map in
      let (signature, s5) = read_signature-Stands parses o small pe rest _ s4 w.cert_fits in
      let end =
        read_format-Stands parses o small pe rest _ s5 w.imphash_short w.few_anomalies
          w.each_anomaly left in
      rw (
        long pe rest,
        uint16_at-Stands small o 0 _ _ s0 refl w.sections_fit,
        uint32_at-Stands small o 2 _ _ s1 refl w.symbols_fit,
        head,
        tables,
        signature,
        end,
      )
    where
      starts :
          (pe : Executable Time) (rest : Bytes)
          → Stands (marshal_executable o tf pe ++ rest) 0 (
              write_uint16 o pe.number_of_sections
              ++ ((write_uint32 o pe.number_of_symbols
                    ++ (sized o pe.image_base
                        ++ (sized o pe.entry_point
                            ++ (sized o (format pe.link_time) ++ marshal_tables o tf pe))))
                  ++ rest))
      starts pe rest =
          unfold marshal_executable in
          regroup _ _ rest (begins (marshal_executable o tf pe ++ rest))

      long :
          (pe : Executable Time) (rest : Bytes)
          → ltb (length (marshal_executable o tf pe ++ rest)) 6 ≡ false
      long pe rest =
          ground (arith, executable_size pe, length-append (marshal_executable o tf pe) rest)

  -- The metadata keeps what a process needs.
  abbrev pub keeps_executable : KeepsPe (executable_codec o tf)
  keeps_executable = record {
    IsPe = IsExecutable;
    written = λ pe w. omega (arith, executable_size pe);
    restores = λ pe rest w left small.
        executable_unmarshal-marshal pe rest w (Ended-rest pe.anomalies rest left) small;
  }
