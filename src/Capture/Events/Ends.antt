-- ===== src/Capture/Events/Ends.antt =====
-- The names of an event and its process are read back.
use fibratus.Prelude.{
  ℕ, zero, suc, ◌+◌, ◌%◌, ◌<◌, ◌≡◌, refl, ap, Bool, true, false, [], ◌∷◌, ◌++◌, Option, none, some,
  length, arith, ◌==◌, if◌then◌else◌,
}
use fibratus.Prelude.Int.{u16_mod, u32_mod}
use fibratus.Capture.Bytes.{Bytes, done, ByteOrder, sized}
use fibratus.Capture.Bytes.Placed.{
  Stands, at, at_end, past_sized, sized_at-Stands, slice-Stands, lengths,
}
use fibratus.Capture.Sections.{
  SectionType, section, process_sec_v4, copied, sec_size-section, sec_version-section,
  read_section-Stands, past_section,
}
use fibratus.Capture.Times.{TimeFormat, ParsesBack, time_at-Stands}
use fibratus.Capture.Processes.{PeCodec, Process, marshal}
use fibratus.Capture.Processes.Keeps.{KeepsPe}
use fibratus.Capture.Processes.RoundTrip.{
  IsProcess, kept_process, process_size, process_unmarshal-marshal,
}
use fibratus.Capture.Events.{carries_process, write_process}
use fibratus.Capture.Events.Reading.{read_names, read_process}

pub copied-full : (n : ℕ) (t : Bytes) → length t ≡ n → copied n t ≡ t
unfolding copied
copied-full zero [] h = refl
copied-full zero (x ∷ t) h = absurd (omega arith)
copied-full (suc n) [] h = absurd (omega arith)
copied-full (suc n) (x ∷ t) h = ap (◌∷◌ x) (copied-full n t (omega arith))

module _ (o : ByteOrder) (tf : TimeFormat) where
  open tf use {Time, format}

  abbrev pub names_size : Bytes → Bytes → Bytes → Bytes → Time → ℕ
  names_size name category description host t =
      length name + length category + length description + length host + length (format t)

  module _ {codec : PeCodec} (keeps : KeepsPe codec) where
    open codec use {Pe}

    -- A process that is not written needs not fit.
    abbrev pub PsFits : Option (Process Time Pe) → Type 0
    PsFits none = Unit
    PsFits (some ps) = IsProcess o tf codec keeps ps

    abbrev pub kept_ps : Bytes → Option (Process Time Pe) → Option (Process Time Pe)
    kept_ps type none = none
    kept_ps type (some ps) =
        if carries_process type then some (kept_process o tf codec ps) else none

module _ {tf : TimeFormat} (parses : ParsesBack tf) (o : ByteOrder) (to_ipv6 : Bytes → Bytes)
    {b : Bytes} (small : length b < u32_mod) where
  open tf use {Time, format}

  pub read_names-Stands :
      (idx : ℕ) (name category description host : Bytes) (t : Time) (rest : Bytes)
      → Stands b idx (
          sized o name
          ++ (sized o category
              ++ (sized o description ++ (sized o host ++ (sized o (format t) ++ rest)))))
      → length name < u16_mod
      → length category < u16_mod
      → length description < u16_mod
      → length host < u16_mod
      → 0 < length rest
      → (read_names o tf to_ipv6 b idx
          ≡ done (
            name,
            category,
            description,
            host,
            t,
            names_size o tf name category description host t,
          ))
        × Stands b (10 + idx + names_size o tf name category description host t) rest
  unfolding read_names
  read_names-Stands idx name category description host t rest s h1 h2 h3 h4 left =
      let s1 = past_sized o _ _ s in
      let s2 = past_sized o _ _ s1 in
      let s3 = past_sized o _ _ s2 in
      let s4 = past_sized o _ _ s3 in
      let l1 = length name in
      let l2 = length category in
      let l3 = length description in
      let l4 = length host in
      (
        rw (
          sized_at-Stands small o idx (2 + idx) name _ s refl (omega arith) h1 (omega lengths),
          sized_at-Stands small o (2 + idx + l1) (4 + idx + l1) category _ s1 refl (omega arith) h2
              (omega lengths),
          sized_at-Stands small o (4 + idx + (l1 + l2)) (6 + idx + (l1 + l2)) description _ s2
              (omega arith) (omega arith) h3 (omega lengths),
          sized_at-Stands small o (6 + idx + (l1 + l2 + l3)) (8 + idx + (l1 + l2 + l3)) host _ s3
              (omega arith) (omega arith) h4 (omega lengths),
          time_at-Stands tf parses o small false (8 + idx + (l1 + l2 + l3 + l4))
              (10 + idx + (l1 + l2 + l3 + l4)) t rest s4 (omega arith) (omega arith) left,
        ),
        at (past_sized o _ _ s4) (omega arith),
      )

  module _ {codec : PeCodec} (keeps : KeepsPe codec) where
    open codec use {Pe}

    read_nothing :
        (p : ℕ)
        → Stands b (14 + p) (section o SectionType.process process_sec_v4 0 0)
        → read_process o tf to_ipv6 codec b p ≡ done none
    unfolding read_process
    read_nothing p s = rw (
      read_section-Stands o small (14 + p) SectionType.process process_sec_v4 0 0 [] (at_end s)
          refl,
      sec_size-section o SectionType.process process_sec_v4 0 0 (omega arith),
      sec_version-section o SectionType.process process_sec_v4 0 0 (omega arith),
    )

    read_some :
        (p : ℕ) (ps : Process Time Pe)
        → Stands b (14 + p) (
            section o SectionType.process process_sec_v4 0
              (length (marshal o tf codec ps) % u32_mod)
            ++ marshal o tf codec ps)
        → IsProcess o tf codec keeps ps
        → read_process o tf to_ipv6 codec b p ≡ done (some (kept_process o tf codec ps))
    unfolding read_process
    read_some p ps s fits =
        let n = length (marshal o tf codec ps) % u32_mod in
        let some_bytes : (n == 0) ≡ false =
          ground (arith, process_size o parses keeps ps, fits.all_short) in
        rw (
          read_section-Stands o small (14 + p) SectionType.process process_sec_v4 0 n _ s refl,
          sec_size-section o SectionType.process process_sec_v4 0 n (omega arith),
          sec_version-section o SectionType.process process_sec_v4 0 n (omega arith),
          some_bytes,
          slice-Stands small (24 + p)
              (at (past_section o SectionType.process process_sec_v4 0 n _ s) (omega arith)),
          process_unmarshal-marshal o parses keeps ps fits,
        )

    read_either :
        (p : ℕ) (ps : Process Time Pe) (c : Bool)
        → Stands b (14 + p) (
            if c
            then section o SectionType.process process_sec_v4 0
                (length (marshal o tf codec ps) % u32_mod)
              ++ marshal o tf codec ps
            else section o SectionType.process process_sec_v4 0 0)
        → IsProcess o tf codec keeps ps
        → read_process o tf to_ipv6 codec b p
          ≡ done (if c then some (kept_process o tf codec ps) else none)
    read_either p ps true s fits = read_some p ps s fits
    read_either p ps false s fits = read_nothing p s

    pub read_process-Stands :
        (p : ℕ) (type : Bytes) (ps : Option (Process Time Pe))
        → Stands b (14 + p) (write_process o tf codec type ps)
        → PsFits o tf keeps ps
        → read_process o tf to_ipv6 codec b p ≡ done (kept_ps o tf keeps type ps)
    unfolding write_process carries_process
    read_process-Stands p type none s fits = read_nothing p s
    read_process-Stands p type (some ps) s fits = read_either p ps (carries_process type) s fits
