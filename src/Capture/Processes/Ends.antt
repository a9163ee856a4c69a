-- ===== src/Capture/Processes/Ends.antt =====
-- The executable of a process, and what comes after it, are read back.
use fibratus.Prelude.{
  ℕ, zero, suc, ◌+◌, ◌%◌, ◌≤◌, ◌<◌, ◌≡◌, refl, Bool, false, [], ◌∷◌, ◌++◌, Option, none, some,
  length, take, arith, ◌==◌,
}
use fibratus.Prelude.Int.{u16_mod, u32_mod, u64_mod}
use fibratus.Capture.Bytes.{Bytes, done, ByteOrder, write_uint64, btoi, prefix, string_of, sized}
use fibratus.Capture.Bytes.Placed.{
  Stands, Stands-length, at, moves, past_uint64, past_byte, past_sized, slice-Stands,
  byte_at-Stands, uint64_at-Stands, sized_parts, itob-btoi, lengths,
}
use fibratus.Capture.Sections.{
  SectionType, section, read_section-Stands, past_section, sec_size-section, sec_version-section,
  process_sec_v4, pe_sec_v2,
}
use fibratus.Capture.Times.{TimeFormat, ParsesBack, time_at-Stands}
use fibratus.Capture.Processes.{PeCodec, Process, marshal_executable, marshal_end}
use fibratus.Capture.Processes.Reading.{
  read_executable, read_start, read_account, read_flags, read_end,
}
use fibratus.Capture.Processes.Loops.{regroup}
use fibratus.Capture.Processes.Keeps.{KeepsPe, PeFits}

prefix-take : (n : ℕ) (b : Bytes) → n ≤ length b → prefix n b ≡ done (take n b)
unfolding prefix
prefix-take zero b h = refl
prefix-take (suc n) [] h = absurd (omega arith)
prefix-take (suc n) (x ∷ b) h = rw (prefix-take n b (omega arith))

string_of-take : (n : ℕ) (b : Bytes) → n ≤ length b → 0 < length b → string_of n b ≡ done (take n b)
unfolding string_of
string_of-take n [] h some_left = elim some_left [ ]
string_of-take n (x ∷ b) h some_left = prefix-take n (x ∷ b) h

module _ (o : ByteOrder) (tf : TimeFormat) (codec : PeCodec) {b : Bytes}
    (small : length b < u32_mod) where
  open tf use {Time, zero_time, format, parse}
  open codec use {Pe, marshal_pe, unmarshal_pe}

  read_no_executable :
      (rest : Bytes) (offset : ℕ)
      → Stands b (26 + offset) (marshal_executable o tf codec none ++ rest)
      → (read_executable o tf codec b 26 offset ≡ done (none, 0)) × Stands b (36 + offset) rest
  unfolding read_executable marshal_executable
  read_no_executable rest offset s = (
    rw (
      read_section-Stands o small (26 + offset) _ _ _ _ _ s refl,
      sec_size-section o SectionType.pe pe_sec_v2 0 0 (omega arith),
      sec_version-section o SectionType.pe pe_sec_v2 0 0 (omega arith),
    ),
    at (past_section o _ _ _ _ _ s) (omega arith),
  )

  read_some_executable :
      (keeps : KeepsPe codec) (pe : Pe) (rest : Bytes) (offset : ℕ)
      → Stands b (26 + offset) (marshal_executable o tf codec (some pe) ++ rest)
      → keeps.IsPe pe
      → 0 < length rest
      → (read_executable o tf codec b 26 offset ≡ done (some pe, length (marshal_pe pe)))
        × Stands b (36 + offset + length (marshal_pe pe)) rest
  unfolding read_executable marshal_executable
  read_some_executable keeps pe rest offset s fine left =
      let n = length (marshal_pe pe) in
      let s0 =
        regroup (section o SectionType.pe pe_sec_v2 0 (n % u32_mod)) (marshal_pe pe) rest s in
      let s1 : Stands b (36 + offset) (marshal_pe pe ++ rest) =
        at (past_section o _ _ _ _ _ s0) (omega arith) in
      let fits = Stands-length _ s1 in
      let size : n % u32_mod ≡ n = omega (lengths, fits) in
      let more : (n == 0) ≡ false = ground (arith, keeps.written pe fine) in
      (
        rw (
          read_section-Stands o small (26 + offset) _ _ _ _ _ s0 refl,
          sec_size-section o SectionType.pe pe_sec_v2 0 (n % u32_mod) (omega arith),
          sec_version-section o SectionType.pe pe_sec_v2 0 (n % u32_mod) (omega arith),
          size,
          more,
          slice-Stands small (36 + offset) s1,
          keeps.restores pe rest fine left (omega (arith, fits)),
        ),
        moves (marshal_pe pe) s1 refl,
      )

  pub read_executable-Stands :
      (keeps : KeepsPe codec) (pe : Option Pe) (rest : Bytes) (offset : ℕ)
      → Stands b (26 + offset) (marshal_executable o tf codec pe ++ rest)
      → PeFits keeps pe
      → 0 < length rest
      → (size : ℕ) × (read_executable o tf codec b 26 offset ≡ done (pe, size))
        × Stands b (36 + (offset + size)) rest
  read_executable-Stands keeps none rest offset s fine left =
      let (e, s1) = read_no_executable rest offset s in (0, e, at s1 (omega arith))
  read_executable-Stands keeps (some pe) rest offset s fine left =
      let (e, s1) = read_some_executable keeps pe rest offset s fine left in
      (length (marshal_pe pe), e, at s1 (omega arith))

  pub read_end-Stands :
      (parses : ParsesBack tf) (ps : Process Time Pe) (strict : Bool) (offset : ℕ)
      → Stands b (36 + offset) (marshal_end o tf codec ps)
      → ps.uuid < u64_mod
      → length ps.username < u16_mod
      → length ps.domain < u16_mod
      → read_end o tf codec b process_sec_v4 strict 36 offset
        ≡ done (
          ps.start_time,
          ps.uuid,
          take (length ps.username) b,
          take (length ps.domain) b,
          ps.is_wow64,
          ps.is_packaged,
          ps.is_protected,
        )
  unfolding read_end read_start read_account read_flags marshal_end
  read_end-Stands parses ps strict offset s0 uuid user domain =
      let behind : Bytes =
        write_uint64 o ps.uuid
        ++ (sized o ps.username
            ++ (sized o ps.domain
                ++ btoi ps.is_wow64 ∷ btoi ps.is_packaged ∷ btoi ps.is_protected ∷ [])) in
      let lt = length (format ps.start_time) in
      let lu = length ps.username in
      let ld = length ps.domain in
      let s1 = past_sized o _ _ s0 in
      let s2 = past_uint64 o _ _ s1 in
      let s3 = past_sized o _ _ s2 in
      let s4 = past_sized o _ _ s3 in
      let s5 = past_byte s4 in
      let fits = Stands-length _ s3 in
      let (len2, _) =
        sized_parts small o (46 + (offset + lt)) (48 + (offset + lt)) ps.username _ s2 (omega arith)
          (omega arith) user in
      let (len3, _) =
        sized_parts small o (48 + (offset + lt + lu)) (50 + (offset + lt + lu)) ps.domain _ s3
          (omega arith) (omega arith) domain in
      rw (
        time_at-Stands tf parses o small strict (36 + offset) (38 + offset) ps.start_time behind s0
            refl (omega arith) (omega lengths),
        uint64_at-Stands small o (38 + (offset + lt)) _ _ s1 (omega arith) uuid,
        len2,
        string_of-take lu b (omega (arith, fits)) (omega (arith, fits)),
        len3,
        string_of-take ld b (omega (lengths, fits)) (omega (arith, fits)),
        byte_at-Stands small (50 + (offset + lt + (lu + ld))) _ _ s4 (omega arith),
        byte_at-Stands small (51 + (offset + lt + (lu + ld))) _ _ s5 (omega arith),
        byte_at-Stands small (52 + (offset + lt + (lu + ld))) _ _ (past_byte s5) (omega arith),
        itob-btoi ps.is_wow64,
        itob-btoi ps.is_packaged,
        itob-btoi ps.is_protected,
      )
