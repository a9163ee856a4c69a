-- ===== src/Capture/Sections.antt =====
-- pkg/cap/section, pkg/cap/version: the header of ten bytes in front of each section.
use fibratus.Prelude.{
  ℕ, zero, suc, ◌+◌, ◌%◌, ◌<◌, ◌≡◌, refl, ap, [], ◌∷◌, ◌++◌, drop, length, arith,
}
use fibratus.Prelude.Int.{u8_mod, u32_mod}
use fibratus.Capture.Bytes.{
  Bytes, Decoded, done, crashed, ◌>>=◌, ByteOrder, little, big, write_uint16, write_uint32,
  read_uint16, read_uint32, slice,
}
use fibratus.Capture.Bytes.Placed.{Stands, at, moves, slice-Stands, read_uint32-write, lengths}

-- The types of a section.
pub data SectionType : Type 0 where
  process handle event pe : SectionType

unfoldable pub type_code : SectionType → ℕ
type_code SectionType.process = 1
type_code SectionType.handle = 2
type_code SectionType.event = 3
type_code SectionType.pe = 4

abbrev pub event_sec_v1 : ℕ
event_sec_v1 = 1

abbrev pub event_sec_v2 : ℕ
event_sec_v2 = 2

abbrev pub process_sec_v2 : ℕ
process_sec_v2 = 2

abbrev pub process_sec_v3 : ℕ
process_sec_v3 = 3

abbrev pub process_sec_v4 : ℕ
process_sec_v4 = 4

abbrev pub handle_sec_v1 : ℕ
handle_sec_v1 = 1

abbrev pub pe_sec_v2 : ℕ
pe_sec_v2 = 2

-- `copy(s[:], b)` into an array of `n` zeros.
unfoldable pub copied : ℕ → Bytes → Bytes
copied zero b = []
copied (suc n) [] = 0 ∷ copied n []
copied (suc n) (x ∷ b) = x ∷ copied n b

-- `Read` of `b[p:]`
unfoldable pub read_section : Bytes → ℕ → Decoded Bytes
unfolding slice copied
read_section b p = do buf ← slice b p; done (copied 10 buf)

-- `Version` and the byte `s[1]`; `crashed` does not occur, since a section has ten bytes.
unfoldable pub sec_version : Bytes → Decoded ℕ
sec_version (t ∷ v ∷ s) = done v
sec_version _ = crashed

module _ (o : ByteOrder) where
  -- `New`
  unfoldable pub section : SectionType → ℕ → ℕ → ℕ → Bytes
  unfolding type_code
  section typ ver l size = type_code typ ∷ ver % u8_mod ∷ (write_uint32 o l ++ write_uint32 o size)

  -- `Len`
  unfoldable pub sec_len : Bytes → Decoded ℕ
  sec_len s = read_uint32 o (drop 2 s)

  -- `Size`
  unfoldable pub sec_size : Bytes → Decoded ℕ
  sec_size s = read_uint32 o (drop 6 s)

copied-section :
    (o : ByteOrder) (typ : SectionType) (ver l size : ℕ) (rest : Bytes)
    → copied 10 (section o typ ver l size ++ rest) ≡ section o typ ver l size
unfolding copied section write_uint32 write_uint16
copied-section little typ ver l size rest = refl
copied-section big typ ver l size rest = refl

pub sec_size-section :
    (o : ByteOrder) (typ : SectionType) (ver l size : ℕ)
    → size < u32_mod
    → sec_size o (section o typ ver l size) ≡ done size
unfolding sec_size section write_uint32 write_uint16 read_uint32 read_uint16
sec_size-section little typ ver l size h = ap done (omega arith)
sec_size-section big typ ver l size h = ap done (omega arith)

module _ (o : ByteOrder) where
  pub sec_len-section :
      (typ : SectionType) (ver l size : ℕ)
      → l < u32_mod
      → sec_len o (section o typ ver l size) ≡ done l
  unfolding sec_len section
  sec_len-section typ ver l size h = read_uint32-write o l (write_uint32 o size) h

  pub sec_version-section :
      (typ : SectionType) (ver l size : ℕ)
      → ver < u8_mod
      → sec_version (section o typ ver l size) ≡ done ver
  unfolding sec_version section
  sec_version-section typ ver l size h = ap done (omega arith)

  pub length-section : (typ : SectionType) (ver l size : ℕ) → length (section o typ ver l size) ≡ 10
  unfolding section
  length-section typ ver l size = omega lengths

  pub read_section-Stands :
      {b : Bytes} (small : length b < u32_mod) (q : ℕ) (typ : SectionType) (ver l size : ℕ)
      (rest : Bytes) {p : ℕ}
      → Stands b p (section o typ ver l size ++ rest)
      → p ≡ q
      → read_section b q ≡ done (section o typ ver l size)
  unfolding read_section
  read_section-Stands small q typ ver l size rest s e =
      rw (slice-Stands small q (at s e), copied-section o typ ver l size rest)

  pub past_section :
      {b : Bytes} {p : ℕ} (typ : SectionType) (ver l size : ℕ) (rest : Bytes)
      → Stands b p (section o typ ver l size ++ rest)
      → Stands b (10 + p) rest
  past_section typ ver l size rest s =
      moves (section o typ ver l size) s (omega (arith, length-section typ ver l size))
