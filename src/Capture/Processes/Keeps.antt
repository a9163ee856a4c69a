-- ===== src/Capture/Processes/Keeps.antt =====
-- What a process needs of the metadata of its executable.
use fibratus.Prelude.{◌<◌, ◌≡◌, ◌++◌, Option, none, some, length}
use fibratus.Prelude.Int.{u32_mod}
use fibratus.Capture.Bytes.{Bytes, done}
use fibratus.Capture.Sections.{pe_sec_v2}
use fibratus.Capture.Processes.{PeCodec}

-- What a process needs of its executable: it is written to at least one byte, and read back from
-- bytes that go on.
pub record KeepsPe (codec : PeCodec) : Type 1 where
  pub IsPe : codec.Pe → Type 0
  pub written : (pe : codec.Pe) → IsPe pe → 0 < length (codec.marshal_pe pe)
  pub restores :
      (pe : codec.Pe) (rest : Bytes)
      → IsPe pe
      → 0 < length rest
      → length (codec.marshal_pe pe ++ rest) < u32_mod
      → codec.unmarshal_pe (codec.marshal_pe pe ++ rest) pe_sec_v2 ≡ done pe

abbrev pub PeFits : {codec : PeCodec} → KeepsPe codec → Option codec.Pe → Type 0
PeFits keeps none = Unit
PeFits keeps (some pe) = keeps.IsPe pe
