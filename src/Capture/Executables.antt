-- ===== src/Capture/Executables.antt =====
-- pkg/pe/marshaller.go, and the certificate of pkg/sys/trust.go: the metadata of an executable, with
-- `Marshal`. Reading it back is in Reading.
--
-- Of the metadata the model has the fields that are written. An entropy is the bits of the float.
pub mod Reading
pub mod Loops
pub mod Certificates
pub mod Tables
pub mod RoundTrip
use fibratus.Prelude.{ℕ, ◌%◌, Bool, List, [], ◌∷◌, ◌++◌, Option, none, some, length}
use fibratus.Prelude.Int.{u16_mod, u32_mod}
use fibratus.Capture.Bytes.{Bytes, ByteOrder, write_uint16, write_uint32, write_uint64, btoi, sized}
use fibratus.Capture.Times.{TimeFormat}
use fibratus.Capture.Processes.{write_args, write_envs}

pub record Sec : Type 0 where
  pub name : Bytes
  pub size : ℕ
  pub entropy : ℕ
  pub md5 : Bytes

pub record Cert (Time : Type 0) : Type 0 where
  pub not_before : Time
  pub not_after : Time
  pub serial_number : Bytes
  pub subject : Bytes
  pub issuer : Bytes

pub record Executable (Time : Type 0) : Type 0 where
  pub number_of_sections : ℕ
  pub number_of_symbols : ℕ
  pub image_base : Bytes
  pub entry_point : Bytes
  pub link_time : Time
  pub sections : List Sec
  pub symbols : List Bytes
  pub imports : List Bytes
  pub version_resources : List (Bytes × Bytes)
  pub is_signed : Bool
  pub is_trusted : Bool
  pub cert : Option (Cert Time)
  pub is_driver : Bool
  pub is_dll : Bool
  pub is_executable : Bool
  pub is_dotnet : Bool
  pub imphash : Bytes
  pub anomalies : List Bytes

module _ (o : ByteOrder) where
  unfoldable pub write_sections : List Sec → Bytes
  write_sections [] = []
  write_sections (sec ∷ secs) =
      write_uint32 o sec.size
      ++ (write_uint64 o sec.entropy
          ++ (sized o sec.name ++ (sized o sec.md5 ++ write_sections secs)))

  module _ (tf : TimeFormat) where
    open tf use {Time, format}

    -- `Cert.Marshal`
    unfoldable pub marshal_cert : Cert Time → Bytes
    marshal_cert c =
        sized o (format c.not_before)
        ++ (sized o (format c.not_after)
            ++ (sized o c.serial_number ++ (sized o c.subject ++ sized o c.issuer)))

    unfoldable pub write_cert : Option (Cert Time) → Bytes
    unfolding marshal_cert
    write_cert none = write_uint32 o 0
    write_cert (some c) = write_uint32 o (length (marshal_cert c) % u32_mod) ++ marshal_cert c

    -- What comes after the signature.
    unfoldable pub marshal_format : Executable Time → Bytes
    unfolding btoi write_args
    marshal_format pe =
        btoi pe.is_driver
        ∷ btoi pe.is_dll
        ∷ btoi pe.is_executable
        ∷ btoi pe.is_dotnet
        ∷ (sized o pe.imphash
            ++ (write_uint16 o (length pe.anomalies % u16_mod) ++ write_args o pe.anomalies))

    unfoldable pub marshal_signature : Executable Time → Bytes
    unfolding btoi write_cert marshal_format
    marshal_signature pe =
        btoi pe.is_signed ∷ btoi pe.is_trusted ∷ (write_cert pe.cert ++ marshal_format pe)

    -- What comes after the times.
    unfoldable pub marshal_tables : Executable Time → Bytes
    unfolding write_sections write_args write_envs marshal_signature
    marshal_tables pe =
        write_uint16 o (length pe.sections % u16_mod)
        ++ (write_sections pe.sections
            ++ (write_uint16 o (length pe.symbols % u16_mod)
                ++ (write_args o pe.symbols
                    ++ (write_uint16 o (length pe.imports % u16_mod)
                        ++ (write_args o pe.imports
                            ++ (write_uint16 o (length pe.version_resources % u16_mod)
                                ++ (write_envs o pe.version_resources ++ marshal_signature pe)))))))

    -- `Marshal`
    unfoldable pub marshal_executable : Executable Time → Bytes
    unfolding marshal_tables
    marshal_executable pe =
        write_uint16 o pe.number_of_sections
        ++ (write_uint32 o pe.number_of_symbols
            ++ (sized o pe.image_base
                ++ (sized o pe.entry_point
                    ++ (sized o (format pe.link_time) ++ marshal_tables pe))))
