-- ===== src/Capture/Executables/Certificates.antt =====
-- The signature of an executable, with its certificate, is read back.
use fibratus.Prelude.{
  ℕ, zero, suc, ◌+◌, ◌%◌, ◌<◌, ◌≡◌, refl, ap, ◌∙◌, false, ◌++◌, Option, none, some, length, ltb,
  arith, length-append,
}
use fibratus.Prelude.Int.{u16_mod, u32_mod}
use fibratus.Capture.Bytes.{Bytes, done, ◌>>=◌, ByteOrder, write_uint32, sized, uint32_at}
use fibratus.Capture.Bytes.Placed.{
  Stands, Stands-length, at, moves, past_byte, past_uint32, past_sized, byte_at-Stands,
  uint32_at-Stands, sized_at-Stands, itob-btoi, lengths,
}
use fibratus.Capture.Times.{TimeFormat, ParsesBack, time_at-Stands}
use fibratus.Capture.Processes.{write_args, write_envs}
use fibratus.Capture.Processes.Loops.{regroup}
use fibratus.Capture.Executables.{
  Cert, Executable, write_sections, marshal_cert, write_cert, marshal_format, marshal_signature,
}
use fibratus.Capture.Executables.Reading.{unmarshal_cert, read_cert, read_signature}

abbrev pub CertFits : {Time : Type 0} → Option (Cert Time) → Type 0
CertFits none = Unit
CertFits (some c) =
    (length c.serial_number < u16_mod) × (length c.subject < u16_mod) × (length c.issuer < u16_mod)

module _ (o : ByteOrder) (tf : TimeFormat) where
  open tf use {Time, format}

  read_cert-pos :
      (b : Bytes) (offset size : ℕ)
      → 0 < size
      → read_cert o tf b offset size ≡ (unmarshal_cert o tf b offset size >>= λ c. done (some c))
  unfolding read_cert
  read_cert-pos b offset zero h = elim h [ ]
  read_cert-pos b offset (suc size) h = refl

  unfoldable pub cert_size : Option (Cert Time) → ℕ
  cert_size none = 0
  cert_size (some c) = length (marshal_cert o tf c)

  abbrev pub tables_end : Executable Time → ℕ → ℕ
  tables_end pe offset =
      offset
      + length (write_sections o pe.sections)
      + length (write_args o pe.symbols)
      + length (write_args o pe.imports)
      + length (write_envs o pe.version_resources)

  length-marshal_cert : (c : Cert Time) → 0 < length (marshal_cert o tf c)
  unfolding marshal_cert
  length-marshal_cert c = omega lengths

  pub format_pos :
      (pe : Executable Time) (rest : Bytes) → 0 < length (marshal_format o tf pe ++ rest)
  unfolding marshal_format
  format_pos pe rest = omega arith

  pub signature_pos :
      (pe : Executable Time) (rest : Bytes) → 0 < length (marshal_signature o tf pe ++ rest)
  unfolding marshal_signature
  signature_pos pe rest = omega arith

module _ {tf : TimeFormat} (parses : ParsesBack tf) (o : ByteOrder) {b : Bytes}
    (small : length b < u32_mod) where
  open tf use {Time, format}

  not_larger :
      (xs rest : Bytes) {p : ℕ}
      → Stands b p (xs ++ rest)
      → ltb (length b % u32_mod) (length xs) ≡ false
  not_larger xs rest s = let fits = Stands-length _ s in ground (arith, fits, length-append xs rest)

  unmarshal_cert-Stands :
      (c : Cert Time) (rest : Bytes) (offset : ℕ)
      → Stands b (26 + offset) (marshal_cert o tf c ++ rest)
      → CertFits (some c)
      → 0 < length rest
      → unmarshal_cert o tf b offset (length (marshal_cert o tf c)) ≡ done c
  unfolding unmarshal_cert marshal_cert
  unmarshal_cert-Stands c rest offset s (hserial, hsubject, hissuer) left =
      let s0 = regroup (sized o (format c.not_before)) _ rest s in
      let s1 = regroup (sized o (format c.not_after)) _ rest (past_sized o _ _ s0) in
      let s2 = regroup (sized o c.serial_number) _ rest (past_sized o _ _ s1) in
      let s3 = regroup (sized o c.subject) _ rest (past_sized o _ _ s2) in
      let s4 = past_sized o _ _ s3 in
      let l1 = length (format c.not_before) in
      let l2 = length (format c.not_after) in
      let l3 = length c.serial_number in
      let l4 = length c.subject in
      let behind : Bytes =
        (sized o (format c.not_after)
          ++ (sized o c.serial_number ++ (sized o c.subject ++ sized o c.issuer)))
        ++ rest in
      let behind1 : Bytes =
        (sized o c.serial_number ++ (sized o c.subject ++ sized o c.issuer)) ++ rest in
      rw (
        not_larger (marshal_cert o tf c) rest s,
        time_at-Stands tf parses o small false (26 + offset) (28 + offset) c.not_before behind s0
            refl (omega arith) (omega lengths),
        time_at-Stands tf parses o small false (28 + (offset + l1)) (30 + (offset + l1)) c.not_after
            behind1 s1 (omega arith) (omega arith) (omega lengths),
        sized_at-Stands small o (30 + (offset + l1 + l2)) (32 + (offset + l1 + l2)) c.serial_number
            _ s2 (omega arith) (omega arith) hserial (omega lengths),
        sized_at-Stands small o (32 + (offset + l1 + l2 + l3)) (34 + (offset + l1 + l2 + l3))
            c.subject _ s3 (omega arith) (omega arith) hsubject (omega lengths),
        sized_at-Stands small o (34 + (offset + l1 + l2 + l3 + l4))
            (36 + (offset + l1 + l2 + l3 + l4)) c.issuer _ s4 (omega arith) (omega arith) hissuer
            left,
      )

  cert-Stands :
      (c : Option (Cert Time)) (rest : Bytes) (offset : ℕ)
      → Stands b (22 + offset) (write_cert o tf c ++ rest)
      → CertFits c
      → 0 < length rest
      → (uint32_at o b (22 + offset) ≡ done (cert_size o tf c))
        × (read_cert o tf b offset (cert_size o tf c) ≡ done c)
        × Stands b (26 + offset + cert_size o tf c) rest
  unfolding write_cert cert_size
  cert-Stands none rest offset s fits left = (
    uint32_at-Stands small o (22 + offset) _ _ s refl (omega arith),
    unfold read_cert in refl,
    at (past_uint32 o _ _ s) (omega arith),
  )
  cert-Stands (some c) rest offset s fits left =
      let n = length (marshal_cert o tf c) in
      let s0 = regroup (write_uint32 o (n % u32_mod)) _ rest s in
      let s1 : Stands b (26 + offset) (marshal_cert o tf c ++ rest) =
        at (past_uint32 o _ _ s0) (omega arith) in
      let len = Stands-length _ s1 in
      let same : n % u32_mod ≡ n = omega (lengths, len) in
      let more : 0 < n = length-marshal_cert o tf c in
      (
        uint32_at-Stands small o (22 + offset) _ _ s0 refl (omega arith) ∙ ap done same,
        read_cert-pos o tf b offset n more ∙ rw (unmarshal_cert-Stands c rest offset s1 fits left),
        moves (marshal_cert o tf c) s1 refl,
      )

  pub read_signature-Stands :
      (pe : Executable Time) (rest : Bytes) (offset : ℕ)
      → Stands b (20 + offset) (marshal_signature o tf pe ++ rest)
      → CertFits pe.cert
      → (read_signature o tf b offset
          ≡ done (pe.is_signed, pe.is_trusted, pe.cert, cert_size o tf pe.cert))
        × Stands b (26 + (offset + cert_size o tf pe.cert)) (marshal_format o tf pe ++ rest)
  unfolding read_signature marshal_signature
  read_signature-Stands pe rest offset s0 fits =
      let s1 = past_byte s0 in
      let s2 : Stands b (22 + offset)
          ((write_cert o tf pe.cert ++ marshal_format o tf pe) ++ rest) =
        at (past_byte s1) (omega arith) in
      let (size, cert, s3) =
        cert-Stands pe.cert (marshal_format o tf pe ++ rest) offset (regroup _ _ rest s2) fits
          (format_pos o tf pe rest) in
      (
        rw (
          byte_at-Stands small (20 + offset) _ _ s0 refl,
          byte_at-Stands small (21 + offset) _ _ s1 (omega arith),
          size,
          cert,
          itob-btoi pe.is_signed,
          itob-btoi pe.is_trusted,
        ),
        at s3 (omega arith),
      )
