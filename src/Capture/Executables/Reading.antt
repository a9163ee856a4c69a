-- ===== src/Capture/Executables/Reading.antt =====
-- pkg/pe/marshaller.go, pkg/sys/trust.go: `Unmarshal` and `NewFromCapture`, in the parts between which
-- they pass an offset on.
use fibratus.Prelude.{
  ℕ, zero, suc, ◌+◌, ◌%◌, Bool, true, false, List, [], ◌∷◌, Option, none, some, length, ltb, leb,
  ◌==◌, if◌then◌else◌,
}
use fibratus.Prelude.Int.{u16_mod, u32_mod}
use fibratus.Capture.Bytes.{
  Bytes, Decoded, done, failed, ◌>>=◌, ByteOrder, itob, slice, byte_at, uint16_at, uint32_at,
  uint64_at, sized_at, string_of,
}
use fibratus.Capture.Sections.{pe_sec_v2}
use fibratus.Capture.Times.{TimeFormat, time_at}
use fibratus.Capture.Maps.{set_key}
use fibratus.Capture.Executables.{Sec, Cert, Executable}

-- The two ways in which a loop over strings moves on after one of length `l`: `uint32(l + 2)` with
-- the sum in a `uint16`, and `2 + uint32(l)`.
unfoldable pub narrow : ℕ → ℕ
narrow l = (l + 2) % u16_mod

unfoldable pub wide : ℕ → ℕ
wide l = l + 2

-- A resource without a key is left out.
unfoldable pub add_resource : Bytes → Bytes → List (Bytes × Bytes) → List (Bytes × Bytes)
unfolding set_key
add_resource [] value m = m
add_resource (c ∷ key) value m = set_key (c ∷ key) value m

module _ (o : ByteOrder) where
  -- The loops, with `n` rounds left and `p` for the position without the offset of the loop.
  unfoldable pub read_texts : (ℕ → ℕ) → Bytes → ℕ → ℕ → ℕ → Decoded (List Bytes × ℕ)
  read_texts advance b p zero off = done ([], off)
  read_texts advance b p (suc n) off = do
    (l, text) ← sized_at o b (p + off) (2 + p + off)
    (texts, end) ← read_texts advance b p n (off + advance l)
    done (text ∷ texts, end)

  unfoldable pub read_sections : Bytes → ℕ → ℕ → ℕ → Decoded (List Sec × ℕ)
  read_sections b p zero soffset = done ([], soffset)
  read_sections b p (suc n) soffset = do
    size ← uint32_at o b (p + soffset)
    entropy ← uint64_at o b (4 + p + soffset)
    (l1, name) ← sized_at o b (12 + p + soffset) (14 + p + soffset)
    (l2, md5) ← sized_at o b (14 + p + (soffset + l1)) (16 + p + (soffset + l1))
    (secs, end) ← read_sections b p n (soffset + l1 + l2 + 16)
    done (record { name = name; size = size; entropy = entropy; md5 = md5 } ∷ secs, end)

  -- A resource with an empty value is left out.
  unfoldable pub read_resources :
      Bytes → ℕ → ℕ → ℕ → List (Bytes × Bytes) → Decoded (List (Bytes × Bytes) × ℕ)
  unfolding add_resource
  read_resources b p zero roffset m = done (m, roffset)
  read_resources b p (suc n) roffset m = do
    (klen, key) ← sized_at o b (p + roffset) (2 + p + roffset)
    vlen ← uint16_at o b (2 + p + klen + roffset)
    buf ← slice b (4 + p + klen + roffset)
    elim (vlen == 0) [
      | true ↦ read_resources b p n (roffset + (klen + 4)) m
      | false ↦ string_of vlen buf >>= λ value.
          read_resources b p n (roffset + (klen + vlen + 4)) (add_resource key value m)
    ]

  module _ (tf : TimeFormat) where
    open tf use {Time}

    -- `Cert.Unmarshal`
    unfoldable pub unmarshal_cert : Bytes → ℕ → ℕ → Decoded (Cert Time)
    unmarshal_cert b offset cert_size =
        let read = do
          (l1, before) ← time_at tf o b false (26 + offset) (28 + offset)
          (l2, after) ← time_at tf o b false (28 + (offset + l1)) (30 + (offset + l1))
          (l3, serial) ← sized_at o b (30 + (offset + l1 + l2)) (32 + (offset + l1 + l2))
          (l4, subject) ← sized_at o b (32 + (offset + l1 + l2 + l3)) (34 + (offset + l1 + l2 + l3))
          let offset4 = offset + l1 + l2 + l3 + l4
          (l5, issuer) ← sized_at o b (34 + offset4) (36 + offset4)
          done (record {
            not_before = before;
            not_after = after;
            serial_number = serial;
            subject = subject;
            issuer = issuer;
          })
        in if ltb (length b % u32_mod) cert_size then failed else read

    -- The certificate, if its size is not 0.
    unfoldable pub read_cert : Bytes → ℕ → ℕ → Decoded (Option (Cert Time))
    unfolding unmarshal_cert
    read_cert b offset zero = done none
    read_cert b offset (suc size) = do c ← unmarshal_cert b offset (suc size); done (some c)

    -- Base, entry point and link time, with the sum of their lengths.
    unfoldable pub read_head : Bytes → Decoded (Bytes × Bytes × Time × ℕ)
    read_head b = do
      (l1, base) ← sized_at o b 6 8
      (l2, entry) ← sized_at o b (8 + l1) (10 + l1)
      (l3, link) ← time_at tf o b false (10 + (l1 + l2)) (12 + (l1 + l2))
      done (base, entry, link, l1 + l2 + l3)

    -- The lists, and the offset behind them.
    unfoldable pub read_tables :
        Bytes → ℕ → Decoded (List Sec × List Bytes × List Bytes × List (Bytes × Bytes) × ℕ)
    unfolding read_sections read_texts read_resources narrow
    read_tables b offset = do
      nsections ← uint16_at o b (12 + offset)
      (sections, soffset) ← read_sections b (14 + offset) nsections 0
      let offset1 = offset + soffset
      nsyms ← uint16_at o b (14 + offset1)
      (symbols, syoffset) ← read_texts narrow b (16 + offset1) nsyms 0
      let offset2 = offset1 + syoffset
      nimports ← uint16_at o b (16 + offset2)
      (imports, ioffset) ← read_texts narrow b (18 + offset2) nimports 0
      let offset3 = offset2 + ioffset
      nresources ← uint16_at o b (18 + offset3)
      (resources, roffset) ← read_resources b (20 + offset3) nresources 0 []
      done (sections, symbols, imports, resources, offset3 + roffset)

    -- The signature, with the size of the certificate.
    unfoldable pub read_signature : Bytes → ℕ → Decoded (Bool × Bool × Option (Cert Time) × ℕ)
    unfolding read_cert itob
    read_signature b offset = do
      signed ← byte_at b (20 + offset)
      trusted ← byte_at b (21 + offset)
      size ← uint32_at o b (22 + offset)
      cert ← read_cert b offset size
      done (itob signed, itob trusted, cert, size)

    unfoldable pub read_format :
        Bytes → ℕ → Decoded (Bool × Bool × Bool × Bool × Bytes × List Bytes)
    unfolding read_texts wide itob
    read_format b offset = do
      driver ← byte_at b (26 + offset)
      dll ← byte_at b (27 + offset)
      executable ← byte_at b (28 + offset)
      dotnet ← byte_at b (29 + offset)
      (l, imphash) ← sized_at o b (30 + offset) (32 + offset)
      nanomalies ← uint16_at o b (32 + (offset + l))
      (anomalies, _) ← read_texts wide b (34 + (offset + l)) nanomalies 0
      done (itob driver, itob dll, itob executable, itob dotnet, imphash, anomalies)

    -- The signature and what comes after it, which are there from version 2 on.
    unfoldable pub read_rest :
        Bytes
        → ℕ
        → ℕ
        → Decoded
            (Bool × Bool × Option (Cert Time) × Bool × Bool × Bool × Bool × Bytes × List Bytes)
    unfolding read_signature read_format
    read_rest b ver offset =
        let read = do
          (signed, trusted, cert, size) ← read_signature b offset
          (driver, dll, executable, dotnet, imphash, anomalies) ← read_format b (offset + size)
          done (signed, trusted, cert, driver, dll, executable, dotnet, imphash, anomalies)
        in if leb pe_sec_v2 ver
          then read
          else done (false, false, none, false, false, false, false, [], [])

    -- `NewFromCapture`
    unfoldable pub unmarshal_executable : Bytes → ℕ → Decoded (Executable Time)
    unfolding read_head read_tables read_rest
    unmarshal_executable b ver =
        let read = do
          nsections ← uint16_at o b 0
          nsymbols ← uint32_at o b 2
          (base, entry, link, offset) ← read_head b
          (sections, symbols, imports, resources, offset1) ← read_tables b offset
          (signed, trusted, cert, driver, dll, executable, dotnet, imphash, anomalies) ←
              read_rest b ver offset1
          done (record {
            number_of_sections = nsections;
            number_of_symbols = nsymbols;
            image_base = base;
            entry_point = entry;
            link_time = link;
            sections = sections;
            symbols = symbols;
            imports = imports;
            version_resources = resources;
            is_signed = signed;
            is_trusted = trusted;
            cert = cert;
            is_driver = driver;
            is_dll = dll;
            is_executable = executable;
            is_dotnet = dotnet;
            imphash = imphash;
            anomalies = anomalies;
          })
        in if ltb (length b) 6 then failed else read
