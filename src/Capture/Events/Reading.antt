-- ===== src/Capture/Events/Reading.antt =====
-- pkg/event/marshaller_windows.go: `UnmarshalRaw` and `NewFromCapture`.
use fibratus.Prelude.{
  ℕ, zero, suc, ◌+◌, false, List, [], ◌∷◌, Option, none, some, length, ltb, ◌==◌, if◌then◌else◌,
}
use fibratus.Capture.Bytes.{
  Bytes, Decoded, done, failed, ◌>>=◌, ByteOrder, slice, byte_at, uint16_at, uint32_at, uint64_at,
  sized_at,
}
use fibratus.Capture.Sections.{
  copied, read_section, sec_version, sec_size, event_sec_v1, event_sec_v2,
}
use fibratus.Capture.Times.{TimeFormat, time_at}
use fibratus.Capture.Maps.{set_key}
use fibratus.Capture.Processes.{PeCodec, Process}
use fibratus.Capture.Processes.Reading.{slice_between}
use fibratus.Capture.Processes.Reading
use fibratus.Capture.Events.{EventState}
use fibratus.Capture.Events.Restoring.{Restored, Case, case_of, read_value}

-- The index behind the type, by the version of the section.
unfoldable pub cpu_index : ℕ → ℕ
cpu_index ver = if ver == event_sec_v1 then 33 else if ver == event_sec_v2 then 34 else 0

module _ (o : ByteOrder) (tf : TimeFormat) (to_ipv6 : Bytes → Bytes) where
  open tf use {Time}

  -- A skipped parameter does not move the loop on, not even past its name.
  unfoldable pub moved : Case → ℕ → ℕ → ℕ
  moved Case.skipped kn n = 0
  moved c kn n = kn + n

  -- `AppendFromCapture`, for a value that is not nil.
  unfoldable pub append_param :
      Bytes
      → ℕ
      → Option (Restored Time)
      → List (Bytes × (ℕ × Restored Time))
      → List (Bytes × (ℕ × Restored Time))
  unfolding set_key
  append_param name typ none m = m
  append_param name typ (some v) m = set_key name (typ, v) m

  -- `p` is the sum of the index and the offset of the header.
  unfoldable pub read_params :
      Bytes
      → ℕ
      → ℕ
      → ℕ
      → List (Bytes × (ℕ × Restored Time))
      → Decoded (List (Bytes × (ℕ × Restored Time)) × ℕ)
  unfolding case_of read_value moved append_param
  read_params b p zero poffset m = done (m, poffset)
  read_params b p (suc n) poffset m = do
    typ ← uint16_at o b (12 + p + poffset)
    (kn, name) ← sized_at o b (14 + p + poffset) (16 + p + poffset)
    (v, size) ← read_value o tf to_ipv6 (case_of typ) b (16 + p + poffset + kn)
    read_params b p n (poffset + moved (case_of typ) kn size) (append_param name typ v m)

  -- A tag without a key is left out.
  unfoldable pub add_tag : Bytes → Bytes → List (Bytes × Bytes) → List (Bytes × Bytes)
  unfolding set_key
  add_tag [] value m = m
  add_tag (c ∷ key) value m = set_key (c ∷ key) value m

  unfoldable pub read_tags :
      Bytes → ℕ → ℕ → ℕ → List (Bytes × Bytes) → Decoded (List (Bytes × Bytes) × ℕ)
  unfolding add_tag
  read_tags b p zero moffset m = done (m, moffset)
  read_tags b p (suc n) moffset m = do
    (klen, key) ← sized_at o b (14 + p + moffset) (16 + p + moffset)
    (vlen, value) ← sized_at o b (16 + p + klen + moffset) (18 + p + klen + moffset)
    read_tags b p n (moffset + (klen + vlen + 4)) (add_tag key value m)

  -- Name, category, description, host and timestamp, with the sum of their lengths.
  unfoldable pub read_names : Bytes → ℕ → Decoded (Bytes × Bytes × Bytes × Bytes × Time × ℕ)
  read_names b idx = do
    (l1, name) ← sized_at o b idx (2 + idx)
    (l2, category) ← sized_at o b (2 + idx + l1) (4 + idx + l1)
    (l3, description) ← sized_at o b (4 + idx + (l1 + l2)) (6 + idx + (l1 + l2))
    (l4, host) ← sized_at o b (6 + idx + (l1 + l2 + l3)) (8 + idx + (l1 + l2 + l3))
    let offset = l1 + l2 + l3 + l4
    (l5, timestamp) ← time_at tf o b false (8 + idx + offset) (10 + idx + offset)
    done (name, category, description, host, timestamp, offset + l5)

  module _ (codec : PeCodec) where
    open codec use {Pe}

    -- The process behind its section, if that has a size.
    unfoldable pub read_process : Bytes → ℕ → Decoded (Option (Process Time Pe))
    read_process b p = do
      sec ← read_section b (14 + p)
      size ← sec_size o sec
      version ← sec_version sec
      let here = do
        buf ← slice b (24 + p)
        ps ← Reading.unmarshal o tf codec buf version
        done (some ps)
      if size == 0 then done none else here

    -- Everything from the name on; `idx` is the index of the name.
    unfoldable pub read_body :
        Bytes → ℕ → ℕ → ℕ → ℕ → Bytes → ℕ → Decoded (EventState (ℕ × Restored Time) Time Pe)
    unfolding read_names read_params read_tags read_process
    read_body b idx seq pid tid type cpu = do
      (name, category, description, host, timestamp, offset) ← read_names b idx
      nparams ← uint16_at o b (10 + idx + offset)
      (params, poffset) ← read_params b (idx + offset) nparams 0 []
      ntags ← uint16_at o b (12 + (idx + offset + poffset))
      (tags, moffset) ← read_tags b (idx + offset + poffset) ntags 0 []
      ps ← read_process b (idx + offset + poffset + moffset)
      done (record {
        seq = seq;
        pid = pid;
        tid = tid;
        type = type;
        cpu = cpu;
        name = name;
        category = category;
        description = description;
        host = host;
        timestamp = timestamp;
        params = params;
        metadata = tags;
        ps = ps;
      })

    -- `NewFromCapture`
    unfoldable pub unmarshal_raw : Bytes → ℕ → Decoded (EventState (ℕ × Restored Time) Time Pe)
    unfolding cpu_index copied read_body slice_between
    unmarshal_raw b ver =
        let read = do
          seq ← uint64_at o b 0
          pid ← uint32_at o b 8
          tid ← uint32_at o b 12
          type ← slice_between b 16 (cpu_index ver)
          cpu ← byte_at b (cpu_index ver)
          read_body b (cpu_index ver + 1) seq pid tid (copied 18 type) cpu
        in if ltb (length b) 34 then failed else read
