-- ===== src/Capture/Processes/Reading.antt =====
-- pkg/ps/types/marshaller_windows.go: `Unmarshal`, in the parts between which it passes an index and
-- an offset on.
use fibratus.Prelude.{
  ℕ, zero, suc, ◌+◌, ◌-◌, ◌%◌, Bool, false, ◌&&◌, List, [], ◌∷◌, Option, none, some, length, take,
  ltb, leb, ◌==◌, if◌then◌else◌,
}
use fibratus.Prelude.Int.{u16_mod, u32_mod}
use fibratus.Capture.Maps.{set_key}
use fibratus.Capture.Bytes.{
  Bytes, Decoded, done, failed, crashed, ◌>>=◌, ByteOrder, itob, slice, string_of, byte_at,
  uint16_at, uint32_at, uint64_at, sized_at, sized_if_any_at,
}
use fibratus.Capture.Sections.{
  read_section, sec_version, sec_len, sec_size, process_sec_v2, process_sec_v3, process_sec_v4,
}
use fibratus.Capture.Handles.{Handle}
use fibratus.Capture.Handles
use fibratus.Capture.Times.{TimeFormat, time_at}
use fibratus.Capture.Processes.{PeCodec, Process}

-- `b[p:q]`, where the code takes the length of `b` for its capacity.
unfoldable pub slice_between : Bytes → ℕ → ℕ → Decoded Bytes
unfolding slice
slice_between b p q = do
  buf ← slice b p
  if leb (p % u32_mod) (q % u32_mod) && leb (q % u32_mod) (length b)
      then done (take (q % u32_mod - p % u32_mod) buf)
      else crashed

module _ (o : ByteOrder) where
  -- The loops of `Unmarshal`, with `n` rounds left and `p` for the position without the offset of the
  -- loop, which is a `uint16` for the arguments and the variables.
  unfoldable pub read_args : Bytes → ℕ → ℕ → ℕ → Decoded (List Bytes × ℕ)
  read_args b p zero aoffset = done ([], aoffset)
  read_args b p (suc n) aoffset = do
    (l, arg) ← sized_at o b (p + aoffset) (2 + p + aoffset)
    (args, end) ← read_args b p n ((aoffset + 2 + l) % u16_mod)
    done (arg ∷ args, end)

  unfoldable pub read_envs :
      Bytes → ℕ → ℕ → ℕ → List (Bytes × Bytes) → Decoded (List (Bytes × Bytes) × ℕ)
  unfolding set_key
  read_envs b p zero eoffset envs = done (envs, eoffset)
  read_envs b p (suc n) eoffset envs = do
    (klen, key) ← sized_at o b (p + eoffset) (2 + p + eoffset)
    (vlen, value) ← sized_at o b (2 + p + eoffset + klen) (4 + p + eoffset + klen)
    read_envs b p n ((eoffset + klen + vlen + 2 + 2) % u16_mod) (set_key key value envs)

  unfoldable pub read_handles : Bytes → ℕ → ℕ → ℕ → Decoded (List Handle × ℕ)
  unfolding slice_between
  read_handles b p zero hoffset = done ([], hoffset)
  read_handles b p (suc n) hoffset = do
    l ← uint16_at o b (p + hoffset)
    let off = 2 + p + hoffset
    buf ← slice_between b off (off + l)
    handle ← Handles.unmarshal o buf
    (handles, end) ← read_handles b p n (hoffset + l + 2)
    done (handle ∷ handles, end)

module _ (o : ByteOrder) (tf : TimeFormat) (codec : PeCodec) where
  open tf use {Time, zero_time}
  open codec use {Pe, unmarshal_pe}

  -- The strings, with the sum of their lengths. The last is left empty at the end of the slice.
  unfoldable pub read_strings : Bytes → Decoded (Bytes × Bytes × Bytes × Bytes × Bytes × ℕ)
  read_strings b = do
    (l1, name) ← sized_at o b 8 10
    (l2, cmdline) ← sized_at o b (10 + l1) (12 + l1)
    (l3, exe) ← sized_at o b (12 + (l1 + l2)) (14 + (l1 + l2))
    (l4, cwd) ← sized_at o b (14 + (l1 + l2 + l3)) (16 + (l1 + l2 + l3))
    let offset = l1 + l2 + l3 + l4
    (l5, sid) ← sized_if_any_at o b (16 + offset) (18 + offset)
    done (name, cmdline, exe, cwd, sid, offset + l5)

  -- The session was one byte before version 3; with it, the index behind it.
  unfoldable pub read_session : Bytes → ℕ → ℕ → Decoded (ℕ × ℕ)
  read_session b ver offset =
      let wide = do session ← uint32_at o b (20 + offset); done (session, 24)
      in let narrow = do session ← byte_at b (20 + offset); done (session, 21)
        in if leb process_sec_v3 ver then wide else narrow

  -- Arguments, session, variables and handles, and the index and the offset behind them.
  unfoldable pub read_lists :
      Bytes → ℕ → ℕ → Decoded (List Bytes × ℕ × List (Bytes × Bytes) × List Handle × ℕ × ℕ)
  unfolding read_args read_session read_envs read_handles
  read_lists b ver offset = do
    nargs ← uint16_at o b (18 + offset)
    (args, aoffset) ← read_args o b (20 + offset) nargs 0
    let offset1 = offset + aoffset
    (session, idx) ← read_session b ver offset1
    nvars ← uint16_at o b (idx + offset1)
    (envs, eoffset) ← read_envs o b (idx + 2 + offset1) nvars 0 []
    let offset2 = offset1 + eoffset
    sec ← read_section b (idx + 2 + offset2)
    n ← sec_len o sec
    (handles, hoffset) ← read_handles o b (idx + 2 + (offset2 + 10)) n 0
    done (args, session, envs, handles, idx + 2, offset2 + 10 + hoffset)

  -- The executable, and the size of its section.
  unfoldable pub read_executable : Bytes → ℕ → ℕ → Decoded (Option Pe × ℕ)
  read_executable b idx offset = do
    sec ← read_section b (idx + offset)
    size ← sec_size o sec
    version ← sec_version sec
    if size == 0 then done (none, size) else (do
      buf ← slice b (idx + 10 + offset)
      pe ← unmarshal_pe buf version
      done (some pe, size))

  -- Start time and identifier, with the length of the text of the time. A start time that does not
  -- parse is an error only of a process without an executable, where `strict` is true.
  unfoldable pub read_start : Bytes → Bool → ℕ → ℕ → Decoded (Time × ℕ × ℕ)
  read_start b strict idx offset = do
    (l, start) ← time_at tf o b strict (idx + offset) (idx + 2 + offset)
    uuid ← uint64_at o b (idx + 2 + (offset + l))
    done (start, uuid, l)

  -- User and domain, with the lengths of both. The strings are made of the start of the whole slice.
  unfoldable pub read_account : Bytes → ℕ → ℕ → Decoded (Bytes × Bytes × ℕ)
  read_account b idx offset = do
    l1 ← uint16_at o b (idx + offset)
    username ← string_of l1 b
    l2 ← uint16_at o b (idx + 2 + (offset + l1))
    domain ← string_of l2 b
    done (username, domain, l1 + l2)

  unfoldable pub read_flags : Bytes → ℕ → ℕ → Decoded (Bool × Bool × Bool)
  unfolding itob
  read_flags b idx offset = do
    wow64 ← byte_at b (idx + offset)
    packaged ← byte_at b (idx + 1 + offset)
    protected ← byte_at b (idx + 2 + offset)
    done (itob wow64, itob packaged, itob protected)

  -- What comes after the executable, by the version of the section.
  unfoldable pub read_end :
      Bytes → ℕ → Bool → ℕ → ℕ → Decoded (Time × ℕ × Bytes × Bytes × Bool × Bool × Bool)
  unfolding read_start read_account read_flags
  read_end b ver strict idx offset = do
    (start, uuid, l) ←
        (if leb process_sec_v2 ver then read_start b strict idx offset else done (zero_time, 0, 0))
    let idx1 = (if leb process_sec_v2 ver then idx + 2 else idx)
    let offset1 = offset + l
    (username, domain, m) ←
        (if leb process_sec_v3 ver then read_account b (idx1 + 8) offset1 else done ([], [], 0))
    let idx2 = (if leb process_sec_v3 ver then idx1 + 8 + 4 else idx1)
    (wow64, packaged, protected) ←
        (if leb process_sec_v4 ver
          then read_flags b idx2 (offset1 + m)
          else done (false, false, false))
    done (start, uuid, username, domain, wow64, packaged, protected)

  -- `NewFromCapture`, with `Unmarshal` of an empty process; `ver` is the version of the section.
  unfoldable pub unmarshal : Bytes → ℕ → Decoded (Process Time Pe)
  unfolding read_strings read_lists read_executable read_end
  unmarshal b ver =
      let read = do
        pid ← uint32_at o b 0
        ppid ← uint32_at o b 4
        (name, cmdline, exe, cwd, sid, offset) ← read_strings b
        (args, session, envs, handles, idx, offset1) ← read_lists b ver offset
        (pe, size) ← read_executable b idx offset1
        (start, uuid, username, domain, wow64, packaged, protected) ←
            read_end b ver (size == 0) (idx + 10) (offset1 + size)
        done (record {
          pid = pid;
          ppid = ppid;
          name = name;
          cmdline = cmdline;
          exe = exe;
          cwd = cwd;
          sid = sid;
          args = args;
          session_id = session;
          envs = envs;
          handles = handles;
          pe = pe;
          start_time = start;
          uuid = uuid;
          username = username;
          domain = domain;
          is_wow64 = wow64;
          is_packaged = packaged;
          is_protected = protected;
        })
      in if ltb (length b) 8 then failed else read
