-- ===== src/Capture/Events/Restoring.antt =====
-- pkg/event/marshaller_windows.go: the switch of `UnmarshalRaw` on the type of a parameter, with the
-- constructor of IPv4 addresses in pkg/util/ip/ip.go.
use fibratus.Prelude.{
  ℕ, zero, suc, ◌+◌, ◌/◌, ◌%◌, ◌||◌, Bool, false, List, [], ◌∷◌, ◌++◌, Option, none, some, length,
  take, leb, ◌==◌, if◌then◌else◌,
}
use fibratus.Prelude.Int.{ℤ}
use fibratus.Event.Values.{v4_in_v6_prefix}
use fibratus.Capture.Bytes.{
  Bytes, Decoded, done, crashed, ◌>>=◌, ByteOrder, signed, slice, string_of, byte_at, uint16_at,
  uint32_at, uint64_at, sized_at,
}
use fibratus.Capture.Times.{TimeFormat, read_time}
use fibratus.Capture.Processes.Reading.{slice_between}

-- The values that `UnmarshalRaw` makes. `f32_of` and `f64_of` are conversions of an unsigned integer.
pub data Restored (Time : Type 0) : Type 0 where
  text : Bytes → Restored Time
  u8 u16 u32 u64 : ℕ → Restored Time
  i8 i16 i32 i64 : ℤ → Restored Time
  f32_of f64_of : ℕ → Restored Time
  ip : Bytes → Restored Time
  bool : Bool → Restored Time
  time : Time → Restored Time
  texts : List Bytes → Restored Time
  u64s : List ℕ → Restored Time
  binary : Bytes → Restored Time

-- The cases of the switch on the number of a type.
pub data Case : Type 0 where
  text u64 i64 double float ipv4 ipv6 u32 i32 u16 i16 u8 i8 bool time collection binary : Case
  skipped : Case

-- By number: 1 unicode, 2 ansi, 31 path; 10 uint64, 36 address, 35 flags64; 9 int64; 12 double;
-- 11 float; 23 and 24 IPv4 and IPv6; 18 pid, 19 tid, 8 uint32, 27 enum, 34 flags, 32 status; 7 int32;
-- 6 uint16, 21 port; 5 int16; 4 uint8; 3 int8; 13 bool; 25 time; 26 slice; 14 binary, 17 and 20 SIDs.
unfoldable pub case_of : ℕ → Case
case_of n =
    if n == 1 || (n == 2 || n == 31)
    then Case.text
    else if n == 10 || (n == 36 || n == 35)
    then Case.u64
    else if n == 9
    then Case.i64
    else if n == 12
    then Case.double
    else if n == 11
    then Case.float
    else if n == 23
    then Case.ipv4
    else if n == 24
    then Case.ipv6
    else if n == 18 || (n == 19 || (n == 8 || (n == 27 || (n == 34 || n == 32))))
    then Case.u32
    else if n == 7
    then Case.i32
    else if n == 6 || n == 21
    then Case.u16
    else if n == 5
    then Case.i16
    else if n == 4
    then Case.u8
    else if n == 3
    then Case.i8
    else if n == 13
    then Case.bool
    else if n == 25
    then Case.time
    else if n == 26
    then Case.collection
    else if n == 14 || (n == 17 || n == 20)
    then Case.binary
    else Case.skipped

-- `ToIPv4`: `net.IPv4` has the sixteen-byte form.
unfoldable pub to_ipv4 : ℕ → Bytes
to_ipv4 n = v4_in_v6_prefix ++ (n % 256 ∷ n / 256 % 256 ∷ n / 65536 % 256 ∷ n / 16777216 % 256 ∷ [])

unfoldable pub zeros : ℕ → List ℕ
zeros zero = []
zeros (suc n) = 0 ∷ zeros n

-- `to_ipv6` goes to a function of Windows that prints an address, and parses the result.
module _ (o : ByteOrder) (tf : TimeFormat) (to_ipv6 : Bytes → Bytes) where
  open tf use {Time}

  -- A value with the number of bytes by which the loop moves on, apart from those of the name. The
  -- string is read at `p + 3` from its length; the code then reads its bytes one place too far.
  unfoldable pub read_slice_texts : Bytes → ℕ → ℕ → ℕ → Decoded (List Bytes × ℕ)
  read_slice_texts b p zero off = done ([], off)
  read_slice_texts b p (suc n) off = do
    (size, s) ← sized_at o b (3 + p + off) (6 + p + off)
    (l, end) ← read_slice_texts b p n (off + (2 + size))
    done (s ∷ l, end)

  -- The elements are read and dropped.
  unfoldable pub read_slice_numbers : Bytes → ℕ → ℕ → ℕ → Decoded ℕ
  read_slice_numbers b p zero off = done off
  read_slice_numbers b p (suc n) off = do
    _ ← uint64_at o b (6 + p + off)
    read_slice_numbers b p n (off + 8)

  unfoldable pub read_slice : Bytes → ℕ → Decoded (Option (Restored Time) × ℕ)
  unfolding read_slice_texts read_slice_numbers zeros
  read_slice b p = do
    kind ← byte_at b p
    l ← uint16_at o b (1 + p)
    let texts = do
      (s, off) ← read_slice_texts b p l 0
      done (some (Restored.texts s), 4 + 1 + 2 + off)
    let numbers = do
      off ← read_slice_numbers b p l 0
      done (some (Restored.u64s (zeros l)), 4 + 1 + 2 + off)
    if kind == b's' then texts else if kind == b'8' then numbers else done (none, 4 + 1 + 2)

  unfoldable pub some_text : ℕ → Bytes → Decoded (Option (Restored Time))
  unfolding string_of
  some_text l [] = done none
  some_text l (x ∷ buf) = do s ← string_of l (x ∷ buf); done (some (Restored.text s))

  unfoldable pub some_time : ℕ → Bytes → Decoded (Option (Restored Time))
  unfolding read_time
  some_time l [] = done none
  some_time l (x ∷ buf) = do t ← read_time tf false l (x ∷ buf); done (some (Restored.time t))

  -- `buf[:l]`, if there are any bytes.
  unfoldable pub some_binary : ℕ → Bytes → Decoded (Option (Restored Time))
  some_binary l [] = done none
  some_binary l (x ∷ buf) =
      if leb l (length (x ∷ buf)) then done (some (Restored.binary (take l (x ∷ buf)))) else crashed

  unfoldable pub read_value : Case → Bytes → ℕ → Decoded (Option (Restored Time) × ℕ)
  unfolding read_slice some_text some_time some_binary to_ipv4 signed slice_between
  read_value Case.text b p = do
    l ← uint16_at o b p
    buf ← slice b (2 + p)
    v ← some_text l buf
    done (v, 6 + l)
  read_value Case.u64 b p = do n ← uint64_at o b p; done (some (Restored.u64 n), 4 + 8)
  read_value Case.i64 b p = do
    n ← uint64_at o b p
    done (some (Restored.i64 (signed 9223372036854775808 n)), 4 + 8)
  read_value Case.double b p = do n ← uint64_at o b p; done (some (Restored.f64_of n), 4 + 8)
  read_value Case.float b p = do n ← uint32_at o b p; done (some (Restored.f32_of n), 4 + 4)
  read_value Case.ipv4 b p = do n ← uint32_at o b p; done (some (Restored.ip (to_ipv4 n)), 4 + 4)
  read_value Case.ipv6 b p = do
    a ← slice_between b p (p + 16)
    done (some (Restored.ip (to_ipv6 a)), 4 + 16)
  read_value Case.u32 b p = do n ← uint32_at o b p; done (some (Restored.u32 n), 4 + 4)
  read_value Case.i32 b p = do
    n ← uint32_at o b p
    done (some (Restored.i32 (signed 2147483648 n)), 4 + 4)
  read_value Case.u16 b p = do n ← uint16_at o b p; done (some (Restored.u16 n), 4 + 2)
  read_value Case.i16 b p = do
    n ← uint16_at o b p
    done (some (Restored.i16 (signed 32768 n)), 4 + 2)
  read_value Case.u8 b p = do n ← byte_at b p; done (some (Restored.u8 n), 4 + 1)
  read_value Case.i8 b p = do n ← byte_at b p; done (some (Restored.i8 (signed 128 n)), 4 + 1)
  read_value Case.bool b p = do n ← byte_at b p; done (some (Restored.bool (n == 1)), 4 + 1)
  read_value Case.time b p = do
    l ← uint16_at o b p
    buf ← slice b (2 + p)
    v ← some_time l buf
    done (v, 6 + l)
  read_value Case.collection b p = read_slice b p
  read_value Case.binary b p = do
    l ← uint32_at o b p
    buf ← slice b (2 + p)
    v ← some_binary l buf
    done (v, 8 + l)
  read_value Case.skipped b p = done (none, 0)
