-- ===== src/Capture/Bytes.antt =====
-- pkg/util/bytes/bytes.go, pkg/util/convert/convert.go, and the way in which the captures are read: a
-- byte slice with positions in it.
--
-- A byte is a number. A position is a sum of `uint32` values, so it is reduced when it is used.
pub mod Placed
use fibratus.Prelude.{
  ℕ, zero, suc, ◌+◌, ◌-◌, ◌*◌, ◌/◌, ◌%◌, ◌<◌, Bool, true, false, List, [], ◌∷◌, ◌++◌, Option, none,
  some, length, drop, ltb, leb, ◌==◌, if◌then◌else◌,
}
use fibratus.Prelude.Int.{ℤ, pos, negsuc, u16_mod, u32_mod}
use fibratus.Event.Values.{eq_text}

abbrev pub Bytes : Type 0
Bytes = List ℕ

-- What a function that reads bytes does: it returns, it returns an error, or it panics at an index
-- out of range. The code makes strings of a pointer and a length, unchecked: to read past the end of
-- the slice in this way counts as `crashed` too.
pub data Decoded {ℓ} (A : Type ℓ) : Type ℓ where
  done : A → Decoded A
  failed crashed : Decoded A

infixl 5 ◌>>=◌
abbrev pub ◌>>=◌ {ℓ κ} : {A : Type ℓ} {B : Type κ} → Decoded A → (A → Decoded B) → Decoded B
done a >>= f = f a
failed >>= f = failed
crashed >>= f = crashed

pub data ByteOrder : Type 0 where
  little big : ByteOrder

-- `InitNativeEndian`, from the eight bytes as which the machine stores 0x6669627261747573.
unfoldable pub init_native_endian : Bytes → Decoded ByteOrder
init_native_endian buf =
    if eq_text buf (0x73 ∷ 0x75 ∷ 0x74 ∷ 0x61 ∷ 0x72 ∷ 0x62 ∷ 0x69 ∷ 0x66 ∷ [])
    then done little
    else if eq_text buf (0x66 ∷ 0x69 ∷ 0x62 ∷ 0x72 ∷ 0x61 ∷ 0x74 ∷ 0x75 ∷ 0x73 ∷ [])
    then done big
    else crashed

unfoldable pub write_uint16 : ByteOrder → ℕ → Bytes
write_uint16 little v = v % 256 ∷ v / 256 % 256 ∷ []
write_uint16 big v = v / 256 % 256 ∷ v % 256 ∷ []

unfoldable pub write_uint32 : ByteOrder → ℕ → Bytes
unfolding write_uint16
write_uint32 little v = write_uint16 little v ++ write_uint16 little (v / 65536)
write_uint32 big v = write_uint16 big (v / 65536) ++ write_uint16 big v

unfoldable pub write_uint64 : ByteOrder → ℕ → Bytes
unfolding write_uint32
write_uint64 little v = write_uint32 little v ++ write_uint32 little (v / 4294967296)
write_uint64 big v = write_uint32 big (v / 4294967296) ++ write_uint32 big v

unfoldable pub read_uint16 : ByteOrder → Bytes → Decoded ℕ
read_uint16 little (x ∷ y ∷ b) = done (x + 256 * y)
read_uint16 big (x ∷ y ∷ b) = done (256 * x + y)
read_uint16 o _ = crashed

unfoldable pub read_uint32 : ByteOrder → Bytes → Decoded ℕ
unfolding read_uint16
read_uint32 little b = do
  low ← read_uint16 little b
  high ← read_uint16 little (drop 2 b)
  done (low + 65536 * high)
read_uint32 big b = do
  high ← read_uint16 big b
  low ← read_uint16 big (drop 2 b)
  done (65536 * high + low)

unfoldable pub read_uint64 : ByteOrder → Bytes → Decoded ℕ
unfolding read_uint32
read_uint64 little b = do
  low ← read_uint32 little b
  high ← read_uint32 little (drop 4 b)
  done (low + 4294967296 * high)
read_uint64 big b = do
  high ← read_uint32 big b
  low ← read_uint32 big (drop 4 b)
  done (4294967296 * high + low)

-- The signed integer that a word stands for; `half` is the first word that is negative.
unfoldable pub signed : ℕ → ℕ → ℤ
signed half v = if ltb v half then pos v else negsuc (half + half - 1 - v)

unfoldable pub btoi : Bool → ℕ
btoi true = 1
btoi false = 0

unfoldable pub itob : ℕ → Bool
itob i = ltb 0 i

-- `b[p:]`
unfoldable pub slice : Bytes → ℕ → Decoded Bytes
slice b p = if leb (p % u32_mod) (length b) then done (drop (p % u32_mod) b) else crashed

unfoldable pub prefix : ℕ → Bytes → Decoded Bytes
prefix zero b = done []
prefix (suc n) [] = crashed
prefix (suc n) (x ∷ b) = do rest ← prefix n b; done (x ∷ rest)

-- The string of `l` bytes at `&buf[0]`.
unfoldable pub string_of : ℕ → Bytes → Decoded Bytes
unfolding prefix
string_of l [] = crashed
string_of l (x ∷ buf) = prefix l (x ∷ buf)

-- The same under the test `len(buf) > 0`.
unfoldable pub string_if_any : ℕ → Bytes → Decoded Bytes
unfolding prefix
string_if_any l [] = done []
string_if_any l (x ∷ buf) = prefix l (x ∷ buf)

unfoldable pub byte_of : Bytes → Decoded ℕ
byte_of [] = crashed
byte_of (x ∷ b) = done x

unfoldable pub byte_at : Bytes → ℕ → Decoded ℕ
unfolding slice byte_of
byte_at b p = slice b p >>= byte_of

module _ (o : ByteOrder) where
  unfoldable pub uint16_at : Bytes → ℕ → Decoded ℕ
  unfolding slice read_uint16
  uint16_at b p = slice b p >>= read_uint16 o

  unfoldable pub uint32_at : Bytes → ℕ → Decoded ℕ
  unfolding slice read_uint32
  uint32_at b p = slice b p >>= read_uint32 o

  unfoldable pub uint64_at : Bytes → ℕ → Decoded ℕ
  unfolding slice read_uint64
  uint64_at b p = slice b p >>= read_uint64 o

  -- A string behind its length, as the captures have it. It is read by the length at one position and
  -- the bytes at another, and the length is what the code goes on with.
  unfoldable pub sized : Bytes → Bytes
  unfolding write_uint16
  sized s = write_uint16 o (length s % u16_mod) ++ s

  unfoldable pub sized_at : Bytes → ℕ → ℕ → Decoded (ℕ × Bytes)
  unfolding uint16_at slice string_of
  sized_at b p q = do l ← uint16_at b p; buf ← slice b q; s ← string_of l buf; done (l, s)

  unfoldable pub sized_if_any_at : Bytes → ℕ → ℕ → Decoded (ℕ × Bytes)
  unfolding uint16_at slice string_if_any
  sized_if_any_at b p q = do
    l ← uint16_at b p
    buf ← slice b q
    s ← string_if_any l buf
    done (l, s)
