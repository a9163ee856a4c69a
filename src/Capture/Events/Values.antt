-- ===== src/Capture/Events/Values.antt =====
-- A parameter's value is read back from what was written of it.
use fibratus.Prelude.{ℕ, ◌<◌, ◌≡◌, refl, Bool, List, [], ◌∷◌, ◌++◌, length, take, drop, All, arith}
use fibratus.Prelude.Int.{ℤ, pos, negsuc, wrap, u8_mod, u16_mod, u32_mod, u64_mod}
use fibratus.Event.Values.{v4_in_v6_prefix}
use fibratus.Capture.Bytes.{
  Bytes, Decoded, done, failed, crashed, ByteOrder, big, signed, write_uint32,
}
use fibratus.Capture.ParamTypes.{ParamType, code, capture_type}
use fibratus.Capture.Events.{Value, Layout, layout, to_4, to_16}
use fibratus.Capture.Events.Restoring.{Restored, Case, case_of, zeros}

abbrev pub case_of_layout : Layout → Case
case_of_layout Layout.text = Case.text
case_of_layout Layout.shown = Case.text
case_of_layout Layout.u8 = Case.u8
case_of_layout Layout.i8 = Case.i8
case_of_layout Layout.u16 = Case.u16
case_of_layout Layout.i16 = Case.i16
case_of_layout Layout.u32 = Case.u32
case_of_layout Layout.i32 = Case.i32
case_of_layout Layout.u64 = Case.u64
case_of_layout Layout.i64 = Case.i64
case_of_layout Layout.double = Case.double
case_of_layout Layout.float = Case.float
case_of_layout Layout.ipv4 = Case.ipv4
case_of_layout Layout.ipv6 = Case.ipv6
case_of_layout Layout.bool = Case.bool
case_of_layout Layout.time = Case.time
case_of_layout Layout.slice = Case.collection
case_of_layout Layout.binary = Case.binary
case_of_layout Layout.unwritten = Case.skipped

-- Each type is read by the case that fits what is written for it.
pub case_of-code : (t : ParamType) → case_of (code (capture_type t)) ≡ case_of_layout (layout t)
unfolding case_of code capture_type layout
case_of-code ParamType.null = refl
case_of-code _ = refl

pub wrap8 : (z : ℤ) → wrap u8_mod z < u8_mod
wrap8 (pos n) = omega arith
wrap8 (negsuc n) = omega arith

pub wrap16 : (z : ℤ) → wrap u16_mod z < u16_mod
wrap16 (pos n) = omega arith
wrap16 (negsuc n) = omega arith

pub wrap32 : (z : ℤ) → wrap u32_mod z < u32_mod
wrap32 (pos n) = omega arith
wrap32 (negsuc n) = omega arith

pub wrap64 : (z : ℤ) → wrap u64_mod z < u64_mod
wrap64 (pos n) = omega arith
wrap64 (negsuc n) = omega arith

abbrev pub Between : ℕ → ℤ → Type 0
Between half (pos n) = n < half
Between half (negsuc n) = n < half

pub signed-wrap8 : (z : ℤ) → Between 128 z → signed 128 (wrap u8_mod z) ≡ z
unfolding signed
signed-wrap8 (pos n) h = ground arith
signed-wrap8 (negsuc n) h = ground arith

pub signed-wrap16 : (z : ℤ) → Between 32768 z → signed 32768 (wrap u16_mod z) ≡ z
unfolding signed
signed-wrap16 (pos n) h = ground arith
signed-wrap16 (negsuc n) h = ground arith

pub signed-wrap32 : (z : ℤ) → Between 2147483648 z → signed 2147483648 (wrap u32_mod z) ≡ z
unfolding signed
signed-wrap32 (pos n) h = ground arith
signed-wrap32 (negsuc n) h = ground arith

pub signed-wrap64 :
    (z : ℤ) → Between 9223372036854775808 z → signed 9223372036854775808 (wrap u64_mod z) ≡ z
unfolding signed
signed-wrap64 (pos n) h = ground arith
signed-wrap64 (negsuc n) h = ground arith

abbrev pub written : Decoded Bytes → Bytes
written (done b) = b
written failed = []
written crashed = []

-- The values that come back: of the type that the parameter's type asks for, in its range, and no
-- float, list of strings, or type that is not written.
pub data IsKept (o : ByteOrder) {Time : Type 0} : Layout → Value Time → Bytes → Type 0 where
  text : (s str : Bytes) → length s < u16_mod → IsKept o Layout.text (Value.text s) str
  shown : (v : Value Time) (str : Bytes) → length str < u16_mod → IsKept o Layout.shown v str
  u8 : (n : ℕ) (str : Bytes) → IsKept o Layout.u8 (Value.u8 n) str
  i8 : (z : ℤ) (str : Bytes) → Between 128 z → IsKept o Layout.i8 (Value.i8 z) str
  u16 : (n : ℕ) (str : Bytes) → n < u16_mod → IsKept o Layout.u16 (Value.u16 n) str
  i16 : (z : ℤ) (str : Bytes) → Between 32768 z → IsKept o Layout.i16 (Value.i16 z) str
  u32 : (n : ℕ) (str : Bytes) → n < u32_mod → IsKept o Layout.u32 (Value.u32 n) str
  i32 : (z : ℤ) (str : Bytes) → Between 2147483648 z → IsKept o Layout.i32 (Value.i32 z) str
  u64 : (n : ℕ) (str : Bytes) → n < u64_mod → IsKept o Layout.u64 (Value.u64 n) str
  i64 :
      (z : ℤ) (str : Bytes) → Between 9223372036854775808 z → IsKept o Layout.i64 (Value.i64 z) str
  ipv4 :
      (a str : Bytes)
      → length (to_4 a) ≡ 4
      → All (λ x. x < 256) (to_4 a)
      → IsKept o Layout.ipv4 (Value.ip a) str
  ipv6 : (a str : Bytes) → length (to_16 a) ≡ 16 → IsKept o Layout.ipv6 (Value.ip a) str
  bool : (x : Bool) (str : Bytes) → IsKept o Layout.bool (Value.bool x) str
  time : (t : Time) (str : Bytes) → IsKept o Layout.time (Value.time t) str
  addresses :
      (l : List ℕ) (str : Bytes)
      → length l < u16_mod
      → IsKept o Layout.slice (Value.addresses l) str
  binary : (s str : Bytes) → length s < u32_mod → IsKept o Layout.binary (Value.binary s) str

-- The four bytes of an address, which are read back as a number with its lowest byte first.
abbrev pub in_order : ByteOrder → Bytes → Bytes
in_order big (x ∷ y ∷ z ∷ w ∷ []) = w ∷ z ∷ y ∷ x ∷ []
in_order _ a = a

module _ (o : ByteOrder) {Time : Type 0} where
  -- What comes back: IPv4 addresses backwards on a big-endian machine, addresses as zeros, and bytes behind the last two bytes of their length, of
  -- which as many are kept as there were.
  abbrev pub back : (Bytes → Bytes) → Layout → Value Time → Bytes → Restored Time
  back to_ipv6 Layout.text (Value.text s) str = Restored.text s
  back to_ipv6 Layout.u8 (Value.u8 n) str = Restored.u8 n
  back to_ipv6 Layout.i8 (Value.i8 z) str = Restored.i8 z
  back to_ipv6 Layout.u16 (Value.u16 n) str = Restored.u16 n
  back to_ipv6 Layout.i16 (Value.i16 z) str = Restored.i16 z
  back to_ipv6 Layout.u32 (Value.u32 n) str = Restored.u32 n
  back to_ipv6 Layout.i32 (Value.i32 z) str = Restored.i32 z
  back to_ipv6 Layout.u64 (Value.u64 n) str = Restored.u64 n
  back to_ipv6 Layout.i64 (Value.i64 z) str = Restored.i64 z
  back to_ipv6 Layout.ipv4 (Value.ip a) str = Restored.ip (v4_in_v6_prefix ++ in_order o (to_4 a))
  back to_ipv6 Layout.ipv6 (Value.ip a) str = Restored.ip (to_ipv6 (to_16 a))
  back to_ipv6 Layout.bool (Value.bool x) str = Restored.bool x
  back to_ipv6 Layout.time (Value.time t) str = Restored.time t
  back to_ipv6 Layout.slice (Value.addresses l) str = Restored.u64s (zeros (length l))
  back to_ipv6 Layout.binary (Value.binary s) str =
      Restored.binary (take (length s) (drop 2 (write_uint32 o (length s)) ++ s))
  back to_ipv6 _ _ str = Restored.text str
