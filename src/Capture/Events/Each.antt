-- ===== src/Capture/Events/Each.antt =====
-- Each parameter's value is read back from what was written of it.
use fibratus.Prelude.{
  ℕ, ◌+◌, ◌*◌, ◌%◌, ◌<◌, ◌≡◌, refl, ap, ◌∙◌, true, false, List, [], ◌∷◌, ◌++◌, some, length, arith,
}
use fibratus.Prelude.Int.{wrap, u16_mod, u32_mod, u64_mod}
use fibratus.Capture.Bytes.{Bytes, Decoded, done, ByteOrder, write_uint16}
use fibratus.Capture.Bytes.Placed.{
  Stands, at, past_byte, past_uint16, byte_at-Stands, uint16_at-Stands, uint32_at-Stands,
  uint64_at-Stands, lengths, length-write_uint16, length-write_uint32, length-write_uint64,
}
use fibratus.Capture.Times.{TimeFormat, ParsesBack}
use fibratus.Capture.Processes.{PeCodec}
use fibratus.Capture.Processes.Loops.{regroup, slice_between-Stands}
use fibratus.Capture.Events.{Value, Layout, to_4, to_16, write_addresses, write_value}
use fibratus.Capture.Events.Restoring.{read_slice, read_value}
use fibratus.Capture.Events.Addresses.{ipv4-Stands}
use fibratus.Capture.Events.Single.{text-Stands, time-Stands, binary-Stands, numbers-Stands}
use fibratus.Capture.Events.Values.{
  wrap16, wrap32, wrap64, case_of_layout, signed-wrap8, signed-wrap16, signed-wrap32, signed-wrap64,
  written, IsKept, back,
}

length-write_addresses : (o : ByteOrder) (l : List ℕ) → length (write_addresses o l) ≡ 8 * length l
unfolding write_addresses
length-write_addresses o [] = omega arith
length-write_addresses o (a ∷ l) = omega (lengths, length-write_addresses o l)

size_of_addresses :
    (o : ByteOrder) (l : List ℕ)
    → length (write_uint16 o (length l) ++ write_addresses o l) ≡ 2 + 8 * length l
size_of_addresses o l = omega (lengths, length-write_addresses o l)

same_size :
    {V : Type 0} (v : V) {m n : ℕ} → m ≡ n → ◌≡◌ {A = Decoded (V × ℕ)} (done (v, m)) (done (v, n))
same_size v e = ap (λ k. done (v, k)) e

module _ {tf : TimeFormat} (parses : ParsesBack tf) (codec : PeCodec) (o : ByteOrder)
    (to_ipv6 : Bytes → Bytes) where
  open tf use {Time, format}

  abbrev pub value_bytes : Layout → Value Time → Bytes → Bytes
  value_bytes l v str = written (write_value o tf codec l v str)

  -- What `read_value` answers at the place where a value stands.
  abbrev pub Reads : Bytes → ℕ → Layout → Value Time → Bytes → Type 0
  Reads b p l v str =
      read_value o tf to_ipv6 (case_of_layout l) b p
      ≡ done (some (back o to_ipv6 l v str), 4 + length (value_bytes l v str))

  module _ {b : Bytes} (small : length b < u32_mod) where
    pub value-Stands :
        (l : Layout) (v : Value Time) (str : Bytes) (p : ℕ) (rest : Bytes)
        → IsKept o l v str
        → Stands b p (value_bytes l v str ++ rest)
        → 2 < length rest
        → Reads b p l v str
    unfolding write_value read_value read_slice
    value-Stands _ _ str p rest (IsKept.text s _ short) st left =
        text-Stands parses o to_ipv6 small p s rest st short (omega arith)
        ∙ same_size _ (omega lengths)
    value-Stands _ v str p rest (IsKept.shown _ _ short) st left =
        text-Stands parses o to_ipv6 small p str rest st short (omega arith)
        ∙ same_size _ (omega lengths)
    value-Stands _ _ str p rest (IsKept.u8 n _) st left = rw (byte_at-Stands small p n rest st refl)
    value-Stands _ _ str p rest (IsKept.i8 z _ fits) st left =
        rw (byte_at-Stands small p _ rest st refl, signed-wrap8 z fits)
    value-Stands _ _ str p rest (IsKept.u16 n _ fits) st left =
        rw (uint16_at-Stands small o p n rest st refl fits, length-write_uint16 o n)
    value-Stands _ _ str p rest (IsKept.i16 z _ fits) st left = rw (
      uint16_at-Stands small o p _ rest st refl (wrap16 z),
      signed-wrap16 z fits,
      length-write_uint16 o (wrap u16_mod z),
    )
    value-Stands _ _ str p rest (IsKept.u32 n _ fits) st left =
        rw (uint32_at-Stands small o p n rest st refl fits, length-write_uint32 o n)
    value-Stands _ _ str p rest (IsKept.i32 z _ fits) st left = rw (
      uint32_at-Stands small o p _ rest st refl (wrap32 z),
      signed-wrap32 z fits,
      length-write_uint32 o (wrap u32_mod z),
    )
    value-Stands _ _ str p rest (IsKept.u64 n _ fits) st left =
        rw (uint64_at-Stands small o p n rest st refl fits, length-write_uint64 o n)
    value-Stands _ _ str p rest (IsKept.i64 z _ fits) st left = rw (
      uint64_at-Stands small o p _ rest st refl (wrap64 z),
      signed-wrap64 z fits,
      length-write_uint64 o (wrap u64_mod z),
    )
    value-Stands _ _ str p rest (IsKept.ipv4 a _ len bytes) st left =
        ipv4-Stands o tf to_ipv6 small p (to_4 a) rest st len bytes
        ∙ same_size _ (omega (arith, len))
    value-Stands _ _ str p rest (IsKept.ipv6 a _ len) st left =
        rw
          (slice_between-Stands o small p (p + 16) (to_16 a) rest st refl (omega (arith, len)), len)
    value-Stands _ _ str p rest (IsKept.bool true _) st left =
        rw (byte_at-Stands small p 1 rest st refl)
    value-Stands _ _ str p rest (IsKept.bool false _) st left =
        rw (byte_at-Stands small p 0 rest st refl)
    value-Stands _ _ str p rest (IsKept.time t _) st left =
        time-Stands parses o to_ipv6 small p t rest st (omega arith) ∙ same_size _ (omega lengths)
    value-Stands _ _ str p rest (IsKept.addresses l _ short) st left =
        let st0 = past_byte st in
        let st1 = regroup (write_uint16 o (length l % u16_mod)) _ rest st0 in
        let same : length l % u16_mod ≡ length l = omega arith in
        let st2 : Stands b (3 + p + 0) (write_addresses o l ++ rest) =
          at (past_uint16 o _ _ st1) (omega arith) in
        rw
          (
            byte_at-Stands small p _ _ st refl,
            uint16_at-Stands small o (1 + p) _ _ st1 (omega arith) (omega arith),
            same,
            numbers-Stands parses o to_ipv6 small p 0 l rest st2 left,
          )
          (same_size _ (omega (arith, size_of_addresses o l)))
    value-Stands _ _ str p rest (IsKept.binary s _ short) st left =
        binary-Stands parses o to_ipv6 small p s rest st short ∙ same_size _ (omega lengths)
