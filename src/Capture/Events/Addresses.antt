-- ===== src/Capture/Events/Addresses.antt =====
-- The four bytes of an IPv4 address are read back as a number of 32 bits, and its bytes are taken from
-- the lowest on: on a big-endian machine that turns the address round.
use fibratus.Prelude.{ℕ, ◌+◌, ◌*◌, ◌%◌, ◌/◌, ◌<◌, ◌≡◌, [], ◌∷◌, ◌++◌, some, length, All, arith}
use fibratus.Prelude.Int.{u32_mod}
use fibratus.Event.Values.{v4_in_v6_prefix}
use fibratus.Capture.Bytes.{
  Bytes, done, ByteOrder, little, big, uint32_at, read_uint32, read_uint16,
}
use fibratus.Capture.Bytes.Placed.{Stands, slice-Stands}
use fibratus.Capture.Times.{TimeFormat}
use fibratus.Capture.Events.Restoring.{Restored, Case, to_ipv4, read_value}
use fibratus.Capture.Events.Values.{in_order}

ipv4-little :
    (tf : TimeFormat) (to_ipv6 : Bytes → Bytes) {b : Bytes} (small : length b < u32_mod) (p : ℕ)
    (a rest : Bytes)
    → Stands b p (a ++ rest)
    → length a ≡ 4
    → All (λ x. x < 256) a
    → read_value little tf to_ipv6 Case.ipv4 b p
      ≡ done (some (Restored.ip (v4_in_v6_prefix ++ a)), 8)
unfolding read_value uint32_at read_uint32 read_uint16 to_ipv4
ipv4-little tf to_ipv6 small p [] rest st len bytes = absurd (omega arith)
ipv4-little tf to_ipv6 small p (x ∷ []) rest st len bytes = absurd (omega arith)
ipv4-little tf to_ipv6 small p (x ∷ y ∷ []) rest st len bytes = absurd (omega arith)
ipv4-little tf to_ipv6 small p (x ∷ y ∷ z ∷ []) rest st len bytes = absurd (omega arith)
ipv4-little tf to_ipv6 small p (x ∷ y ∷ z ∷ w ∷ v ∷ a) rest st len bytes = absurd (omega arith)
ipv4-little tf to_ipv6 small p (x ∷ y ∷ z ∷ w ∷ []) rest st len (hx, (hy, (hz, (hw, _)))) =
    let n : ℕ = x + 256 * y + 65536 * (z + 256 * w) in
    let e1 : n % 256 ≡ x = omega arith in
    let e2 : n / 256 % 256 ≡ y = omega arith in
    let e3 : n / 65536 % 256 ≡ z = omega arith in
    let e4 : n / 16777216 % 256 ≡ w = omega arith in rw (slice-Stands small p st, e1, e2, e3, e4)

ipv4-big :
    (tf : TimeFormat) (to_ipv6 : Bytes → Bytes) {b : Bytes} (small : length b < u32_mod) (p : ℕ)
    (a rest : Bytes)
    → Stands b p (a ++ rest)
    → length a ≡ 4
    → All (λ x. x < 256) a
    → read_value big tf to_ipv6 Case.ipv4 b p
      ≡ done (some (Restored.ip (v4_in_v6_prefix ++ in_order big a)), 8)
unfolding read_value uint32_at read_uint32 read_uint16 to_ipv4
ipv4-big tf to_ipv6 small p [] rest st len bytes = absurd (omega arith)
ipv4-big tf to_ipv6 small p (x ∷ []) rest st len bytes = absurd (omega arith)
ipv4-big tf to_ipv6 small p (x ∷ y ∷ []) rest st len bytes = absurd (omega arith)
ipv4-big tf to_ipv6 small p (x ∷ y ∷ z ∷ []) rest st len bytes = absurd (omega arith)
ipv4-big tf to_ipv6 small p (x ∷ y ∷ z ∷ w ∷ v ∷ a) rest st len bytes = absurd (omega arith)
ipv4-big tf to_ipv6 small p (x ∷ y ∷ z ∷ w ∷ []) rest st len (hx, (hy, (hz, (hw, _)))) =
    let n : ℕ = 65536 * (256 * x + y) + (256 * z + w) in
    let e1 : n % 256 ≡ w = omega arith in
    let e2 : n / 256 % 256 ≡ z = omega arith in
    let e3 : n / 65536 % 256 ≡ y = omega arith in
    let e4 : n / 16777216 % 256 ≡ x = omega arith in rw (slice-Stands small p st, e1, e2, e3, e4)

pub ipv4-Stands :
    (o : ByteOrder) (tf : TimeFormat) (to_ipv6 : Bytes → Bytes) {b : Bytes}
    (small : length b < u32_mod) (p : ℕ) (a rest : Bytes)
    → Stands b p (a ++ rest)
    → length a ≡ 4
    → All (λ x. x < 256) a
    → read_value o tf to_ipv6 Case.ipv4 b p
      ≡ done (some (Restored.ip (v4_in_v6_prefix ++ in_order o a)), 8)
ipv4-Stands little tf to_ipv6 small p a rest st len bytes =
    ipv4-little tf to_ipv6 small p a rest st len bytes
ipv4-Stands big tf to_ipv6 small p a rest st len bytes =
    ipv4-big tf to_ipv6 small p a rest st len bytes
