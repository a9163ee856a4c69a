-- ===== src/Capture/Events/Single.antt =====
-- A parameter's value is read back from what was written of it, and the loop moves on behind it.
use fibratus.Prelude.{
  ℕ, zero, suc, ◌+◌, ◌*◌, ◌%◌, ◌<◌, ◌≤◌, ◌≡◌, refl, ap, true, false, List, [], ◌∷◌, ◌++◌, some,
  length, take, drop, leb, arith,
}
use fibratus.Prelude.Int.{u16_mod, u32_mod}
use fibratus.Capture.Bytes.{
  Bytes, done, ByteOrder, little, big, write_uint16, write_uint32, write_uint64, read_uint16,
  read_uint32, read_uint64, slice, uint64_at, sized, string_of,
}
use fibratus.Capture.Bytes.Placed.{
  Stands, Stands-length, at, past_byte, past_uint64, slice-Stands, uint32_at-Stands, sized_parts,
  string_of-append, lengths,
}
use fibratus.Capture.Times.{TimeFormat, ParsesBack, read_time, read_time-format}
use fibratus.Capture.Processes.Loops.{regroup}
use fibratus.Capture.Events.{write_addresses}
use fibratus.Capture.Events.Restoring.{
  Restored, Case, some_text, some_time, some_binary, read_slice_numbers, read_value,
}

take-append_le : (n : ℕ) (xs ys : Bytes) → n ≤ length xs → take n (xs ++ ys) ≡ take n xs
take-append_le zero xs ys h = refl
take-append_le (suc n) [] ys h = absurd (omega arith)
take-append_le (suc n) (x ∷ xs) ys h = ap (◌∷◌ x) (take-append_le n xs ys (omega arith))

-- Two of the four bytes of a length, and what stands behind them.
behind_two :
    (o : ByteOrder) {b : Bytes} {p : ℕ} (n : ℕ) (s rest : Bytes)
    → Stands b p ((write_uint32 o n ++ s) ++ rest)
    → Stands b (2 + p) ((drop 2 (write_uint32 o n) ++ s) ++ rest)
unfolding write_uint32 write_uint16
behind_two little n s rest st = at (past_byte (past_byte st)) (omega arith)
behind_two big n s rest st = at (past_byte (past_byte st)) (omega arith)

length-drop_two : (o : ByteOrder) (n : ℕ) → length (drop 2 (write_uint32 o n)) ≡ 2
unfolding write_uint32 write_uint16
length-drop_two little n = refl
length-drop_two big n = refl

reads_uint64 : (o : ByteOrder) (c : Bytes) → 7 < length c → (n : ℕ) × (read_uint64 o c ≡ done n)
unfolding read_uint64 read_uint32 read_uint16
reads_uint64 little (x1 ∷ x2 ∷ x3 ∷ x4 ∷ x5 ∷ x6 ∷ x7 ∷ x8 ∷ c) h = (_, refl)
reads_uint64 big (x1 ∷ x2 ∷ x3 ∷ x4 ∷ x5 ∷ x6 ∷ x7 ∷ x8 ∷ c) h = (_, refl)
reads_uint64 o [] h = absurd (omega arith)
reads_uint64 o (_ ∷ []) h = absurd (omega arith)
reads_uint64 o (_ ∷ _ ∷ []) h = absurd (omega arith)
reads_uint64 o (_ ∷ _ ∷ _ ∷ []) h = absurd (omega arith)
reads_uint64 o (_ ∷ _ ∷ _ ∷ _ ∷ []) h = absurd (omega arith)
reads_uint64 o (_ ∷ _ ∷ _ ∷ _ ∷ _ ∷ []) h = absurd (omega arith)
reads_uint64 o (_ ∷ _ ∷ _ ∷ _ ∷ _ ∷ _ ∷ []) h = absurd (omega arith)
reads_uint64 o (_ ∷ _ ∷ _ ∷ _ ∷ _ ∷ _ ∷ _ ∷ []) h = absurd (omega arith)

length-drop_add : (q : ℕ) (b : Bytes) → q ≤ length b → length (drop q b) + q ≡ length b
length-drop_add zero b h = omega arith
length-drop_add (suc q) [] h = absurd (omega arith)
length-drop_add (suc q) (x ∷ b) h = omega (arith, length-drop_add q b)

slice_inside : (b : Bytes) (q : ℕ) → length b < u32_mod → q ≤ length b → slice b q ≡ done (drop q b)
unfolding slice
slice_inside b q small h =
    let inside : leb (q % u32_mod) (length b) ≡ true = ground arith in
    let same : q % u32_mod ≡ q = omega arith in rw (inside, same)

-- Eight bytes anywhere are some number.
uint64_at-some :
    (o : ByteOrder) (b : Bytes) (q : ℕ)
    → length b < u32_mod
    → 8 + q ≤ length b
    → (n : ℕ) × (uint64_at o b q ≡ done n)
unfolding uint64_at
uint64_at-some o b q small h =
    let (n, e) = reads_uint64 o (drop q b) (omega (arith, length-drop_add q b)) in
    (n, rw (slice_inside b q small (omega arith)) e)

module _ {tf : TimeFormat} (parses : ParsesBack tf) (o : ByteOrder) (to_ipv6 : Bytes → Bytes) where
  open tf use {Time, format}

  some_text-append :
      (s rest : Bytes)
      → 0 < length rest
      → some_text o tf to_ipv6 (length s) (s ++ rest) ≡ done (some (Restored.text s))
  some_text-append s rest left = of_string (s ++ rest) (string_of-append s rest left)
    where
      of_string :
          (buf : Bytes)
          → string_of (length s) buf ≡ done s
          → some_text o tf to_ipv6 (length s) buf ≡ done (some (Restored.text s))
      of_string [] e = unfold string_of in cc
      of_string (x ∷ buf) e = unfold some_text in rw e

  some_time-append :
      (t : Time) (rest : Bytes)
      → 0 < length rest
      → some_time o tf to_ipv6 (length (format t)) (format t ++ rest)
        ≡ done (some (Restored.time t))
  some_time-append t rest left =
      of_time (format t ++ rest) (omega (lengths, left))
        (read_time-format tf parses false t rest left)
    where
      of_time :
          (buf : Bytes)
          → 0 < length buf
          → read_time tf false (length (format t)) buf ≡ done t
          → some_time o tf to_ipv6 (length (format t)) buf ≡ done (some (Restored.time t))
      of_time [] h e = elim h [ ]
      of_time (x ∷ buf) h e = unfold some_time in rw e

  some_binary-append :
      (two s rest : Bytes)
      → length two ≡ 2
      → some_binary o tf to_ipv6 (length s) ((two ++ s) ++ rest)
        ≡ done (some (Restored.binary (take (length s) (two ++ s))))
  some_binary-append two s rest h =
      rw (← take-append_le (length s) (two ++ s) rest (omega lengths))
        (of_bytes ((two ++ s) ++ rest) (omega lengths) (omega lengths))
    where
      of_bytes :
          (buf : Bytes)
          → 0 < length buf
          → length s ≤ length buf
          → some_binary o tf to_ipv6 (length s) buf
            ≡ done (some (Restored.binary (take (length s) buf)))
      of_bytes [] h le = elim h [ ]
      of_bytes (x ∷ buf) h le =
          let inside : leb (length s) (length (x ∷ buf)) ≡ true = ground arith in
          unfold some_binary in rw inside

  module _ {b : Bytes} (small : length b < u32_mod) where
    pub text-Stands :
        (p : ℕ) (s rest : Bytes)
        → Stands b p (sized o s ++ rest)
        → length s < u16_mod
        → 0 < length rest
        → read_value o tf to_ipv6 Case.text b p ≡ done (some (Restored.text s), 6 + length s)
    unfolding read_value
    text-Stands p s rest st short left =
        let (len, text) = sized_parts small o p (2 + p) s rest st refl (omega arith) short in
        rw (len, text, some_text-append s rest left)

    pub time-Stands :
        (p : ℕ) (t : Time) (rest : Bytes)
        → Stands b p (sized o (format t) ++ rest)
        → 0 < length rest
        → read_value o tf to_ipv6 Case.time b p
          ≡ done (some (Restored.time t), 6 + length (format t))
    unfolding read_value
    time-Stands p t rest st left =
        let (len, text) =
          sized_parts small o p (2 + p) (format t) rest st refl (omega arith)
            (parses.format_short t) in
        rw (len, text, some_time-append t rest left)

    -- The code reads the bytes from behind the first two of the four of their length.
    pub binary-Stands :
        (p : ℕ) (s rest : Bytes)
        → Stands b p ((write_uint32 o (length s % u32_mod) ++ s) ++ rest)
        → length s < u32_mod
        → read_value o tf to_ipv6 Case.binary b p
          ≡ done (
            some (Restored.binary (take (length s) (drop 2 (write_uint32 o (length s)) ++ s))),
            8 + length s,
          )
    unfolding read_value
    binary-Stands p s rest st short =
        let same : length s % u32_mod ≡ length s = omega arith in
        let st0 : Stands b p ((write_uint32 o (length s) ++ s) ++ rest) = rw (← same) st in
        let st1 = behind_two o (length s) s rest st0 in
        rw (
          uint32_at-Stands small o p (length s) (s ++ rest)
              (regroup (write_uint32 o (length s)) s rest st0) refl short,
          slice-Stands small (2 + p) st1,
          some_binary-append (drop 2 (write_uint32 o (length s))) s rest
              (length-drop_two o (length s)),
        )

    pub numbers-Stands :
        (p off : ℕ) (l : List ℕ) (rest : Bytes)
        → Stands b (3 + p + off) (write_addresses o l ++ rest)
        → 2 < length rest
        → read_slice_numbers o tf to_ipv6 b p (length l) off ≡ done (off + 8 * length l)
    unfolding read_slice_numbers write_addresses
    numbers-Stands p off [] rest st left = ap done (omega arith)
    numbers-Stands p off (a ∷ l) rest st left =
        let st0 = regroup (write_uint64 o a) _ rest st in
        let fits = Stands-length _ st0 in
        let (n, e) = uint64_at-some o b (6 + p + off) small (omega (lengths, fits)) in
        rw (e, numbers-Stands p (off + 8) l rest (at (past_uint64 o _ _ st0) (omega arith)) left)
          (ap done (omega arith))
