-- ===== src/Capture/Times.antt =====
-- Go's times in a capture, as texts in the layout RFC3339Nano.
use fibratus.Prelude.{
  ℕ, ◌+◌, ◌<◌, ◌≡◌, ◌∙◌, Bool, [], ◌∷◌, ◌++◌, Option, none, some, length, if◌then◌else◌,
}
use fibratus.Prelude.Int.{u16_mod, u32_mod}
use fibratus.Capture.Bytes.{
  Bytes, Decoded, done, failed, ◌>>=◌, ByteOrder, string_of, uint16_at, slice, sized,
}
use fibratus.Capture.Bytes.Placed.{Stands, string_of-append, sized_parts}

-- Go's times, with `AppendFormat` and `Parse`. `zero_time` is `time.Time{}`.
pub record TimeFormat : Type 1 where
  pub Time : Type 0
  pub zero_time : Time
  pub format : Time → Bytes
  pub parse : Bytes → Option Time

-- What the documentation of `time` says of the layout: the text of a time parses to that time, and is
-- short.
pub record ParsesBack (tf : TimeFormat) : Type 0 where
  pub parse-format : (t : tf.Time) → tf.parse (tf.format t) ≡ some t
  pub format_short : (t : tf.Time) → length (tf.format t) < u16_mod

module _ (tf : TimeFormat) where
  open tf use {Time, zero_time, format, parse}

  -- A text that does not parse is an error where the code looks at it, and else leaves the zero time.
  unfoldable pub parsed : Bool → Bytes → Decoded Time
  parsed strict t = elim (parse t) [
    | some time ↦ done time
    | none ↦ if strict then failed else done zero_time
  ]

  -- The time in a text of `l` bytes at `buf`, if there are any bytes.
  unfoldable pub read_time : Bool → ℕ → Bytes → Decoded Time
  unfolding parsed string_of
  read_time strict l [] = done zero_time
  read_time strict l (x ∷ buf) = do t ← string_of l (x ∷ buf); parsed strict t

  read_time-string_of :
      (strict : Bool) (l : ℕ) (buf t : Bytes)
      → string_of l buf ≡ done t
      → read_time strict l buf ≡ parsed strict t
  unfolding read_time
  read_time-string_of strict l [] t e = unfold string_of in cc
  read_time-string_of strict l (x ∷ buf) t e = rw e

  pub read_time-format :
      (parses : ParsesBack tf) (strict : Bool) (t : Time) (rest : Bytes)
      → 0 < length rest
      → read_time strict (length (format t)) (format t ++ rest) ≡ done t
  unfolding parsed
  read_time-format parses strict t rest left =
      read_time-string_of strict _ _ (format t) (string_of-append (format t) rest left)
      ∙ rw (parses.parse-format t, parsed)

  -- A text of a time behind its length, with that length.
  unfoldable pub time_at : ByteOrder → Bytes → Bool → ℕ → ℕ → Decoded (ℕ × Time)
  unfolding read_time
  time_at o b strict p q = do
    l ← uint16_at o b p
    buf ← slice b q
    time ← read_time strict l buf
    done (l, time)

  pub time_at-Stands :
      (parses : ParsesBack tf) (o : ByteOrder) {b : Bytes} (small : length b < u32_mod)
      (strict : Bool) (q r : ℕ) (t : Time) (rest : Bytes) {p : ℕ}
      → Stands b p (sized o (format t) ++ rest)
      → p ≡ q
      → q + 2 ≡ r
      → 0 < length rest
      → time_at o b strict q r ≡ done (length (format t), t)
  unfolding time_at
  time_at-Stands parses o small strict q r t rest s e f left =
      let (len, text) = sized_parts small o q r (format t) rest s e f (parses.format_short t) in
      rw (len, text, read_time-format parses strict t rest left)
