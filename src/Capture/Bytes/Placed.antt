-- ===== src/Capture/Bytes/Placed.antt =====
-- What reading at a position gives when it is known which bytes stand there.
use fibratus.Prelude.{
  ℕ, zero, suc, ◌+◌, ◌*◌, ◌/◌, ◌%◌, ◌<◌, ◌≡◌, refl, ap, ◌∙◌, sym, subst, Bool, true, false, List,
  [], ◌∷◌, ◌++◌, length, drop, leb, if◌then◌else◌, length-append, arith,
}
use fibratus.Prelude.Int.{u16_mod, u32_mod, u64_mod}
use mathlib.Core.List.{append_assoc, append-nil}
use fibratus.Capture.Bytes.{
  Bytes, Decoded, done, ◌>>=◌, ByteOrder, little, big, write_uint16, write_uint32, write_uint64,
  read_uint16, read_uint32, read_uint64, btoi, itob, slice, prefix, string_of, string_if_any,
  byte_at, uint16_at, uint32_at, uint64_at, sized, sized_at, sized_if_any_at,
}

-- From position `p` on, `b` is `rest`.
abbrev pub Stands : Bytes → ℕ → Bytes → Type 0
Stands b p rest = (front : Bytes) × (b ≡ front ++ rest) × (length front ≡ p)

pub Stands-length :
    {b : Bytes} {p : ℕ} (rest : Bytes) → Stands b p rest → length b ≡ p + length rest
Stands-length rest (front, e, l) =
    ap length e ∙ length-append front rest ∙ ap (λ (n : ℕ). n + length rest) l

pub begins : (b : Bytes) → Stands b 0 b
begins b = ([], refl, refl)

pub moves :
    {b : Bytes} {p : ℕ} (xs : Bytes) {rest : Bytes} {q : ℕ}
    → Stands b p (xs ++ rest)
    → p + length xs ≡ q
    → Stands b q rest
moves xs {rest} (front, e, l) h = (
  front ++ xs,
  e ∙ sym (append_assoc front xs rest),
  length-append front xs ∙ ap (λ (n : ℕ). n + length xs) l ∙ h,
)

pub >>=-done {ℓ κ} :
    {A : Type ℓ} {B : Type κ} {m : Decoded A} {a : A} {r : Decoded B} (f : A → Decoded B)
    → m ≡ done a
    → f a ≡ r
    → (m >>= f) ≡ r
>>=-done f e h = rw e h

drop-append : (xs ys : Bytes) → drop (length xs) (xs ++ ys) ≡ ys
drop-append [] ys = refl
drop-append (x ∷ xs) ys = drop-append xs ys

prefix-append : (s rest : Bytes) → prefix (length s) (s ++ rest) ≡ done s
unfolding prefix
prefix-append [] rest = refl
prefix-append (x ∷ s) rest = rw (prefix-append s rest)

string_if_any-append : (t rest : Bytes) → string_if_any (length t) (t ++ rest) ≡ done t
unfolding string_if_any prefix
string_if_any-append [] [] = refl
string_if_any-append [] (x ∷ rest) = refl
string_if_any-append (x ∷ t) rest = rw (prefix-append t rest)

pub string_of-append :
    (t rest : Bytes) → 0 < length rest → string_of (length t) (t ++ rest) ≡ done t
unfolding string_of prefix
string_of-append [] [] h = elim h [ ]
string_of-append [] (x ∷ rest) h = refl
string_of-append (x ∷ t) rest h = rw (prefix-append t rest)

-- Either the text or what stands behind it has a byte.
string_of-some :
    (t rest : Bytes) → 0 < length (t ++ rest) → string_of (length t) (t ++ rest) ≡ done t
unfolding string_of prefix
string_of-some [] [] h = elim h [ ]
string_of-some [] (x ∷ rest) h = refl
string_of-some (x ∷ t) rest h = rw (prefix-append t rest)

read_uint16-write :
    (o : ByteOrder) (v : ℕ) (rest : Bytes)
    → v < u16_mod
    → read_uint16 o (write_uint16 o v ++ rest) ≡ done v
unfolding read_uint16 write_uint16
read_uint16-write little v rest h = ap done (omega arith)
read_uint16-write big v rest h = ap done (omega arith)

pub read_uint32-write :
    (o : ByteOrder) (v : ℕ) (rest : Bytes)
    → v < u32_mod
    → read_uint32 o (write_uint32 o v ++ rest) ≡ done v
unfolding read_uint32 write_uint32
read_uint32-write little v rest h = ap done (omega arith)
read_uint32-write big v rest h = ap done (omega arith)

read_uint64-write :
    (o : ByteOrder) (v : ℕ) (rest : Bytes)
    → v < u64_mod
    → read_uint64 o (write_uint64 o v ++ rest) ≡ done v
unfolding read_uint64 write_uint64
read_uint64-write little v rest h = ap done (omega arith)
read_uint64-write big v rest h = ap done (omega arith)

pub length-write_uint16 : (o : ByteOrder) (v : ℕ) → length (write_uint16 o v) ≡ 2
unfolding write_uint16
length-write_uint16 little v = refl
length-write_uint16 big v = refl

pub length-write_uint32 : (o : ByteOrder) (v : ℕ) → length (write_uint32 o v) ≡ 4
unfolding write_uint32
length-write_uint32 little v = refl
length-write_uint32 big v = refl

pub length-write_uint64 : (o : ByteOrder) (v : ℕ) → length (write_uint64 o v) ≡ 8
unfolding write_uint64
length-write_uint64 little v = refl
length-write_uint64 big v = refl

-- The position behind what was read.
module _ (o : ByteOrder) {b : Bytes} {p : ℕ} where
  pub past_uint16 :
      (v : ℕ) (rest : Bytes) → Stands b p (write_uint16 o v ++ rest) → Stands b (2 + p) rest
  past_uint16 v rest s = moves (write_uint16 o v) s (omega (arith, length-write_uint16 o v))

  pub past_uint32 :
      (v : ℕ) (rest : Bytes) → Stands b p (write_uint32 o v ++ rest) → Stands b (4 + p) rest
  past_uint32 v rest s = moves (write_uint32 o v) s (omega (arith, length-write_uint32 o v))

  pub past_uint64 :
      (v : ℕ) (rest : Bytes) → Stands b p (write_uint64 o v ++ rest) → Stands b (8 + p) rest
  past_uint64 v rest s = moves (write_uint64 o v) s (omega (arith, length-write_uint64 o v))

  pub past_sized :
      (t rest : Bytes) → Stands b p (sized o t ++ rest) → Stands b (2 + p + length t) rest
  unfolding sized
  past_sized t rest s =
      let l = length-write_uint16 o (length t % u16_mod) in
      moves (sized o t) s (omega (arith, length-append (write_uint16 o (length t % u16_mod)) t, l))

module _ {b : Bytes} {p : ℕ} where
  pub past_byte : {v : ℕ} {rest : Bytes} → Stands b p (v ∷ rest) → Stands b (suc p) rest
  past_byte {v} s = moves (v ∷ []) s (omega arith)

  pub at_end : {rest : Bytes} → Stands b p rest → Stands b p (rest ++ [])
  at_end {rest} s = subst (λ c. Stands b p c) (sym (append-nil rest)) s

  pub at : {rest : Bytes} {q : ℕ} → Stands b p rest → p ≡ q → Stands b q rest
  at {rest} s e = subst (λ n. Stands b n rest) e s

-- Reading at a position that `length b < 2 ^ 32` keeps as it is.
module _ {b : Bytes} (small : length b < u32_mod) where
  pub slice-Stands : (p : ℕ) {rest : Bytes} → Stands b p rest → slice b p ≡ done rest
  unfolding slice
  slice-Stands p {rest} (front, e, l) =
      let fits : length b ≡ p + length rest =
        ap length e ∙ length-append front rest ∙ ap (λ (n : ℕ). n + length rest) l in
      let inside : leb (p % u32_mod) (length b) ≡ true = ground (arith, fits) in
      let same : p % u32_mod ≡ p = omega (arith, fits) in
      rw (inside, same)
        (ap done (
          subst (λ c. drop p c ≡ rest) (sym e)
            (subst (λ n. drop n (front ++ rest) ≡ rest) l (drop-append front rest))))

  pub byte_at-Stands :
      (q v : ℕ) (rest : Bytes) {p : ℕ} → Stands b p (v ∷ rest) → p ≡ q → byte_at b q ≡ done v
  unfolding byte_at
  byte_at-Stands q v rest s e = rw (slice-Stands q (at s e))

  module _ (o : ByteOrder) where
    pub uint16_at-Stands :
        (q v : ℕ) (rest : Bytes) {p : ℕ}
        → Stands b p (write_uint16 o v ++ rest)
        → p ≡ q
        → v < u16_mod
        → uint16_at o b q ≡ done v
    unfolding uint16_at
    uint16_at-Stands q v rest s e h = rw (slice-Stands q (at s e)) (read_uint16-write o v rest h)

    pub uint32_at-Stands :
        (q v : ℕ) (rest : Bytes) {p : ℕ}
        → Stands b p (write_uint32 o v ++ rest)
        → p ≡ q
        → v < u32_mod
        → uint32_at o b q ≡ done v
    unfolding uint32_at
    uint32_at-Stands q v rest s e h = rw (slice-Stands q (at s e)) (read_uint32-write o v rest h)

    pub uint64_at-Stands :
        (q v : ℕ) (rest : Bytes) {p : ℕ}
        → Stands b p (write_uint64 o v ++ rest)
        → p ≡ q
        → v < u64_mod
        → uint64_at o b q ≡ done v
    unfolding uint64_at
    uint64_at-Stands q v rest s e h = rw (slice-Stands q (at s e)) (read_uint64-write o v rest h)

    pub sized_parts :
        (q r : ℕ) (t rest : Bytes) {p : ℕ}
        → Stands b p (sized o t ++ rest)
        → p ≡ q
        → q + 2 ≡ r
        → length t < u16_mod
        → (uint16_at o b q ≡ done (length t)) × (slice b r ≡ done (t ++ rest))
    unfolding sized
    sized_parts q r t rest (front, e, l) pq qr h =
        let short : length t % u16_mod ≡ length t = omega arith in
        let here : Stands b q (write_uint16 o (length t) ++ (t ++ rest)) =
          (front, e ∙ rw short (ap (◌++◌ front) (append_assoc _ t rest)), l ∙ pq) in
        let behind : Stands b r (t ++ rest) = at (past_uint16 o _ _ here) (omega arith) in
        (uint16_at-Stands q _ _ here refl h, slice-Stands r behind)

    pub sized_if_any_at-Stands :
        (q r : ℕ) (t rest : Bytes) {p : ℕ}
        → Stands b p (sized o t ++ rest)
        → p ≡ q
        → q + 2 ≡ r
        → length t < u16_mod
        → sized_if_any_at o b q r ≡ done (length t, t)
    unfolding sized_if_any_at
    sized_if_any_at-Stands q r t rest s pq qr h =
        let (read, rest_of) = sized_parts q r t rest s pq qr h in
        rw (read, rest_of, string_if_any-append t rest)

    -- `string_of` reads the first byte also where the string is empty.
    pub sized_at-Stands :
        (q r : ℕ) (t rest : Bytes) {p : ℕ}
        → Stands b p (sized o t ++ rest)
        → p ≡ q
        → q + 2 ≡ r
        → length t < u16_mod
        → 0 < length rest
        → sized_at o b q r ≡ done (length t, t)
    unfolding sized_at
    sized_at-Stands q r t rest s pq qr h some_left =
        let (read, rest_of) = sized_parts q r t rest s pq qr h in
        rw (read, rest_of, string_of-append t rest some_left)

    pub sized_at-some :
        (q r : ℕ) (t rest : Bytes) {p : ℕ}
        → Stands b p (sized o t ++ rest)
        → p ≡ q
        → q + 2 ≡ r
        → length t < u16_mod
        → 0 < length (t ++ rest)
        → sized_at o b q r ≡ done (length t, t)
    unfolding sized_at
    sized_at-some q r t rest s pq qr h some_left =
        let (read, rest_of) = sized_parts q r t rest s pq qr h in
        rw (read, rest_of, string_of-some t rest some_left)

pub itob-btoi : (x : Bool) → itob (btoi x) ≡ x
unfolding itob btoi
itob-btoi true = refl
itob-btoi false = refl

pub length-sized : (o : ByteOrder) (t : Bytes) → length (sized o t) ≡ 2 + length t
unfolding sized
length-sized o t = length-append _ t ∙ ap (λ (n : ℕ). n + length t) (length-write_uint16 o _)

-- For `omega`, on what was written.
pub length-append_bytes : (xs ys : Bytes) → length (xs ++ ys) ≡ length xs + length ys
length-append_bytes = length-append

pub ruleset lengths = (
  arith, length-append_bytes, length-write_uint16, length-write_uint32, length-write_uint64,
  length-sized,
)
