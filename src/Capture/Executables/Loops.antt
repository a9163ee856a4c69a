-- ===== src/Capture/Executables/Loops.antt =====
-- The loops of `Unmarshal` read back the lists that were written.
use mathlib.Core.List.{append_assoc, append-nil}
use fibratus.Prelude.{
  ℕ, ◌+◌, ◌<◌, ◌≡◌, refl, ap, false, List, [], ◌∷◌, ◌++◌, length, All, arith, ◌==◌,
}
use fibratus.Prelude.Int.{u16_mod, u32_mod, u64_mod}
use fibratus.Capture.Bytes.{Bytes, done, ByteOrder, write_uint32, write_uint64, sized}
use fibratus.Capture.Bytes.Placed.{
  Stands, at, past_uint32, past_uint64, past_sized, uint32_at-Stands, uint64_at-Stands,
  sized_at-Stands, sized_at-some, sized_parts, length-append_bytes, string_of-append, lengths,
}
use fibratus.Capture.Processes.{write_args, write_envs}
use fibratus.Capture.Processes.Loops.{regroup}
use fibratus.Capture.Maps.{NewKey, IsMap, AllNew, AllNew-put, AllNew-nil, set_key-new}
use fibratus.Capture.Executables.{Sec, write_sections}
use fibratus.Capture.Executables.Reading.{
  narrow, wide, add_resource, read_texts, read_sections, read_resources,
}

-- The length of a text and the two bytes before it fit a `uint16`.
abbrev pub IsShort : Bytes → Type 0
IsShort t = length t < 65534

pub record IsSec (sec : Sec) : Type 0 where
  pub size_fits : sec.size < u32_mod
  pub entropy_fits : sec.entropy < u64_mod
  pub name_short : length sec.name < u16_mod
  pub md5_short : length sec.md5 < u16_mod

-- Keys and values that are not empty.
abbrev pub IsResource : Bytes × Bytes → Type 0
IsResource (k, v) = (0 < length k) × (length k < u16_mod) × (0 < length v) × (length v < u16_mod)

pub narrow_lem : (l : ℕ) → l < 65534 → narrow l ≡ l + 2
unfolding narrow
narrow_lem l h = omega arith

pub wide_lem : (l : ℕ) → l < 65534 → wide l ≡ l + 2
unfolding wide
wide_lem l h = refl

add_resource-new :
    (k v : Bytes) (m : List (Bytes × Bytes))
    → 0 < length k
    → NewKey k m
    → add_resource k v m ≡ m ++ (k, v) ∷ []
unfolding add_resource
add_resource-new [] v m h new = elim h [ ]
add_resource-new (c ∷ k) v m h new = set_key-new (c ∷ k) v m new

-- The last text is not empty, or something stands behind it.
abbrev pub Ended : List Bytes → Bytes → Type 0
Ended [] rest = Unit
Ended (t ∷ []) rest = 0 < length (t ++ rest)
Ended (t ∷ u ∷ texts) rest = Ended (u ∷ texts) rest

Ended-tail :
    (t : Bytes) (texts : List Bytes) (rest : Bytes) → Ended (t ∷ texts) rest → Ended texts rest
Ended-tail t [] rest h = tt
Ended-tail t (u ∷ texts) rest h = h

pub Ended-rest : (texts : List Bytes) (rest : Bytes) → 0 < length rest → Ended texts rest
Ended-rest [] rest h = tt
Ended-rest (t ∷ []) rest h = omega (arith, length-append_bytes t rest)
Ended-rest (t ∷ u ∷ texts) rest h = Ended-rest (u ∷ texts) rest h

-- What the reader of a text looks at is there.
Ended-here :
    (o : ByteOrder) (t : Bytes) (texts : List Bytes) (rest : Bytes)
    → Ended (t ∷ texts) rest
    → 0 < length (t ++ (write_args o texts ++ rest))
unfolding write_args
Ended-here o t [] rest h = h
Ended-here o t (u ∷ texts) rest h = omega lengths

module _ (o : ByteOrder) {b : Bytes} (small : length b < u32_mod) where
  pub read_texts-Ended :
      (advance : ℕ → ℕ)
      → ((l : ℕ) → l < 65534 → advance l ≡ l + 2)
      → (p q : ℕ) (texts : List Bytes) (rest : Bytes) (e : ℕ)
      → Stands b (p + q) (write_args o texts ++ rest)
      → All IsShort texts
      → q + length (write_args o texts) ≡ e
      → Ended texts rest
      → read_texts o advance b p (length texts) q ≡ done (texts, e)
  unfolding read_texts write_args
  read_texts-Ended advance moves p q [] rest e s short len left =
      ap (λ n. done ([], n)) (omega arith)
  read_texts-Ended advance moves p q (t ∷ texts) rest e s short len left =
      let s0 = regroup (sized o t) (write_args o texts) rest s in
      let s1 = past_sized o _ _ s0 in
      let n = length t in
      rw (
        sized_at-some small o (p + q) (2 + p + q) t _ s0 refl (omega arith) (omega arith)
            (Ended-here o t texts rest left),
        moves n short.0,
        read_texts-Ended advance moves p (q + (n + 2)) texts rest e (at s1 (omega arith)) short.1
            (omega lengths) (Ended-tail t texts rest left),
      )

  pub read_texts-write :
      (advance : ℕ → ℕ)
      → ((l : ℕ) → l < 65534 → advance l ≡ l + 2)
      → (p q : ℕ) (texts : List Bytes) (rest : Bytes) (e : ℕ)
      → Stands b (p + q) (write_args o texts ++ rest)
      → All IsShort texts
      → q + length (write_args o texts) ≡ e
      → 0 < length rest
      → read_texts o advance b p (length texts) q ≡ done (texts, e)
  read_texts-write advance moves p q texts rest e s short len left =
      read_texts-Ended advance moves p q texts rest e s short len (Ended-rest texts rest left)

  pub read_sections-write :
      (p q : ℕ) (secs : List Sec) (rest : Bytes) (e : ℕ)
      → Stands b (p + q) (write_sections o secs ++ rest)
      → All IsSec secs
      → q + length (write_sections o secs) ≡ e
      → 0 < length rest
      → read_sections o b p (length secs) q ≡ done (secs, e)
  unfolding read_sections write_sections
  read_sections-write p q [] rest e s fine len left = ap (λ n. done ([], n)) (omega arith)
  read_sections-write p q (sec ∷ secs) rest e s fine len left =
      let s0 = regroup (write_uint32 o sec.size) _ rest s in
      let s1 = regroup (write_uint64 o sec.entropy) _ rest (past_uint32 o _ _ s0) in
      let s2 = regroup (sized o sec.name) _ rest (past_uint64 o _ _ s1) in
      let s3 = regroup (sized o sec.md5) _ rest (past_sized o _ _ s2) in
      let s4 = past_sized o _ _ s3 in
      let l1 = length sec.name in
      let l2 = length sec.md5 in
      rw (
        uint32_at-Stands small o (p + q) _ _ s0 refl fine.0.size_fits,
        uint64_at-Stands small o (4 + p + q) _ _ s1 (omega arith) fine.0.entropy_fits,
        sized_at-Stands small o (12 + p + q) (14 + p + q) sec.name _ s2 (omega arith) (omega arith)
            fine.0.name_short (omega lengths),
        sized_at-Stands small o (14 + p + (q + l1)) (16 + p + (q + l1)) sec.md5 _ s3 (omega arith)
            (omega arith) fine.0.md5_short (omega lengths),
        read_sections-write p (q + l1 + l2 + 16) secs rest e (at s4 (omega arith)) fine.1
            (omega lengths) left,
      )

  read_resources-write :
      (p q : ℕ) (m res : List (Bytes × Bytes)) (rest : Bytes) (e : ℕ)
      → Stands b (p + q) (write_envs o res ++ rest)
      → All IsResource res
      → q + length (write_envs o res) ≡ e
      → 0 < length rest
      → IsMap res
      → AllNew m res
      → read_resources o b p (length res) q m ≡ done (m ++ res, e)
  unfolding read_resources write_envs AllNew
  read_resources-write p q m [] rest e s fine len left keys new =
      rw (append-nil m) (ap (λ n. done (m, n)) (omega arith))
  read_resources-write p q m ((k, v) ∷ res) rest e s fine len left keys new =
      let s0 = regroup (sized o k) (sized o v ++ write_envs o res) rest s in
      let s1 = regroup (sized o v) (write_envs o res) rest (past_sized o _ _ s0) in
      let s2 = past_sized o _ _ s1 in
      let kn = length k in
      let vn = length v in
      let (kpos, kshort, vpos, vshort) = fine.0 in
      let (vlen, vtext) =
        sized_parts small o (2 + p + kn + q) (4 + p + kn + q) v _ s1 (omega arith) (omega arith)
          vshort in
      let some_value : (vn == 0) ≡ false = ground arith in
      rw (
        sized_at-Stands small o (p + q) (2 + p + q) k _ s0 refl (omega arith) kshort
            (omega lengths),
        vlen,
        vtext,
        some_value,
        string_of-append v (write_envs o res ++ rest) (omega lengths),
        add_resource-new k v m kpos new.0,
        read_resources-write p (q + (kn + vn + 4)) (m ++ (k, v) ∷ []) res rest e
            (at s2 (omega arith)) fine.1 (omega lengths) left keys.1
            (AllNew-put k v m res new.1 keys.0),
        append_assoc m ((k, v) ∷ []) res,
      )

  pub read_resources_whole :
      (p : ℕ) (res : List (Bytes × Bytes)) (rest : Bytes)
      → Stands b p (write_envs o res ++ rest)
      → All IsResource res
      → 0 < length rest
      → IsMap res
      → read_resources o b p (length res) 0 [] ≡ done (res, length (write_envs o res))
  read_resources_whole p res rest s fine left keys =
      read_resources-write p 0 [] res rest _ (at s (omega arith)) fine (omega arith) left keys
        (AllNew-nil Bytes res)
