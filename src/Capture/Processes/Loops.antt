-- ===== src/Capture/Processes/Loops.antt =====
-- The loops of `Unmarshal` read back the lists that were written.
use mathlib.Core.List.{append_assoc, append-nil}
use fibratus.Prelude.{
  ℕ, ◌+◌, ◌-◌, ◌%◌, ◌<◌, ◌≡◌, refl, ap, ◌∙◌, subst, true, ◌&&◌, List, [], ◌∷◌, ◌++◌, length, take,
  leb, map, All, arith, length-append,
}
use fibratus.Prelude.Int.{u16_mod, u32_mod}
use fibratus.Capture.Maps.{IsMap, AllNew, AllNew-put, AllNew-nil, set_key-new}
use fibratus.Capture.Bytes.{Bytes, done, ByteOrder, write_uint16, sized}
use fibratus.Capture.Bytes.Placed.{
  Stands, at, moves, past_uint16, past_sized, slice-Stands, uint16_at-Stands, sized_at-Stands,
  lengths,
}
use fibratus.Capture.Handles.{Handle}
use fibratus.Capture.Handles
use fibratus.Capture.Handles.RoundTrip.{
  IsHandle, restored, offset-eq-length, handle_unmarshal-marshal,
}
use fibratus.Capture.Processes.{write_args, write_envs, write_handles}
use fibratus.Capture.Processes.Reading.{slice_between, read_args, read_envs, read_handles}

-- The right side of an append, where the left is made of two parts.
pub regroup :
    {b : Bytes} {p : ℕ} (xs ys zs : Bytes)
    → Stands b p ((xs ++ ys) ++ zs)
    → Stands b p (xs ++ (ys ++ zs))
regroup {b} {p} xs ys zs s = subst (λ c. Stands b p c) (append_assoc xs ys zs) s

take-append : (xs rest : Bytes) → take (length xs) (xs ++ rest) ≡ xs
take-append [] rest = refl
take-append (x ∷ xs) rest = ap (◌∷◌ x) (take-append xs rest)

-- A handle as it comes back.
abbrev pub kept : Handle → Handle
kept h = record h { md = restored h.md }

offset_short : (h : Handle) → Handles.offset h < u16_mod
unfolding Handles.offset
offset_short h = omega arith

module _ (o : ByteOrder) {b : Bytes} (small : length b < u32_mod) where
  pub read_args-write :
      (p q : ℕ) (args : List Bytes) (rest : Bytes) (e : ℕ)
      → Stands b (p + q) (write_args o args ++ rest)
      → q + length (write_args o args) ≡ e
      → e < u16_mod
      → 0 < length rest
      → read_args o b p (length args) q ≡ done (args, e)
  unfolding read_args write_args
  read_args-write p q [] rest e s len short left = ap (λ n. done ([], n)) (omega arith)
  read_args-write p q (arg ∷ args) rest e s len short left =
      let s0 = regroup (sized o arg) (write_args o args) rest s in
      let s1 = past_sized o _ _ s0 in
      let n = length arg in
      let next : (q + 2 + n) % u16_mod ≡ q + 2 + n = omega lengths in
      rw (
        sized_at-Stands small o (p + q) (2 + p + q) arg _ s0 refl (omega arith) (omega lengths)
            (omega lengths),
        next,
        read_args-write p (q + 2 + n) args rest e (at s1 (omega arith)) (omega lengths) short left,
      )

  read_envs-write :
      (p q : ℕ) (m envs : List (Bytes × Bytes)) (rest : Bytes) (e : ℕ)
      → Stands b (p + q) (write_envs o envs ++ rest)
      → q + length (write_envs o envs) ≡ e
      → e < u16_mod
      → 0 < length rest
      → IsMap envs
      → AllNew m envs
      → read_envs o b p (length envs) q m ≡ done (m ++ envs, e)
  unfolding read_envs write_envs AllNew
  read_envs-write p q m [] rest e s len short left keys new =
      rw (append-nil m) (ap (λ n. done (m, n)) (omega arith))
  read_envs-write p q m ((k, v) ∷ envs) rest e s len short left keys new =
      let s0 = regroup (sized o k) (sized o v ++ write_envs o envs) rest s in
      let s1 = regroup (sized o v) (write_envs o envs) rest (past_sized o _ _ s0) in
      let s2 = past_sized o _ _ s1 in
      let kn = length k in
      let vn = length v in
      let next : (q + kn + vn + 2 + 2) % u16_mod ≡ q + kn + vn + 2 + 2 = omega lengths in
      rw (
        sized_at-Stands small o (p + q) (2 + p + q) k _ s0 refl (omega arith) (omega lengths)
            (omega lengths),
        sized_at-Stands small o (2 + p + q + kn) (4 + p + q + kn) v _ s1 (omega arith) (omega arith)
            (omega lengths) (omega lengths),
        next,
        set_key-new k v m new.0,
        read_envs-write p (q + kn + vn + 2 + 2) (m ++ (k, v) ∷ []) envs rest e (at s2 (omega arith))
            (omega lengths) short left keys.1 (AllNew-put k v m envs new.1 keys.0),
        append_assoc m ((k, v) ∷ []) envs,
      )

  pub read_envs_whole :
      (p : ℕ) (envs : List (Bytes × Bytes)) (rest : Bytes)
      → Stands b p (write_envs o envs ++ rest)
      → length (write_envs o envs) < u16_mod
      → 0 < length rest
      → IsMap envs
      → read_envs o b p (length envs) 0 [] ≡ done (envs, length (write_envs o envs))
  read_envs_whole p envs rest s short left keys =
      read_envs-write p 0 [] envs rest _ (at s (omega arith)) (omega arith) short left keys
        (AllNew-nil Bytes envs)

  pub slice_between-Stands :
      (q r : ℕ) (xs rest : Bytes) {p : ℕ}
      → Stands b p (xs ++ rest)
      → p ≡ q
      → q + length xs ≡ r
      → slice_between b q r ≡ done xs
  unfolding slice_between
  slice_between-Stands q r xs rest s e f =
      let (front, eq, l) = at s e in
      let fits : length b ≡ q + (length xs + length rest) =
        ap length eq ∙ length-append front (xs ++ rest) ∙ rw (l, length-append xs rest) in
      let inside : (leb (q % u32_mod) (r % u32_mod) && leb (r % u32_mod) (length b)) ≡ true =
        ground (arith, fits) in
      let n : r % u32_mod - q % u32_mod ≡ length xs = omega (arith, fits) in
      rw (slice-Stands small q (at s e), inside, n, take-append xs rest)

  pub read_handles-write :
      (p q : ℕ) (hs : List Handle) (rest : Bytes) (e : ℕ)
      → Stands b (p + q) (write_handles o hs ++ rest)
      → All IsHandle hs
      → q + length (write_handles o hs) ≡ e
      → read_handles o b p (length hs) q ≡ done (map kept hs, e)
  unfolding read_handles write_handles
  read_handles-write p q [] rest e s fine len = ap (λ n. done ([], n)) (omega arith)
  read_handles-write p q (h ∷ hs) rest e s fine len =
      let n = length (Handles.marshal o h) in
      let size : Handles.offset h ≡ n = offset-eq-length o h fine.0 in
      let short : n < u16_mod = rw (← size) (offset_short h) in
      let s0 : Stands b (p + q)
          (write_uint16 o n ++ (Handles.marshal o h ++ (write_handles o hs ++ rest))) =
        subst (λ c. Stands b (p + q) c)
          (rw size (
            ap (◌++◌ (write_uint16 o n))
              (append_assoc (Handles.marshal o h) (write_handles o hs) rest)))
          (regroup (write_uint16 o (Handles.offset h)) _ rest s) in
      let s1 = past_uint16 o _ _ s0 in
      let s2 = moves (Handles.marshal o h) s1 refl in
      rw (
        uint16_at-Stands small o (p + q) n _ s0 refl short,
        slice_between-Stands (2 + p + q) (2 + p + q + n) (Handles.marshal o h) _ s1 (omega arith)
            refl,
        handle_unmarshal-marshal o h fine.0,
        read_handles-write p (q + n + 2) hs rest e (at s2 (omega arith)) fine.1
            (omega (lengths, size)),
      )
