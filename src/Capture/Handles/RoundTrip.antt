-- ===== src/Capture/Handles/RoundTrip.antt =====
-- A handle that was written is read back, and `Offset` is the number of its bytes.
use fibratus.Prelude.{
  ℕ, ◌+◌, ◌%◌, ◌<◌, ◌≡◌, refl, subst, false, [], ◌∷◌, ◌++◌, Option, none, some, length, ltb, arith,
}
use fibratus.Prelude.Int.{ℤ, pos, negsuc, wrap, u16_mod, u32_mod, u64_mod}
use fibratus.Capture.Bytes.{signed, Bytes, done, ByteOrder, write_uint32, write_uint64, sized}
use fibratus.Capture.Bytes.Placed.{
  Stands, begins, at, past_uint32, past_uint64, past_byte, past_sized, byte_at-Stands,
  uint32_at-Stands, uint64_at-Stands, sized_if_any_at-Stands, itob-btoi, lengths, at_end,
}
use fibratus.Capture.Handles.{
  Meta, Handle, meta_size, offset, marshal_meta, marshal, unmarshal_meta, unmarshal,
}

abbrev pub IsInt32 : ℤ → Type 0
IsInt32 (pos n) = n < 2147483648
IsInt32 (negsuc n) = n < 2147483648

-- The numbers fit their Go types.
abbrev pub IsMeta : Option Meta → Type 0
IsMeta (some (Meta.alpc_port flags seqno context)) =
    (flags < u32_mod) × (seqno < u32_mod) × (context < u64_mod)
IsMeta (some (Meta.mutant count is_abandoned)) = IsInt32 count
IsMeta _ = Unit

pub record IsHandle (h : Handle) : Type 0 where
  pub num_fits : h.num < u64_mod
  pub object_fits : h.object < u64_mod
  pub pid_fits : h.pid < u32_mod
  pub md_fits : IsMeta h.md
  -- All positions are below 2 ^ 16.
  pub short : length h.type + length h.name + 41 < u16_mod

-- Metadata of another type is not kept.
abbrev pub restored : Option Meta → Option Meta
restored (some Meta.other) = none
restored md = md

signed-wrap : (z : ℤ) → IsInt32 z → signed 2147483648 (wrap u32_mod z) ≡ z
unfolding signed
signed-wrap (pos n) h = ground arith
signed-wrap (negsuc n) h = ground arith

wrap-lt : (z : ℤ) → wrap u32_mod z < u32_mod
wrap-lt (pos n) = omega arith
wrap-lt (negsuc n) = omega arith

module _ (o : ByteOrder) where
  length-marshal_meta : (md : Option Meta) → length (marshal_meta o md) ≡ 1 + meta_size md
  unfolding marshal_meta meta_size
  length-marshal_meta none = refl
  length-marshal_meta (some (Meta.alpc_port flags seqno context)) = omega lengths
  length-marshal_meta (some (Meta.mutant count is_abandoned)) = omega lengths
  length-marshal_meta (some (Meta.file is_directory)) = refl
  length-marshal_meta (some Meta.other) = refl

  length-marshal :
      (h : Handle) → length (marshal o h) ≡ 25 + length h.type + length h.name + meta_size h.md
  unfolding marshal
  length-marshal h = omega (lengths, length-marshal_meta h.md)

  meta_size-le : (md : Option Meta) → meta_size md < 17
  unfolding meta_size
  meta_size-le none = omega arith
  meta_size-le (some (Meta.alpc_port flags seqno context)) = omega arith
  meta_size-le (some _) = omega arith

  -- For a handle whose numbers fit their types, and whose type and name are together shorter
  -- than 65495 bytes, `Offset`, which counts in a `uint16` and is what a process writes before
  -- the handle, is the number of bytes that `Marshal` writes.
  pub offset-eq-length : (h : Handle) → IsHandle h → offset h ≡ length (marshal o h)
  unfolding offset
  offset-eq-length h w = omega (arith, length-marshal h, meta_size-le h.md, w.short)

  module _ {b : Bytes} (small : length b < u32_mod) where
    unmarshal_meta-Stands :
        (p : ℕ) (md : Option Meta)
        → Stands b (24 + p) (marshal_meta o md)
        → IsMeta md
        → p + 41 < u16_mod
        → (kind : ℕ) × (rest : Bytes) × (marshal_meta o md ≡ kind ∷ rest)
          × (unmarshal_meta o b p kind ≡ done (restored md))
    unfolding marshal_meta unmarshal_meta
    unmarshal_meta-Stands p none s h short = (5, [], refl, refl)
    unmarshal_meta-Stands p (some Meta.other) s h short = (4, [], refl, refl)
    unmarshal_meta-Stands p (some (Meta.file d)) s h short =
        let e : (25 + p) % u16_mod ≡ 25 + p = omega arith in
        (
          3,
          _,
          refl,
          rw (e, byte_at-Stands small (25 + p) _ _ (past_byte s) (omega arith), itob-btoi d),
        )
    unmarshal_meta-Stands p (some (Meta.mutant count a)) s h short =
        let e1 : (25 + p) % u16_mod ≡ 25 + p = omega arith in
        let e2 : (29 + p) % u16_mod ≡ 29 + p = omega arith in
        let s1 = past_byte s in
        (
          2,
          _,
          refl,
          rw (
            e1,
            e2,
            uint32_at-Stands small o (25 + p) _ _ s1 (omega arith) (wrap-lt count),
            byte_at-Stands small (29 + p) _ _ (past_uint32 o _ _ s1) (omega arith),
            signed-wrap count h,
            itob-btoi a,
          ),
        )
    unmarshal_meta-Stands p (some (Meta.alpc_port flags seqno context)) s h short =
        let e1 : (25 + p) % u16_mod ≡ 25 + p = omega arith in
        let e2 : (29 + p) % u16_mod ≡ 29 + p = omega arith in
        let e3 : (33 + p) % u16_mod ≡ 33 + p = omega arith in
        let s1 = past_byte s in
        let s2 = past_uint32 o _ _ s1 in
        let s3 = at_end (past_uint32 o _ _ s2) in
        (
          1,
          _,
          refl,
          rw (
            e1,
            e2,
            e3,
            uint32_at-Stands small o (25 + p) _ _ s1 (omega arith) h.0,
            uint32_at-Stands small o (29 + p) _ _ s2 (omega arith) h.1,
            uint64_at-Stands small o (33 + p) _ _ s3 (omega arith) h.2,
          ),
        )

  -- A handle whose numbers fit their types, and whose type and name are together shorter than
  -- 65495 bytes, is read back from what `Marshal` writes of it, but for metadata of no known
  -- type, which is lost.
  pub handle_unmarshal-marshal :
      (h : Handle) → IsHandle h → unmarshal o (marshal o h) ≡ done (record h { md = restored h.md })
  unfolding unmarshal
  handle_unmarshal-marshal h w =
      let len = length-marshal h in
      let small : length (marshal o h) < u32_mod = omega (arith, len, meta_size-le h.md, w.short) in
      let enough : ltb (length (marshal o h)) 20 ≡ false = ground (arith, len) in
      let s0 = starts h in
      let s1 = past_uint64 o _ _ s0 in
      let s2 = past_uint64 o _ _ s1 in
      let s3 = past_uint32 o _ _ s2 in
      let s4 = past_sized o _ _ s3 in
      let s5 = past_sized o _ _ s4 in
      let n1 = length h.type in
      let n2 = length h.name in
      let e1 : (22 + n1) % u16_mod ≡ 22 + n1 = omega (arith, w.short) in
      let e2 : (24 + n1) % u16_mod ≡ 24 + n1 = omega (arith, w.short) in
      let e3 : (n1 + n2) % u16_mod ≡ n1 + n2 = omega (arith, w.short) in
      let e4 : (24 + (n1 + n2)) % u16_mod ≡ 24 + (n1 + n2) = omega (arith, w.short) in
      let (kind, rest, md, read) =
        unmarshal_meta-Stands small (n1 + n2) h.md (at s5 (omega arith)) w.md_fits
          (omega (arith, w.short)) in
      let s6 : Stands (marshal o h) (24 + (n1 + n2)) (kind ∷ rest) =
        subst (λ c. Stands (marshal o h) (24 + (n1 + n2)) c) md (at s5 (omega arith)) in
      rw (
        enough,
        uint64_at-Stands small o 0 _ _ s0 refl w.num_fits,
        uint64_at-Stands small o 8 _ _ s1 refl w.object_fits,
        uint32_at-Stands small o 16 _ _ s2 refl w.pid_fits,
        sized_if_any_at-Stands small o 20 22 h.type _ s3 refl refl (omega (arith, w.short)),
        e1,
        e2,
        sized_if_any_at-Stands small o (22 + n1) (24 + n1) h.name _ s4 (omega arith) (omega arith)
            (omega (arith, w.short)),
        e3,
        e4,
        byte_at-Stands small (24 + (n1 + n2)) _ _ s6 refl,
        read,
      )
    where
      starts :
          (h : Handle)
          → Stands (marshal o h) 0 (
              write_uint64 o h.num
              ++ (write_uint64 o h.object
                  ++ (write_uint32 o h.pid
                      ++ (sized o h.type ++ (sized o h.name ++ marshal_meta o h.md)))))
      starts h = unfold marshal in begins (marshal o h)
