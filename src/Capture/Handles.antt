-- ===== src/Capture/Handles.antt =====
-- pkg/handle/types: a handle of a process, `Marshal`, `Offset`, `Unmarshal` and `NewFromCapture`.
pub mod RoundTrip
use fibratus.Prelude.{
  ℕ, ◌+◌, ◌-◌, ◌%◌, ◌<◌, Bool, true, false, List, [], ◌∷◌, ◌++◌, Option, none, some, length, ltb,
  ◌==◌, if◌then◌else◌,
}
use fibratus.Prelude.Int.{ℤ, pos, negsuc, wrap, u16_mod, u32_mod}
use fibratus.Capture.Bytes.{
  Bytes, Decoded, done, failed, crashed, ◌>>=◌, ByteOrder, write_uint32, write_uint64, btoi, itob,
  byte_at, signed, uint32_at, uint64_at, sized, sized_if_any_at,
}

-- The types behind the interface `Meta`; `other` is any other type.
pub data Meta : Type 0 where
  alpc_port : (flags seqno context : ℕ) → Meta
  mutant : (count : ℤ) (is_abandoned : Bool) → Meta
  file : (is_directory : Bool) → Meta
  other : Meta

pub record Handle : Type 0 where
  pub num : ℕ
  pub object : ℕ
  pub pid : ℕ
  pub type : Bytes
  pub name : Bytes
  pub md : Option Meta

unfoldable pub meta_size : Option Meta → ℕ
meta_size none = 0
meta_size (some (Meta.alpc_port flags seqno context)) = 16
meta_size (some (Meta.mutant count is_abandoned)) = 5
meta_size (some (Meta.file is_directory)) = 1
meta_size (some Meta.other) = 0

-- `Offset`, a `uint16`
unfoldable pub offset : Handle → ℕ
unfolding meta_size
offset h = (8 + 8 + 4 + 2 + length h.type + 2 + length h.name + 1 + meta_size h.md) % u16_mod

module _ (o : ByteOrder) where
  unfoldable pub marshal_meta : Option Meta → Bytes
  unfolding btoi
  marshal_meta (some (Meta.alpc_port flags seqno context)) =
      1 ∷ (write_uint32 o flags ++ (write_uint32 o seqno ++ write_uint64 o context))
  marshal_meta (some (Meta.mutant count is_abandoned)) =
      2 ∷ (write_uint32 o (wrap u32_mod count) ++ btoi is_abandoned ∷ [])
  marshal_meta (some (Meta.file is_directory)) = 3 ∷ btoi is_directory ∷ []
  marshal_meta (some Meta.other) = 4 ∷ []
  marshal_meta none = 5 ∷ []

  unfoldable pub marshal : Handle → Bytes
  unfolding marshal_meta
  marshal h =
      write_uint64 o h.num
      ++ (write_uint64 o h.object
          ++ (write_uint32 o h.pid ++ (sized o h.type ++ (sized o h.name ++ marshal_meta h.md))))

  -- The switch on the kind of metadata; `offset` is a `uint16`, and so are the sums with it.
  unfoldable pub unmarshal_meta : Bytes → ℕ → ℕ → Decoded (Option Meta)
  unfolding itob signed
  unmarshal_meta b offset kind =
      let port = do
        flags ← uint32_at o b ((25 + offset) % u16_mod)
        seqno ← uint32_at o b ((29 + offset) % u16_mod)
        context ← uint64_at o b ((33 + offset) % u16_mod)
        done (some (Meta.alpc_port flags seqno context))
      in let mutex = do
        count ← uint32_at o b ((25 + offset) % u16_mod)
        abandoned ← byte_at b ((29 + offset) % u16_mod)
        done (some (Meta.mutant (signed 2147483648 count) (itob abandoned)))
        in let directory = do
          flag ← byte_at b ((25 + offset) % u16_mod)
          done (some (Meta.file (itob flag)))
          in if kind == 1
            then port
            else if kind == 2
            then mutex
            else if kind == 3
            then directory
            else done none

  -- `Unmarshal` of an empty handle.
  unfoldable pub unmarshal : Bytes → Decoded Handle
  unfolding unmarshal_meta
  unmarshal b = if ltb (length b) 20 then failed else do
    num ← uint64_at o b 0
    object ← uint64_at o b 8
    pid ← uint32_at o b 16
    (l1, type) ← sized_if_any_at o b 20 22
    (l2, name) ← sized_if_any_at o b ((22 + l1) % u16_mod) ((24 + l1) % u16_mod)
    let offset = (l1 + l2) % u16_mod
    kind ← byte_at b ((24 + offset) % u16_mod)
    md ← unmarshal_meta b offset kind
    done (record { num = num; object = object; pid = pid; type = type; name = name; md = md })
