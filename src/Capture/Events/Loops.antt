-- ===== src/Capture/Events/Loops.antt =====
-- The loops of `UnmarshalRaw` read back the parameters and the tags that were written.
use fibratus.Prelude.{
  ℕ, ◌+◌, ◌<◌, ◌≡◌, refl, ap, sym, subst, false, List, [], ◌∷◌, ◌++◌, length, map, All, arith,
}
use fibratus.Prelude.Int.{u16_mod, u32_mod}
use mathlib.Core.List.{append_assoc, append-nil}
use fibratus.Event.Values.{eq_text}
use fibratus.Capture.Bytes.{Bytes, done, ByteOrder, write_uint16, sized}
use fibratus.Capture.Bytes.Placed.{
  Stands, at, moves, past_uint16, past_sized, uint16_at-Stands, sized_at-Stands, lengths,
}
use fibratus.Capture.Times.{TimeFormat, ParsesBack}
use fibratus.Capture.Maps.{NewKey, IsMap, AllNew, AllNew-put, set_key-new}
use fibratus.Capture.Processes.{PeCodec, write_envs}
use fibratus.Capture.Processes.Loops.{regroup}
use fibratus.Capture.ParamTypes.{ParamType, code, capture_type}
use fibratus.Capture.Events.{Param, Value, Layout, layout, write_value, write_params}
use fibratus.Capture.Events.Restoring.{Restored}
use fibratus.Capture.Events.Reading.{moved, append_param, read_params, add_tag, read_tags}
use fibratus.Capture.Events.Values.{case_of_layout, case_of-code, IsKept, back}
use fibratus.Capture.Events.Each.{value_bytes, value-Stands}

code_small : (t : ParamType) → code t < u16_mod
unfolding code
code_small ParamType.null = omega arith
code_small _ = omega arith

abbrev pub IsTag : Bytes × Bytes → Type 0
IsTag (k, v) = (length k < u16_mod) × (length v < u16_mod)

-- The tags with a key: a tag whose key is empty is not read back.
abbrev pub named_tags : List (Bytes × Bytes) → List (Bytes × Bytes)
named_tags [] = []
named_tags (([], v) ∷ tags) = named_tags tags
named_tags ((c ∷ k, v) ∷ tags) = (c ∷ k, v) ∷ named_tags tags

module _ {tf : TimeFormat} (parses : ParsesBack tf) (codec : PeCodec) (o : ByteOrder)
    (to_ipv6 : Bytes → Bytes) where
  open tf use {Time}

  abbrev pub IsParam : Bytes × Param Time → Type 0
  IsParam (name, p) = (length name < u16_mod) × IsKept o (layout p.type) p.value p.shown

  abbrev pub back_param : Bytes × Param Time → Bytes × (ℕ × Restored Time)
  back_param (name, p) =
      (name, (code (capture_type p.type), back o to_ipv6 (layout p.type) p.value p.shown))

  unfoldable pub params_bytes : List (Bytes × Param Time) → Bytes
  params_bytes [] = []
  params_bytes ((name, p) ∷ params) =
      write_uint16 o (code (capture_type p.type))
      ++ (sized o name
          ++ (value_bytes parses codec o to_ipv6 (layout p.type) p.value p.shown
              ++ params_bytes params))

  moved-kept :
      {l : Layout} {v : Value Time} {str : Bytes}
      → IsKept o l v str
      → (kn n : ℕ) → moved o tf to_ipv6 (case_of_layout l) kn n ≡ kn + n
  unfolding moved
  moved-kept (IsKept.text _ _ _) kn n = refl
  moved-kept _ kn n = refl

  -- What one round of the loop over the tags adds.
  add_tag-named :
      (k v : Bytes) (m : List (Bytes × Bytes))
      → NewKey k m
      → add_tag o tf to_ipv6 k v m ≡ m ++ named_tags ((k, v) ∷ [])
  unfolding add_tag
  add_tag-named [] v m new = sym (append-nil m)
  add_tag-named (c ∷ k) v m new = set_key-new (c ∷ k) v m new

  AllNew-named :
      (k v : Bytes) (m tags : List (Bytes × Bytes))
      → AllNew m tags
      → All (λ kv. eq_text k kv.0 ≡ false) tags
      → AllNew (m ++ named_tags ((k, v) ∷ [])) tags
  AllNew-named [] v m tags h d = subst (λ l. AllNew l tags) (sym (append-nil m)) h
  AllNew-named (c ∷ k) v m tags h d = AllNew-put (c ∷ k) v m tags h d

  named_tags-cons :
      (k v : Bytes) (m tags : List (Bytes × Bytes))
      → (m ++ named_tags ((k, v) ∷ [])) ++ named_tags tags ≡ m ++ named_tags ((k, v) ∷ tags)
  named_tags-cons [] v m tags = ap (λ l. l ++ named_tags tags) (append-nil m)
  named_tags-cons (c ∷ k) v m tags = append_assoc m ((c ∷ k, v) ∷ []) (named_tags tags)

  write_value-kept :
      {l : Layout} {v : Value Time} {str : Bytes}
      → IsKept o l v str
      → write_value o tf codec l v str ≡ done (value_bytes parses codec o to_ipv6 l v str)
  unfolding write_value
  write_value-kept (IsKept.text _ _ _) = refl
  write_value-kept (IsKept.shown _ _ _) = refl
  write_value-kept (IsKept.bool _ _) = refl
  write_value-kept _ = refl

  pub write_params-kept :
      (params : List (Bytes × Param Time))
      → All IsParam params
      → write_params o tf codec params ≡ done (params_bytes params)
  unfolding write_params params_bytes
  write_params-kept [] h = refl
  write_params-kept ((name, p) ∷ params) h =
      rw (write_value-kept h.0.1, write_params-kept params h.1)

  module _ {b : Bytes} (small : length b < u32_mod) where
    pub read_params-write :
        (p q : ℕ) (m : List (Bytes × (ℕ × Restored Time))) (params : List (Bytes × Param Time))
        (rest : Bytes) (e : ℕ)
        → Stands b (12 + p + q) (params_bytes params ++ rest)
        → All IsParam params
        → q + length (params_bytes params) ≡ e
        → 2 < length rest
        → IsMap params
        → AllNew m params
        → read_params o tf to_ipv6 b p (length params) q m ≡ done (m ++ map back_param params, e)
    unfolding read_params params_bytes append_param AllNew
    read_params-write p q m [] rest e s fine len left keys new =
        rw (append-nil m) (ap (λ n. done (m, n)) (omega arith))
    read_params-write p q m ((name, par) ∷ params) rest e s fine len left keys new =
        let t = code (capture_type par.type) in
        let value = value_bytes parses codec o to_ipv6 (layout par.type) par.value par.shown in
        let kn = length name in
        let s0 = regroup (write_uint16 o t) _ rest s in
        let s1 = regroup (sized o name) _ rest (past_uint16 o _ _ s0) in
        let s2 = regroup value (params_bytes params) rest (past_sized o _ _ s1) in
        let s3 = moves value s2 refl in
        let read =
          value-Stands parses codec o to_ipv6 small (layout par.type) par.value par.shown
            (16 + p + q + kn) (params_bytes params ++ rest) fine.0.1 (at s2 (omega arith))
            (omega lengths) in
        rw (
          uint16_at-Stands small o (12 + p + q) t _ s0 refl (code_small (capture_type par.type)),
          sized_at-Stands small o (14 + p + q) (16 + p + q) name _ s1 (omega arith) (omega arith)
              fine.0.0 (omega lengths),
          case_of-code par.type,
          read,
          moved-kept fine.0.1 kn (4 + length value),
          set_key-new name (t, back o to_ipv6 (layout par.type) par.value par.shown) m new.0,
          read_params-write p (q + (kn + (4 + length value))) (m ++ back_param (name, par) ∷ [])
              params rest e (at s3 (omega arith)) fine.1 (omega lengths) left keys.1
              (AllNew-put name (t, back o to_ipv6 (layout par.type) par.value par.shown) m params
                new.1 keys.0),
          append_assoc m (back_param (name, par) ∷ []) (map back_param params),
        )

    pub read_tags-write :
        (p q : ℕ) (m tags : List (Bytes × Bytes)) (rest : Bytes) (e : ℕ)
        → Stands b (14 + p + q) (write_envs o tags ++ rest)
        → All IsTag tags
        → q + length (write_envs o tags) ≡ e
        → 0 < length rest
        → IsMap tags
        → AllNew m tags
        → read_tags o tf to_ipv6 b p (length tags) q m ≡ done (m ++ named_tags tags, e)
    unfolding read_tags write_envs AllNew
    read_tags-write p q m [] rest e s fine len left keys new =
        rw (append-nil m) (ap (λ n. done (m, n)) (omega arith))
    read_tags-write p q m ((k, v) ∷ tags) rest e s fine len left keys new =
        let s0 = regroup (sized o k) (sized o v ++ write_envs o tags) rest s in
        let s1 = regroup (sized o v) (write_envs o tags) rest (past_sized o _ _ s0) in
        let s2 = past_sized o _ _ s1 in
        let kn = length k in
        let vn = length v in
        rw (
          sized_at-Stands small o (14 + p + q) (16 + p + q) k _ s0 refl (omega arith) fine.0.0
              (omega lengths),
          sized_at-Stands small o (16 + p + kn + q) (18 + p + kn + q) v _ s1 (omega arith)
              (omega arith) fine.0.1 (omega lengths),
          add_tag-named k v m new.0,
          read_tags-write p (q + (kn + vn + 4)) (m ++ named_tags ((k, v) ∷ [])) tags rest e
              (at s2 (omega arith)) fine.1 (omega lengths) left keys.1
              (AllNew-named k v m tags new.1 keys.0),
          named_tags-cons k v m tags,
        )
