-- ===== src/Capture/Maps.antt =====
-- Go's maps with strings for keys, as lists of pairs in the order in which the code ranges over them.
use fibratus.Prelude.{false, List, [], ◌∷◌, ◌++◌, ◌≡◌, refl, ap, All, All-append, if◌then◌else◌}
use fibratus.Event.Values.{eq_text}
use fibratus.Capture.Bytes.{Bytes}

module _ {V : Type 0} where
  -- `m[k] = v`
  unfoldable pub set_key : Bytes → V → List (Bytes × V) → List (Bytes × V)
  set_key k v [] = (k, v) ∷ []
  set_key k v ((j, w) ∷ m) = if eq_text j k then (k, v) ∷ m else (j, w) ∷ set_key k v m

  abbrev pub NewKey : Bytes → List (Bytes × V) → Type 0
  NewKey k m = All (λ kv. eq_text kv.0 k ≡ false) m

  -- No key stands in two pairs.
  abbrev pub IsMap : List (Bytes × V) → Type 0
  IsMap [] = Unit
  IsMap ((k, v) ∷ m) = All (λ kv. eq_text k kv.0 ≡ false) m × IsMap m

  pub set_key-new :
      (k : Bytes) (v : V) (m : List (Bytes × V)) → NewKey k m → set_key k v m ≡ m ++ (k, v) ∷ []
  unfolding set_key
  set_key-new k v [] h = refl
  set_key-new k v ((j, w) ∷ m) h = rw h.0 (ap (◌∷◌ (j, w)) (set_key-new k v m h.1))

module _ {V W : Type 0} where
  -- The keys of `l` are new to `m`.
  unfoldable pub AllNew : List (Bytes × V) → List (Bytes × W) → Type 0
  AllNew m l = All (λ kv. NewKey kv.0 m) l

  pub AllNew-put :
      (k : Bytes) (v : V) (m : List (Bytes × V)) (l : List (Bytes × W))
      → AllNew m l
      → All (λ kv. eq_text k kv.0 ≡ false) l
      → AllNew (m ++ (k, v) ∷ []) l
  unfolding AllNew
  AllNew-put k v m [] h d = tt
  AllNew-put k v m ((j, w) ∷ l) h d =
      (All-append (λ kv. eq_text kv.0 j ≡ false) m _ h.0 (d.0, tt), AllNew-put k v m l h.1 d.1)

pub AllNew-nil : (V : Type 0) {W : Type 0} (l : List (Bytes × W)) → AllNew {V = V} [] l
unfolding AllNew
AllNew-nil V [] = tt
AllNew-nil V (_ ∷ l) = (tt, AllNew-nil V l)
