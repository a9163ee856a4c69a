-- ===== src/Prelude/Maps.antt =====
-- Go maps with a default value on a missing key, as functions on native keys.
use Prim.Native.Nat.{ℕ}
use mathlib.Core.Path.{◌≡◌}
use mathlib.Core.Logic.{◌≢◌}
use native.Mathlib.Omega.{arith}
use fibratus.Prelude.Tests.{◌==◌, if◌then◌else◌}

module _ {ℓ} {A : Type ℓ} where
  abbrev pub update : (ℕ → A) → ℕ → A → ℕ → A
  update m k v j = if k == j then v else m j

  pub update_self : (m : ℕ → A) (k : ℕ) (v : A) → update m k v k ≡ v
  update_self m k v = ground arith

  pub update_ne : (m : ℕ → A) (k j : ℕ) (v : A) → k ≢ j → update m k v j ≡ m j
  update_ne m k j v h = ground arith
