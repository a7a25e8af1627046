-- ===== src/Base/Map.antt =====
-- Go's maps with string keys, as lists of entries with distinct keys.
pub mod Laws
use go_dnsmasq.Base.Tests.{if◌then◌else◌}
use go_dnsmasq.Base.Text.{Bytes, equal}
use mathlib.Core.List.{List, [], ◌∷◌}
use mathlib.Core.Option.{Option, none, some}
use mathlib.Core.Path.{◌≡◌}

abbrev pub Map {ℓ} : Type ℓ → Type ℓ
Map V = List (Bytes × V)

module _ {ℓ} {V : Type ℓ} where
  -- `v, ok := m[k]`.
  unfoldable pub lookup : Bytes → Map V → Option V
  lookup k [] = none
  lookup k ((j, v) ∷ m) = if equal j k then some v else lookup k m

  -- `delete(m, k)`.
  unfoldable pub delete : Bytes → Map V → Map V
  delete k [] = []
  delete k ((j, v) ∷ m) = if equal j k then m else (j, v) ∷ delete k m

  -- `m[k] = v`.
  unfoldable pub assign : Bytes → V → Map V → Map V
  assign k v [] = (k, v) ∷ []
  assign k v ((j, w) ∷ m) = if equal j k then (j, v) ∷ m else (j, w) ∷ assign k v m

  abbrev pub keys : Map V → List Bytes
  keys [] = []
  keys ((k, v) ∷ m) = k ∷ keys m

  -- No key occurs twice.
  abbrev pub Distinct : Map V → Type ℓ
  Distinct [] = Unit {ℓ}
  Distinct ((k, v) ∷ m) = (lookup k m ≡ none) × Distinct m
