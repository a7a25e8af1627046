-- ===== src/Base/Map/Laws.antt =====
-- Laws of the maps: what a lookup finds after a deletion or an assignment, and how the size changes.
use go_dnsmasq.Base.Tests.{if◌then◌else◌, is_some}
use go_dnsmasq.Base.Lists.{length}
use go_dnsmasq.Base.Text.{Bytes, equal}
use go_dnsmasq.Base.Text.Laws.{equal_iff}
use go_dnsmasq.Base.Map.{Map, lookup, delete, assign, Distinct}
use Prim.Native.Nat.{◌+◌}
use mathlib.Core.List.{[], ◌∷◌}
use mathlib.Core.Option.{none, some}
use mathlib.Core.Path.{◌≡◌, refl}
use native.Mathlib.Omega.{arith}

module _ {V : Type 0} where
  pub lookup-delete :
      (k q : Bytes) (m : Map V)
      → Distinct m
      → lookup q (delete k m) ≡ (if equal k q then none else lookup q m)
  unfolding lookup delete
  lookup-delete k q [] d = ground arith
  lookup-delete k q ((j, v) ∷ m) d =
      ground (arith, equal_iff j k, equal_iff k q, equal_iff j q, lookup-delete k q m d.1, d.0)

  pub lookup-assign :
      (k q : Bytes) (v : V) (m : Map V)
      → lookup q (assign k v m) ≡ (if equal k q then some v else lookup q m)
  unfolding lookup assign
  lookup-assign k q v [] = refl
  lookup-assign k q v ((j, w) ∷ m) =
      ground (arith, equal_iff j k, equal_iff k q, equal_iff j q, lookup-assign k q v m)

  pub delete-Distinct : (k : Bytes) (m : Map V) → Distinct m → Distinct (delete k m)
  unfolding delete
  delete-Distinct k [] d = tt
  delete-Distinct k ((j, v) ∷ m) d =
      ground (arith, delete-Distinct k m d.1, lookup-delete k j m d.1)

  pub assign-Distinct : (k : Bytes) (v : V) (m : Map V) → Distinct m → Distinct (assign k v m)
  unfolding assign lookup
  assign-Distinct k v [] d = (refl, tt)
  assign-Distinct k v ((j, w) ∷ m) d =
      ground (arith, assign-Distinct k v m d.1, lookup-assign k j v m, equal_iff j k, equal_iff k j)

  -- A deletion takes one entry away where the key is there, and nothing otherwise.
  pub length-delete :
      (k : Bytes) (m : Map V)
      → length (delete k m) + (if is_some (lookup k m) then 1 else 0) ≡ length m
  unfolding delete lookup
  length-delete k [] = refl
  length-delete k ((j, v) ∷ m) = ground (arith, length-delete k m)

  pub length-assign :
      (k : Bytes) (v : V) (m : Map V)
      → length (assign k v m) ≡ length m + (if is_some (lookup k m) then 0 else 1)
  unfolding assign lookup
  length-assign k v [] = refl
  length-assign k v ((j, w) ∷ m) = ground (arith, length-assign k v m)

  pub delete_absent : (k : Bytes) (m : Map V) → lookup k m ≡ none → delete k m ≡ m
  unfolding delete lookup
  delete_absent k [] h = refl
  delete_absent k ((j, v) ∷ m) h = ground (arith, delete_absent k m)
