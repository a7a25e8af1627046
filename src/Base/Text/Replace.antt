-- ===== src/Base/Text/Replace.antt =====
-- Laws of `replace_all` and `contains` on a text that starts with the pattern, or does not have it.
use go_dnsmasq.Base.Lists.{length}
use go_dnsmasq.Base.Text.{Bytes, has_prefix, contains, replace_from, replace_all}
use Prim.Native.Nat.{ℕ, zero, suc, ◌-◌}
use mathlib.Core.Bool.{true, false}
use mathlib.Core.List.{[], ◌∷◌, ◌++◌}
use mathlib.Core.Path.{◌≡◌, refl}
use native.Mathlib.Omega.{arith}

pub has_prefix-append : (p s : Bytes) → has_prefix (p ++ s) p ≡ true
unfolding has_prefix
has_prefix-append [] [] = refl
has_prefix-append [] (x ∷ s) = refl
has_prefix-append (y ∷ p) s = ground (arith, has_prefix-append p s)

pub contains-append : (y : ℕ) (p s : Bytes) → contains ((y ∷ p) ++ s) (y ∷ p) ≡ true
unfolding contains
contains-append y p s = ground (arith, has_prefix-append (y ∷ p) s)

-- Passing over the rest of a match.
replace_from_skip :
    (old new p s : Bytes) → replace_from old new (length p) (p ++ s) ≡ replace_from old new zero s
unfolding replace_from
replace_from_skip old new [] s = refl
replace_from_skip old new (y ∷ p) s = replace_from_skip old new p s

pub replace_all-append :
    (y : ℕ) (p s : Bytes) → replace_all ((y ∷ p) ++ s) (y ∷ p) [] ≡ replace_all s (y ∷ p) []
unfolding replace_all replace_from
replace_all-append y p s =
    let pred : suc (length p) - 1 ≡ length p = omega arith in
    rw (has_prefix-append (y ∷ p) s, pred) (replace_from_skip (y ∷ p) [] p s)

pub replace_all_absent : (old new s : Bytes) → contains s old ≡ false → replace_all s old new ≡ s
unfolding replace_all replace_from contains
replace_all_absent old new [] h = refl
replace_all_absent old new (x ∷ s) h = ground (arith, h, replace_all_absent old new s)
