-- ===== src/Base/Text/Spaces.antt =====
-- Replacing two spaces by one shortens a text that holds two spaces in a row.
use go_dnsmasq.Base.Lists.{length}
use go_dnsmasq.Base.Text.{Bytes, has_prefix, contains, replace_from, replace_all}
use Prim.Native.Nat.{ℕ, zero, ◌≤◌, ◌<◌}
use mathlib.Core.Bool.{true}
use mathlib.Core.List.{[], ◌∷◌}
use mathlib.Core.Path.{◌≡◌}
use native.Mathlib.Omega.{arith}

abbrev pub two_spaces : Bytes
two_spaces = b' ' ∷ b' ' ∷ []

abbrev squeeze : ℕ → Bytes → Bytes
squeeze = replace_from two_spaces (b' ' ∷ [])

length-squeeze-le : (s : Bytes) → length (squeeze zero s) ≤ length s
unfolding replace_from has_prefix
length-squeeze-le [] = omega arith
length-squeeze-le (x ∷ []) = ground arith
length-squeeze-le (x ∷ y ∷ s) = ground (arith, length-squeeze-le s, length-squeeze-le (y ∷ s))

length-squeeze-lt : (s : Bytes) → contains s two_spaces ≡ true → length (squeeze zero s) < length s
unfolding replace_from contains has_prefix
length-squeeze-lt [] h = absurd (ground arith)
length-squeeze-lt (x ∷ []) h = absurd (ground arith)
length-squeeze-lt (x ∷ y ∷ s) h = ground (arith, length-squeeze-le s, length-squeeze-lt (y ∷ s))

pub length-replace_all-lt :
    (s : Bytes)
    → contains s two_spaces ≡ true
    → length (replace_all s two_spaces (b' ' ∷ [])) < length s
unfolding replace_all
length-replace_all-lt = length-squeeze-lt
