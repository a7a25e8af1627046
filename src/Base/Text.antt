-- ===== src/Base/Text.antt =====
-- Byte strings, and the functions of Go's `strings` package that the program calls. `to_lower` and
-- `trim_space` are those of ASCII texts.
pub mod Laws
pub mod Spaces
pub mod Replace
pub mod Lines
use go_dnsmasq.Base.Tests.{leb, ◌==◌, if◌then◌else◌}
use go_dnsmasq.Base.Lists.{length, take, drop}
use Prim.Native.Char.{code}
use Prim.Native.String.{String}
use Prim.Native.Nat.{ℕ, zero, suc, ◌+◌, ◌-◌}
use mathlib.Core.Bool.{Bool, true, false, ◌&&◌, ◌||◌}
use mathlib.Core.List.{List, [], ◌∷◌, ◌++◌, map, reverse}

abbrev pub Bytes : Type 0
Bytes = List ℕ

-- An ASCII literal.
abbrev pub lit : String → Bytes
lit String.[] = []
lit (String.◌∷◌ c s) = code c ∷ lit s

-- `==` on strings.
unfoldable pub equal : Bytes → Bytes → Bool
equal [] [] = true
equal (x ∷ xs) (y ∷ ys) = x == y && equal xs ys
equal _ _ = false

-- `strings.HasPrefix(s, p)`.
unfoldable pub has_prefix : Bytes → Bytes → Bool
has_prefix s [] = true
has_prefix [] (y ∷ p) = false
has_prefix (x ∷ s) (y ∷ p) = x == y && has_prefix s p

-- `strings.HasSuffix(s, p)`: `len(s) >= len(p) && s[len(s)-len(p):] == p`.
unfoldable pub has_suffix : Bytes → Bytes → Bool
unfolding equal
has_suffix s p = leb (length p) (length s) && equal (drop (length s - length p) s) p

-- `strings.Contains(s, p)`.
unfoldable pub contains : Bytes → Bytes → Bool
unfolding has_prefix
contains [] p = has_prefix [] p
contains (x ∷ s) p = has_prefix (x ∷ s) p || contains s p

-- `strings.Contains(s, b)` for a text of one byte.
unfoldable pub contains_byte : ℕ → Bytes → Bool
contains_byte b [] = false
contains_byte b (x ∷ s) = x == b || contains_byte b s

-- `strings.Replace(s, old, new, -1)` for a non-empty `old`, from the left, without overlaps.
-- `skip` counts the bytes of the last match that are still to be passed over.
replace_from : Bytes → Bytes → ℕ → Bytes → Bytes
replace_from old new skip [] = []
replace_from old new (suc skip) (x ∷ s) = replace_from old new skip s
replace_from old new zero (x ∷ s) =
    let hit = new ++ replace_from old new (length old - 1) s in
    let miss = x ∷ replace_from old new zero s in if has_prefix (x ∷ s) old then hit else miss

unfoldable pub replace_all : Bytes → Bytes → Bytes → Bytes
unfolding has_prefix replace_from
replace_all s old new = replace_from old new zero s

abbrev cons_first : ℕ → List Bytes → List Bytes
cons_first x [] = (x ∷ []) ∷ []
cons_first x (w ∷ ws) = (x ∷ w) ∷ ws

-- `strings.Split(s, sep)` for a separator of one byte.
unfoldable pub split : ℕ → Bytes → List Bytes
split sep [] = [] ∷ []
split sep (x ∷ s) = let rest = split sep s in if x == sep then [] ∷ rest else cons_first x rest

-- `strings.SplitAfter(s, sep)` for a separator of one byte.
unfoldable pub split_after : ℕ → Bytes → List Bytes
split_after sep [] = [] ∷ []
split_after sep (x ∷ s) =
    let rest = split_after sep s in if x == sep then (x ∷ []) ∷ rest else cons_first x rest

-- Texts put together.
unfoldable pub concat : List Bytes → Bytes
concat [] = []
concat (l ∷ ls) = l ++ concat ls

-- The spaces of `unicode.IsSpace` below 128.
abbrev pub is_space : ℕ → Bool
is_space c = (leb 9 c && leb c 13) || c == b' '

unfoldable pub trim_left : (ℕ → Bool) → Bytes → Bytes
trim_left p [] = []
trim_left p (x ∷ s) = if p x then trim_left p s else x ∷ s

-- `strings.TrimSpace(s)`.
unfoldable pub trim_space : Bytes → Bytes
unfolding trim_left
trim_space s = reverse (trim_left is_space (reverse (trim_left is_space s)))

abbrev pub lower_byte : ℕ → ℕ
lower_byte c = if leb b'A' c && leb c b'Z' then c + 32 else c

-- `strings.ToLower(s)`.
unfoldable pub to_lower : Bytes → Bytes
to_lower s = map lower_byte s

-- `strings.TrimSuffix(s, p)`.
unfoldable pub trim_suffix : Bytes → Bytes → Bytes
unfolding has_suffix
trim_suffix s p = if has_suffix s p then take (length s - length p) s else s
