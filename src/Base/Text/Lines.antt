-- ===== src/Base/Text/Lines.antt =====
-- Splitting a text into its lines and putting them together again.
use go_dnsmasq.Base.Tests.{◌==◌, Bool-cases}
use go_dnsmasq.Base.Text.{Bytes, cons_first, contains_byte, split_after, concat}
use Prim.Native.Nat.{ℕ}
use mathlib.Core.Bool.{false}
use mathlib.Core.List.{List, [], ◌∷◌, ◌++◌}
use mathlib.Core.Logic.{inl, inr}
use mathlib.Core.Path.{◌≡◌, refl, ap, ◌∙◌}
use native.Mathlib.Omega.{arith}

-- A line with a newline at its end, and no other.
abbrev pub IsLine : Bytes → Type 0
IsLine l = (b : Bytes) × (l ≡ b ++ b'\n' ∷ []) × (contains_byte b'\n' b ≡ false)

-- The lines of a text: a newline ends each of them but the last, and there is no other.
abbrev pub IsLines : List Bytes → Type 0
IsLines [] = ⊥
IsLines (l ∷ []) = contains_byte b'\n' l ≡ false
IsLines (l ∷ m ∷ ls) = IsLine l × IsLines (m ∷ ls)

concat-cons_first : (x : ℕ) (ls : List Bytes) → concat (cons_first x ls) ≡ x ∷ concat ls
unfolding concat
concat-cons_first x [] = refl
concat-cons_first x (l ∷ ls) = refl

pub concat-split_after : (s : Bytes) → concat (split_after b'\n' s) ≡ s
unfolding concat split_after
concat-split_after [] = refl
concat-split_after (x ∷ s) = elim (Bool-cases (x == b'\n')) [
  | inl newline ↦ rw newline (ap (◌∷◌ x) (concat-split_after s))
  | inr other ↦
      rw other (concat-cons_first x (split_after b'\n' s) ∙ ap (◌∷◌ x) (concat-split_after s))
]

pub IsLines-cons : (l : Bytes) (ls : List Bytes) → IsLine l → IsLines ls → IsLines (l ∷ ls)
IsLines-cons l [] i is = absurd is
IsLines-cons l (m ∷ ls) i is = (i, is)

IsLines-cons_first :
    (x : ℕ) (ls : List Bytes) → (x == b'\n') ≡ false → IsLines ls → IsLines (cons_first x ls)
unfolding contains_byte
IsLines-cons_first x [] e is = absurd is
IsLines-cons_first x (l ∷ []) e is = ground (arith, e, is)
IsLines-cons_first x (l ∷ m ∷ ls) e ((b, s, n), is) =
    ((x ∷ b, ap (◌∷◌ x) s, ground (arith, e, n)), is)

pub IsLines-split_after : (s : Bytes) → IsLines (split_after b'\n' s)
unfolding split_after contains_byte
IsLines-split_after [] = refl
IsLines-split_after (x ∷ s) = elim (Bool-cases (x == b'\n')) [
  | inl newline ↦
      let q : x ≡ b'\n' = ground arith in
      rw newline (
        IsLines-cons (x ∷ []) (split_after b'\n' s) ([], ap (λ c. c ∷ []) q, refl)
          (IsLines-split_after s))
  | inr other ↦ rw other (IsLines-cons_first x (split_after b'\n' s) other (IsLines-split_after s))
]

split_after_plain :
    (l : Bytes) → contains_byte b'\n' l ≡ false → split_after b'\n' (l ++ []) ≡ l ∷ []
unfolding split_after contains_byte
split_after_plain [] h = refl
split_after_plain (x ∷ l) h =
    let other : (x == b'\n') ≡ false = ground arith in
    let t : contains_byte b'\n' l ≡ false = ground arith in rw (other, split_after_plain l t) refl

split_after-line :
    (b s : Bytes)
    → contains_byte b'\n' b ≡ false
    → split_after b'\n' ((b ++ b'\n' ∷ []) ++ s) ≡ (b ++ b'\n' ∷ []) ∷ split_after b'\n' s
unfolding split_after contains_byte
split_after-line [] s h = refl
split_after-line (x ∷ b) s h =
    let other : (x == b'\n') ≡ false = ground arith in
    let t : contains_byte b'\n' b ≡ false = ground arith in rw (other, split_after-line b s t) refl

-- Lines put together are split into the same lines.
pub split_after-concat : (ls : List Bytes) → IsLines ls → split_after b'\n' (concat ls) ≡ ls
unfolding concat
split_after-concat [] is = absurd is
split_after-concat (l ∷ []) is = split_after_plain l is
split_after-concat (l ∷ m ∷ ls) ((b, s, n), is) = rw s (
    split_after-line b (concat (m ∷ ls)) n
    ∙ ap (◌∷◌ (b ++ b'\n' ∷ [])) (split_after-concat (m ∷ ls) is))
