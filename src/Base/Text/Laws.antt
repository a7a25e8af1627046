-- ===== src/Base/Text/Laws.antt =====
-- Laws of the string functions.
use go_dnsmasq.Base.Tests.{leb, ◌==◌, Bool-cases, &&-eq-true, leb→le, ==_iff}
use go_dnsmasq.Base.Lists.{length, take, drop, length-append, take-append-drop, drop-append}
use go_dnsmasq.Base.Text.{Bytes, equal, has_suffix, contains_byte, lower_byte, to_lower}
use Prim.Native.Nat.{ℕ, ◌-◌, ◌≤◌}
use mathlib.Core.Bool.{true, false, ◌||◌}
use mathlib.Core.Option.{Option, none, some}
use mathlib.Core.List.{[], ◌∷◌, ◌++◌}
use mathlib.Core.Logic.{◌≢◌, ◌↔◌, inl, inr}
use mathlib.Core.Path.{◌≡◌, refl, ap, ap₂, sym, ◌∙◌}
use native.Mathlib.Omega.{arith}

pub equal_refl : (s : Bytes) → equal s s ≡ true
unfolding equal
equal_refl [] = refl
equal_refl (x ∷ s) = ground (arith, equal_refl s)

pub equal→eq : (s t : Bytes) → equal s t ≡ true → s ≡ t
unfolding equal
equal→eq [] [] h = refl
equal→eq [] (y ∷ t) h = cc
equal→eq (x ∷ s) [] h = cc
equal→eq (x ∷ s) (y ∷ t) h =
    let (p, q) = &&-eq-true (x == y) (equal s t) h in ap₂ ◌∷◌ ((==_iff x y).0 p) (equal→eq s t q)

pub equal_iff : (s t : Bytes) → (equal s t ≡ true) ↔ (s ≡ t)
equal_iff s t = (equal→eq s t, λ e. rw e (equal_refl t))

pub equal_of_ne : (s t : Bytes) → s ≢ t → equal s t ≡ false
equal_of_ne s t h = ground (arith, equal_iff s t)

-- A suffix is what stands behind some first part.
pub has_suffix→append :
    (s p : Bytes) → has_suffix s p ≡ true → s ≡ take (length s - length p) s ++ p
unfolding has_suffix
has_suffix→append s p h =
    let (_, e) = &&-eq-true (leb (length p) (length s)) _ h in
    sym (take-append-drop (length s - length p) s)
    ∙ ap (◌++◌ (take (length s - length p) s)) (equal→eq _ p e)

pub has_suffix-append : (l p : Bytes) → has_suffix (l ++ p) p ≡ true
unfolding has_suffix
has_suffix-append l p =
    let n : length (l ++ p) - length p ≡ length l = omega (arith, length-append l p) in
    let e : equal (drop (length (l ++ p) - length p) (l ++ p)) p ≡ true =
      rw (n, drop-append l p) (equal_refl p) in
    ground (arith, length-append l p)

pub length_of_has_suffix : (s p : Bytes) → has_suffix s p ≡ true → length p ≤ length s
unfolding has_suffix
length_of_has_suffix s p h = leb→le _ _ (&&-eq-true (leb (length p) (length s)) _ h).0

pub length-to_lower : (s : Bytes) → length (to_lower s) ≡ length s
unfolding to_lower
length-to_lower [] = refl
length-to_lower (x ∷ s) = omega (arith, length-to_lower s)

lower_byte_idem : (c : ℕ) → lower_byte (lower_byte c) ≡ lower_byte c
lower_byte_idem c = ground arith

-- Lower-casing twice is lower-casing once.
pub to_lower_idem : (s : Bytes) → to_lower (to_lower s) ≡ to_lower s
unfolding to_lower
to_lower_idem [] = refl
to_lower_idem (x ∷ s) = ap₂ ◌∷◌ (lower_byte_idem x) (to_lower_idem s)

pub contains_byte-append :
    (b : ℕ) (s t : Bytes) → contains_byte b (s ++ t) ≡ (contains_byte b s || contains_byte b t)
unfolding contains_byte
contains_byte-append b [] t = refl
contains_byte-append b (x ∷ s) t = ground (arith, contains_byte-append b s t)

-- The last byte of a text.
abbrev last : Bytes → Option ℕ
last [] = none
last (x ∷ []) = some x
last (x ∷ y ∷ s) = last (y ∷ s)

last-append : (s : Bytes) (y : ℕ) (t : Bytes) → last (s ++ y ∷ t) ≡ last (y ∷ t)
last-append [] y t = refl
last-append (x ∷ []) y t = refl
last-append (x ∷ z ∷ s) y t = last-append (z ∷ s) y t

last_absent : (b : ℕ) (s : Bytes) → contains_byte b s ≡ false → last s ≢ some b
unfolding contains_byte
last_absent b [] h e = absurd (cc)
last_absent b (x ∷ []) h e = let same : (x == b) ≡ true = ground (arith, e) in absurd (cc (h, same))
last_absent b (x ∷ y ∷ s) h e = last_absent b (y ∷ s) (ground arith) e

-- A text ends in the byte of its last part only.
pub has_suffix_absent :
    (b : ℕ) (s : Bytes) (y : ℕ) (t : Bytes)
    → contains_byte b (y ∷ t) ≡ false
    → has_suffix (s ++ y ∷ t) (b ∷ []) ≡ false
has_suffix_absent b s y t h = elim (Bool-cases (has_suffix (s ++ y ∷ t) (b ∷ []))) [
  | inr none_ ↦ none_
  | inl ends ↦
      let e = has_suffix→append (s ++ y ∷ t) (b ∷ []) ends in
      absurd (
        last_absent b (y ∷ t) h (
          sym (last-append s y t)
          ∙ ap last e
          ∙ last-append (take (length (s ++ y ∷ t) - 1) (s ++ y ∷ t)) b []))
]
