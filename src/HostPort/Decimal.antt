-- ===== src/HostPort/Decimal.antt =====
-- What the program uses of Go's packages fmt and strconv on numbers to print: `strconv.FormatUint` with base 10
-- and the verb %d.
use go_dnsmasq.Base.{
  ℕ, zero, suc, ◌+◌, ◌*◌, ◌/◌, ◌%◌, ◌^◌, ◌<◌, ◌≤◌, ◌≡◌, refl, ◌∙◌, inl, inr, [], ◌∷◌, some, arith,
  if◌then◌else◌, ltb, Bool-cases,
}
use go_dnsmasq.Base.Int.{ℤ, pos, negsuc}
use go_dnsmasq.Base.Text.{Bytes}
use go_dnsmasq.HostPort.{digits}

-- The digits of a number in front of a text, at most as many as the fuel.
unfoldable pub digits_before : ℕ → ℕ → Bytes → Bytes
digits_before zero n s = s
digits_before (suc fuel) n s =
    let longer = digits_before fuel (n / 10) ((b'0' + n % 10) ∷ s) in
    if ltb n 10 then (b'0' + n) ∷ s else longer

-- The decimal text of a number below 10 ^ 20, which a 64-bit integer is.
unfoldable pub decimal : ℕ → Bytes
unfolding digits_before
decimal n = digits_before 20 n []

unfoldable pub itoa : ℤ → Bytes
unfolding decimal
itoa (pos n) = decimal n
itoa (negsuc n) = b'-' ∷ decimal (n + 1)

one_digit : (n k : ℕ) (s : Bytes) → n < 10 → digits k ((b'0' + n) ∷ s) ≡ digits (10 * k + n) s
unfolding digits
one_digit n k s h = ground arith

-- Ten to a power, as a product.
abbrev bound : ℕ → ℕ
bound zero = 1
bound (suc fuel) = 10 * bound fuel

digits-digits_before :
    (fuel n : ℕ) (s : Bytes)
    → n < bound fuel
    → 0 < fuel
    → digits 0 (digits_before fuel n s) ≡ digits n s
unfolding digits_before
digits-digits_before zero n s h p = absurd (omega (arith, p))
digits-digits_before (suc fuel) n s h p = elim (Bool-cases (ltb n 10)) [
  | inl small ↦ rw small (one_digit n 0 s (ground arith) ∙ same (10 * 0 + n) n (omega arith))
  | inr large ↦ rw large (
      digits-digits_before fuel (n / 10) ((b'0' + n % 10) ∷ s) (omega arith)
        (some_fuel fuel h (ground arith))
      ∙ one_digit (n % 10) (n / 10) s (omega arith)
      ∙ same (10 * (n / 10) + n % 10) n (omega arith))
]
  where
    same : (a b : ℕ) → a ≡ b → digits a s ≡ digits b s
    same a b e = rw e refl

    some_fuel : (fuel : ℕ) → n < 10 * bound fuel → 10 ≤ n → 0 < fuel
    some_fuel zero h k = absurd (omega arith)
    some_fuel (suc fuel) h k = omega arith

-- Reading back the text of a number below 10 ^ 20 gives the number.
pub digits-decimal : (n : ℕ) → n < 10 ^ 20 → digits 0 (decimal n) ≡ some n
unfolding decimal digits
digits-decimal n h = digits-digits_before 20 n [] h (omega arith)
