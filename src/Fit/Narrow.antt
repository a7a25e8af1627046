-- ===== src/Fit/Narrow.antt =====
-- server/msg.go: the search loop of `Fit` ends, at the first length that does not fit.
use go_dnsmasq.Base.{
  ℕ, zero, suc, ◌+◌, ◌-◌, ◌/◌, ◌≤◌, ◌<◌, ◌≡◌, inl, inr, Bool, true, false, some, arith, ◌==◌,
  Bool-cases, ==_iff,
}
use go_dnsmasq.Fit.{narrow}

-- A shorter prefix fits where a longer one does.
abbrev pub Downward : (ℕ → Bool) → Type 0
Downward p = (i j : ℕ) → i ≤ j → p j ≡ true → p i ≡ true

module _ (p : ℕ → Bool) (down : Downward p) where
  -- Where the loop ends.
  pub record Threshold (max k : ℕ) : Type 0 where
    pub within : k ≤ max
    pub below : (i : ℕ) → i < k → p i ≡ true
    pub over : p k ≡ false

  pub narrow-Threshold :
      (fuel min max : ℕ)
      → min ≤ max
      → max - min < fuel
      → ((i : ℕ) → i < min → p i ≡ true)
      → p max ≡ false
      → (k : ℕ) × (narrow p fuel min max ≡ some k) × Threshold max k
  unfolding narrow
  narrow-Threshold zero min max le f low high = absurd (omega arith)
  narrow-Threshold (suc fuel) min max le f low high = elim (Bool-cases (min == max)) [
    | inl met ↦
        let e : min ≡ max = (==_iff min max).0 met in
        (
          max,
          rw met,
          record { within = omega arith; below = λ i h. low i (omega arith); over = high },
        )
    | inr open_ ↦
        let ne : min < max = ground arith in
        elim (Bool-cases (p ((min + max) / 2))) [
          | inl fits ↦
              let (k, e, t) =
                narrow-Threshold fuel (min + 1) max (omega arith) (omega arith)
                  (λ i h. down i ((min + max) / 2) (omega arith) fits) high in
              (k, rw (open_, fits) e, t)
          | inr not_ ↦
              let (k, e, t) =
                narrow-Threshold fuel min ((min + max) / 2) (omega arith) (omega arith) low not_ in
              (
                k,
                rw (open_, not_) e,
                record { within = omega (arith, t.within); below = t.below; over = t.over },
              )
        ]
  ]
