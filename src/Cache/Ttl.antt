-- ===== src/Cache/Ttl.antt =====
-- cache/cache.go: `getLowestTtl`.
use go_dnsmasq.Base.{
  ℕ, ◌≤◌, ◌<◌, ◌≡◌, refl, sym, ◌∙◌, subst, inl, inr, List, [], ◌∷◌, arith, if◌then◌else◌, ltb, All,
  Occurs, Bool-cases,
}
use go_dnsmasq.Dns.{Msg, Rr}
use go_dnsmasq.Cache.{min_ttl, min_answer_ttl, lowest_ttl}

min_ttl-le : (n : ℕ) (rs : List Rr) → min_ttl n rs ≤ n
unfolding min_ttl
min_ttl-le n [] = omega arith
min_ttl-le n (r ∷ rs) = ground (arith, min_ttl-le n rs, min_ttl-le r.header.ttl rs)

min_ttl_lower : (n : ℕ) (rs : List Rr) → All (λ r. min_ttl n rs ≤ r.header.ttl) rs
unfolding min_ttl
min_ttl_lower n [] = tt
min_ttl_lower n (r ∷ rs) = (
  ground (arith, min_ttl-le n rs, min_ttl-le r.header.ttl rs),
  min_ttl_lower (if ltb r.header.ttl n then r.header.ttl else n) rs,
)

All-map {ℓ κ λ'} :
    {A : Type ℓ} {P : A → Type κ} {Q : A → Type λ'}
    → ((x : A) → P x → Q x)
    → (xs : List A) → All P xs
    → All Q xs
All-map f [] h = tt
All-map f (x ∷ xs) h = (f x h.0, All-map f xs h.1)

min_answer_ttl_lower : (rs : List Rr) → All (λ r. min_answer_ttl rs ≤ r.header.ttl) rs
min_answer_ttl_lower [] = tt
min_answer_ttl_lower (r ∷ rs) = (min_ttl-le r.header.ttl rs, min_ttl_lower r.header.ttl rs)

-- The minimum is that of an answer.
min_ttl-Occurs :
    (r : Rr) (rs : List Rr)
    → (a : Rr) × Occurs a (r ∷ rs) × (a.header.ttl ≡ min_ttl r.header.ttl rs)
unfolding min_ttl
min_ttl-Occurs r [] = (r, inl refl, refl)
min_ttl-Occurs r (s ∷ rs) = elim (Bool-cases (ltb s.header.ttl r.header.ttl)) [
  | inl less ↦ let (a, o, e) = min_ttl-Occurs s rs in (a, inr o, rw less e)
  | inr more ↦ let (a, o, e) = min_ttl-Occurs r rs in (a, in_front a o, rw more e)
]
  where
    in_front : (a : Rr) → Occurs a (r ∷ rs) → Occurs a (r ∷ s ∷ rs)
    in_front a (inl e) = inl e
    in_front a (inr o) = inr (inr o)

-- What the TTL of a response with these answers is, between the bounds: the lower bound where there is no answer, or
-- where an answer has a lower TTL; the upper bound where all answers have a greater one; and else the TTL of an answer,
-- and no answer has a lower one.
pub data IsLowest (rs : List Rr) (min max ttl : ℕ) : Type 0 where
  empty : rs ≡ [] → ttl ≡ min → IsLowest rs min max ttl
  raised : (a : Rr) → Occurs a rs → a.header.ttl < min → ttl ≡ min → IsLowest rs min max ttl
  lowered :
      (a : Rr)
      → Occurs a rs
      → All (λ b. max < b.header.ttl) rs
      → ttl ≡ max
      → IsLowest rs min max ttl
  taken :
      (a : Rr)
      → Occurs a rs
      → a.header.ttl ≡ ttl
      → All (λ b. ttl ≤ b.header.ttl) rs
      → IsLowest rs min max ttl

-- With a lower bound no greater than the upper one, the TTL taken from a response lies between the two, and it is the
-- lower bound where there is no answer, or where an answer has a lower TTL; the upper bound where all answers have a
-- greater one; and else the lowest TTL of the answers.
pub lowest_ttl_bounds :
    (r : Msg) (min max : ℕ)
    → min ≤ max
    → (min ≤ lowest_ttl r min max)
      × (lowest_ttl r min max ≤ max)
      × IsLowest r.answer min max (lowest_ttl r min max)
unfolding lowest_ttl
lowest_ttl_bounds r min max h = (ground arith, ground arith, by r.answer)
  where
    clamp : List Rr → ℕ
    clamp rs =
        if ltb (min_answer_ttl rs) min
        then min
        else if ltb max (min_answer_ttl rs)
        then max
        else min_answer_ttl rs

    by : (rs : List Rr) → IsLowest rs min max (clamp rs)
    by [] = empty refl (ground arith)
    by (s ∷ rs) =
        let (a, o, e) = min_ttl-Occurs s rs in
        let lower = min_answer_ttl_lower (s ∷ rs) in
        elim (Bool-cases (ltb (min_answer_ttl (s ∷ rs)) min)) [
          | inl low ↦ raised a o (ground (arith, e, low)) (rw low refl)
          | inr not_low ↦ elim (Bool-cases (ltb max (min_answer_ttl (s ∷ rs)))) [
            | inl high ↦
                lowered a o (All-map (λ b k. ground (arith, k, high)) (s ∷ rs) lower)
                  (rw (not_low, high) refl)
            | inr fits ↦
                let same : clamp (s ∷ rs) ≡ min_answer_ttl (s ∷ rs) = rw (not_low, fits) refl in
                taken a o (e ∙ sym same)
                  (subst (λ (n : ℕ). All (λ (b : Rr). n ≤ b.header.ttl) (s ∷ rs)) (sym same) lower)
          ]
        ]
