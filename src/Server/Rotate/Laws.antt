-- ===== src/Server/Rotate/Laws.antt =====
-- server/server.go: `RoundRobin` returns, and only changes the order.
use mathlib.Core.List.Perm
use mathlib.Core.List.{Perm}
use native.Mathlib.Nat.{mod-lt}
use go_dnsmasq.Base.{
  ℕ, zero, suc, ◌+◌, ◌*◌, ◌%◌, ◌≤◌, ◌<◌, ◌≡◌, refl, ap, ◌∙◌, ◌⊎◌, inl, inr, Bool, false, List, [],
  ◌∷◌, some, arith, ltb, ltb→lt, ◌==◌, length, get_elem?, set, Bool-cases,
}
use go_dnsmasq.Dns.{Rr}
use go_dnsmasq.Server.Rotate.{swap, other_index, shuffle, rotate, count_cname, round_robin}

bound-le : (l x : ℕ) → l * (x % 4 + 1) ≤ 4 * l
bound-le l x = grind arith

positive_bound : (l x j : ℕ) → j < l * (x % 4 + 1) → 0 < l
positive_bound zero x j h = absurd (omega arith)
positive_bound (suc l) x j h = omega arith

other_index-lt : (q p l : ℕ) → 0 < l → p < l → other_index q p l < l
other_index-lt q p l h k = ground (arith, mod-lt (p + 1) h)

module _ {A : Type 0} where
  length-set : (xs : List A) (i : ℕ) (v : A) → length (set xs i v) ≡ length xs
  length-set [] i v = refl
  length-set (x ∷ xs) zero v = refl
  length-set (x ∷ xs) (suc i) v = ap suc (length-set xs i v)

  in_range : (xs : List A) (i : ℕ) → i < length xs → (a : A) × (get_elem? xs i ≡ some a)
  in_range [] i h = absurd (omega arith)
  in_range (x ∷ xs) zero h = (x, refl)
  in_range (x ∷ xs) (suc i) h = in_range xs i (omega arith)

  get-set :
      (xs : List A) (i j : ℕ) (a b : A)
      → get_elem? xs i ≡ some a
      → get_elem? xs j ≡ some b
      → get_elem? (set xs i b) j ≡ some b
  get-set [] i j a b h k = cc
  get-set (x ∷ xs) zero zero a b h k = refl
  get-set (x ∷ xs) zero (suc j) a b h k = k
  get-set (x ∷ xs) (suc i) zero a b h k = k
  get-set (x ∷ xs) (suc i) (suc j) a b h k = get-set xs i j a b h k

  -- An element written over another takes its place.
  cons-set-perm :
      (xs : List A) (i : ℕ) (a b : A) → get_elem? xs i ≡ some a → Perm (b ∷ xs) (a ∷ set xs i b)
  cons-set-perm [] i a b h = absurd (cc)
  cons-set-perm (x ∷ xs) zero a b h = let e : x ≡ a = cc in rw e (Perm.swap a b xs)
  cons-set-perm (x ∷ xs) (suc i) a b h =
      Perm.trans (Perm.swap x b xs)
        (Perm.trans (Perm.cons x (cons-set-perm xs i a b h)) (Perm.swap a x (set xs i b)))

  swap-perm :
      (xs : List A) (i j : ℕ)
      → i < length xs
      → j < length xs
      → (ys : List A) × (swap xs i j ≡ some ys) × Perm ys xs × (length ys ≡ length xs)
  unfolding swap
  swap-perm xs i j hi hj =
      let (a, ea) = in_range xs i hi in
      let (b, eb) = in_range xs j hj in
      (
        set (set xs i b) j a,
        ground (arith, ea, eb),
        Perm.symm (
            Perm.cons_inv (
              Perm.trans (cons-set-perm xs i a b ea)
                (cons-set-perm (set xs i b) j b a (get-set xs i j a b ea eb)))),
        length-set (set xs i b) j a ∙ length-set xs i b,
      )

  shuffle-perm :
      (ids : ℕ → ℕ) (fuel j l n : ℕ) (xs : List A)
      → length xs ≡ l
      → j ≤ 4 * l
      → 4 * l < fuel + j
      → (ys : List A) × (shuffle ids fuel j l n xs ≡ some ys) × Perm ys xs
  unfolding shuffle
  shuffle-perm ids zero j l n xs len h k = absurd (omega arith)
  shuffle-perm ids (suc fuel) j l n xs len h k = elim (Bool-cases (ltb j (l * (ids n % 4 + 1)))) [
    | inr stop ↦ (xs, rw (stop, shuffle) refl, Perm.refl xs)
    | inl more ↦
        let lt = ltb→lt j (l * (ids n % 4 + 1)) more in
        let pos_l = positive_bound l (ids n) j lt in
        let q = ids (n + 1) % l in
        let p = other_index q (ids (n + 2) % l) l in
        let hq : q < length xs = rw len (mod-lt (ids (n + 1)) pos_l) in
        let hp : p < length xs =
          rw len (other_index-lt q (ids (n + 2) % l) l pos_l (mod-lt (ids (n + 2)) pos_l)) in
        let (xs', swapped, perm, len') = swap-perm xs q p hq hp in
        let (ys, runs, perm') =
          shuffle-perm ids fuel (j + 1) l (n + 3) xs' (len' ∙ len)
            (omega (arith, bound-le l (ids n), lt)) (omega arith) in
        (ys, rw (more, shuffle) (rw swapped runs), Perm.trans perm' perm)
  ]

  rotate-perm : (ids : ℕ → ℕ) (xs : List A) → (ys : List A) × (rotate ids xs ≡ some ys) × Perm ys xs
  unfolding rotate
  rotate-perm ids xs = elim (Bool-cases (length xs == 2)) [
    | inl two ↦ elim (Bool-cases (ids 0 % 2 == 0)) [
      | inl flip ↦
          let (ys, swapped, perm, _) = swap-perm xs 0 1 (ground arith) (ground arith) in
          (ys, rw (two, flip) swapped, perm)
      | inr keep ↦ (xs, rw (two, keep) refl, Perm.refl xs)
    ]
    | inr other ↦
        let (ys, runs, perm) =
          shuffle-perm ids (4 * length xs + 1) 0 (length xs) 0 xs refl (omega arith)
            (omega arith) in
        (ys, rw other runs, perm)
  ]

-- `RoundRobin` always returns, with no index out of range, and permutes the records. It leaves them alone
-- where the option is off, or where there is more than one alias.
pub round_robin-perm :
    (enabled : Bool) (ids : ℕ → ℕ) (rrs : List Rr)
    → (ys : List Rr) × (round_robin enabled ids rrs ≡ some ys)
      × Perm ys rrs
      × ((enabled ≡ false) ⊎ (1 < count_cname rrs) → ys ≡ rrs)
unfolding round_robin
round_robin-perm enabled ids rrs = elim (Bool-cases enabled) [
  | inr off ↦ (rrs, rw off refl, Perm.refl rrs, λ _. refl)
  | inl on ↦ elim (Bool-cases (ltb 1 (count_cname rrs))) [
    | inl many ↦ (rrs, rw (on, many) refl, Perm.refl rrs, λ _. refl)
    | inr few ↦
        let (ys, runs, perm) = rotate-perm ids rrs in
        (ys, rw (on, few) runs, perm, λ h. absurd (ground arith))
  ]
]
