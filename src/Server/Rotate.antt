-- ===== src/Server/Rotate.antt =====
-- server/server.go: `RoundRobin`. The values of `dns.Id()` are a stream, and the loop runs on fuel.
pub mod Laws
use go_dnsmasq.Base.{
  ℕ, zero, suc, ◌+◌, ◌*◌, ◌%◌, Bool, true, false, not, List, [], ◌∷◌, Option, none, some,
  if◌then◌else◌, ltb, ◌==◌, length, get_elem?, set,
}
use go_dnsmasq.Dns.{Rr, type_cname}

-- `rrs[i], rrs[j] = rrs[j], rrs[i]`; `none` is the fault of an index out of range.
unfoldable pub swap {ℓ} : {A : Type ℓ} → List A → ℕ → ℕ → Option (List A)
swap rrs i j = elim (get_elem? rrs i) [
  | none ↦ none
  | some a ↦ elim (get_elem? rrs j) [ none ↦ none | some b ↦ some (set (set rrs i b) j a) ]
]

-- `(p + 1) % l` where `p` is `q`.
abbrev pub other_index : ℕ → ℕ → ℕ → ℕ
other_index q p l = if q == p then (p + 1) % l else p

-- The loop over `j`. Its bound is drawn anew in each round; `n` counts the ids drawn.
unfoldable pub shuffle {ℓ} : {A : Type ℓ} → (ℕ → ℕ) → ℕ → ℕ → ℕ → ℕ → List A → Option (List A)
shuffle ids zero j l n rrs = none
shuffle ids (suc fuel) j l n rrs = elim (ltb j (l * (ids n % 4 + 1))) [
  | false ↦ some rrs
  | true ↦
      let q = ids (n + 1) % l in
      let p = other_index q (ids (n + 2) % l) l in
      elim (swap rrs q p) [ none ↦ none | some rrs' ↦ shuffle ids fuel (j + 1) l (n + 3) rrs' ]
]

-- The number of aliases.
unfoldable pub count_cname : List Rr → ℕ
count_cname [] = 0
count_cname (r ∷ rrs) =
    let rest = count_cname rrs in if r.header.rrtype == type_cname then suc rest else rest

-- The switch of `RoundRobin`.
unfoldable pub rotate {ℓ} : {A : Type ℓ} → (ℕ → ℕ) → List A → Option (List A)
unfolding swap shuffle
rotate ids rrs =
    let l = length rrs in
    if l == 2
    then (if ids 0 % 2 == 0 then swap rrs 0 1 else some rrs)
    else shuffle ids (4 * l + 1) 0 l 0 rrs

-- `RoundRobin`.
unfoldable pub round_robin : Bool → (ℕ → ℕ) → List Rr → Option (List Rr)
unfolding rotate count_cname
round_robin enabled ids rrs =
    if not enabled then some rrs else if ltb 1 (count_cname rrs) then some rrs else rotate ids rrs
