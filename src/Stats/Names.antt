-- ===== src/Stats/Names.antt =====
-- stats/graphite.go: the names of the counters.
use go_dnsmasq.Base.{
  ℕ, ◌≡◌, refl, ap, sym, subst, inl, inr, true, List, [], ◌∷◌, none, some, Occurs, All, map, arith,
  is_some, Bool-cases, get_elem?,
}
use go_dnsmasq.Base.Text.{Bytes, lit, equal}
use go_dnsmasq.Base.Text.Laws.{equal→eq}
use go_dnsmasq.Base.Map.{Map, lookup, Distinct}
use go_dnsmasq.Server.Tally.{index}
use go_dnsmasq.Server.World.{
  Counter, forward_count, stub_forward_count, lookup_count, request_count, dnssec_ok_count,
  name_error_count, refused_count, no_data_count, dnssec_cache_miss, cache_miss, cache_hit,
  stale_cache_hit, request_fail,
}
use go_dnsmasq.Stats.{counters}

-- No two counters are registered under one name, and none is left out.
pub counters-Distinct :
    Distinct counters × ((c : Counter) → Occurs c (map (λ (e : Bytes × Counter). e.1) counters))
unfolding lookup equal
counters-Distinct = (
  (
    refl,
    (
      refl,
      (refl, (refl, (refl, (refl, (refl, (refl, (refl, (refl, (refl, (refl, (refl, tt))))))))))),
    ),
  ),
  listed,
)
  where
    listed : (c : Counter) → Occurs c (map (λ (e : Bytes × Counter). e.1) counters)
    listed forward_count = inl refl
    listed stub_forward_count = inr (inl refl)
    listed dnssec_ok_count = inr (inr (inl refl))
    listed dnssec_cache_miss = inr (inr (inr (inl refl)))
    listed lookup_count = inr (inr (inr (inr (inl refl))))
    listed request_count = inr (inr (inr (inr (inr (inl refl)))))
    listed name_error_count = inr (inr (inr (inr (inr (inr (inl refl))))))
    listed refused_count = inr (inr (inr (inr (inr (inr (inr (inl refl)))))))
    listed no_data_count = inr (inr (inr (inr (inr (inr (inr (inr (inl refl))))))))
    listed cache_miss = inr (inr (inr (inr (inr (inr (inr (inr (inr (inl refl)))))))))
    listed cache_hit = inr (inr (inr (inr (inr (inr (inr (inr (inr (inr (inl refl))))))))))
    listed stale_cache_hit =
        inr (inr (inr (inr (inr (inr (inr (inr (inr (inr (inr (inl refl)))))))))))
    listed request_fail =
        inr (inr (inr (inr (inr (inr (inr (inr (inr (inr (inr (inr (inl refl))))))))))))

abbrev pub metric_name : Counter → Bytes
metric_name forward_count = lit "go-dnsmasq-forward-requests"
metric_name stub_forward_count = lit "go-dnsmasq-stub-forward-requests"
metric_name dnssec_ok_count = lit "go-dnsmasq-dnssecok-requests"
metric_name dnssec_cache_miss = lit "go-dnsmasq-dnssec-cache-miss"
metric_name lookup_count = lit "go-dnsmasq-internal-lookups"
metric_name request_count = lit "go-dnsmasq-requests"
metric_name name_error_count = lit "go-dnsmasq-nameerror-responses"
metric_name refused_count = lit "go-dnsmasq-refused"
metric_name no_data_count = lit "go-dnsmasq-nodata-responses"
metric_name cache_miss = lit "go-dnsmasq-cache-miss"
metric_name cache_hit = lit "go-dnsmasq-cache-hit"
metric_name stale_cache_hit = lit "go-dnsmasq-stale-cache-hit"
metric_name request_fail = lit "go-dnsmasq-stale-request-fail"

-- The counters by their number.
abbrev pub at_index : ℕ → Counter
at_index n =
    let all =
      forward_count ∷ stub_forward_count ∷ lookup_count ∷ request_count ∷ dnssec_ok_count
      ∷ name_error_count ∷ refused_count ∷ no_data_count ∷ dnssec_cache_miss ∷ cache_miss
      ∷ cache_hit ∷ stale_cache_hit ∷ [] in
    elim (get_elem? all n) [ none ↦ request_fail | some c ↦ c ]

pub at_index-index : (c : Counter) → at_index (index c) ≡ c
at_index-index forward_count = refl
at_index-index stub_forward_count = refl
at_index-index lookup_count = refl
at_index-index request_count = refl
at_index-index dnssec_ok_count = refl
at_index-index name_error_count = refl
at_index-index refused_count = refl
at_index-index no_data_count = refl
at_index-index dnssec_cache_miss = refl
at_index-index cache_miss = refl
at_index-index cache_hit = refl
at_index-index stale_cache_hit = refl
at_index-index request_fail = refl

pub All-Occurs : {A : Type 0} (P : A → Type 0) (x : A) (xs : List A) → All P xs → Occurs x xs → P x
All-Occurs P x [] h o = absurd o
All-Occurs P x (y ∷ ys) (p, ps) (inl e) = subst P (sym e) p
All-Occurs P x (y ∷ ys) (p, ps) (inr o) = All-Occurs P x ys ps o

abbrev pub Named : Bytes × Counter → Type 0
Named (k, c) = k ≡ metric_name c

pub All-counters : All Named counters
All-counters = (
  refl,
  (
    refl,
    (refl, (refl, (refl, (refl, (refl, (refl, (refl, (refl, (refl, (refl, (refl, tt))))))))))),
  ),
)

pub All-of : {A : Type 0} {P : A → Type 0} (xs : List A) → ((x : A) → Occurs x xs → P x) → All P xs
All-of [] h = tt
All-of (x ∷ xs) h = (h x (inl refl), All-of xs (λ y o. h y (inr o)))

pub lookup-Occurs :
    (es : Map Counter) (j : Bytes) → is_some (lookup j es) ≡ true → (d : Counter) × Occurs (j, d) es
unfolding lookup
lookup-Occurs [] j h = absurd (cc)
lookup-Occurs ((k, c) ∷ es) j h = elim (Bool-cases (equal k j)) [
  | inl e ↦ (c, inl (ap (λ (i : Bytes). (i, c)) (sym (equal→eq k j e))))
  | inr e ↦ let (d, o) = lookup-Occurs es j (ground (arith, h, e)) in (d, inr o)
]
