-- ===== src/Server/Tally.antt =====
-- server/stats.go: what the counters say after a number of requests to server/server.go.
pub mod Requests
pub mod Sessions
use go_dnsmasq.Base.{
  ℕ, ◌+◌, ◌*◌, ◌≡◌, ◌≤◌, refl, Bool, true, false, List, [], ◌∷◌, ◌++◌, Option, none, some, arith,
  Holds, if◌then◌else◌, ◌==◌,
}
use go_dnsmasq.Server.Config.{Config}
use go_dnsmasq.Server.Tracks.{is_forwarding, Tracks}
use go_dnsmasq.Server.World.{
  World, Counter, M, pure, ◌>>=◌, ◌>>◌, forward_count, stub_forward_count, name_error_count,
  no_data_count, stale_cache_hit, request_fail, lookup_count, request_count, dnssec_ok_count,
  refused_count, dnssec_cache_miss, cache_miss, cache_hit,
}

-- The number of a counter.
abbrev pub index : Counter → ℕ
index forward_count = 0
index stub_forward_count = 1
index lookup_count = 2
index request_count = 3
index dnssec_ok_count = 4
index name_error_count = 5
index refused_count = 6
index no_data_count = 7
index dnssec_cache_miss = 8
index cache_miss = 9
index cache_hit = 10
index stale_cache_hit = 11
index request_fail = 12

-- `Count()` of a counter that has been incremented as listed. Its type is int64; the wrap-around behind `2 ^ 63 - 1`
-- increments is left out.
unfoldable pub count : Counter → List Counter → ℕ
count c [] = 0
count c (d ∷ ds) = (if index c == index d then 1 else 0) + count c ds

count-append :
    (c d : Counter) (ds : List Counter)
    → count c (ds ++ d ∷ []) ≡ count c ds + (if index c == index d then 1 else 0)
unfolding count
count-append c d [] = omega arith
count-append c d (e ∷ ds) = omega (arith, count-append c d ds)

-- `StatsCacheHit.Count() + StatsCacheMiss.Count()`.
unfoldable pub hit_and_miss : List Counter → ℕ
hit_and_miss ds = count cache_hit ds + count cache_miss ds

-- In between, the requests grew by `n`, and the hits and misses together by `low` at least and `high` at most.
pub record Tallies (n low high : ℕ) (w w' : World) : Type 0 where
  pub requests : count request_count w'.counted ≡ n + count request_count w.counted
  pub at_least : low + hit_and_miss w.counted ≤ hit_and_miss w'.counted
  pub at_most : hit_and_miss w'.counted ≤ high + hit_and_miss w.counted

pub Tallies-trans :
    {n low high n' low' high' a b c : ℕ} (u v w : World)
    → a ≡ n + n'
    → b ≡ low + low'
    → c ≡ high + high'
    → Tallies n low high u v
    → Tallies n' low' high' v w
    → Tallies a b c u w
Tallies-trans u v w e e' e'' s t = record {
  requests = omega (arith, e, s.requests, t.requests);
  at_least = omega (arith, e', s.at_least, t.at_least);
  at_most = omega (arith, e'', s.at_most, t.at_most);
}

pub Tallies-silent : (w w' : World) → w'.counted ≡ w.counted → Tallies 0 0 0 w w'
Tallies-silent w w' e = record {
  requests = rw e (omega arith);
  at_least = rw e (omega arith);
  at_most = rw e (omega arith);
}

-- One increment.
pub Tallies-counts :
    (c : Counter) (w : World) (n k : ℕ)
    → count request_count (c ∷ []) ≡ n
    → hit_and_miss (c ∷ []) ≡ k
    → Tallies n k k w (record w { counted = w.counted ++ c ∷ [] })
unfolding count hit_and_miss
Tallies-counts c w n k e e' =
    let r = count-append request_count c w.counted in
    let h = count-append cache_hit c w.counted in
    let m = count-append cache_miss c w.counted in
    record {
      requests = omega (arith, r, e);
      at_least = omega (arith, h, m, e');
      at_most = omega (arith, h, m, e');
    }

forwarding_only :
    (c : Counter)
    → is_forwarding c ≡ true
    → (count request_count (c ∷ []) ≡ 0) × (hit_and_miss (c ∷ []) ≡ 0)
unfolding count hit_and_miss
forwarding_only forward_count e = (refl, refl)
forwarding_only stub_forward_count e = (refl, refl)
forwarding_only name_error_count e = (refl, refl)
forwarding_only no_data_count e = (refl, refl)
forwarding_only stale_cache_hit e = (refl, refl)
forwarding_only request_fail e = (refl, refl)
forwarding_only lookup_count e = (refl, refl)
forwarding_only request_count e = absurd (ground (arith, e))
forwarding_only dnssec_ok_count e = (refl, refl)
forwarding_only refused_count e = (refl, refl)
forwarding_only dnssec_cache_miss e = (refl, refl)
forwarding_only cache_miss e = absurd (ground (arith, e))
forwarding_only cache_hit e = absurd (ground (arith, e))

-- Forwarding leaves these counters alone.
pub Tallies-Tracks : (cfg : Config) (tcp : Bool) → Tracks cfg tcp (Tallies 0 0 0)
Tallies-Tracks cfg tcp = record {
  same = λ w. Tallies-silent w w refl;
  trans = λ u v w s t. Tallies-trans u v w refl refl refl s t;
  counts = λ c w e. (let (r, h) = forwarding_only c e in Tallies-counts c w 0 0 r h);
  writes = λ m w. Tallies-silent w _ refl;
  asks = λ q w a. Tallies-silent w _ refl;
  caches = λ c w. Tallies-silent w _ refl;
}
