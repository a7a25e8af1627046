-- ===== src/Control/Stats.antt =====
-- control/control.go, server/ and main.go together: what the statistics say of a program that was started.
use go_dnsmasq.Base.{
  ℕ, ◌+◌, ◌≡◌, refl, ◌≤◌, ◌<◌, ◌⊎◌, inl, inr, List, Option, some, arith, ltb, All, length,
  Bool-cases,
}
use go_dnsmasq.Base.Int.{pos, ◌≤ℤ◌, ◌<ℤ◌}
use go_dnsmasq.Base.Text.{Bytes}
use go_dnsmasq.Control.{HitRate, zero_rate, ratio, StatsResponse, hit_rate, stats_response}
use go_dnsmasq.Dns.{DnsLib, ClientConfig, RepliesWell, LenWell}
use go_dnsmasq.Hosts.Net.{Ip}
use go_dnsmasq.Options.{Flags, start}
use go_dnsmasq.Options.Service.{start-Served}
use go_dnsmasq.Server.Config.{Config}
use go_dnsmasq.Server.Forward.Query.{IsFair}
use go_dnsmasq.Server.Session.{Request, new_server, serve_all}
use go_dnsmasq.Server.Session.Replies.{IsRequest}
use go_dnsmasq.Server.Tally.{count, hit_and_miss}
use go_dnsmasq.Server.Tally.Sessions.{over_udp, of_run}
use go_dnsmasq.Server.Tracks.Forward.{VisitsAll}
use go_dnsmasq.Server.World.{World, Counter, Env, cache_hit}

-- The rate of so many hits among so many lookups: 0 exactly where there is no lookup, and else the quotient of the
-- two, which is at most 1.
abbrev pub IsRate : ℕ → ℕ → HitRate → Type 0
IsRate hits lookups zero_rate = lookups ≡ 0
IsRate hits lookups (ratio n d) = (n ≡ hits) × (d ≡ lookups) × (0 < lookups) × (hits ≤ lookups)

hit_rate-IsRate :
    (counted : List Counter)
    → IsRate (count cache_hit counted) (hit_and_miss counted) (hit_rate counted)
unfolding hit_rate hit_and_miss
hit_rate-IsRate counted = elim (Bool-cases (ltb 0 (hit_and_miss counted))) [
  | inl some_ ↦ rw some_ (refl, refl, ground (arith, some_), omega arith)
  | inr none_ ↦ rw none_ (ground (arith, none_))
]

-- The statistics after these requests.
pub record Reports (c : Config) (rs : List Request) (s : StatsResponse) : Type 0 where
  pub requests : s.request_count ≡ length rs
  pub at_least : over_udp rs ≤ s.cache_hit + s.cache_miss
  pub at_most : s.cache_hit + s.cache_miss ≤ length rs
  pub rate : IsRate s.cache_hit (s.cache_hit + s.cache_miss) s.cache_hit_rate
  pub size : (c.rcache ≤ℤ pos 0) ⊎ (pos s.cache_size <ℤ s.cache_capacity)

module _ (parse_ip : Bytes → Ip) (dns : DnsLib) where
  -- A program that was started and has answered a list of requests that have a question reports of them: as many
  -- requests as there were; a hit or a miss for each at most and for each over UDP at least; a hit rate that is 0
  -- where there was neither, and else the quotient of the hits and of the hits and misses together, which is at most 1;
  -- and fewer cache entries than the capacity, unless caching is off. The hypotheses: the DNS library builds replies
  -- and measures messages as documented, upstream responses carry a question, a `range` over the stub zones visits each
  -- of them and nothing else, and the last eviction pass of each request visits the keys of the map.
  pub start-Reports :
      (flags : Flags) (conf : Option ClientConfig) (c : Config) (version : Bytes) (env : Env)
      (rs : List Request)
      → RepliesWell dns
      → LenWell dns
      → IsFair env
      → VisitsAll env
      → All IsRequest rs
      → start parse_ip dns flags conf ≡ some c
      → (w : World) × (serve_all dns env c version rs (new_server c) ≡ some (tt, w))
        × Reports c rs (stats_response w)
  unfolding stats_response hit_and_miss
  start-Reports flags conf c version env rs replies lens fair visits a e =
      let served = start-Served parse_ip dns flags conf c version env rs replies lens fair a e in
      let w = served.session.after in
      let t = of_run dns env visits c version rs w served.session.runs in
      (
        w,
        served.session.runs,
        record {
          requests = t.requests;
          at_least = t.at_least;
          at_most = t.at_most;
          rate = hit_rate-IsRate w.counted;
          size = elim served.cache [ inl off ↦ inl off | inr b ↦ inr b.below ];
        },
      )
