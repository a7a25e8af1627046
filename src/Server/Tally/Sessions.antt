-- ===== src/Server/Tally/Sessions.antt =====
-- server/server.go: what a session counts.
use go_dnsmasq.Base.{ℕ, ◌+◌, ◌≡◌, ◌≤◌, refl, List, [], ◌∷◌, some, arith, of_Holds, All, length}
use go_dnsmasq.Base.Text.{Bytes}
use go_dnsmasq.Dns.{DnsLib, RepliesWell, LenWell}
use go_dnsmasq.Server.Config.{Config}
use go_dnsmasq.Server.Forward.Query.{IsFair}
use go_dnsmasq.Server.Forward.Reply.{StubsHaveServers}
use go_dnsmasq.Server.Serve.{serve_dns}
use go_dnsmasq.Server.Session.{Request, new_server, serve_all}
use go_dnsmasq.Server.Session.Replies.{IsRequest, serve_all-Writes}
use go_dnsmasq.Server.Tally.{count, hit_and_miss, Tallies, Tallies-silent}
use go_dnsmasq.Server.Tracks.Forward.{VisitsAll}
use go_dnsmasq.Server.World.{World, Env, request_count}
use go_dnsmasq.Server.Tally.Requests.{Counted, Counted-bind, serve_dns-Counted, least}

-- The requests over UDP.
abbrev pub over_udp : List Request → ℕ
over_udp [] = 0
over_udp (r ∷ rs) = least r.tcp + over_udp rs

-- The counters after a session, from a new server on.
pub record Tallied (rs : List Request) (w : World) : Type 0 where
  pub requests : count request_count w.counted ≡ length rs
  pub at_least : over_udp rs ≤ hit_and_miss w.counted
  pub at_most : hit_and_miss w.counted ≤ length rs

module _ (dns : DnsLib) (env : Env) (visits : VisitsAll env) (cfg : Config) (version : Bytes) where
  serve_all-Counted :
      (rs : List Request) (w : World)
      → Counted (length rs) (over_udp rs) (length rs) (serve_all dns env cfg version rs) w
  unfolding serve_all
  serve_all-Counted [] w = Tallies-silent w w refl
  serve_all-Counted (r ∷ rs) w =
      Counted-bind 1 (least r.tcp) 1 (length rs) (over_udp rs) (length rs)
        (serve_dns dns env cfg version r.now r.tcp r.msg) (λ _. serve_all dns env cfg version rs) w
        (omega arith) refl (omega arith)
        (serve_dns-Counted dns env visits cfg version r.now r.tcp r.msg w)
        (λ _ w₁. serve_all-Counted rs w₁)

  pub of_run :
      (rs : List Request) (w : World)
      → serve_all dns env cfg version rs (new_server cfg) ≡ some (tt, w)
      → Tallied rs w
  unfolding new_server count hit_and_miss
  of_run rs w runs =
      let t =
        of_Holds (λ p. Tallies (length rs) (over_udp rs) (length rs) (new_server cfg) p.1)
          (serve_all dns env cfg version rs (new_server cfg)) (tt, w)
          (serve_all-Counted rs (new_server cfg)) runs in
      record {
        requests = omega (arith, t.requests);
        at_least = omega (arith, t.at_least);
        at_most = omega (arith, t.at_most);
      }

  -- A new server that has handled requests with a question has counted each of them, and in its cache hits and
  -- misses together each of them at most once, and each over UDP at least once. The hypotheses: a `range` over
  -- the stub zones visits each of them and nothing else, the DNS library builds replies and measures messages as
  -- documented, upstream responses carry a question, every stub zone has a server, and the last eviction pass of
  -- each request visits the keys of the map.
  pub serve_all-Tallied :
      RepliesWell dns
      → LenWell dns
      → IsFair env
      → StubsHaveServers cfg
      → (rs : List Request) → All IsRequest rs
      → (w : World) × (serve_all dns env cfg version rs (new_server cfg) ≡ some (tt, w))
        × Tallied rs w
  serve_all-Tallied replies lens fair stubs rs a =
      let s = serve_all-Writes dns replies lens env fair cfg stubs version rs (new_server cfg) a in
      (s.after, s.runs, of_run rs s.after s.runs)
