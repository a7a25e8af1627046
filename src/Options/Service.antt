-- ===== src/Options/Service.antt =====
-- main.go and server/server.go together: the service of a program that was started.
use go_dnsmasq.Base.{
  Holds-bind, of_Holds, ◌≡◌, ◌⊎◌, inl, inr, List, Option, some, arith, All, map, Bool-cases, leb→le,
}
use go_dnsmasq.Base.Int.{pos, ◌≤ℤ◌, leb_ℤ}
use go_dnsmasq.Base.Text.{Bytes}
use go_dnsmasq.Cache.Evict.{IsBounded}
use go_dnsmasq.Cache.Insert.{new-IsBounded}
use go_dnsmasq.Dns.{DnsLib, ClientConfig, RepliesWell, LenWell}
use go_dnsmasq.Hosts.Net.{Ip}
use go_dnsmasq.Options.{Flags, config_of, start}
use go_dnsmasq.Options.Start.{IsReady, configure-Holds}
use go_dnsmasq.Server.Config.{Config, resolv_conf}
use go_dnsmasq.Server.Forward.Query.{IsFair}
use go_dnsmasq.Server.Session.{Request, new_server, serve_all}
use go_dnsmasq.Server.Session.Replies.{IsRequest, Writes, serve_all-Writes}
use go_dnsmasq.Server.World.{Env}

module _ (parse_ip : Bytes → Ip) (dns : DnsLib) where
  pub start-IsReady :
      (flags : Flags) (conf : Option ClientConfig) (c : Config)
      → start parse_ip dns flags conf ≡ some c
      → IsReady parse_ip dns c
  unfolding start
  start-IsReady flags conf c e =
      of_Holds (IsReady parse_ip dns) _ c
        (Holds-bind (IsReady parse_ip dns) (config_of parse_ip dns flags) _ (λ c₀ _.
          configure-Holds parse_ip dns (resolv_conf dns c₀ flags.ndots_set conf).0 flags.stubzones))
        e

  -- What a session leaves: the responses, and the cache within its bound if there is one.
  pub record Served (c : Config) (version : Bytes) (env : Env) (rs : List Request) : Type 0 where
    pub session :
        Writes (map (λ (r : Request). r.msg.id) rs) (serve_all dns env c version rs) (new_server c)
    pub cache : (c.rcache ≤ℤ pos 0) ⊎ IsBounded session.after.cache

  -- A program that was started serves every list of requests that have a question: none makes the handler fault,
  -- each gets one response, in order, with its id, and the cache stays within its bound, unless its capacity
  -- is 0. The hypotheses: the DNS library builds replies and measures messages as documented, upstream responses
  -- carry a question, and the last eviction pass of each request visits the keys of the map.
  pub start-Served :
      (flags : Flags) (conf : Option ClientConfig) (c : Config) (version : Bytes) (env : Env)
      (rs : List Request)
      → RepliesWell dns
      → LenWell dns
      → IsFair env
      → All IsRequest rs
      → start parse_ip dns flags conf ≡ some c
      → Served c version env rs
  unfolding new_server
  start-Served flags conf c version env rs replies lens fair a e =
      let ready = start-IsReady flags conf c e in
      let session =
        serve_all-Writes dns replies lens env fair c ready.served version rs (new_server c) a in
      record {
        session = session;
        cache = elim (Bool-cases (leb_ℤ c.rcache (pos 0))) [
          | inl off ↦ inl (leb→le _ _ off)
          | inr on ↦ inr (
              session.bounded (
                new-IsBounded c.rcache c.rcache_ttl c.rstale_ttl c.rcache_ttl_from_resp
                  c.rcache_ttl_max (ground (arith, on))))
        ];
      }
