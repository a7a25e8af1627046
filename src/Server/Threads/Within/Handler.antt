-- ===== src/Server/Threads/Within/Handler.antt =====
-- server/server.go: how many steps the handler takes.
use go_dnsmasq.Base.{ℕ, suc, Bool, true, false, ◌&&◌, ◌||◌, List, [], ◌∷◌, Option, none, some, ◌==◌}
use go_dnsmasq.Base.Int.{pos, ltb_ℤ}
use go_dnsmasq.Base.Text.{Bytes, to_lower}
use go_dnsmasq.Cache.Key.{key}
use go_dnsmasq.Dns.{
  DnsLib, Question, Rr, Msg, empty_msg, rcode_server_failure, type_a, type_aaaa, class_chaos,
}
use go_dnsmasq.Fit.{fit}
use go_dnsmasq.Server.Config.{Config}
use go_dnsmasq.Server.Forward.{question0, serve_dns_forward}
use go_dnsmasq.Server.Records.{ptr_records}
use go_dnsmasq.Server.Rotate.{round_robin}
use go_dnsmasq.Server.Serve.{
  Moment, requested, fresh_reply, chaos_reply, store_in_cache, host_records, is_reverse,
}
use go_dnsmasq.Server.Threads.{
  Prog, finish, put, send, tally, forward, fitted_steps, serve_cached_steps, finish_local_steps,
  keep_response_steps, serve_forwarded_steps, serve_dns_reverse_step, serve_uncached_steps,
  by_cache_steps, serve_dns_steps,
}
use go_dnsmasq.Server.World.{Env, cache_hit}
use go_dnsmasq.Server.Threads.Within.{Within, Within-suc, or_panic-Within, hit-Within}

module _ (dns : DnsLib) (env : Env) (cfg : Config) (version : Bytes) (now : Moment)
    (tcp : Bool) where
  fitted-Within :
      (req m : Msg) (size : ℕ) (go_on : Msg → Prog) (n : ℕ)
      → ((m' : Msg) → Within (go_on m') (suc n))
      → Within (fitted_steps dns env cfg version now tcp req size m go_on) (suc n)
  unfolding fitted_steps Within
  fitted-Within req m size go_on n h =
      or_panic-Within (fit dns m _ tcp) _ (suc n) (λ r. chosen r (tcp && r.1))
    where
      chosen :
          (r : Msg × Bool) (b : Bool)
          → Within
              (elim b [
                | true ↦ send (dns.set_rcode empty_msg req rcode_server_failure) finish
                | false ↦ go_on r.0
              ])
              (suc n)
      chosen r true = tt
      chosen r false = h r.0

  serve_cached-Within :
      (q : Question) (size : ℕ) (req m : Msg)
      → Within (serve_cached_steps dns env cfg version now tcp q size req m) 6
  unfolding serve_cached_steps Within
  serve_cached-Within q size req m = fitted-Within req m size _ 5 (λ m'.
      or_panic-Within {A = List Rr}
        (elim (q.qtype == type_a || q.qtype == type_aaaa) [
          | true ↦ round_robin cfg.round_robin now.ids m'.answer
          | false ↦ some m'.answer
        ])
        (λ answer. send (record m' { answer = answer }) (tally true cache_hit finish)) 6
        (λ answer. tt))

  finish_local-Within :
      (q : Question) (dnssec : Bool) (size : ℕ) (req m : Msg)
      → Within (finish_local_steps dns env cfg version now tcp q dnssec size req m) 5
  unfolding finish_local_steps Within
  finish_local-Within q dnssec size req m = by_code (m.rcode == rcode_server_failure)
    where
      by_code :
          (b : Bool)
          → Within
              (elim b [
                | true ↦ send m finish
                | false ↦
                    fitted_steps dns env cfg version now tcp req size m
                      (λ m'. put now (key q dnssec tcp) m' (send m' finish))
              ])
              5
      by_code true = tt
      by_code false = fitted-Within req m size _ 4 (λ m'. tt)

  keep_response-Within :
      (q : Question) (dnssec wanted : Bool) (r : Msg × Bool)
      → Within (keep_response_steps dns env cfg version now tcp q dnssec wanted r) 1
  unfolding keep_response_steps Within
  keep_response-Within q dnssec wanted (resp, true) = tt
  keep_response-Within q dnssec true (resp, false) = tt
  keep_response-Within q dnssec false (resp, false) = tt

  serve_uncached-Within :
      (q : Question) (dnssec : Bool) (size : ℕ) (req : Msg) (records : List Rr)
      → Within (serve_uncached_steps dns env cfg version now tcp q dnssec size req records) 5
  unfolding serve_uncached_steps serve_forwarded_steps Within
  serve_uncached-Within q dnssec size req (r ∷ rest) = finish_local-Within q dnssec size req _
  serve_uncached-Within q dnssec size req [] =
      by (is_reverse dns env cfg version now tcp q (to_lower q.name)) (q.qclass == class_chaos)
    where
      by :
          (reverse chaos : Bool)
          → Within
              (elim reverse [
                | true ↦
                    forward
                      (serve_dns_reverse_step dns env cfg version now tcp q req
                        (ptr_records env q cfg.hosts_ttl))
                      (λ r. keep_response_steps dns env cfg version now tcp q dnssec true r)
                | false ↦ elim chaos [
                  | true ↦
                      finish_local_steps dns env cfg version now tcp q dnssec size req
                        (chaos_reply dns env cfg version now tcp q (to_lower q.name) req)
                  | false ↦ serve_forwarded_steps dns env cfg version now tcp q dnssec req
                ]
              ])
              5
      by true chaos = λ r. wide _ (keep_response-Within q dnssec true r)
        where
          wide : (p : Prog) → Within p 1 → Within p 4
          wide p h = Within-suc p 3 (Within-suc p 2 (Within-suc p 1 h))
      by false true = finish_local-Within q dnssec size req _
      by false false =
          hit-Within (key q dnssec tcp) (fresh_reply dns env cfg version now tcp req).id
            (ltb_ℤ (pos 0) cfg.rstale_ttl) true now.stale₁ now.stale₂
            (λ stale. forward (serve_dns_forward dns env cfg tcp req stale) (λ r.
              keep_response_steps dns env cfg version now tcp q dnssec
                (store_in_cache dns env cfg version now tcp r.0) r))
            2
            (λ stale r.
              keep_response-Within q dnssec (store_in_cache dns env cfg version now tcp r.0) r)

  by_cache-Within :
      (q : Question) (dnssec : Bool) (size : ℕ) (req : Msg) (found : Option Msg)
      → Within (by_cache_steps dns env cfg version now tcp q dnssec size req found) 6
  unfolding Within
  by_cache-Within q dnssec size req (some m1) = serve_cached-Within q size req m1
  by_cache-Within q dnssec size req none =
      serve_uncached-Within q dnssec size req
        (host_records dns env cfg version now tcp q (to_lower q.name))

  -- The handler ends after at most eleven steps.
  pub serve_dns-Within : (req : Msg) → Within (serve_dns_steps dns env cfg version now tcp req) 11
  unfolding serve_dns_steps Within
  serve_dns-Within req = or_panic-Within (question0 req) _ 11 (λ q.
      hit-Within (key q (requested dns req).1 tcp) (fresh_reply dns env cfg version now tcp req).id
        (ltb_ℤ (pos 0) cfg.rstale_ttl) false now.hit₁ now.hit₂
        (λ found.
          by_cache_steps dns env cfg version now tcp q (requested dns req).1 (requested dns req).0
            req found)
        6 (λ found. by_cache-Within q (requested dns req).1 (requested dns req).0 req found))
