-- ===== src/Server/Threads/Owes/Handler.antt =====
-- server/server.go: what the steps of `ServeDNS` write, whatever other goroutines do to the cache in between.
use go_dnsmasq.Base.{
  ℕ, ◌≡◌, ◌∙◌, Bool, true, false, ◌&&◌, List, [], ◌∷◌, Option, none, some, arith, if◌then◌else◌,
  ◌==◌,
}
use go_dnsmasq.Base.Int.{pos, ltb_ℤ}
use go_dnsmasq.Base.Text.{Bytes, to_lower}
use go_dnsmasq.Cache.Key.{key}
use go_dnsmasq.Dns.{
  DnsLib, RepliesWell, LenWell, Question, Rr, Msg, empty_msg, rcode_server_failure, class_chaos,
  max_msg_size,
}
use go_dnsmasq.Fit.{fit}
use go_dnsmasq.Fit.Laws.{fit-Fitted}
use go_dnsmasq.Server.Config.{Config, is_nil}
use go_dnsmasq.Server.Forward.{question0, serve_dns_forward}
use go_dnsmasq.Server.Forward.Query.{IsFair}
use go_dnsmasq.Server.Forward.Search.{cons_of_some}
use go_dnsmasq.Server.Forward.Reply.{
  Replies, reply-Replies, StaleFor, StubsHaveServers, serve_dns_forward-Replies,
}
use go_dnsmasq.Server.Records.{ptr_records}
use go_dnsmasq.Server.Serve.{
  Moment, requested, fresh_reply, chaos_reply, store_in_cache, host_records, is_reverse,
}
use go_dnsmasq.Server.Serve.Laws.{OrdersFair}
use go_dnsmasq.Server.Serve.Once.{rotated, fresh_reply-id, chaos_reply-id}
use go_dnsmasq.Server.Threads.{
  Prog, finish, put, send, forward, fitted_steps, serve_cached_steps, finish_local_steps,
  keep_response_steps, serve_forwarded_steps, serve_dns_reverse_step, serve_uncached_steps,
  by_cache_steps, serve_dns_steps,
}
use go_dnsmasq.Server.World.{World, Env}
use go_dnsmasq.Server.Threads.Owes.{Debt, Owes, Rest, hit-Owes, or_panic-Owes}

module _ (dns : DnsLib) (replies : RepliesWell dns) (lens : LenWell dns) (env : Env)
    (fair : IsFair env) (cfg : Config) (stubs : StubsHaveServers cfg) (version : Bytes)
    (now : Moment) (orders : OrdersFair now) (tcp : Bool) where
  fitted-Owes :
      (req m : Msg) (size : ℕ) (go_on : Msg → Prog)
      → m.id ≡ req.id
      → ((m' : Msg) → m'.id ≡ req.id → Owes req (go_on m'))
      → Owes req (fitted_steps dns env cfg version now tcp req size m go_on)
  unfolding fitted_steps Debt
  fitted-Owes req m size go_on e k =
      let limit = if tcp then max_msg_size else size in
      let (r, runs, f) = fit-Fitted dns lens m limit tcp in
      or_panic-Owes req (fit dns m limit tcp) r _ runs (chosen r (f.same_id ∙ e) (tcp && r.1))
    where
      chosen :
          (r : Msg × Bool)
          → r.0.id ≡ req.id
          → (b : Bool)
          → Owes req (elim b [
            | true ↦ send (dns.set_rcode empty_msg req rcode_server_failure) finish
            | false ↦ go_on r.0
          ])
      chosen r same true = (replies.set_rcode_id empty_msg req rcode_server_failure, tt)
      chosen r same false = k r.0 same

  serve_cached-Owes :
      (q : Question) (size : ℕ) (req m : Msg)
      → m.id ≡ req.id
      → Owes req (serve_cached_steps dns env cfg version now tcp q size req m)
  unfolding serve_cached_steps Debt
  serve_cached-Owes q size req m e = fitted-Owes req m size _ e (λ m' same.
      let (rrs, runs) = rotated dns replies lens env fair cfg stubs version now orders tcp q m' in
      or_panic-Owes req _ rrs _ runs (same, tt))

  finish_local-Owes :
      (q : Question) (dnssec : Bool) (size : ℕ) (req m : Msg)
      → m.id ≡ req.id
      → Owes req (finish_local_steps dns env cfg version now tcp q dnssec size req m)
  unfolding finish_local_steps Debt
  finish_local-Owes q dnssec size req m e = by_code (m.rcode == rcode_server_failure)
    where
      by_code :
          (b : Bool)
          → Owes req (elim b [
            | true ↦ send m finish
            | false ↦
                fitted_steps dns env cfg version now tcp req size m
                  (λ m'. put now (key q dnssec tcp) m' (send m' finish))
          ])
      by_code true = (e, tt)
      by_code false = fitted-Owes req m size _ e (λ m' same. (orders, (same, tt)))

  keep_response-Rest :
      (q : Question) (dnssec wanted : Bool) (r : Msg × Bool)
      → Rest (keep_response_steps dns env cfg version now tcp q dnssec wanted r)
  unfolding keep_response_steps Debt
  keep_response-Rest q dnssec wanted (resp, true) = tt
  keep_response-Rest q dnssec true (resp, false) = (orders, tt)
  keep_response-Rest q dnssec false (resp, false) = tt

  serve_forwarded-Owes :
      (q : Question) (dnssec : Bool) (req : Msg)
      → is_nil req.question ≡ false
      → Owes req (serve_forwarded_steps dns env cfg version now tcp q dnssec req)
  unfolding serve_forwarded_steps Debt
  serve_forwarded-Owes q dnssec req asks =
      let same = fresh_reply-id dns replies lens env fair cfg stubs version now orders tcp req in
      hit-Owes req (key q dnssec tcp) _ (ltb_ℤ (pos 0) cfg.rstale_ttl) true now.stale₁ now.stale₂
        (λ stale. forward (serve_dns_forward dns env cfg tcp req stale) (λ r.
          keep_response_steps dns env cfg version now tcp q dnssec
            (store_in_cache dns env cfg version now tcp r.0) r))
        (later none tt) (λ m e. later (some m) (e ∙ same))
    where
      later :
          (stale : Option Msg)
          → StaleFor req stale
          → ((w : World) → Replies req (serve_dns_forward dns env cfg tcp req stale) w)
            × ((r : Msg × Bool)
                → Rest (
                    keep_response_steps dns env cfg version now tcp q dnssec
                      (store_in_cache dns env cfg version now tcp r.0)
                      r))
      later stale h = (
        λ w. serve_dns_forward-Replies dns env cfg tcp replies fair stubs req stale w asks h,
        λ r. keep_response-Rest q dnssec (store_in_cache dns env cfg version now tcp r.0) r,
      )

  reverse_step-Replies :
      (q : Question) (req : Msg) (records : List Rr) (w : World)
      → is_nil req.question ≡ false
      → Replies req (serve_dns_reverse_step dns env cfg version now tcp q req records) w
  reverse_step-Replies q req [] w asks =
      serve_dns_forward-Replies dns env cfg tcp replies fair stubs req none w asks tt
  reverse_step-Replies q req (r ∷ rest) w asks =
      reply-Replies req _ w
        (fresh_reply-id dns replies lens env fair cfg stubs version now orders tcp req)

  serve_uncached-Owes :
      (q : Question) (dnssec : Bool) (size : ℕ) (req : Msg) (records : List Rr)
      → is_nil req.question ≡ false
      → Owes req (serve_uncached_steps dns env cfg version now tcp q dnssec size req records)
  unfolding serve_uncached_steps Debt
  serve_uncached-Owes q dnssec size req (r ∷ rest) asks =
      finish_local-Owes q dnssec size req _
        (fresh_reply-id dns replies lens env fair cfg stubs version now orders tcp req)
  serve_uncached-Owes q dnssec size req [] asks =
      by (is_reverse dns env cfg version now tcp q (to_lower q.name)) (q.qclass == class_chaos)
    where
      by :
          (reverse chaos : Bool)
          → Owes req (elim reverse [
            | true ↦
                forward
                  (serve_dns_reverse_step dns env cfg version now tcp q req
                    (ptr_records env q cfg.hosts_ttl))
                  (λ r. keep_response_steps dns env cfg version now tcp q dnssec true r)
            | false ↦ elim chaos [
              | true ↦
                  finish_local_steps dns env cfg version now tcp q dnssec size req
                    (chaos_reply dns env cfg version now tcp q (to_lower q.name) req)
              | false ↦ serve_forwarded_steps dns env cfg version now tcp q dnssec req
            ]
          ])
      by true chaos = (
        λ w. reverse_step-Replies q req (ptr_records env q cfg.hosts_ttl) w asks,
        λ r. keep_response-Rest q dnssec true r,
      )
      by false true = finish_local-Owes q dnssec size req _ (
          chaos_reply-id dns replies lens env fair cfg stubs version now orders tcp q
            (to_lower q.name) req)
      by false false = serve_forwarded-Owes q dnssec req asks

  by_cache-Owes :
      (q : Question) (dnssec : Bool) (size : ℕ) (req : Msg) (found : Option Msg)
      → is_nil req.question ≡ false
      → StaleFor req found
      → Owes req (by_cache_steps dns env cfg version now tcp q dnssec size req found)
  unfolding Debt
  by_cache-Owes q dnssec size req (some m1) asks h = serve_cached-Owes q size req m1 h
  by_cache-Owes q dnssec size req none asks h =
      serve_uncached-Owes q dnssec size req
        (host_records dns env cfg version now tcp q (to_lower q.name)) asks

  -- The handler owes one response to a request that has a question.
  pub serve_dns-Owes :
      (req : Msg)
      → is_nil req.question ≡ false
      → Owes req (serve_dns_steps dns env cfg version now tcp req)
  unfolding serve_dns_steps Debt
  serve_dns-Owes req asks =
      let (q, qs, e) = cons_of_some req.question asks in
      let size = (requested dns req).0 in
      let dnssec = (requested dns req).1 in
      let same = fresh_reply-id dns replies lens env fair cfg stubs version now orders tcp req in
      or_panic-Owes req (question0 req) q _ (ground (arith, e)) (
        hit-Owes req (key q dnssec tcp) (fresh_reply dns env cfg version now tcp req).id
          (ltb_ℤ (pos 0) cfg.rstale_ttl) false now.hit₁ now.hit₂
          (λ found. by_cache_steps dns env cfg version now tcp q dnssec size req found)
          (by_cache-Owes q dnssec size req none asks tt)
          (λ m e. by_cache-Owes q dnssec size req (some m) asks (e ∙ same)))
