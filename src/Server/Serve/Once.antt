-- ===== src/Server/Serve/Once.antt =====
-- server/server.go: `ServeDNS` answers every request once.
use go_dnsmasq.Base.{
  ℕ, ◌≡◌, refl, ◌∙◌, inl, inr, Bool, true, false, not, ◌&&◌, ◌||◌, List, [], ◌∷◌, ◌++◌, Option,
  none, some, arith, if◌then◌else◌, ◌==◌, Bool-cases,
}
use go_dnsmasq.Base.Int.{pos, ltb_ℤ}
use go_dnsmasq.Base.Text.{Bytes, to_lower}
use go_dnsmasq.Cache.Key.{key}
use go_dnsmasq.Cache.Hit.Life.{HasId}
use go_dnsmasq.Dns.{
  DnsLib, RepliesWell, LenWell, Question, Rr, Msg, empty_msg, rcode_server_failure, type_a,
  type_aaaa, class_chaos, max_msg_size,
}
use go_dnsmasq.Fit.{fit}
use go_dnsmasq.Fit.Laws.{fit-Fitted}
use go_dnsmasq.Server.Config.{Config, is_nil}
use go_dnsmasq.Server.Forward.{question0, lift, reply, serve_dns_forward}
use go_dnsmasq.Server.Forward.Query.{IsFair}
use go_dnsmasq.Server.Forward.Search.{cons_of_some}
use go_dnsmasq.Server.Forward.Reply.{
  reply-Replies, StaleFor, StubsHaveServers, serve_dns_forward-Replies,
}
use go_dnsmasq.Server.Records.{ptr_records}
use go_dnsmasq.Server.Rotate.{round_robin}
use go_dnsmasq.Server.Rotate.Laws.{round_robin-perm}
use go_dnsmasq.Server.Serve.Laws.{
  Silent, Serves, Silent-lift, Silent-Serves, Serves-Silent, Done, Silent-inc_if, Silent-inc,
  Serves-write, Serves-Replies, Silent-look_up, OrdersFair, Silent-insert,
}
use go_dnsmasq.Server.World.{
  World, Env, M, ◌>>=◌, ◌>>◌, write_msg, inc, inc_if, request_count, dnssec_ok_count, cache_hit,
  cache_miss,
}
use go_dnsmasq.Server.Serve.{
  Moment, insert, requested, write_failure, fitted, fresh_reply, serve_cached, finish_local,
  serve_dns_reverse, chaos_reply, keep_response, store_in_cache, serve_forwarded, host_records,
  is_reverse, serve_uncached, serve_dns,
}

module _ (dns : DnsLib) (replies : RepliesWell dns) (lens : LenWell dns) (env : Env)
    (fair : IsFair env) (cfg : Config) (stubs : StubsHaveServers cfg) (version : Bytes)
    (now : Moment) (orders : OrdersFair now) (tcp : Bool) where
  fitted-Serves :
      (req m : Msg) (size : ℕ) (go_on : Msg → M (Unit {0})) (w : World)
      → m.id ≡ req.id
      → ((m' : Msg) (w' : World) → m'.id ≡ req.id → Serves req (go_on m') w')
      → Serves req (fitted dns env cfg version now tcp req size m go_on) w
  unfolding fitted write_failure
  fitted-Serves req m size go_on w e k =
      let limit = if tcp then max_msg_size else size in
      let (r, runs, f) = fit-Fitted dns lens m limit tcp in
      Silent-Serves (λ p. p.0.id ≡ req.id) req (lift (fit dns m limit tcp)) _ w
        (Silent-lift (λ p. p.0.id ≡ req.id) _ r w runs (f.same_id ∙ e))
        (λ p w₁ same. choose p w₁ same)
    where
      choose :
          (p : Msg × Bool) (w₁ : World)
          → p.0.id ≡ req.id
          → Serves req
              (elim (tcp && p.1) [
                | true ↦ write_failure dns env cfg version now tcp req
                | false ↦ go_on p.0
              ])
              w₁
      choose p w₁ same = elim (Bool-cases (tcp && p.1)) [
        | inl over ↦
            rw over
              (Serves-write req _ w₁ (replies.set_rcode_id empty_msg req rcode_server_failure))
        | inr fits ↦ rw fits (k p.0 w₁ same)
      ]

  pub rotated :
      (q : Question) (m : Msg)
      → (rrs : List Rr) × ((elim (q.qtype == type_a || q.qtype == type_aaaa) [
        | true ↦ round_robin cfg.round_robin now.ids m.answer
        | false ↦ some m.answer
      ])
          ≡ some rrs)
  rotated q m = elim (Bool-cases (q.qtype == type_a || q.qtype == type_aaaa)) [
    | inl addresses ↦
        let (rrs, runs, _, _) = round_robin-perm cfg.round_robin now.ids m.answer in
        (rrs, rw addresses runs)
    | inr others ↦ (m.answer, rw others refl)
  ]

  serve_cached-Serves :
      (q : Question) (size : ℕ) (req m : Msg) (w : World)
      → m.id ≡ req.id
      → Serves req (serve_cached dns env cfg version now tcp q size req m) w
  unfolding serve_cached
  serve_cached-Serves q size req m w e = fitted-Serves req m size _ w e (λ m' w₁ same.
      let (rrs, runs) = rotated q m' in
      Silent-Serves Done req _ _ w₁ (Silent-lift Done _ rrs w₁ runs tt) (λ answer w₂ _.
        Serves-Silent Done req (write_msg (record m' { answer = answer })) _ w₂
          (Serves-write req (record m' { answer = answer }) w₂ same)
          (λ _ w₃. Silent-inc cache_hit w₃)))

  finish_local-Serves :
      (q : Question) (dnssec : Bool) (size : ℕ) (req m : Msg) (w : World)
      → m.id ≡ req.id
      → Serves req (finish_local dns env cfg version now tcp q dnssec size req m) w
  unfolding finish_local
  finish_local-Serves q dnssec size req m w e =
      elim (Bool-cases (m.rcode == rcode_server_failure)) [
        | inl failure ↦ rw (failure, finish_local) (Serves-write req m w e)
        | inr other ↦
            rw (other, finish_local)
              (fitted-Serves req m size _ w e (λ m' w₁ same.
                Silent-Serves Done req (insert now (key q dnssec tcp) m') _ w₁
                  (Silent-insert now orders (key q dnssec tcp) m' w₁)
                  (λ _ w₂ _. Serves-write req m' w₂ same)))
      ]

  pub fresh_reply-id : (req : Msg) → (fresh_reply dns env cfg version now tcp req).id ≡ req.id
  unfolding fresh_reply
  fresh_reply-id req = replies.set_reply_id empty_msg req

  pub chaos_reply-id :
      (q : Question) (name : Bytes) (req : Msg)
      → (chaos_reply dns env cfg version now tcp q name req).id ≡ req.id
  unfolding chaos_reply
  chaos_reply-id q name req = ground (
    arith,
    replies.set_reply_id empty_msg req,
    replies.set_rcode_id
        (dns.set_reply
          (record (fresh_reply dns env cfg version now tcp req) { authoritative = true }) req)
        req rcode_server_failure,
  )

  keep_response-Silent :
      (q : Question) (dnssec wanted : Bool) (r : Msg × Bool) (w : World)
      → Silent Done (keep_response dns env cfg version now tcp q dnssec wanted r) w
  unfolding keep_response
  keep_response-Silent q dnssec wanted (resp, stale) w = elim (Bool-cases (wanted && not stale)) [
    | inl kept ↦ rw (kept, keep_response) (Silent-insert now orders (key q dnssec tcp) resp w)
    | inr dropped ↦ rw (dropped, keep_response) (Silent-lift Done (some tt) tt w refl tt)
  ]

  reverse-Serves :
      (q : Question) (req : Msg) (records : List Rr) (w : World)
      → is_nil req.question ≡ false
      → Serves req
          (elim records [
            | [] ↦ serve_dns_forward dns env cfg tcp req none
            | r ∷ rest ↦
                reply (record (fresh_reply dns env cfg version now tcp req) { answer = r ∷ rest })
          ])
          w
  reverse-Serves q req [] w asks =
      Serves-Replies req _ w
        (serve_dns_forward-Replies dns env cfg tcp replies fair stubs req none w asks tt)
  reverse-Serves q req (r ∷ rest) w asks =
      Serves-Replies req _ w (reply-Replies req _ w (fresh_reply-id req))

  forwarded-Serves :
      (q : Question) (dnssec : Bool) (req : Msg) (w : World)
      → is_nil req.question ≡ false
      → Serves req (serve_forwarded dns env cfg version now tcp q dnssec req) w
  unfolding serve_forwarded
  forwarded-Serves q dnssec req w asks =
      let msgid = (fresh_reply dns env cfg version now tcp req).id in
      Silent-Serves (HasId msgid) req _ _ w
        (Silent-look_up q dnssec tcp msgid (ltb_ℤ (pos 0) cfg.rstale_ttl) true now.stale₁ now.stale₂
          w)
        (λ stale w₁ ok.
          Serves-Silent Done req (serve_dns_forward dns env cfg tcp req stale) _ w₁
            (Serves-Replies req _ w₁ (
              serve_dns_forward-Replies dns env cfg tcp replies fair stubs req stale w₁ asks
                (for_request req stale ok)))
            (λ r w₂.
              keep_response-Silent q dnssec (store_in_cache dns env cfg version now tcp r.0) r w₂))
    where
      for_request :
          (req : Msg) (stale : Option Msg)
          → HasId (fresh_reply dns env cfg version now tcp req).id stale
          → StaleFor req stale
      for_request req none h = tt
      for_request req (some m) h = h ∙ fresh_reply-id req

  -- The choice behind the cache, by the records of the hosts file.
  by_records :
      (q : Question) (dnssec : Bool) (size : ℕ) (req : Msg) (records : List Rr) (w : World)
      → is_nil req.question ≡ false
      → Serves req
          (elim records [
            | r ∷ rest ↦
                finish_local dns env cfg version now tcp q dnssec size req
                  (record (fresh_reply dns env cfg version now tcp req) {
                    answer = (fresh_reply dns env cfg version now tcp req).answer ++ r ∷ rest;
                  })
            | [] ↦ elim (is_reverse dns env cfg version now tcp q (to_lower q.name)) [
              | true ↦ do
                r ← serve_dns_reverse dns env cfg version now tcp q req
                keep_response dns env cfg version now tcp q dnssec true r
              | false ↦ elim (q.qclass == class_chaos) [
                | true ↦
                    finish_local dns env cfg version now tcp q dnssec size req
                      (chaos_reply dns env cfg version now tcp q (to_lower q.name) req)
                | false ↦ serve_forwarded dns env cfg version now tcp q dnssec req
              ]
            ]
          ])
          w
  unfolding serve_dns_reverse
  by_records q dnssec size req (r ∷ rest) w asks =
      finish_local-Serves q dnssec size req _ w (fresh_reply-id req)
  by_records q dnssec size req [] w asks =
      elim (Bool-cases (is_reverse dns env cfg version now tcp q (to_lower q.name))) [
        | inl reverse ↦ rw reverse (
            Serves-Silent Done req _ _ w
              (reverse-Serves q req (ptr_records env q cfg.hosts_ttl) w asks)
              (λ r w₁. keep_response-Silent q dnssec true r w₁))
        | inr forward ↦ elim (Bool-cases (q.qclass == class_chaos)) [
          | inl chaos ↦
              rw (forward, chaos)
                (finish_local-Serves q dnssec size req _ w (chaos_reply-id q (to_lower q.name) req))
          | inr other ↦ rw (forward, other) (forwarded-Serves q dnssec req w asks)
        ]
      ]

  by_cache :
      (q : Question) (dnssec : Bool) (size : ℕ) (req : Msg) (found : Option Msg) (w : World)
      → is_nil req.question ≡ false
      → HasId (fresh_reply dns env cfg version now tcp req).id found
      → Serves req
          (elim found [
            | some m1 ↦ serve_cached dns env cfg version now tcp q size req m1
            | none ↦ do inc cache_miss; serve_uncached dns env cfg version now tcp q dnssec size req
          ])
          w
  unfolding serve_uncached
  by_cache q dnssec size req (some m1) w asks h =
      serve_cached-Serves q size req m1 w (h ∙ fresh_reply-id req)
  by_cache q dnssec size req none w asks h =
      Silent-Serves Done req (inc cache_miss) _ w (Silent-inc cache_miss w) (λ _ w₁ _.
        by_records q dnssec size req (host_records dns env cfg version now tcp q (to_lower q.name))
          w₁ asks)

  -- `ServeDNS` returns for every request that has a question, after writing exactly one response, which has
  -- the request's id: from the cache, from the hosts file, of class CHAOS, from upstream, stale, or a failure.
  -- It leaves a cache that is within its bound within its bound. The hypotheses: the DNS library builds
  -- replies and measures messages as documented, upstream responses carry a question, every stub zone has
  -- a server, and the last eviction pass visits the keys of the map.
  pub serve_dns-Serves :
      (req : Msg) (w : World)
      → is_nil req.question ≡ false
      → Serves req (serve_dns dns env cfg version now tcp req) w
  unfolding serve_dns
  serve_dns-Serves req w asks =
      let (q, qs, e) = cons_of_some req.question asks in
      let size = (requested dns req).0 in
      let dnssec = (requested dns req).1 in
      let msgid = (fresh_reply dns env cfg version now tcp req).id in
      Silent-Serves Done req (lift (question0 req)) _ w
        (Silent-lift Done (question0 req) q w (ground (arith, e)) tt)
        (λ q w₁ _.
          Silent-Serves Done req (inc request_count) _ w₁ (Silent-inc request_count w₁) (λ _ w₂ _.
            Silent-Serves Done req (inc_if dnssec dnssec_ok_count) _ w₂
              (Silent-inc_if dnssec dnssec_ok_count w₂)
              (λ _ w₃ _.
                Silent-Serves (HasId msgid) req _ _ w₃
                  (Silent-look_up q dnssec tcp msgid (ltb_ℤ (pos 0) cfg.rstale_ttl) false now.hit₁
                    now.hit₂ w₃)
                  (λ found w₄ h. by_cache q dnssec size req found w₄ asks h))))
