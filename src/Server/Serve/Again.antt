-- ===== src/Server/Serve/Again.antt =====
-- server/server.go and server/forwarding.go: a response that was forwarded, and the next request for it.
use go_dnsmasq.Base.{
  ◌+◌, ◌≡◌, refl, ap, sym, ◌∙◌, inl, inr, true, false, List, [], ◌∷◌, ◌++◌, none, some, ◌==◌,
  Bool-cases, length, ◌⊎◌, subst,
}
use go_dnsmasq.Base.Int.{pos, ltb_ℤ, ◌<ℤ◌}
use go_dnsmasq.Base.Text.{Bytes, to_lower}
use go_dnsmasq.Base.Map.{lookup, Distinct}
use go_dnsmasq.Cache.{is_ahead, new_elem}
use go_dnsmasq.Cache.Hit.{served}
use go_dnsmasq.Cache.Hit.Laws.{hit_miss}
use go_dnsmasq.Cache.Key.{key}
use go_dnsmasq.Dns.{DnsLib, RepliesWell, LenWell, Question, Msg, class_chaos}
use go_dnsmasq.Server.Config.{Config, is_nil}
use go_dnsmasq.Server.Forward.{question0, lift, serve_dns_forward}
use go_dnsmasq.Server.Forward.Query.{IsFair}
use go_dnsmasq.Server.Forward.Reply.{StubsHaveServers, serve_dns_forward-Replies}
use go_dnsmasq.Server.Serve.{
  Moment, look_up, insert, requested, fresh_reply, host_records, is_reverse, keep_response,
  store_in_cache, serve_forwarded, serve_uncached, serve_dns,
}
use go_dnsmasq.Server.Serve.Local.{AnswersFrom, inserted, counted_dnssec, counted_same, bind_runs}
use go_dnsmasq.Server.World.{World, Env, ◌>>=◌, request_count, cache_miss}
use go_dnsmasq.Server.Serve.Repeat.{insert-serve_dns}
use go_dnsmasq.Server.Serve.Fresh.{serve_dns_forward-NotStale}

stored_world :
    (now : Moment) (k : Bytes) (m : Msg) (w w' : World)
    → insert now k m w ≡ some (tt, w')
    → w' ≡ inserted now k m w
unfolding insert
stored_world now k m w w' e = ap (λ (p : Unit {0} × World). p.1) (sym (same e))
  where
    same : {a b : Unit {0} × World} → some a ≡ some b → a ≡ b
    same e = cc

-- What comes of a request that is forwarded: it is answered with the response, which is stored unless it is not to
-- be kept.
record Forwards (dns : DnsLib) (env : Env) (cfg : Config) (version : Bytes) (now : Moment)
    (req : Msg) (k : Bytes) (w : World) : Type 0 where
  after : World
  response : Msg
  before : World
  runs : serve_dns dns env cfg version now false req w ≡ some (tt, after)
  written : after.written ≡ w.written ++ response ∷ []
  cache : before.cache ≡ w.cache
  kept :
      store_in_cache dns env cfg version now false response ≡ true
      → after ≡ inserted now k response before

module _ (dns : DnsLib) (replies : RepliesWell dns) (env : Env) (fair : IsFair env) (cfg : Config)
    (stubs : StubsHaveServers cfg) (version : Bytes) (now : Moment) (req : Msg) (q : Question)
    (asks : question0 req ≡ some q) where
  abbrev k : Bytes
  k = key q (requested dns req).1 false

  serve_forwarded-Forwards :
      (w : World)
      → lookup k w.cache.m ≡ none
      → is_nil req.question ≡ false
      → (v : World) × (resp : Msg) × (u : World) × (serve_forwarded dns env cfg version now false q
            (requested dns req).1
            req
            w
          ≡ some (tt, v))
        × (v.written ≡ w.written ++ resp ∷ [])
        × (u.cache ≡ w.cache)
        × (store_in_cache dns env cfg version now false resp ≡ true → v ≡ inserted now k resp u)
  unfolding serve_forwarded look_up keep_response insert
  serve_forwarded-Forwards w absent some_question =
      let f =
        serve_dns_forward-Replies dns env cfg false replies fair stubs req none w some_question
          tt in
      let misses =
        hit_miss q (requested dns req).1 false (fresh_reply dns env cfg version now false req).id
          (ltb_ℤ (pos 0) cfg.rstale_ttl) true now.stale₁ now.stale₂ w.cache (inr absent) in
      let fresh : f.result.1 ≡ false =
        serve_dns_forward-NotStale dns env cfg false req w f.result f.after f.runs in
      let to_keep =
        bind_runs {a = none} {w' = w}
          (look_up q (requested dns req).1 false (fresh_reply dns env cfg version now false req).id
            (ltb_ℤ (pos 0) cfg.rstale_ttl) true now.stale₁ now.stale₂)
          (λ stale. do
            (resp, is_stale) ← serve_dns_forward dns env cfg false req stale
            keep_response dns env cfg version now false q (requested dns req).1
                (store_in_cache dns env cfg version now false resp) (resp, is_stale))
          w (rw (look_up, misses) refl)
        ∙ bind_runs {a = f.result} {w' = f.after} (serve_dns_forward dns env cfg false req none)
            (λ r.
              keep_response dns env cfg version now false q (requested dns req).1
                (store_in_cache dns env cfg version now false r.0) r)
            w f.runs in
      elim (Bool-cases (store_in_cache dns env cfg version now false f.result.0)) [
        | inl kept ↦ (
          inserted now k f.result.0 f.after,
          f.result.0,
          f.after,
          to_keep ∙ rw (keep_response, kept, fresh) refl,
          f.written,
          f.cache,
          λ _. refl,
        )
        | inr dropped ↦ (
          f.after,
          f.result.0,
          f.after,
          to_keep ∙ rw (keep_response, dropped) refl,
          f.written,
          f.cache,
          λ kept. absurd (cc),
        )
      ]

  serve_dns-Forwards :
      (w : World)
      → lookup k w.cache.m ≡ none
      → is_nil req.question ≡ false
      → host_records dns env cfg version now false q (to_lower q.name) ≡ []
      → is_reverse dns env cfg version now false q (to_lower q.name) ≡ false
      → (q.qclass == class_chaos) ≡ false
      → Forwards dns env cfg version now req k w
  unfolding serve_dns serve_uncached look_up
  serve_dns-Forwards w absent some_question no_host direct no_chaos =
      let dnssec = (requested dns req).1 in
      let w' = counted_dnssec dnssec (record w { counted = w.counted ++ request_count ∷ [] }) in
      let (cache, asked, written) =
        counted_same dnssec (record w { counted = w.counted ++ request_count ∷ [] }) in
      let misses =
        hit_miss q dnssec false (fresh_reply dns env cfg version now false req).id
          (ltb_ℤ (pos 0) cfg.rstale_ttl) false now.hit₁ now.hit₂ w.cache (inr absent) in
      let w₁ : World = record w' { counted = w'.counted ++ cache_miss ∷ []; cache = w.cache } in
      let (v, resp, u, runs, grown, same, kept) =
        serve_forwarded-Forwards w₁ absent some_question in
      record {
        after = v;
        response = resp;
        before = u;
        runs =
            bind_runs {a = q} {w' = w} (lift (question0 req)) _ w (rw asks refl)
            ∙ bind_runs {a = none} {w' = record w' { cache = w.cache }}
                (look_up q dnssec false (fresh_reply dns env cfg version now false req).id
                  (ltb_ℤ (pos 0) cfg.rstale_ttl) false now.hit₁ now.hit₂)
                _ w' (rw (look_up, cache, misses) refl)
            ∙ rw (serve_uncached, no_host, direct, no_chaos) runs;
        written = grown ∙ ap (λ (l : List Msg). l ++ resp ∷ []) written;
        cache = same;
        kept = kept;
      }

  -- A request over UDP for which the cache has no entry at all, expired or not, and the hosts file no record, and that
  -- is not for the reverse zones or of class CHAOS, is answered with one response. What a later request for that
  -- question, with the same DNSSEC flag, gets over UDP is that response from the cache, with the id of the later
  -- request, fitted to the size that its client takes and with its records in any order, and no query is sent; unless
  -- the response is not to be kept, or has expired by then. The cache has distinct keys and room for two more entries.
  -- The hypotheses on the DNS library, the upstream servers and the stub zones are those of one request.
  pub serve_dns-AnswersFrom_again :
      (lens : LenWell dns) (env' : Env) (later : Moment) (req' : Msg) (w : World)
      → lookup k w.cache.m ≡ none
      → is_nil req.question ≡ false
      → host_records dns env cfg version now false q (to_lower q.name) ≡ []
      → is_reverse dns env cfg version now false q (to_lower q.name) ≡ false
      → (q.qclass == class_chaos) ≡ false
      → Distinct w.cache.m
      → pos (length w.cache.m + 1) <ℤ w.cache.capacity
      → question0 req' ≡ some q
      → (requested dns req').1 ≡ (requested dns req).1
      → (w₁ : World) × (resp : Msg) × (serve_dns dns env cfg version now false req w
          ≡ some (tt, w₁))
        × (w₁.written ≡ w.written ++ resp ∷ [])
        × ((store_in_cache dns env cfg version now false resp ≡ false)
            ⊎ ((is_ahead later.hit₁ (new_elem w.cache resp now.clock).expiration ≡ false)
                ⊎ AnswersFrom dns
                    (served resp (fresh_reply dns env' cfg version later false req').id)
                    (requested dns req').0
                    (serve_dns dns env' cfg version later false req')
                    w₁))
  serve_dns-AnswersFrom_again lens env' later req' w absent some_question no_host direct no_chaos
        distinct room asks' same_flag =
      let f = serve_dns-Forwards w absent some_question no_host direct no_chaos in
      (
        f.after,
        f.response,
        f.runs,
        f.written,
        elim (Bool-cases (store_in_cache dns env cfg version now false f.response)) [
          | inr dropped ↦ inl dropped
          | inl kept ↦
              inr
                (elim (Bool-cases
                  (is_ahead later.hit₁ (new_elem w.cache f.response now.clock).expiration)) [
                    | inr expired ↦ inl expired
                    | inl fresh ↦ inr (answered f kept fresh)
                  ])
        ],
      )
    where
      answered :
          (f : Forwards dns env cfg version now req k w)
          → store_in_cache dns env cfg version now false f.response ≡ true
          → is_ahead later.hit₁ (new_elem w.cache f.response now.clock).expiration ≡ true
          → AnswersFrom dns
              (served f.response (fresh_reply dns env' cfg version later false req').id)
              (requested dns req').0
              (serve_dns dns env' cfg version later false req')
              f.after
      answered f kept fresh =
          let (w', stores, a) =
            insert-serve_dns dns replies lens env' cfg version now later req' q f.response f.before
              asks' (rw f.cache distinct) (rw (f.cache, same_flag) absent) (rw f.cache room)
              (rw f.cache fresh) in
          subst
            (AnswersFrom dns _ (requested dns req').0
              (serve_dns dns env' cfg version later false req'))
            (stored_world now _ f.response f.before w' stores
              ∙ ap (λ b. inserted now (key q b false) f.response f.before) same_flag
              ∙ sym (f.kept kept))
            a
