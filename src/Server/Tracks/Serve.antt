-- ===== src/Server/Tracks/Serve.antt =====
-- server/server.go: the handler behind its cache keeps every relation that its steps keep.
use go_dnsmasq.Base.{
  ℕ, inl, inr, Bool, true, false, not, ◌&&◌, List, [], ◌∷◌, ◌++◌, none, ◌==◌, Option-cases,
  if◌then◌else◌,
}
use go_dnsmasq.Base.Int.{ℤ, pos, ltb_ℤ}
use go_dnsmasq.Base.Text.{Bytes, to_lower}
use go_dnsmasq.Cache.Hit.{hit}
use go_dnsmasq.Cache.Key.{key}
use go_dnsmasq.Dns.{DnsLib, Question, Rr, Msg, rcode_server_failure, class_chaos, max_msg_size}
use go_dnsmasq.Fit.{fit}
use go_dnsmasq.Server.Config.{Config}
use go_dnsmasq.Server.Forward.{lift, reply, serve_dns_forward}
use go_dnsmasq.Server.Records.{ptr_records}
use go_dnsmasq.Server.Serve.{
  Moment, look_up, insert, write_failure, fitted, fresh_reply, finish_local, serve_dns_reverse,
  chaos_reply, keep_response, store_in_cache, serve_forwarded, host_records, is_reverse,
  serve_uncached,
}
use go_dnsmasq.Server.Tracks.{
  Tracks, Moves, Moves-bind, Moves-then, Moves-choice, Moves-lift, Moves-pure, Moves-write_msg,
}
use go_dnsmasq.Server.Tracks.Forward.{VisitsAll}
use go_dnsmasq.Server.Tracks.Reply.{serve_dns_forward-Moves, reply-Moves}
use go_dnsmasq.Server.World.{World, Env, M, pure, ◌>>=◌, ◌>>◌, write_msg}

module _ (dns : DnsLib) (env : Env) (visits : VisitsAll env) {cfg : Config} {tcp : Bool}
    (R : World → World → Type 0) (t : Tracks cfg tcp R) where
  pub look_up-Moves :
      (q : Question) (dnssec tcp : Bool) (msgid : ℕ) (keep_stale return_stale : Bool)
      (now₁ now₂ : ℤ) (w : World)
      → Moves R (look_up q dnssec tcp msgid keep_stale return_stale now₁ now₂) w
  unfolding look_up
  look_up-Moves q dnssec tcp msgid keep_stale return_stale now₁ now₂ w =
      elim (Option-cases (hit q dnssec tcp msgid keep_stale return_stale now₁ now₂ w.cache)) [
        | inl fault ↦ record { holds = rw (fault, look_up) tt }
        | inr ((m, c), runs) ↦ record { holds = rw (runs, look_up) (t.caches c w) }
      ]

  insert-Moves : (now : Moment) (k : Bytes) (m : Msg) (w : World) → Moves R (insert now k m) w
  unfolding insert
  insert-Moves now k m w = record { holds = t.caches _ w }

  module _ (version : Bytes) (now : Moment) where
    write_failure-Moves :
        (req : Msg) (w : World) → Moves R (write_failure dns env cfg version now tcp req) w
    unfolding write_failure
    write_failure-Moves req w = Moves-write_msg R t _ w

    pub fitted-Moves :
        (req m : Msg) (size : ℕ) (go_on : Msg → M (Unit {0})) (w : World)
        → ((m' : Msg) (w' : World) → Moves R (go_on m') w')
        → Moves R (fitted dns env cfg version now tcp req size m go_on) w
    unfolding fitted
    fitted-Moves req m size go_on w k =
        Moves-bind R t (lift (fit dns m (if tcp then max_msg_size else size) tcp)) _ w
          (Moves-lift R t _ w)
          (λ r w₁.
            Moves-choice R t (tcp && r.1) (write_failure dns env cfg version now tcp req)
              (go_on r.0) w₁ (write_failure-Moves req w₁) (k r.0 w₁))

    finish_local-Moves :
        (q : Question) (dnssec : Bool) (size : ℕ) (req m : Msg) (w : World)
        → Moves R (finish_local dns env cfg version now tcp q dnssec size req m) w
    unfolding finish_local
    finish_local-Moves q dnssec size req m w =
        Moves-choice R t (m.rcode == rcode_server_failure) (write_msg m)
          (fitted dns env cfg version now tcp req size m
            (λ m'. do insert now (key q dnssec tcp) m'; write_msg m'))
          w (Moves-write_msg R t m w)
          (fitted-Moves req m size _ w (λ m' w₁.
            Moves-then R t (insert now (key q dnssec tcp) m') (write_msg m') w₁
              (insert-Moves now (key q dnssec tcp) m' w₁) (λ w₂. Moves-write_msg R t m' w₂)))

    records-Moves :
        (req : Msg) (records : List Rr) (w : World)
        → Moves {A = Msg × Bool} R
            (elim records [
              | [] ↦ serve_dns_forward dns env cfg tcp req none
              | r ∷ rest ↦
                  reply (record (fresh_reply dns env cfg version now tcp req) { answer = r ∷ rest })
            ])
            w
    records-Moves req [] w = serve_dns_forward-Moves dns env visits R t req none w
    records-Moves req (r ∷ rest) w = reply-Moves dns env visits R t _ w

    serve_dns_reverse-Moves :
        (q : Question) (req : Msg) (w : World)
        → Moves R (serve_dns_reverse dns env cfg version now tcp q req) w
    unfolding serve_dns_reverse
    serve_dns_reverse-Moves q req w = records-Moves req (ptr_records env q cfg.hosts_ttl) w

    keep_response-Moves :
        (q : Question) (dnssec wanted : Bool) (r : Msg × Bool) (w : World)
        → Moves R (keep_response dns env cfg version now tcp q dnssec wanted r) w
    unfolding keep_response
    keep_response-Moves q dnssec wanted (resp, stale) w =
        Moves-choice R t (wanted && not stale) (insert now (key q dnssec tcp) resp) (pure tt) w
          (insert-Moves now (key q dnssec tcp) resp w) (Moves-pure R t tt w)

    serve_forwarded-Moves :
        (q : Question) (dnssec : Bool) (req : Msg) (w : World)
        → Moves R (serve_forwarded dns env cfg version now tcp q dnssec req) w
    unfolding serve_forwarded
    serve_forwarded-Moves q dnssec req w =
        Moves-bind R t
          (look_up q dnssec tcp (fresh_reply dns env cfg version now tcp req).id
            (ltb_ℤ (pos 0) cfg.rstale_ttl) true now.stale₁ now.stale₂)
          _ w (look_up-Moves q dnssec tcp _ _ true now.stale₁ now.stale₂ w)
          (λ stale w₁.
            Moves-bind R t (serve_dns_forward dns env cfg tcp req stale) _ w₁
              (serve_dns_forward-Moves dns env visits R t req stale w₁)
              (λ r w₂.
                keep_response-Moves q dnssec (store_in_cache dns env cfg version now tcp r.0) r w₂))

    by_records-Moves :
        (q : Question) (dnssec : Bool) (size : ℕ) (req : Msg) (records : List Rr) (w : World)
        → Moves {A = Unit {0}} R
            (elim records [
              | r ∷ rest ↦
                  finish_local dns env cfg version now tcp q dnssec size req
                    (record (fresh_reply dns env cfg version now tcp req) {
                      answer = (fresh_reply dns env cfg version now tcp req).answer ++ r ∷ rest;
                    })
              | [] ↦ elim (is_reverse dns env cfg version now tcp q (to_lower q.name)) [
                | true ↦ do
                  r ← serve_dns_reverse dns env cfg version now tcp q req
                  keep_response dns env cfg version now tcp q dnssec true r
                | false ↦ elim (q.qclass == class_chaos) [
                  | true ↦
                      finish_local dns env cfg version now tcp q dnssec size req
                        (chaos_reply dns env cfg version now tcp q (to_lower q.name) req)
                  | false ↦ serve_forwarded dns env cfg version now tcp q dnssec req
                ]
              ]
            ])
            w
    by_records-Moves q dnssec size req (r ∷ rest) w = finish_local-Moves q dnssec size req _ w
    by_records-Moves q dnssec size req [] w =
        Moves-choice R t (is_reverse dns env cfg version now tcp q (to_lower q.name))
          (serve_dns_reverse dns env cfg version now tcp q req
            >>= keep_response dns env cfg version now tcp q dnssec true)
          (elim (q.qclass == class_chaos) [
            | true ↦
                finish_local dns env cfg version now tcp q dnssec size req
                  (chaos_reply dns env cfg version now tcp q (to_lower q.name) req)
            | false ↦ serve_forwarded dns env cfg version now tcp q dnssec req
          ])
          w
          (Moves-bind R t (serve_dns_reverse dns env cfg version now tcp q req) _ w
            (serve_dns_reverse-Moves q req w) (λ r w₁. keep_response-Moves q dnssec true r w₁))
          (Moves-choice R t (q.qclass == class_chaos) _ _ w
            (finish_local-Moves q dnssec size req _ w) (serve_forwarded-Moves q dnssec req w))

    -- The handler behind its cache keeps the relation.
    pub serve_uncached-Moves :
        (q : Question) (dnssec : Bool) (size : ℕ) (req : Msg) (w : World)
        → Moves R (serve_uncached dns env cfg version now tcp q dnssec size req) w
    unfolding serve_uncached
    serve_uncached-Moves q dnssec size req w =
        by_records-Moves q dnssec size req
          (host_records dns env cfg version now tcp q (to_lower q.name)) w
