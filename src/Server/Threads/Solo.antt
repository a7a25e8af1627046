-- ===== src/Server/Threads/Solo.antt =====
-- server/server.go: the steps of `ServeDNS`, taken with no other goroutine in between, are the handler.
use go_dnsmasq.Base.{
  ℕ, ◌≡◌, refl, ◌∙◌, inl, inr, Bool, true, false, ◌&&◌, ◌||◌, List, [], ◌∷◌, ◌++◌, Option, none,
  some, if◌then◌else◌, ◌==◌, Bool-cases,
}
use go_dnsmasq.Base.Int.{pos, ltb_ℤ}
use go_dnsmasq.Base.Text.{Bytes, to_lower}
use go_dnsmasq.Cache.Key.{key}
use go_dnsmasq.Dns.{
  DnsLib, Question, Rr, Msg, empty_msg, rcode_server_failure, type_a, type_aaaa, class_chaos,
  max_msg_size,
}
use go_dnsmasq.Fit.{fit}
use go_dnsmasq.Server.Config.{Config}
use go_dnsmasq.Server.Forward.{question0, lift, reply, serve_dns_forward}
use go_dnsmasq.Server.Records.{ptr_records}
use go_dnsmasq.Server.Rotate.{round_robin}
use go_dnsmasq.Server.Serve.{
  Moment, insert, look_up, requested, write_failure, fitted, fresh_reply, serve_cached,
  finish_local, serve_dns_reverse, chaos_reply, keep_response, store_in_cache, serve_forwarded,
  host_records, is_reverse, serve_uncached, serve_dns,
}
use go_dnsmasq.Server.Threads.{
  Prog, finish, put, send, tally, forward, fitted_steps, serve_cached_steps, finish_local_steps,
  keep_response_steps, serve_forwarded_steps, serve_dns_reverse_step, serve_uncached_steps,
  by_cache_steps, serve_dns_steps, solo,
}
use go_dnsmasq.Server.World.{World, Env, M, ◌>>=◌, ◌>>◌, write_msg, inc, cache_hit, cache_miss}
use go_dnsmasq.Server.Threads.Alone.{hit-solo, bind_same, or_panic-solo}

module _ (dns : DnsLib) (env : Env) (cfg : Config) (version : Bytes) (now : Moment)
    (tcp : Bool) where
  fitted-solo :
      (req : Msg) (size : ℕ) (m : Msg) (go_on : Msg → Prog) (go : Msg → M (Unit {0})) (w : World)
      → ((m' : Msg) (w' : World) → solo (go_on m') w' ≡ go m' w')
      → solo (fitted_steps dns env cfg version now tcp req size m go_on) w
        ≡ fitted dns env cfg version now tcp req size m go w
  unfolding fitted_steps fitted write_failure solo
  fitted-solo req size m go_on go w h =
      or_panic-solo (fit dns m (if tcp then max_msg_size else size) tcp) _ w
      ∙ bind_same (lift (fit dns m (if tcp then max_msg_size else size) tcp)) _ _ w
          (λ r w'. chosen r (tcp && r.1) w')
    where
      chosen :
          (r : Msg × Bool) (b : Bool) (w : World)
          → solo
              (elim b [
                | true ↦ send (dns.set_rcode empty_msg req rcode_server_failure) finish
                | false ↦ go_on r.0
              ])
              w
            ≡ (elim b as (λ _. M (Unit {0})) [
              | true ↦ write_failure dns env cfg version now tcp req
              | false ↦ go r.0
            ])
                w
      chosen r true w = refl
      chosen r false w = h r.0 w

  serve_cached-solo :
      (q : Question) (size : ℕ) (req m : Msg) (w : World)
      → solo (serve_cached_steps dns env cfg version now tcp q size req m) w
        ≡ serve_cached dns env cfg version now tcp q size req m w
  unfolding serve_cached_steps serve_cached solo
  serve_cached-solo q size req m w = fitted-solo req size m _ _ w (λ m' w₁.
      or_panic-solo {A = List Rr}
        (elim (q.qtype == type_a || q.qtype == type_aaaa) [
          | true ↦ round_robin cfg.round_robin now.ids m'.answer
          | false ↦ some m'.answer
        ])
        (λ answer. send (record m' { answer = answer }) (tally true cache_hit finish)) w₁)

  finish_local-solo :
      (q : Question) (dnssec : Bool) (size : ℕ) (req m : Msg) (w : World)
      → solo (finish_local_steps dns env cfg version now tcp q dnssec size req m) w
        ≡ finish_local dns env cfg version now tcp q dnssec size req m w
  unfolding finish_local_steps finish_local solo
  finish_local-solo q dnssec size req m w = by_code (m.rcode == rcode_server_failure)
    where
      by_code :
          (b : Bool)
          → solo
              (elim b [
                | true ↦ send m finish
                | false ↦
                    fitted_steps dns env cfg version now tcp req size m
                      (λ m'. put now (key q dnssec tcp) m' (send m' finish))
              ])
              w
            ≡ (elim b as (λ _. M (Unit {0})) [
              | true ↦ write_msg m
              | false ↦
                  fitted dns env cfg version now tcp req size m
                    (λ m'. do insert now (key q dnssec tcp) m'; write_msg m')
            ])
                w
      by_code true = refl
      by_code false = fitted-solo req size m _ _ w (λ m' w'. refl)

  keep_response-solo :
      (q : Question) (dnssec wanted : Bool) (r : Msg × Bool) (w : World)
      → solo (keep_response_steps dns env cfg version now tcp q dnssec wanted r) w
        ≡ keep_response dns env cfg version now tcp q dnssec wanted r w
  unfolding keep_response_steps keep_response solo insert
  keep_response-solo q dnssec true (resp, true) w = refl
  keep_response-solo q dnssec false (resp, true) w = refl
  keep_response-solo q dnssec true (resp, false) w = refl
  keep_response-solo q dnssec false (resp, false) w = refl

  -- A step that does not use the cache, and the response kept behind it.
  forward-solo :
      (q : Question) (dnssec : Bool) (wanted : Msg → Bool) (m : M (Msg × Bool)) (w : World)
      → solo
          (forward m (λ r. keep_response_steps dns env cfg version now tcp q dnssec (wanted r.0) r))
          w
        ≡ (m >>= λ r. keep_response dns env cfg version now tcp q dnssec (wanted r.0) r) w
  unfolding solo
  forward-solo q dnssec wanted m w =
      bind_same m
        (λ r. solo (keep_response_steps dns env cfg version now tcp q dnssec (wanted r.0) r)) _ w
        (λ r w'. keep_response-solo q dnssec (wanted r.0) r w')

  serve_forwarded-solo :
      (q : Question) (dnssec : Bool) (req : Msg) (w : World)
      → solo (serve_forwarded_steps dns env cfg version now tcp q dnssec req) w
        ≡ serve_forwarded dns env cfg version now tcp q dnssec req w
  unfolding serve_forwarded_steps serve_forwarded
  serve_forwarded-solo q dnssec req w =
      hit-solo q dnssec tcp (fresh_reply dns env cfg version now tcp req).id
        (ltb_ℤ (pos 0) cfg.rstale_ttl) true now.stale₁ now.stale₂ _ w
      ∙ bind_same
          (look_up q dnssec tcp (fresh_reply dns env cfg version now tcp req).id
            (ltb_ℤ (pos 0) cfg.rstale_ttl) true now.stale₁ now.stale₂)
          _ _ w
          (λ stale w'.
            forward-solo q dnssec (store_in_cache dns env cfg version now tcp)
              (serve_dns_forward dns env cfg tcp req stale) w')

  reverse-solo :
      (q : Question) (dnssec : Bool) (req : Msg) (w : World)
      → solo
          (forward
            (serve_dns_reverse_step dns env cfg version now tcp q req
              (ptr_records env q cfg.hosts_ttl))
            (λ r. keep_response_steps dns env cfg version now tcp q dnssec true r))
          w
        ≡ (serve_dns_reverse dns env cfg version now tcp q req
              >>= keep_response dns env cfg version now tcp q dnssec true)
            w
  unfolding serve_dns_reverse
  reverse-solo q dnssec req w = by_ptr (ptr_records env q cfg.hosts_ttl)
    where
      by_ptr :
          (records : List Rr)
          → solo
              (forward
                (serve_dns_reverse_step dns env cfg version now tcp q req records)
                (λ r. keep_response_steps dns env cfg version now tcp q dnssec true r))
              w
            ≡ (elim records as (λ _. M (Msg × Bool)) [
              | [] ↦ serve_dns_forward dns env cfg tcp req none
              | r ∷ rest ↦
                  reply (record (fresh_reply dns env cfg version now tcp req) { answer = r ∷ rest })
            ]
                  >>= keep_response dns env cfg version now tcp q dnssec true)
                w
      by_ptr [] = forward-solo q dnssec (λ _. true) (serve_dns_forward dns env cfg tcp req none) w
      by_ptr (r ∷ rest) =
          forward-solo q dnssec (λ _. true)
            (reply (record (fresh_reply dns env cfg version now tcp req) { answer = r ∷ rest })) w

  by_records-solo :
      (q : Question) (dnssec : Bool) (size : ℕ) (req : Msg) (records : List Rr) (w : World)
      → solo (serve_uncached_steps dns env cfg version now tcp q dnssec size req records) w
        ≡ (elim records as (λ _. M (Unit {0})) [
          | r ∷ rest ↦
              finish_local dns env cfg version now tcp q dnssec size req
                (record (fresh_reply dns env cfg version now tcp req) {
                  answer = (fresh_reply dns env cfg version now tcp req).answer ++ r ∷ rest;
                })
          | [] ↦
              elim (is_reverse dns env cfg version now tcp q (to_lower q.name))
                as (λ _. M (Unit {0})) [
                  | true ↦
                      serve_dns_reverse dns env cfg version now tcp q req
                      >>= keep_response dns env cfg version now tcp q dnssec true
                  | false ↦ elim (q.qclass == class_chaos) as (λ _. M (Unit {0})) [
                    | true ↦
                        finish_local dns env cfg version now tcp q dnssec size req
                          (chaos_reply dns env cfg version now tcp q (to_lower q.name) req)
                    | false ↦ serve_forwarded dns env cfg version now tcp q dnssec req
                  ]
                ]
        ])
            w
  unfolding serve_uncached_steps
  by_records-solo q dnssec size req (r ∷ rest) w = finish_local-solo q dnssec size req _ w
  by_records-solo q dnssec size req [] w =
      elim (Bool-cases (is_reverse dns env cfg version now tcp q (to_lower q.name))) [
        | inl reverse ↦ rw (reverse, serve_uncached_steps) (reverse-solo q dnssec req w)
        | inr direct ↦ elim (Bool-cases (q.qclass == class_chaos)) [
          | inl chaos ↦
              rw (direct, chaos, serve_uncached_steps) (finish_local-solo q dnssec size req _ w)
          | inr other ↦
              rw (direct, other, serve_uncached_steps) (serve_forwarded-solo q dnssec req w)
        ]
      ]

  by_cache-solo :
      (q : Question) (dnssec : Bool) (size : ℕ) (req : Msg) (found : Option Msg) (w : World)
      → solo (by_cache_steps dns env cfg version now tcp q dnssec size req found) w
        ≡ (elim found as (λ _. M (Unit {0})) [
          | some m1 ↦ serve_cached dns env cfg version now tcp q size req m1
          | none ↦ do inc cache_miss; serve_uncached dns env cfg version now tcp q dnssec size req
        ])
            w
  unfolding serve_uncached solo
  by_cache-solo q dnssec size req (some m1) w = serve_cached-solo q size req m1 w
  by_cache-solo q dnssec size req none w = bind_same (inc cache_miss) _ _ w (λ _ w'.
      by_records-solo q dnssec size req
        (host_records dns env cfg version now tcp q (to_lower q.name)) w')

  -- The steps of `ServeDNS` with no other goroutine in between do what the handler does, in every world: they have
  -- the same effects, and they fault where it does.
  pub solo-serve_dns :
      (req : Msg) (w : World)
      → solo (serve_dns_steps dns env cfg version now tcp req) w
        ≡ serve_dns dns env cfg version now tcp req w
  unfolding serve_dns_steps serve_dns solo
  solo-serve_dns req w =
      let size = (requested dns req).0 in
      let dnssec = (requested dns req).1 in
      let msgid = (fresh_reply dns env cfg version now tcp req).id in
      or_panic-solo (question0 req) _ w
      ∙ bind_same (lift (question0 req)) _ _ w (λ q w₁.
        hit-solo q dnssec tcp msgid (ltb_ℤ (pos 0) cfg.rstale_ttl) false now.hit₁ now.hit₂
          (λ found. by_cache_steps dns env cfg version now tcp q dnssec size req found) _
        ∙ bind_same
            (look_up q dnssec tcp msgid (ltb_ℤ (pos 0) cfg.rstale_ttl) false now.hit₁ now.hit₂) _ _
            _ (λ found w₂. by_cache-solo q dnssec size req found w₂))
