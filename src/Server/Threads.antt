-- ===== src/Server/Threads.antt =====
-- server/server.go and cache/hit.go: `ServeDNS` as the steps between which other goroutines may use the cache.
pub mod Alone
pub mod Solo
pub mod Owes
pub mod Within
pub mod Step
pub mod Pool
use go_dnsmasq.Base.{
  ℕ, Bool, true, false, ◌&&◌, ◌||◌, List, [], ◌∷◌, ◌++◌, Option, none, some, if◌then◌else◌, ◌==◌,
}
use go_dnsmasq.Base.Int.{ℤ, pos, ltb_ℤ}
use go_dnsmasq.Base.Text.{Bytes, to_lower}
use go_dnsmasq.Cache.{Elem, is_past, is_ahead, search_key, remove}
use go_dnsmasq.Cache.Hit.{bump, served}
use go_dnsmasq.Cache.Key.{key}
use go_dnsmasq.Dns.{
  DnsLib, Question, Rr, Msg, empty_msg, rcode_server_failure, type_a, type_aaaa, class_chaos,
  max_msg_size,
}
use go_dnsmasq.Fit.{fit}
use go_dnsmasq.Server.Config.{Config}
use go_dnsmasq.Server.Forward.{question0, reply, serve_dns_forward}
use go_dnsmasq.Server.Records.{ptr_records}
use go_dnsmasq.Server.Rotate.{round_robin}
use go_dnsmasq.Server.Serve.{
  Moment, insert, requested, fresh_reply, chaos_reply, store_in_cache, host_records, is_reverse,
}
use go_dnsmasq.Server.World.{
  World, Env, M, Counter, pure, ◌>>=◌, ◌>>◌, write_msg, inc, inc_if, fault, request_count,
  dnssec_ok_count, cache_hit, cache_miss,
}

-- What is left of a goroutine. Each constructor but the first two is one step: it takes the lock of the cache
-- at most once (`peek` in `Search`, `count` in `Hit` behind it, `drop` in `Remove`, `put` in `InsertMessage`)
-- or does not use the cache. `panic` is a fault.
pub data Prog : Type 0 where
  finish panic : Prog
  peek : Bytes → (Option Elem → Prog) → Prog
  count : Bool → Bytes → Prog → Prog
  drop : Bytes → Prog → Prog
  put : Moment → Bytes → Msg → Prog → Prog
  send : Msg → Prog → Prog
  tally : Bool → Counter → Prog → Prog
  forward : M (Msg × Bool) → (Msg × Bool → Prog) → Prog

abbrev or_panic {ℓ} : {A : Type ℓ} → Option A → (A → Prog) → Prog
or_panic none go_on = panic
or_panic (some x) go_on = go_on x

-- `Hit`, where `Search` found `e`.
abbrev pub hit_found_steps : Elem → Bytes → ℕ → Bool → Bool → ℤ → ℤ → (Option Msg → Prog) → Prog
hit_found_steps e k msgid keep_stale return_stale now₁ now₂ go_on =
    let valid = is_ahead now₁ e.expiration in
    elim (valid || return_stale) [
      | true ↦ count valid k (elim (is_past now₂ e.stale_expiration) [
        | true ↦ drop k (go_on (some (served e.msg msgid)))
        | false ↦ go_on (some (served e.msg msgid))
      ])
      | false ↦ elim keep_stale [ true ↦ go_on none | false ↦ drop k (go_on none) ]
    ]

-- `Hit`, with what its caller does behind it.
unfoldable pub hit_steps : Bytes → ℕ → Bool → Bool → ℤ → ℤ → (Option Msg → Prog) → Prog
hit_steps k msgid keep_stale return_stale now₁ now₂ go_on = peek k (λ found. elim found [
  | none ↦ go_on none
  | some e ↦ hit_found_steps e k msgid keep_stale return_stale now₁ now₂ go_on
])

module _ (dns : DnsLib) (env : Env) (cfg : Config) (version : Bytes) (now : Moment)
    (tcp : Bool) where
  -- `Fit` and its overflow.
  unfoldable pub fitted_steps : Msg → ℕ → Msg → (Msg → Prog) → Prog
  fitted_steps req size m go_on =
      or_panic (fit dns m (if tcp then max_msg_size else size) tcp) (λ r. elim (tcp && r.1) [
        | true ↦ send (dns.set_rcode empty_msg req rcode_server_failure) finish
        | false ↦ go_on r.0
      ])

  unfoldable pub serve_cached_steps : Question → ℕ → Msg → Msg → Prog
  unfolding fitted_steps
  serve_cached_steps q size req m1 = fitted_steps req size m1 (λ m.
      or_panic
        (elim (q.qtype == type_a || q.qtype == type_aaaa) [
          | true ↦ round_robin cfg.round_robin now.ids m.answer
          | false ↦ some m.answer
        ])
        (λ answer. send (record m { answer = answer }) (tally true cache_hit finish)))

  unfoldable pub finish_local_steps : Question → Bool → ℕ → Msg → Msg → Prog
  unfolding fitted_steps
  finish_local_steps q dnssec size req m = elim (m.rcode == rcode_server_failure) [
    | true ↦ send m finish
    | false ↦ fitted_steps req size m (λ m'. put now (key q dnssec tcp) m' (send m' finish))
  ]

  unfoldable pub keep_response_steps : Question → Bool → Bool → Msg × Bool → Prog
  keep_response_steps q dnssec wanted (resp, false) = elim wanted [
    | true ↦ put now (key q dnssec tcp) resp finish
    | false ↦ finish
  ]
  keep_response_steps q dnssec wanted (resp, true) = finish

  unfoldable pub serve_forwarded_steps : Question → Bool → Msg → Prog
  unfolding hit_steps keep_response_steps
  serve_forwarded_steps q dnssec req =
      hit_steps (key q dnssec tcp) (fresh_reply dns env cfg version now tcp req).id
        (ltb_ℤ (pos 0) cfg.rstale_ttl) true now.stale₁ now.stale₂
        (λ stale.
          forward (serve_dns_forward dns env cfg tcp req stale)
            (λ r. keep_response_steps q dnssec (store_in_cache dns env cfg version now tcp r.0) r))

  -- `ServeDNSReverse` uses no cache.
  abbrev pub serve_dns_reverse_step : Question → Msg → List Rr → M (Msg × Bool)
  serve_dns_reverse_step q req [] = serve_dns_forward dns env cfg tcp req none
  serve_dns_reverse_step q req (r ∷ records) =
      reply (record (fresh_reply dns env cfg version now tcp req) { answer = r ∷ records })

  -- The handler behind its cache, by the records of the hosts file.
  unfoldable pub serve_uncached_steps : Question → Bool → ℕ → Msg → List Rr → Prog
  unfolding finish_local_steps keep_response_steps serve_forwarded_steps
  serve_uncached_steps q dnssec size req (r ∷ records) =
      finish_local_steps q dnssec size req (record (fresh_reply dns env cfg version now tcp req) {
        answer = (fresh_reply dns env cfg version now tcp req).answer ++ r ∷ records;
      })
  serve_uncached_steps q dnssec size req [] =
      elim (is_reverse dns env cfg version now tcp q (to_lower q.name)) [
        | true ↦
            forward (serve_dns_reverse_step q req (ptr_records env q cfg.hosts_ttl))
              (λ r. keep_response_steps q dnssec true r)
        | false ↦ elim (q.qclass == class_chaos) [
          | true ↦
              finish_local_steps q dnssec size req
                (chaos_reply dns env cfg version now tcp q (to_lower q.name) req)
          | false ↦ serve_forwarded_steps q dnssec req
        ]
      ]

  abbrev pub by_cache_steps : Question → Bool → ℕ → Msg → Option Msg → Prog
  by_cache_steps q dnssec size req (some m1) = serve_cached_steps q size req m1
  by_cache_steps q dnssec size req none = tally true cache_miss (
      serve_uncached_steps q dnssec size req
        (host_records dns env cfg version now tcp q (to_lower q.name)))

  -- `ServeDNS`.
  unfoldable pub serve_dns_steps : Msg → Prog
  unfolding hit_steps
  serve_dns_steps req = or_panic (question0 req) (λ q.
      let (size, dnssec) = requested dns req in
      tally true request_count (
        tally dnssec dnssec_ok_count (
          hit_steps (key q dnssec tcp) (fresh_reply dns env cfg version now tcp req).id
            (ltb_ℤ (pos 0) cfg.rstale_ttl) false now.hit₁ now.hit₂
            (λ found. by_cache_steps q dnssec size req found))))

-- One step on the world of a goroutine; `none` is a panic.
unfoldable pub step : Prog → World → Option (Prog × World)
unfolding bump remove search_key
step finish w = some (finish, w)
step panic w = none
step (peek k go_on) w = some (go_on (search_key w.cache k), w)
step (count valid k p) w = elim (bump valid k w.cache) [
  | none ↦ none
  | some c ↦ some (p, record w { cache = c })
]
step (drop k p) w = some (p, record w { cache = remove w.cache k })
step (put now k m p) w = elim (insert now k m w) [ none ↦ none | some (u, w') ↦ some (p, w') ]
step (send m p) w = elim (write_msg m w) [ none ↦ none | some (u, w') ↦ some (p, w') ]
step (tally b c p) w = elim (inc_if b c w) [ none ↦ none | some (u, w') ↦ some (p, w') ]
step (forward m go_on) w = elim (m w) [ none ↦ none | some (r, w') ↦ some (go_on r, w') ]

-- The steps to the end, with no other goroutine in between.
unfoldable pub solo : Prog → M (Unit {0})
unfolding bump remove search_key
solo finish w = some (tt, w)
solo panic w = none
solo (peek k go_on) w = solo (go_on (search_key w.cache k)) w
solo (count valid k p) w = elim (bump valid k w.cache) [
  | none ↦ none
  | some c ↦ solo p (record w { cache = c })
]
solo (drop k p) w = solo p (record w { cache = remove w.cache k })
solo (put now k m p) w = elim (insert now k m w) [ none ↦ none | some (u, w') ↦ solo p w' ]
solo (send m p) w = elim (write_msg m w) [ none ↦ none | some (u, w') ↦ solo p w' ]
solo (tally b c p) w = elim (inc_if b c w) [ none ↦ none | some (u, w') ↦ solo p w' ]
solo (forward m go_on) w = elim (m w) [ none ↦ none | some (r, w') ↦ solo (go_on r) w' ]
