-- ===== src/Server/Serve.antt =====
-- server/server.go: the handler `ServeDNS`, and `ServeDNSReverse` of server/forwarding.go.
pub mod Laws
pub mod Once
pub mod Asks
pub mod Local
pub mod Repeat
pub mod Fresh
pub mod Again
use go_dnsmasq.Base.{
  ℕ, Bool, true, false, not, ◌&&◌, ◌||◌, List, [], ◌∷◌, ◌++◌, Option, none, some, if◌then◌else◌,
  ltb, ◌==◌,
}
use go_dnsmasq.Base.Int.{ℤ, pos, ltb_ℤ}
use go_dnsmasq.Base.Text.{Bytes, lit, equal, has_suffix, to_lower}
use go_dnsmasq.Base.Map.{Map}
use go_dnsmasq.Cache.{Elem, Cache, Clock, store, evict_random_internal, insert_message}
use go_dnsmasq.Cache.Key.{key}
use go_dnsmasq.Cache.Hit.{hit}
use go_dnsmasq.Dns.{
  Question, Rr, txt, Msg, DnsLib, empty_msg, rcode_success, rcode_server_failure, type_a, type_aaaa,
  type_any, type_ptr, type_txt, class_chaos, max_msg_size,
}
use go_dnsmasq.Fit.{fit}
use go_dnsmasq.Server.Config.{Config, is_nil}
use go_dnsmasq.Server.Forward.{question0, lift, reply, serve_dns_forward}
use go_dnsmasq.Server.Records.{address_records, ptr_records}
use go_dnsmasq.Server.Rotate.{round_robin}
use go_dnsmasq.Server.World.{
  World, Env, M, pure, ◌>>=◌, ◌>>◌, write_msg, inc, inc_if, request_count, dnssec_ok_count,
  cache_hit, cache_miss,
}

-- What one request meets besides its `Env`: the readings of the clock in its two calls of `Hit` and in
-- `InsertMessage`, the order in which a `range` visits a map of the cache, and the values of `dns.Id()`.
pub record Moment : Type 0 where
  pub hit₁ : ℤ
  pub hit₂ : ℤ
  pub stale₁ : ℤ
  pub stale₂ : ℤ
  pub clock : Clock
  pub order₁ : Map Elem → List Bytes
  pub order₂ : Map Elem → List Bytes
  pub ids : ℕ → ℕ

-- `s.rcache.Hit`, on the cache of the world.
unfoldable pub look_up : Question → Bool → Bool → ℕ → Bool → Bool → ℤ → ℤ → M (Option Msg)
look_up q dnssec tcp msgid keep_stale return_stale now₁ now₂ w =
    elim (hit q dnssec tcp msgid keep_stale return_stale now₁ now₂ w.cache) [
      | none ↦ none
      | some (m, c) ↦ some (m, record w { cache = c })
    ]

-- `s.rcache.InsertMessage`.
unfoldable pub insert : Moment → Bytes → Msg → M (Unit {0})
insert now k m w =
    let stored = store w.cache k m now.clock in
    let order₁ = now.order₁ stored.m in
    let order₂ = now.order₂ (evict_random_internal true now.clock.evicting order₁ stored).m in
    some (tt, record w { cache = insert_message w.cache k m now.clock order₁ order₂ })

-- The size for UDP and the DNSSEC flag that a request asks for.
unfoldable pub requested : DnsLib → Msg → ℕ × Bool
requested dns req = elim (dns.edns0 req) [
  | none ↦ (512, false)
  | some (size, dnssec) ↦ (if ltb size 512 then 512 else size, dnssec)
]

module _ (dns : DnsLib) (env : Env) (cfg : Config) (version : Bytes) (now : Moment)
    (tcp : Bool) where
  -- `ServerFailure(msgFail, req)` and its writing.
  unfoldable pub write_failure : Msg → M (Unit {0})
  write_failure req = write_msg (dns.set_rcode empty_msg req rcode_server_failure)

  -- `Fit` with the limit of the transport. The message goes on, unless it overflows over TCP, where a
  -- failure is written instead.
  unfoldable pub fitted : Msg → ℕ → Msg → (Msg → M (Unit {0})) → M (Unit {0})
  unfolding write_failure
  fitted req size m go_on = do
    (m', overflow) ← lift (fit dns m (if tcp then max_msg_size else size) tcp)
    elim (tcp && overflow) [ true ↦ write_failure req | false ↦ go_on m' ]

  -- `m` at the start of the handler.
  unfoldable pub fresh_reply : Msg → Msg
  fresh_reply req = record (dns.set_reply empty_msg req) {
    authoritative = false;
    recursion_available = true;
    compress = true;
  }

  -- The part of the handler for a response found in the cache.
  unfoldable pub serve_cached : Question → ℕ → Msg → Msg → M (Unit {0})
  unfolding fitted
  serve_cached q size req m1 = fitted req size m1 (λ m. do
    answer ← lift (elim (q.qtype == type_a || q.qtype == type_aaaa) [
      | true ↦ round_robin cfg.round_robin now.ids m.answer
      | false ↦ some m.answer
    ])
    write_msg (record m { answer = answer })
    inc cache_hit)

  -- The deferred function of the handler, where `local` is true.
  unfoldable pub finish_local : Question → Bool → ℕ → Msg → Msg → M (Unit {0})
  unfolding fitted
  finish_local q dnssec size req m = elim (m.rcode == rcode_server_failure) [
    | true ↦ write_msg m
    | false ↦ fitted req size m (λ m'. do insert now (key q dnssec tcp) m'; write_msg m')
  ]

  -- `ServeDNSReverse`.
  unfoldable pub serve_dns_reverse : Question → Msg → M (Msg × Bool)
  unfolding fresh_reply
  serve_dns_reverse q req = elim (ptr_records env q cfg.hosts_ttl) [
    | [] ↦ serve_dns_forward dns env cfg tcp req none
    | r ∷ records ↦ reply (record (fresh_reply req) { answer = r ∷ records })
  ]

  -- The text answered to a query of class CHAOS and type TXT.
  unfoldable pub chaos_text : Bytes → Option Bytes
  chaos_text name =
      if equal name (lit "version.bind.") || equal name (lit "version.server.")
      then some version
      else if equal name (lit "hostname.bind.") || equal name (lit "id.server.")
      then some (lit "localhost")
      else none

  -- The reply to a query of class CHAOS.
  unfoldable pub chaos_reply : Question → Bytes → Msg → Msg
  unfolding chaos_text fresh_reply
  chaos_reply q name req =
      let m = record (fresh_reply req) { authoritative = true } in
      let failure = dns.set_rcode (dns.set_reply m req) req rcode_server_failure in
      if q.qtype == type_txt
      then elim (chaos_text name) [
        | none ↦ failure
        | some text ↦ record m {
          answer =
              record {
                header = record { name = q.name; rrtype = type_txt; class = class_chaos; ttl = 0 };
                rdata = txt (text ∷ []);
              }
              ∷ [];
        }
      ]
      else failure

  -- Inserting the response of a lookup, unless it is stale or not to be kept.
  unfoldable pub keep_response : Question → Bool → Bool → Msg × Bool → M (Unit {0})
  keep_response q dnssec wanted (resp, stale) = elim (wanted && not stale) [
    | true ↦ insert now (key q dnssec tcp) resp
    | false ↦ pure tt
  ]

  -- `!(s.config.RCacheNonNegative && resp.Rcode != dns.RcodeSuccess)`.
  abbrev pub store_in_cache : Msg → Bool
  store_in_cache resp = not (cfg.rcache_non_negative && not (resp.rcode == rcode_success))

  -- Forwarding, with a stale response from the cache at hand.
  unfoldable pub serve_forwarded : Question → Bool → Msg → M (Unit {0})
  unfolding look_up keep_response
  serve_forwarded q dnssec req = do
    stale ←
        look_up q dnssec tcp (fresh_reply req).id (ltb_ℤ (pos 0) cfg.rstale_ttl) true now.stale₁
          now.stale₂
    (resp, is_stale) ← serve_dns_forward dns env cfg tcp req stale
    keep_response q dnssec (store_in_cache resp) (resp, is_stale)

  -- The records of the hosts file for a query.
  unfoldable pub host_records : Question → Bytes → List Rr
  host_records q name =
      if q.qtype == type_a || (q.qtype == type_aaaa || q.qtype == type_any)
      then address_records env q name cfg.hosts_ttl
      else []

  -- The test for a query of the reverse zones.
  abbrev pub is_reverse : Question → Bytes → Bool
  is_reverse q name =
      (q.qtype == type_ptr && has_suffix name (lit ".in-addr.arpa."))
      || has_suffix name (lit ".ip6.arpa.")

  -- The part of the handler for a query with no response in the cache.
  unfoldable pub serve_uncached : Question → Bool → ℕ → Msg → M (Unit {0})
  unfolding finish_local serve_dns_reverse chaos_reply keep_response serve_forwarded host_records
      fresh_reply
  serve_uncached q dnssec size req =
      let name = to_lower q.name in
      elim (host_records q name) [
        | r ∷ records ↦
            finish_local q dnssec size req
              (record (fresh_reply req) { answer = (fresh_reply req).answer ++ r ∷ records })
        | [] ↦ elim (is_reverse q name) [
          | true ↦ do r ← serve_dns_reverse q req; keep_response q dnssec true r
          | false ↦ elim (q.qclass == class_chaos) [
            | true ↦ finish_local q dnssec size req (chaos_reply q name req)
            | false ↦ serve_forwarded q dnssec req
          ]
        ]
      ]

  -- `ServeDNS`.
  unfoldable pub serve_dns : Msg → M (Unit {0})
  unfolding serve_cached serve_uncached look_up requested
  serve_dns req = do
    q ← lift (question0 req)
    let (size, dnssec) = requested dns req
    inc request_count
    inc_if dnssec dnssec_ok_count
    found ←
        look_up q dnssec tcp (fresh_reply req).id (ltb_ℤ (pos 0) cfg.rstale_ttl) false now.hit₁
          now.hit₂
    elim found [
      | some m1 ↦ serve_cached q size req m1
      | none ↦ do inc cache_miss; serve_uncached q dnssec size req
    ]
