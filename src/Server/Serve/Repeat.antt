-- ===== src/Server/Serve/Repeat.antt =====
-- server/server.go and cache/: a response that was inserted is what the next request gets.
use go_dnsmasq.Base.{◌+◌, ◌≡◌, refl, true, false, none, some, length}
use go_dnsmasq.Base.Int.{pos, ◌<ℤ◌, ltb_ℤ}
use go_dnsmasq.Base.Text.{Bytes}
use go_dnsmasq.Base.Map.{lookup, Distinct}
use go_dnsmasq.Cache.{is_ahead, new_elem, store, evict_random_internal}
use go_dnsmasq.Cache.Hit.{served}
use go_dnsmasq.Cache.Hit.Life.{hit-insert_message}
use go_dnsmasq.Cache.Key.{key}
use go_dnsmasq.Dns.{DnsLib, RepliesWell, LenWell, Question, Msg}
use go_dnsmasq.Server.Config.{Config}
use go_dnsmasq.Server.Forward.{question0}
use go_dnsmasq.Server.Serve.{Moment, insert, requested, fresh_reply, serve_dns}
use go_dnsmasq.Server.Serve.Local.{AnswersFrom, inserted, serve_dns-AnswersFrom}
use go_dnsmasq.Server.World.{World, Env}

-- A response that the handler inserts under the key of a question, into a cache with distinct keys, no entry under
-- the key and room for two more entries, is what a later request with that question gets over UDP before the response
-- expires: it is written, with the id of that request, fitted to the size that the client takes and with its
-- records in any order, and no query is sent. The hypotheses on the DNS library: it builds replies and measures
-- messages as documented.
pub insert-serve_dns :
    (dns : DnsLib) (replies : RepliesWell dns) (lens : LenWell dns) (env : Env) (cfg : Config)
    (version : Bytes) (earlier now : Moment) (req : Msg) (q : Question) (m : Msg) (w : World)
    → question0 req ≡ some q
    → Distinct w.cache.m
    → lookup (key q (requested dns req).1 false) w.cache.m ≡ none
    → pos (length w.cache.m + 1) <ℤ w.cache.capacity
    → is_ahead now.hit₁ (new_elem w.cache m earlier.clock).expiration ≡ true
    → (w' : World) × (insert earlier (key q (requested dns req).1 false) m w ≡ some (tt, w'))
      × AnswersFrom dns
          (served m (fresh_reply dns env cfg version now false req).id)
          (requested dns req).0
          (serve_dns dns env cfg version now false req)
          w'
unfolding insert
insert-serve_dns dns replies lens env cfg version earlier now req q m w asks distinct absent room
      fresh =
    let dnssec = (requested dns req).1 in
    let k = key q dnssec false in
    let stored = store w.cache k m earlier.clock in
    let order₁ = earlier.order₁ stored.m in
    let order₂ =
      earlier.order₂ (evict_random_internal true earlier.clock.evicting order₁ stored).m in
    let w' = inserted earlier k m w in
    let (c, hits) =
      hit-insert_message q dnssec false (fresh_reply dns env cfg version now false req).id
        (ltb_ℤ (pos 0) cfg.rstale_ttl) false now.hit₁ now.hit₂ w.cache m earlier.clock order₁ order₂
        distinct absent room fresh in
    (w', refl, serve_dns-AnswersFrom dns replies lens env cfg version now req q c _ w' asks hits)
