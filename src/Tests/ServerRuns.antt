-- ===== src/Tests/ServerRuns.antt =====
-- The server, on concrete inputs.
use mathlib.Core.List.{Perm}
use go_dnsmasq.Base.{ℕ, ◌<◌, ◌≡◌, refl, ◌⊎◌, Bool, true, false, List, [], ◌∷◌, none, some}
use go_dnsmasq.Base.Text.{lit}
use go_dnsmasq.Cache.Evict.{keys-Ranges}
use go_dnsmasq.Dns.{Rr, Msg}
use go_dnsmasq.Fit.{narrow, fit}
use go_dnsmasq.Fit.Laws.{Fitted, fit-Fitted}
use go_dnsmasq.Server.Config.{check_config}
use go_dnsmasq.Server.Forward.{serve_dns_forward}
use go_dnsmasq.Server.Forward.Reply.{Replies, serve_dns_forward-Replies}
use go_dnsmasq.Server.Rotate.{round_robin, count_cname}
use go_dnsmasq.Server.Rotate.Laws.{round_robin-perm}
use go_dnsmasq.Server.Serve.Again.{serve_dns-AnswersFrom_again}
use go_dnsmasq.Server.Serve.{store_in_cache}
use go_dnsmasq.Base.Text.{has_suffix}
use go_dnsmasq.Cache.{is_ahead, new_elem}
use go_dnsmasq.Base.Int.{◌+ℤ◌}
use go_dnsmasq.Base.{arith}
use go_dnsmasq.Server.Serve.{serve_dns, requested, fresh_reply, host_records}
use go_dnsmasq.Server.Serve.Local.{
  AnswersWith, with_records, serve_dns-AnswersWith, AnswersFrom, serve_dns-AnswersFrom,
}
use go_dnsmasq.Server.Records.{address_records}
use go_dnsmasq.Hosts.Net.{to4}
use go_dnsmasq.Cache.Hit.{hit, served}
use go_dnsmasq.Cache.Key.{key}
use go_dnsmasq.Base.Map.{lookup, assign}
use go_dnsmasq.Base.Text.{to_lower, equal}
use go_dnsmasq.Server.World.{Env}
use go_dnsmasq.Dns.{a}
use go_dnsmasq.Tests.Samples.{asking, fresh_elem}
use go_dnsmasq.Server.Serve.Laws.{Serves}
use go_dnsmasq.Server.Serve.Once.{serve_dns-Serves}
use go_dnsmasq.Server.World.{World}
use go_dnsmasq.Server.Serve.Asks.{AsksOnly, serve_dns-AsksOnly}
use go_dnsmasq.Tests.Samples.{
  env, env-IsFair, env-VisitsAll, config-StubsHaveServers, now, config, dns, address,
  dns-RepliesWell, dns-LenWell, request, response, empty_cache,
}

abbrev world : World
world = record { cache = empty_cache 4; written = []; counted = []; asked = [] }

serve_dns-Serves_example :
    Serves request (serve_dns dns env config (lit "dev") now false request) world
serve_dns-Serves_example =
    serve_dns-Serves dns dns-RepliesWell dns-LenWell env env-IsFair config config-StubsHaveServers
      (lit "dev") now keys-Ranges false request world refl

serve_dns-AsksOnly_example :
    (w' : World) × (serve_dns dns env config (lit "dev") now false request world ≡ some (tt, w'))
    × AsksOnly config false world w'
serve_dns-AsksOnly_example =
    serve_dns-AsksOnly dns env env-VisitsAll config (lit "dev") now false dns-RepliesWell
      dns-LenWell env-IsFair config-StubsHaveServers keys-Ranges request world refl

-- A hosts file with the name.
abbrev env_hosts : Env
env_hosts = record env { find_hosts = λ name. some ((10 ∷ 0 ∷ 0 ∷ 1 ∷ []) ∷ []) }

misses :
    hit asking false false
      (fresh_reply dns env_hosts config (lit "dev") now false request).id
      false
      false
      now.hit₁
      now.hit₂
      world.cache
    ≡ some (none, world.cache)
unfolding hit lookup
misses = refl

in_hosts :
    host_records dns env_hosts config (lit "dev") now false asking (to_lower asking.name)
    ≡ record {
      header = record { name = lit "db.lan."; rrtype = 1; class = 1; ttl = 0 };
      rdata = a (10 ∷ 0 ∷ 0 ∷ 1 ∷ []);
    }
      ∷ []
unfolding host_records address_records to4
in_hosts = refl

serve_dns-AnswersWith_example :
    AnswersWith dns
      (with_records dns dns-RepliesWell dns-LenWell env_hosts config (lit "dev") now request (
        record {
          header = record { name = lit "db.lan."; rrtype = 1; class = 1; ttl = 0 };
          rdata = a (10 ∷ 0 ∷ 0 ∷ 1 ∷ []);
        }
        ∷ []))
      512
      (serve_dns dns env_hosts config (lit "dev") now false request)
      world
unfolding requested
serve_dns-AnswersWith_example =
    serve_dns-AnswersWith dns dns-RepliesWell dns-LenWell env_hosts config (lit "dev") now request
      asking world.cache _ [] world refl misses in_hosts

-- The response in the cache, before and after it is served.
abbrev holding : ℕ → World
holding hits = record world {
  cache = record (empty_cache 4) {
    m = (key asking false false, record fresh_elem { hits = hits }) ∷ [];
  };
}

hits_once :
    hit asking false false
      (fresh_reply dns env config (lit "dev") now false request).id
      false
      false
      now.hit₁
      now.hit₂
      (holding 0).cache
    ≡ some (some (served response 7), (holding 1).cache)
unfolding hit lookup equal key assign fresh_reply
hits_once = refl

serve_dns-AnswersFrom_example :
    AnswersFrom dns
      (served response 7)
      512
      (serve_dns dns env config (lit "dev") now false request)
      (holding 0)
unfolding requested
serve_dns-AnswersFrom_example =
    serve_dns-AnswersFrom dns dns-RepliesWell dns-LenWell env config (lit "dev") now request asking
      (holding 1).cache (served response 7) (holding 0) refl hits_once

serve_dns_forward-Replies_example :
    Replies request (serve_dns_forward dns env config false request none) world
serve_dns_forward-Replies_example =
    serve_dns_forward-Replies dns env config false dns-RepliesWell env-IsFair
      config-StubsHaveServers request none world refl tt

fit-Fitted_example :
    (r : Msg × Bool) × (fit dns response 40 false ≡ some r) × Fitted dns response 40 false r
fit-Fitted_example = fit-Fitted dns dns-LenWell response 40 false

-- One answer takes 28 bytes: two do not fit in 40, and not even one in 20, but one is kept.
fit_runs :
    (fit dns response 40 false
      ≡ some (record response { truncated = true; answer = address 1 ∷ [] }, true))
    × (fit dns response 20 false
        ≡ some (record response { truncated = true; answer = address 1 ∷ [] }, true))
unfolding fit narrow
fit_runs = (refl, refl)

round_robin-perm_example :
    (ys : List Rr) × (round_robin true (λ n. n) response.answer ≡ some ys)
    × Perm ys response.answer
    × ((true ≡ false) ⊎ (1 < count_cname response.answer) → ys ≡ response.answer)
round_robin-perm_example = round_robin-perm true (λ n. n) response.answer

accepted : (check_config config).1 ≡ none
unfolding check_config
accepted = refl

still_fresh : is_ahead now.hit₁ (new_elem world.cache response now.clock).expiration ≡ true
unfolding new_elem ◌+ℤ◌
still_fresh = refl

-- A second request for the same name.
abbrev request_again : Msg
request_again = record request { id = 8 }

serve_dns-AnswersFrom_again_example :
    (w : World) × (resp : Msg) × (serve_dns dns env config (lit "dev") now false request world
      ≡ some (tt, w))
    × (w.written ≡ resp ∷ [])
    × ((store_in_cache dns env config (lit "dev") now false resp ≡ false)
        ⊎ ((is_ahead now.hit₁ (new_elem world.cache resp now.clock).expiration ≡ false)
            ⊎ AnswersFrom dns
                (served resp 8)
                512
                (serve_dns dns env config (lit "dev") now false request_again)
                w))
unfolding requested fresh_reply lookup host_records address_records to_lower has_suffix
serve_dns-AnswersFrom_again_example =
    serve_dns-AnswersFrom_again dns dns-RepliesWell env env-IsFair config config-StubsHaveServers
      (lit "dev") now request asking refl dns-LenWell env now request_again world refl refl refl
      refl refl tt (omega arith) refl refl
