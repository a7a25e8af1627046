-- ===== src/Tests/ThreadRuns.antt =====
-- Requests that the server handles at the same time, on concrete inputs.
use go_dnsmasq.Base.{
  ℕ, ◌≡◌, refl, ◌⊎◌, true, false, List, [], ◌∷◌, none, some, arith, map, get_elem?, is_some,
}
use go_dnsmasq.Base.Text.{lit, equal, has_suffix, to_lower}
use go_dnsmasq.Base.Map.{lookup, delete}
use go_dnsmasq.Base.Int.{◌-ℤ◌}
use go_dnsmasq.Server.Records.{address_records}
use go_dnsmasq.Server.Forward.{serve_dns_forward, forward_query}
use go_dnsmasq.Cache.{Cache}
use go_dnsmasq.Cache.Evict.{keys-Ranges, IsBounded}
use go_dnsmasq.Cache.Key.{key}
use go_dnsmasq.Server.Serve.{serve_dns, requested, host_records, insert}
use go_dnsmasq.Server.Threads.{solo, step, serve_dns_steps, serve_uncached_steps}
use go_dnsmasq.Server.Threads.Pool.{Arrival, Thread, spawn, interleave}
use go_dnsmasq.Server.Threads.Pool.Schedule.{Panics}
use go_dnsmasq.Server.Threads.Pool.Serves.{Finished, IsReady, interleave-spawn, interleave-Finished}
use go_dnsmasq.Server.Threads.Pool.Turns.{Stand, turn, turns}
use go_dnsmasq.Server.Threads.Solo.{solo-serve_dns}
use go_dnsmasq.Tests.Samples.{
  env, env-IsFair, config-StubsHaveServers, now, config, dns, dns-RepliesWell, dns-LenWell, request,
  empty_cache, asking, fresh_elem, at_second,
}

solo-serve_dns_example :
    solo
      (serve_dns_steps dns env config (lit "dev") now false request)
      (record { cache = empty_cache 4; written = []; counted = []; asked = [] })
    ≡ serve_dns dns env config
        (lit "dev")
        now
        false
        request
        (record { cache = empty_cache 4; written = []; counted = []; asked = [] })
solo-serve_dns_example = solo-serve_dns dns env config (lit "dev") now false request _

abbrev arrival : Arrival
arrival = record { env = env; now = now; tcp = false; request = request }

-- Two requests for one name, at the same time.
abbrev both : List Arrival
both = arrival ∷ arrival ∷ []

arrival-IsReady : IsReady arrival
arrival-IsReady = record { fair = env-IsFair; orders = keys-Ranges; asks = refl }

abbrev both_threads : List Thread
both_threads = map (spawn dns config (lit "dev") (empty_cache 4)) both

abbrev alternate : List ℕ
alternate =
    0 ∷ 1 ∷ 0 ∷ 1 ∷ 0 ∷ 1 ∷ 0 ∷ 1 ∷ 0 ∷ 1 ∷ 0 ∷ 1 ∷ 0 ∷ 1 ∷ 0 ∷ 1 ∷ 0 ∷ 1 ∷ 0 ∷ 1 ∷ 0 ∷ 1 ∷ []

interleave-spawn_example :
    ((ts : List Thread) × (c' : Cache) × (interleave alternate both_threads (empty_cache 4)
        ≡ some (ts, c'))
      × (map (λ (t : Thread). t.request) ts ≡ request ∷ request ∷ [])
      × Stand ts
      × IsBounded c')
    ⊎ Panics alternate both_threads (empty_cache 4)
interleave-spawn_example =
    interleave-spawn dns dns-RepliesWell dns-LenWell config config-StubsHaveServers (lit "dev")
      (empty_cache 4) both alternate (arrival-IsReady, (arrival-IsReady, tt))
      (record { below = omega arith; distinct = tt })

interleave-Finished_example :
    ((ts : List Thread) × (c' : Cache) × (t : Thread) × (interleave alternate both_threads
          (empty_cache 4)
        ≡ some (ts, c'))
      × (get_elem? ts 1 ≡ some t)
      × Finished request t)
    ⊎ Panics alternate both_threads (empty_cache 4)
unfolding turns turn
interleave-Finished_example =
    interleave-Finished dns dns-RepliesWell dns-LenWell config config-StubsHaveServers (lit "dev")
      (empty_cache 4) both alternate 1 arrival (arrival-IsReady, (arrival-IsReady, tt)) refl
      (omega arith)

-- This schedule does not panic.
alternate_runs : is_some (interleave alternate both_threads (empty_cache 4)) ≡ true
unfolding interleave spawn step serve_dns_steps requested lookup serve_uncached_steps host_records
    address_records has_suffix to_lower serve_dns_forward ◌-ℤ◌ forward_query insert
alternate_runs = refl

-- The entry expires at 160 s. The first request finds it before, the second one removes it behind.
abbrev at_expiry : List Arrival
at_expiry =
    arrival
    ∷ record arrival { now = record now { hit₁ = at_second 161; hit₂ = at_second 161 } }
    ∷ []

abbrev one_entry : Cache
one_entry = record (empty_cache 4) { m = (key asking false false, fresh_elem) ∷ [] }

at_expiry_panics :
    interleave
      (0 ∷ 0 ∷ 0 ∷ 1 ∷ 1 ∷ 1 ∷ 1 ∷ 0 ∷ [])
      (map (spawn dns config (lit "dev") one_entry) at_expiry)
      one_entry
    ≡ none
unfolding interleave spawn step serve_dns_steps requested lookup equal key delete
at_expiry_panics = refl
