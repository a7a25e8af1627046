-- ===== src/Tests/ReportRuns.antt =====
-- Sessions and what is reported of them, on concrete inputs.
use go_dnsmasq.Base.{
  ℕ, ◌≡◌, refl, [], ◌∷◌, some, length, Bool, true, false, inl, inr, is_some, if◌then◌else◌, arith,
}
use go_dnsmasq.Base.Map.Laws.{lookup-assign}
use go_dnsmasq.Base.Text.Laws.{equal_refl}
use go_dnsmasq.Stats.{counters, init}
use go_dnsmasq.Stats.Names.{counters-Distinct}
use go_dnsmasq.Stats.Register.{IsRegistry, Visits, init-counters}
use go_dnsmasq.Server.World.{cache_hit}
use go_dnsmasq.Base.Int.{pos}
use go_dnsmasq.Base.Map.{Map, keys, lookup, assign}
use go_dnsmasq.Base.Text.{Bytes, lit, equal}
use go_dnsmasq.Cache.{Elem, Cache}
use go_dnsmasq.Cache.Dump.{dump_cache, get_record_type_name}
use go_dnsmasq.Cache.Dump.Rows.{IsListed, dump_cache-IsListed}
use go_dnsmasq.Cache.Evict.{keys-Ranges}
use go_dnsmasq.Control.{stats_response, get_addr}
use go_dnsmasq.Control.Stats.{Reports, start-Reports}
use go_dnsmasq.Server.Session.{new_server, serve_all}
use go_dnsmasq.Server.Tally.Sessions.{Tallied, serve_all-Tallied}
use go_dnsmasq.Server.World.{World}
use go_dnsmasq.Tests.OptionsRuns.{
  parse_ip, flags, conf, launched, flags_taken, requests, requests-IsRequest,
}
use go_dnsmasq.Tests.Samples.{
  dns, config, config-StubsHaveServers, env, env-IsFair, env-VisitsAll, dns-RepliesWell,
  dns-LenWell, at_second, empty_cache, fresh_elem,
}

abbrev one_entry : Cache
one_entry = record (empty_cache 4) { m = (lit "k", fresh_elem) ∷ [] }

dump_cache-IsListed_example :
    (length
        (dump_cache
          (at_second 170)
          (λ k. (at_second 170, at_second 170))
          (keys one_entry.m)
          one_entry).rows
      ≡ (dump_cache
          (at_second 170)
          (λ k. (at_second 170, at_second 170))
          (keys one_entry.m)
          one_entry).current_size)
    × ((k : Bytes) (e : Elem)
        → lookup k one_entry.m ≡ some e
        → IsListed
            (dump_cache
              (at_second 170)
              (λ k. (at_second 170, at_second 170))
              (keys one_entry.m)
              one_entry)
            (λ k. (at_second 170, at_second 170))
            k
            e)
dump_cache-IsListed_example =
    dump_cache-IsListed (at_second 170) (λ k. (at_second 170, at_second 170)) (keys one_entry.m)
      one_entry (keys-Ranges one_entry.m)

names_of_types :
    (get_record_type_name 28 ≡ lit "AAAA")
    × (get_record_type_name 33 ≡ lit "33")
    × (get_addr (pos 8053) ≡ lit "127.0.0.1:8053")
unfolding get_record_type_name get_addr
names_of_types = (refl, refl, refl)

serve_all-Tallied_example :
    (w : World) × (serve_all dns env config (lit "dev") requests (new_server config) ≡ some (tt, w))
    × Tallied requests w
serve_all-Tallied_example =
    serve_all-Tallied dns env env-VisitsAll config (lit "dev") dns-RepliesWell dns-LenWell
      env-IsFair config-StubsHaveServers requests requests-IsRequest

start-Reports_example :
    (w : World) × (serve_all dns env launched (lit "dev") requests (new_server launched)
      ≡ some (tt, w))
    × Reports launched requests (stats_response w)
start-Reports_example =
    start-Reports parse_ip dns flags (some conf) launched (lit "dev") env requests dns-RepliesWell
      dns-LenWell env-IsFair env-VisitsAll requests-IsRequest flags_taken

-- A registry that refuses the names it has.
abbrev register : Bytes → ℕ → Map ℕ → Map ℕ × Bool
register k n r = if is_some (lookup k r) then (r, false) else (assign k n r, true)

register-IsRegistry : IsRegistry register (λ r k. lookup k r)
register-IsRegistry = record {
  accepts = λ k n r h. rw h refl;
  own = λ k n r h. ground (arith, h, lookup-assign k k n r, equal_refl k);
  others = λ k n r j h e. ground (arith, h, lookup-assign k j n r, e);
}

counters-Visits : Visits counters
unfolding lookup equal
counters-Visits = record { once = counters-Distinct.0; entries = λ k c o. o; whole = λ k c o. o }

init-counters_example :
    ((n : ℕ) × ((init register counters []).vars cache_hit ≡ some n)
      × (lookup (lit "go-dnsmasq-cache-hit") (init register counters []).registry ≡ some n))
    × ((init register counters []).failed ≡ [])
unfolding lookup
init-counters_example =
    init-counters register (λ r k. lookup k r) register-IsRegistry counters [] counters-Visits
      (λ j d o. refl) (lit "go-dnsmasq-cache-hit") cache_hit
      (inr (inr (inr (inr (inr (inr (inr (inr (inr (inr (inl refl)))))))))))
