-- ===== src/Tests/StoreRuns.antt =====
-- The cache as a store, on concrete inputs.
use go_dnsmasq.Base.{◌≡◌, true, false, List, [], ◌∷◌, Option, some}
use go_dnsmasq.Base.Int.{pos}
use go_dnsmasq.Base.Text.{Bytes, lit}
use go_dnsmasq.Cache.{Cache, new}
use go_dnsmasq.Cache.Key.{key}
use go_dnsmasq.Cache.Store.{Call, put, get, drop, run, view, Trace, is_enabled, life_of}
use go_dnsmasq.Cache.Store.Refines.{run-Trace}
use go_dnsmasq.Cache.Store.Sound.{Sound, run-new-Sound}
use go_dnsmasq.Dns.{Msg}
use go_dnsmasq.Tests.Samples.{asking, response, at_second, clock, empty_cache}

abbrev question_key : Bytes
question_key = key asking false false

-- An insertion, two lookups while the response is fresh, and a removal.
abbrev calls : List Call
calls =
    put question_key response clock [] []
    ∷ get asking false false 7 true false (at_second 120) (at_second 120)
    ∷ drop (lit "k")
    ∷ get asking false false 8 true false (at_second 121) (at_second 121)
    ∷ []

run-Trace_example :
    (rs : List (Option Msg)) × (c' : Cache) × (run calls (empty_cache 4) ≡ some (rs, c'))
    × Trace
        (is_enabled (empty_cache 4))
        (life_of (empty_cache 4))
        (view (empty_cache 4))
        calls
        rs
        (view c')
run-Trace_example = run-Trace calls (empty_cache 4) tt

run-new-Sound_example :
    (rs : List (Option Msg)) × (c' : Cache) × (run calls
        (new (pos 4) (pos 60) (pos 0) false (pos 3600))
      ≡ some (rs, c'))
    × Sound (life_of (new (pos 4) (pos 60) (pos 0) false (pos 3600))) [] calls rs
run-new-Sound_example = run-new-Sound (pos 4) (pos 60) (pos 0) false (pos 3600) calls
