-- ===== src/Tests/CacheRuns.antt =====
-- The cache, on concrete inputs.
use go_dnsmasq.Base.{
  ℕ, ◌≤◌, ◌≡◌, ◌≢◌, refl, ◌⊎◌, inr, true, false, List, [], ◌∷◌, ◌++◌, Option, none, some, arith,
  length,
}
use go_dnsmasq.Base.Int.{◌+ℤ◌, ◌-ℤ◌}
use go_dnsmasq.Base.Text.{Bytes, lit, equal}
use go_dnsmasq.Base.Map.{lookup, delete, assign, keys}
use go_dnsmasq.Cache.{
  Cache, evict_key, evict_loop, evict_random_internal, new_elem, store, insert_message, remove,
  lowest_ttl, is_ahead,
}
use go_dnsmasq.Cache.Evict.{keys-Ranges, IsBounded}
use go_dnsmasq.Cache.Hit.{served, hit}
use go_dnsmasq.Cache.Hit.Laws.{Answers, hit-Answers}
use go_dnsmasq.Cache.Hit.Life.{hit-insert_message, hit_once}
use go_dnsmasq.Cache.Insert.{insert_message-IsBounded, insert_message_blocked}
use go_dnsmasq.Cache.Key.Injective.{IsFqdn, key-injective, key_any_class}
use go_dnsmasq.Cache.Key.{key}
use go_dnsmasq.Cache.Race.{Call, at, looking, faulted, Reach, Reach-faulted}
use go_dnsmasq.Cache.Ttl.{IsLowest, lowest_ttl_bounds}
use go_dnsmasq.Dns.{Msg, Question}
use go_dnsmasq.Tests.Samples.{asking, response, at_second, clock, empty_cache, fresh_elem}

program : Unit {0}
unfolding equal lookup delete assign key ◌+ℤ◌ ◌-ℤ◌ insert_message remove hit lowest_ttl evict_loop
    evict_key evict_random_internal
program = tt

abbrev k : Bytes
k = lit "k"

abbrev one_entry : ℕ → Cache
one_entry n = record (empty_cache n) { m = (k, fresh_elem) ∷ [] }

-- With capacity 2 the second entry is evicted at once, with capacity 3 it is kept.
store_two :
    (length (insert_message (one_entry 2) (lit "j") response clock (k ∷ []) (k ∷ [])).m ≡ 1)
    × (length (insert_message (one_entry 3) (lit "j") response clock (k ∷ []) (k ∷ [])).m ≡ 2)
unfolding program
store_two = (refl, refl)

one-IsBounded : IsBounded (one_entry 2)
unfolding lookup
one-IsBounded = record { below = omega arith; distinct = (refl, tt) }

-- The orders of the two passes, for an insertion of the response under `j`.
abbrev first_order : Cache → Bytes → List Bytes
first_order c j = keys (store c j response clock).m

abbrev after_first : Cache → Bytes → Cache
after_first c j =
    evict_random_internal true clock.evicting (first_order c j) (store c j response clock)

insert_message-IsBounded_example : IsBounded (
    insert_message
      (one_entry 2)
      (lit "j")
      response
      clock
      (first_order (one_entry 2) (lit "j"))
      (keys (after_first (one_entry 2) (lit "j")).m))
insert_message-IsBounded_example =
    insert_message-IsBounded (one_entry 2) (lit "j") response clock
      (first_order (one_entry 2) (lit "j")) (keys (after_first (one_entry 2) (lit "j")).m)
      one-IsBounded (keys-Ranges (after_first (one_entry 2) (lit "j")).m)

insert_message_blocked_example :
    (lookup k (insert_message (one_entry 3) k response clock (k ∷ []) (k ∷ [])).m ≡ none)
    ⊎ (lookup k (insert_message (one_entry 3) k response clock (k ∷ []) (k ∷ [])).m
        ≡ some fresh_elem)
unfolding lookup equal
insert_message_blocked_example =
    insert_message_blocked (one_entry 3) k response clock (k ∷ []) (k ∷ []) one-IsBounded.distinct
      fresh_elem refl (inr refl)

-- The response, cached under the key of the question.
abbrev question_key : Bytes
question_key = key asking false false

abbrev cached : Cache
cached = record (empty_cache 4) { m = (question_key, fresh_elem) ∷ [] }

found_cached : lookup question_key cached.m ≡ some fresh_elem
unfolding lookup equal key
found_cached = refl

cached-IsBounded : IsBounded cached
unfolding lookup
cached-IsBounded = record { below = omega arith; distinct = (refl, tt) }

hit-Answers_example :
    (r : Option Msg × Cache) × Answers asking false false 7 true false
      (at_second 120)
      (at_second 120)
      cached
      fresh_elem
      r
hit-Answers_example =
    hit-Answers asking false false 7 true false (at_second 120) (at_second 120) cached fresh_elem
      (omega arith) cached-IsBounded.distinct found_cached

fresh_at_120 : is_ahead (at_second 120) (new_elem (empty_cache 4) response clock).expiration ≡ true
unfolding new_elem ◌+ℤ◌
fresh_at_120 = refl

hit-insert_message_example :
    (c : Cache) × (hit asking false false 7 true false
        (at_second 120)
        (at_second 120)
        (insert_message (empty_cache 4) question_key response clock [] [])
      ≡ some (some (served response 7), c))
unfolding lookup
hit-insert_message_example =
    hit-insert_message asking false false 7 true false (at_second 120) (at_second 120)
      (empty_cache 4) response clock [] [] tt refl (omega arith) fresh_at_120

hit_once_example :
    (c : Cache) × (hit asking false false 7 true false
        (at_second 120)
        (at_second 120)
        (insert_message (empty_cache 4) question_key response clock [] [])
      ≡ some (some (served response 7), c))
    × (lookup question_key c.m ≡ none)
unfolding lookup
hit_once_example =
    hit_once asking false false 7 true false (at_second 120) (at_second 120) (empty_cache 4)
      response clock [] [] tt refl (omega arith) fresh_at_120 refl refl

abbrev call : Call
call = record {
  k = question_key;
  keep_stale = true;
  return_stale = false;
  now₁ = at_second 120;
  now₂ = at_second 120;
}

Reach-faulted_example :
    Reach true call (at cached looking) (at (remove cached question_key) faulted)
Reach-faulted_example =
    Reach-faulted call cached fresh_elem (omega arith) cached-IsBounded.distinct found_cached refl

-- The lowest of the TTLs 30 and 30, raised to the lower bound.
lowest_ttl_60 : lowest_ttl response 60 3600 ≡ 60
unfolding program
lowest_ttl_60 = refl

lowest_ttl_bounds_example :
    (60 ≤ lowest_ttl response 60 3600)
    × (lowest_ttl response 60 3600 ≤ 3600)
    × IsLowest response.answer 60 3600 (lowest_ttl response 60 3600)
lowest_ttl_bounds_example = lowest_ttl_bounds response 60 3600 (omega arith)

abbrev dotted : Question
dotted = record { name = lit "a."; qtype = 1; qclass = 1 }

not_dotted : (t : Bytes) → lit "a" ≢ t ++ b'.' ∷ []
not_dotted [] e = ground arith
not_dotted (x ∷ []) e = ground arith
not_dotted (x ∷ y ∷ t) e = ground arith

dotted-IsFqdn : IsFqdn dotted.name
dotted-IsFqdn = record { stem = lit "a"; ends = refl; one_dot = not_dotted }

key-injective_example :
    (dotted.name ≡ dotted.name) × (dotted.qtype ≡ dotted.qtype) × (true ≡ true) × (false ≡ false)
key-injective_example =
    key-injective dotted (record dotted { qclass = 3 }) true false true false dotted-IsFqdn
      dotted-IsFqdn (omega arith) (omega arith)
      (key_any_class (record dotted { qclass = 3 }) 1 true false)
