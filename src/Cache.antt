-- ===== src/Cache.antt =====
-- cache/cache.go: the response cache, its construction, removal, eviction and insertion.
-- Instants and durations are nanoseconds. Each reading of the clock is a value of its own, and so is
-- the order in which a `range` over the map visits the keys.
pub mod Key
pub mod Ttl
pub mod Evict
pub mod Insert
pub mod Hit
pub mod Race
pub mod Dump
pub mod Store
use go_dnsmasq.Base.{
  ℕ, ◌+◌, ◌-◌, ◌*◌, ◌%◌, ◌^◌, Bool, true, false, ◌&&◌, ◌||◌, not, List, [], ◌∷◌, Option, none, some,
  if◌then◌else◌, ltb, ◌==◌, length, is_some,
}
use go_dnsmasq.Base.Int.{ℤ, pos, negsuc, ◌+ℤ◌, ◌-ℤ◌, ltb_ℤ, leb_ℤ, of_word64, to_uint32}
use go_dnsmasq.Base.Text.{Bytes}
use go_dnsmasq.Base.Map.{Map, lookup, delete, assign}
use go_dnsmasq.Dns.{Msg, Rr}

pub record Elem : Type 0 where
  pub expiration : ℤ
  pub msg : Msg
  pub stale_expiration : ℤ
  pub hits : ℕ
  pub stale_hits : ℕ
  pub ttl_seconds : ℕ

pub record Cache : Type 0 where
  pub capacity : ℤ
  pub m : Map Elem
  pub ttl : ℤ
  pub stale_ttl : ℤ
  pub ttl_from_resp : Bool
  pub ttl_max : ℤ
  pub ttl_min_seconds : ℕ
  pub ttl_max_seconds : ℕ

-- `time.Duration(n) * time.Second`, in 64 bits.
unfoldable pub duration : ℤ → ℤ
unfolding of_word64
duration (pos n) = of_word64 (n * 1_000_000_000)
duration (negsuc n) = of_word64 (2 ^ 64 - ((n + 1) * 1_000_000_000) % 2 ^ 64)

-- `time.Since(t) > 0` and `time.Since(t) < 0`, where the clock reads `now`.
abbrev pub is_past : ℤ → ℤ → Bool
is_past now t = ltb_ℤ t now

abbrev pub is_ahead : ℤ → ℤ → Bool
is_ahead now t = ltb_ℤ now t

-- `New`.
unfoldable pub new : ℤ → ℤ → ℤ → Bool → ℤ → Cache
unfolding duration to_uint32
new capacity ttl stale_ttl ttl_from_resp ttl_max = record {
  capacity = capacity;
  m = [];
  ttl = duration ttl;
  stale_ttl = duration stale_ttl;
  ttl_from_resp = ttl_from_resp;
  ttl_max = duration ttl_max;
  ttl_min_seconds = to_uint32 ttl;
  ttl_max_seconds = to_uint32 ttl_max;
}

-- `CacheSize`.
abbrev pub cache_size : Cache → ℕ
cache_size c = length c.m

-- `Remove`.
unfoldable pub remove : Cache → Bytes → Cache
remove c s = record c { m = delete s c.m }

-- The body of the loop of `evictRandomInternal` at `i == 0`.
unfoldable pub evict_key : Bool → ℤ → Bytes → Map Elem → Map Elem
evict_key only_stale now k m = elim (lookup k m) [
  | none ↦ m
  | some e ↦
      if only_stale then (if is_past now e.stale_expiration then delete k m else m) else delete k m
]

-- `i == 0`.
abbrev is_zero_ℤ : ℤ → Bool
is_zero_ℤ (pos n) = n == 0
is_zero_ℤ (negsuc n) = false

-- The loop of `evictRandomInternal` over the keys in the order visited.
unfoldable pub evict_loop : Bool → ℤ → ℤ → List Bytes → Map Elem → Map Elem
unfolding ◌-ℤ◌
evict_loop only_stale now i [] m = m
evict_loop only_stale now i (k ∷ order) m =
    evict_loop only_stale now (i -ℤ pos 1) order
      (if is_zero_ℤ i then evict_key only_stale now k m else m)

-- `evictRandomInternal`: one pass, which reads the clock once at most.
unfoldable pub evict_random_internal : Bool → ℤ → List Bytes → Cache → Cache
unfolding evict_loop
evict_random_internal only_stale now order c =
    if ltb_ℤ (pos (length c.m)) c.capacity
    then c
    else record c { m = evict_loop only_stale now (c.capacity -ℤ pos (length c.m)) order c.m }

-- `EvictRandom`: the second pass ranges over the map anew.
unfoldable pub evict_random : ℤ → List Bytes → List Bytes → Cache → Cache
evict_random now order₁ order₂ c =
    evict_random_internal false now order₂ (evict_random_internal true now order₁ c)

min_ttl : ℕ → List Rr → ℕ
min_ttl n [] = n
min_ttl n (r ∷ rs) = min_ttl (if ltb r.header.ttl n then r.header.ttl else n) rs

-- `slices.Min(ttls)`, where a message with no answer counts as a TTL of 0.
abbrev min_answer_ttl : List Rr → ℕ
min_answer_ttl [] = 0
min_answer_ttl (r ∷ rs) = min_ttl r.header.ttl rs

-- `getLowestTtl`.
unfoldable pub lowest_ttl : Msg → ℕ → ℕ → ℕ
unfolding min_ttl
lowest_ttl r min max =
    let value = min_answer_ttl r.answer in
    if ltb value min then min else if ltb max value then max else value

-- The readings of the clock that `InsertMessage` makes, in order of the source.
pub record Clock : Type 0 where
  pub since_expiration : ℤ
  pub since_stale : ℤ
  pub added : ℤ
  pub added_resp : ℤ
  pub added_stale : ℤ
  pub evicting : ℤ

-- The entry that `InsertMessage` stores.
unfoldable pub new_elem : Cache → Msg → Clock → Elem
unfolding duration lowest_ttl ◌+ℤ◌
new_elem c msg t =
    let lowest = lowest_ttl msg c.ttl_min_seconds c.ttl_max_seconds in
    record {
      expiration =
          if c.ttl_from_resp then t.added_resp +ℤ duration (pos lowest) else t.added +ℤ c.ttl;
      msg = msg;
      stale_expiration = t.added_stale +ℤ c.stale_ttl;
      hits = 0;
      stale_hits = 0;
      ttl_seconds = if c.ttl_from_resp then lowest else 0;
    }

-- `!ok || renew`: whether `InsertMessage` stores the message.
unfoldable pub stores : Option Elem → Clock → Bool
stores none t = true
stores (some e) t =
    is_past t.since_expiration e.expiration && is_ahead t.since_stale e.stale_expiration

-- `InsertMessage` up to its call of `EvictRandom`.
unfoldable pub store : Cache → Bytes → Msg → Clock → Cache
unfolding stores new_elem
store c s msg t =
    if stores (lookup s c.m) t then record c { m = assign s (new_elem c msg t) c.m } else c

-- `InsertMessage`.
unfoldable pub insert_message : Cache → Bytes → Msg → Clock → List Bytes → List Bytes → Cache
unfolding store evict_random
insert_message c s msg t order₁ order₂ =
    if leb_ℤ c.capacity (pos 0) then c else evict_random t.evicting order₁ order₂ (store c s msg t)

-- `Search`, for the message, its expiration and its stale expiration.
unfoldable pub search_key : Cache → Bytes → Option Elem
search_key c s = if leb_ℤ c.capacity (pos 0) then none else lookup s c.m
