-- ===== src/Cache/Hit.antt =====
-- cache/hit.go: `Hit`, in the parts between which the cache's lock is released.
pub mod Laws
pub mod Life
use go_dnsmasq.Base.{ℕ, ◌+◌, ◌%◌, ◌^◌, Bool, true, false, ◌||◌, Option, none, some, if◌then◌else◌}
use go_dnsmasq.Base.Int.{ℤ}
use go_dnsmasq.Base.Text.{Bytes}
use go_dnsmasq.Base.Map.{Map, lookup, assign}
use go_dnsmasq.Dns.{Question, Msg}
use go_dnsmasq.Cache.{Elem, Cache, is_past, is_ahead, remove, search_key}
use go_dnsmasq.Cache.Key.{key}

-- `hits++` or `staleHits++`, on an unsigned 64-bit counter.
unfoldable pub count_hit : Bool → Elem → Elem
count_hit valid e =
    if valid
    then record e { hits = (e.hits + 1) % 2 ^ 64 }
    else record e { stale_hits = (e.stale_hits + 1) % 2 ^ 64 }

-- The section under the write lock; `none` is the fault of `c.m[key].hits++` on a missing key.
unfoldable pub bump : Bool → Bytes → Cache → Option Cache
unfolding count_hit
bump valid k c = elim (lookup k c.m) [
  | none ↦ none
  | some e ↦ some (record c { m = assign k (count_hit valid e) c.m })
]

-- The copy of the message that is returned.
abbrev pub served : Msg → ℕ → Msg
served m msgid = record m { id = msgid; compress = true; truncated = false }

-- `Hit` where `Search` found `e`. `now₁` and `now₂` are the readings of the clock for `valid` and for
-- the stale expiration.
unfoldable pub hit_found :
    Elem → Bytes → ℕ → Bool → Bool → ℤ → ℤ → Cache → Option (Option Msg × Cache)
unfolding bump remove
hit_found e k msgid keep_stale return_stale now₁ now₂ c =
    let valid = is_ahead now₁ e.expiration in
    if valid || return_stale
    then elim (bump valid k c) [
      | none ↦ none
      | some c' ↦
          some
            (some (served e.msg msgid), if is_past now₂ e.stale_expiration then remove c' k else c')
    ]
    else some (none, if keep_stale then c else remove c k)

-- `Hit`, run with no other thread between its parts.
unfoldable pub hit :
    Question → Bool → Bool → ℕ → Bool → Bool → ℤ → ℤ → Cache → Option (Option Msg × Cache)
unfolding hit_found search_key
hit question dnssec tcp msgid keep_stale return_stale now₁ now₂ c =
    let k = key question dnssec tcp in
    elim (search_key c k) [
      | none ↦ some (none, c)
      | some e ↦ hit_found e k msgid keep_stale return_stale now₁ now₂ c
    ]
