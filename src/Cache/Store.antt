-- ===== src/Cache/Store.antt =====
-- cache/cache.go and cache/hit.go as a store that may forget: what a sequence of calls promises its client,
-- without the map, the capacity, the counters and the choice of what is evicted.
pub mod View
pub mod Calls
pub mod Refines
pub mod Sound
use go_dnsmasq.Base.{
  ℕ, ◌≡◌, ◌≢◌, ◌⊎◌, Bool, true, false, ◌&&◌, ◌||◌, List, [], ◌∷◌, Option, none, some, if◌then◌else◌,
}
use go_dnsmasq.Base.Int.{ℤ, pos, leb_ℤ}
use go_dnsmasq.Base.Text.{Bytes, equal}
use go_dnsmasq.Dns.{Question, Msg}
use go_dnsmasq.Cache.{
  Elem, Cache, Clock, is_past, is_ahead, new_elem, remove, insert_message, search_key,
}
use go_dnsmasq.Cache.Hit.{served, hit}
use go_dnsmasq.Cache.Key.{key}

-- A call of `InsertMessage`, `Hit` or `Remove`, with the readings of the clock and the orders that it meets.
pub data Call : Type 0 where
  put : Bytes → Msg → Clock → List Bytes → List Bytes → Call
  get : Question → Bool → Bool → ℕ → Bool → Bool → ℤ → ℤ → Call
  drop : Bytes → Call

-- One call on the cache, and what it returns.
unfoldable pub call : Call → Cache → Option (Option Msg × Cache)
unfolding remove
call (put k m t order₁ order₂) c = some (none, insert_message c k m t order₁ order₂)
call (get q dnssec tcp msgid keep_stale return_stale now₁ now₂) c =
    hit q dnssec tcp msgid keep_stale return_stale now₁ now₂ c
call (drop k) c = some (none, remove c k)

-- Calls one after another, with what they return.
unfoldable pub run : List Call → Cache → Option (List (Option Msg) × Cache)
run [] c = some ([], c)
run (x ∷ xs) c = elim (call x c) [
  | none ↦ none
  | some (r, c') ↦ elim (run xs c') [ none ↦ none | some (rs, c'') ↦ some (r ∷ rs, c'') ]
]

-- An entry as its clients know it.
pub record Note : Type 0 where
  pub msg : Msg
  pub expiration : ℤ
  pub stale_expiration : ℤ

-- A store has a note under some keys.
abbrev pub Store : Type 0
Store = Bytes → Option Note

abbrev pub note : Elem → Note
note e = record { msg = e.msg; expiration = e.expiration; stale_expiration = e.stale_expiration }

abbrev pub note_of : Option Elem → Option Note
note_of none = none
note_of (some e) = some (note e)

-- The store that a cache stands for.
unfoldable pub view : Cache → Store
view c k = note_of (search_key c k)

-- Whether a note may be put in the place of what stands there.
abbrev pub replaceable : Option Note → Clock → Bool
replaceable none t = true
replaceable (some n) t =
    is_past t.since_expiration n.expiration && is_ahead t.since_stale n.stale_expiration

-- What is answered from the note under the key.
abbrev pub answer : Option Note → ℕ → Bool → ℤ → Option Msg
answer none msgid return_stale now = none
answer (some n) msgid return_stale now =
    if is_ahead now n.expiration || return_stale then some (served n.msg msgid) else none

-- What the store promises of one call, from the store `f` to the store `g`: a put note stands there or is
-- forgotten, and nothing else appears; an answer comes from the note under the key of the question; no call
-- but the first changes another key, and a dropped key is forgotten. `life` is the note made for a message.
unfoldable pub Permits : Bool → (Msg → Clock → Note) → Store → Call → Option Msg → Store → Type 0
Permits enabled life f (put k m t order₁ order₂) r g =
    (r ≡ none)
    × ((j : Bytes)
        → (g j ≡ none)
          ⊎ (g j
              ≡ (if enabled && (replaceable (f k) t && equal k j) then some (life m t) else f j)))
Permits enabled life f (get q dnssec tcp msgid keep_stale return_stale now₁ now₂) r g =
    (r ≡ answer (f (key q dnssec tcp)) msgid return_stale now₁)
    × ((g (key q dnssec tcp) ≡ none) ⊎ (g (key q dnssec tcp) ≡ f (key q dnssec tcp)))
    × ((j : Bytes) → j ≢ key q dnssec tcp → g j ≡ f j)
Permits enabled life f (drop k) r g = (r ≡ none) × (g k ≡ none) × ((j : Bytes) → j ≢ k → g j ≡ f j)

-- The promise for calls one after another.
pub data Trace (enabled : Bool) (life : Msg → Clock → Note)
    : Store → List Call → List (Option Msg) → Store → Type 0 where
  done : {f : Store} → Trace enabled life f [] [] f
  next :
      {f g h : Store} {x : Call} {r : Option Msg} {xs : List Call} {rs : List (Option Msg)}
      → Permits enabled life f x r g
      → Trace enabled life g xs rs h
      → Trace enabled life f (x ∷ xs) (r ∷ rs) h

-- The two parameters for a cache.
abbrev pub is_enabled : Cache → Bool
is_enabled c = if leb_ℤ c.capacity (pos 0) then false else true

abbrev pub life_of : Cache → Msg → Clock → Note
life_of c m t = note (new_elem c m t)
