-- ===== src/Cache/Store/View.antt =====
-- cache/cache.go and cache/hit.go: the settings that no call changes, and the store that a cache stands for.
use go_dnsmasq.Base.{
  ℕ, ◌≡◌, refl, ◌∙◌, inl, inr, Bool, true, false, ◌||◌, List, [], Option, none, some, if◌then◌else◌,
  length, Bool-cases,
}
use go_dnsmasq.Base.Int.{ℤ, pos, leb_ℤ, ltb_ℤ}
use go_dnsmasq.Base.Text.{Bytes}
use go_dnsmasq.Base.Map.{lookup}
use go_dnsmasq.Dns.{Question, Msg}
use go_dnsmasq.Cache.{
  Elem, Cache, Clock, is_past, is_ahead, stores, store, remove, evict_random, evict_random_internal,
  insert_message, search_key,
}
use go_dnsmasq.Cache.Hit.{served}
use go_dnsmasq.Cache.Hit.Laws.{result}
use go_dnsmasq.Cache.Store.{note, note_of, view, replaceable, answer}

-- A cache with the settings that no call changes.
abbrev pub settings : Cache → Cache
settings c = record c { m = [] }

pub settings-store :
    (c : Cache) (s : Bytes) (msg : Msg) (t : Clock) → settings (store c s msg t) ≡ settings c
unfolding store
settings-store c s msg t = elim (Bool-cases (stores (lookup s c.m) t)) [
  | inl yes_ ↦ rw yes_ refl
  | inr no_ ↦ rw no_ refl
]

pub settings-evict :
    (only_stale : Bool) (now : ℤ) (order : List Bytes) (c : Cache)
    → settings (evict_random_internal only_stale now order c) ≡ settings c
unfolding evict_random_internal
settings-evict only_stale now order c = elim (Bool-cases (ltb_ℤ (pos (length c.m)) c.capacity)) [
  | inl room ↦ rw room refl
  | inr full ↦ rw full refl
]

pub settings-insert_message :
    (c : Cache) (s : Bytes) (msg : Msg) (t : Clock) (order₁ order₂ : List Bytes)
    → settings (insert_message c s msg t order₁ order₂) ≡ settings c
unfolding insert_message evict_random
settings-insert_message c s msg t order₁ order₂ = elim (Bool-cases (leb_ℤ c.capacity (pos 0))) [
  | inl off ↦ rw off refl
  | inr on ↦ rw on (
      settings-evict false t.evicting order₂ _
      ∙ settings-evict true t.evicting order₁ (store c s msg t)
      ∙ settings-store c s msg t)
]

pub hit-settings :
    (q : Question) (dnssec tcp : Bool) (msgid : ℕ) (keep_stale return_stale : Bool) (now₁ now₂ : ℤ)
    (c : Cache) (e : Elem)
    → settings (result q dnssec tcp msgid keep_stale return_stale now₁ now₂ c e).1 ≡ settings c
unfolding result remove
hit-settings q dnssec tcp msgid keep_stale return_stale now₁ now₂ c e =
    elim (Bool-cases (is_ahead now₁ e.expiration || return_stale)) [
      | inl hits ↦ elim (Bool-cases (is_past now₂ e.stale_expiration)) [
        | inl gone ↦ rw (hits, gone) refl
        | inr kept ↦ rw (hits, kept) refl
      ]
      | inr misses ↦ elim (Bool-cases keep_stale) [
        | inl kept ↦ rw (misses, kept) refl
        | inr gone ↦ rw (misses, gone) refl
      ]
    ]

pub view-on :
    (c : Cache) (j : Bytes) → leb_ℤ c.capacity (pos 0) ≡ false → view c j ≡ note_of (lookup j c.m)
unfolding view search_key
view-on c j on = rw on refl

pub view-off : (c : Cache) (j : Bytes) → leb_ℤ c.capacity (pos 0) ≡ true → view c j ≡ none
unfolding view search_key
view-off c j off = rw off refl

pub replaceable-note_of : (o : Option Elem) (t : Clock) → replaceable (note_of o) t ≡ stores o t
unfolding stores
replaceable-note_of none t = refl
replaceable-note_of (some e) t = refl

pub note_of-if :
    (b : Bool) (e : Elem) (o : Option Elem)
    → note_of (if b then some e else o) ≡ (if b then some (note e) else note_of o)
note_of-if true e o = refl
note_of-if false e o = refl

pub note_of-answer :
    (o : Option Elem) (msgid : ℕ) (return_stale : Bool) (now : ℤ) (e : Elem)
    → o ≡ some e
    → answer (note_of o) msgid return_stale now
      ≡ (if is_ahead now e.expiration || return_stale then some (served e.msg msgid) else none)
note_of-answer o msgid return_stale now e h = rw h refl
