-- ===== src/Cache/Hit/Life.antt =====
-- cache/cache.go and cache/hit.go together: the bound over both, and the life of an inserted message.
use go_dnsmasq.Base.{
  ℕ, ◌+◌, ◌≡◌, refl, ap, inl, inr, Bool, true, ◌||◌, Option, none, some, arith, length,
  Option-cases, Bool-cases, List, leb→le,
}
use go_dnsmasq.Base.Int.{ℤ, pos, ◌+ℤ◌, ◌<ℤ◌, leb_ℤ, +ℤ-pos-zero}
use go_dnsmasq.Base.Text.{Bytes}
use go_dnsmasq.Base.Text.Laws.{equal_refl}
use go_dnsmasq.Base.Map.{lookup, assign, Distinct}
use go_dnsmasq.Base.Map.Laws.{assign-Distinct, delete-Distinct, length-assign, length-delete}
use go_dnsmasq.Dns.{Question, Msg}
use go_dnsmasq.Cache.{
  Elem, Cache, Clock, is_past, is_ahead, remove, new_elem, stores, insert_message,
}
use go_dnsmasq.Cache.Evict.{IsBounded}
use go_dnsmasq.Cache.Insert.{
  lookup-insert_message_room, insert_message-Distinct, insert_message-capacity,
}
use go_dnsmasq.Cache.Key.{key}
use go_dnsmasq.Cache.Hit.{count_hit, served, hit}
use go_dnsmasq.Cache.Hit.Laws.{Answers, result, hit-result, hit-Answers, hit_miss}

module _ (q : Question) (dnssec tcp : Bool) (msgid : ℕ) (keep_stale return_stale : Bool)
    (now₁ now₂ : ℤ) where
  abbrev k : Bytes
  k = key q dnssec tcp

  pub result-Distinct :
      (c : Cache) (e : Elem)
      → Distinct c.m
      → Distinct (result q dnssec tcp msgid keep_stale return_stale now₁ now₂ c e).1.m
  unfolding result remove
  result-Distinct c e d =
      let e' = count_hit (is_ahead now₁ e.expiration) e in
      let d' = assign-Distinct k e' c.m d in
      elim (Bool-cases (is_ahead now₁ e.expiration || return_stale)) [
        | inl hits ↦ elim (Bool-cases (is_past now₂ e.stale_expiration)) [
          | inl gone ↦ rw (hits, gone) (delete-Distinct k _ d')
          | inr kept ↦ rw (hits, kept) d'
        ]
        | inr misses ↦ elim (Bool-cases keep_stale) [
          | inl kept ↦ rw (misses, kept) d
          | inr gone ↦ rw (misses, gone) (delete-Distinct k c.m d)
        ]
      ]

  result-IsBounded :
      (c : Cache) (e : Elem)
      → IsBounded c
      → lookup k c.m ≡ some e
      → IsBounded (result q dnssec tcp msgid keep_stale return_stale now₁ now₂ c e).1
  unfolding result remove
  result-IsBounded c e b found =
      let e' = count_hit (is_ahead now₁ e.expiration) e in
      record {
        below = ground (
          arith,
          b.below,
          length-assign k e' c.m,
          length-delete k (assign k e' c.m),
          length-delete k c.m,
        );
        distinct = result-Distinct c e b.distinct;
      }

  module _ (c : Cache) (msg : Msg) (t : Clock) (order₁ order₂ : List Bytes) (d : Distinct c.m)
      (absent : lookup k c.m ≡ none) (room : pos (length c.m + 1) <ℤ c.capacity) where
    inserted : lookup k (insert_message c k msg t order₁ order₂).m ≡ some (new_elem c msg t)
    unfolding stores
    inserted =
        ground (arith, lookup-insert_message_room c k msg t order₁ order₂ room k, equal_refl k)

    hit_inserted :
        (r : Option Msg × Cache) × Answers q dnssec tcp msgid keep_stale return_stale now₁ now₂
          (insert_message c k msg t order₁ order₂)
          (new_elem c msg t)
          r
    hit_inserted =
        hit-Answers q dnssec tcp msgid keep_stale return_stale now₁ now₂
          (insert_message c k msg t order₁ order₂) (new_elem c msg t)
          (rw (insert_message-capacity c k msg t order₁ order₂) (omega arith))
          (insert_message-Distinct c k msg t order₁ order₂ d) inserted

    -- A message inserted into a cache that has distinct keys, nothing under its key and room for two more
    -- entries, is served by a `Hit` before it expires, with the id asked for, compressed and not marked
    -- as truncated.
    pub hit-insert_message :
        is_ahead now₁ (new_elem c msg t).expiration ≡ true
        → (c' : Cache) × (hit q dnssec tcp msgid keep_stale return_stale now₁ now₂
              (insert_message c k msg t order₁ order₂)
            ≡ some (some (served msg msgid), c'))
    unfolding new_elem
    hit-insert_message fresh = let (r, h) = hit_inserted in (r.1, ground (arith, h.runs, h.reply))

    -- With a stale TTL of 0, a message inserted into a cache that has distinct keys, nothing under
    -- its key and room for two more entries is served by the first `Hit` before it expires, and
    -- that `Hit` takes it out of the cache, if the clock has moved since the insertion.
    pub hit_once :
        is_ahead now₁ (new_elem c msg t).expiration ≡ true
        → c.stale_ttl ≡ pos 0
        → is_past now₂ t.added_stale ≡ true
        → (c' : Cache) × (hit q dnssec tcp msgid keep_stale return_stale now₁ now₂
              (insert_message c k msg t order₁ order₂)
            ≡ some (some (served msg msgid), c'))
          × (lookup k c'.m ≡ none)
    unfolding new_elem
    hit_once fresh zero_ttl moved =
        let (r, h) = hit_inserted in
        (
          r.1,
          ground (arith, h.runs, h.reply),
          ground (arith, h.entry, ap (λ x. t.added_stale +ℤ x) zero_ttl, +ℤ-pos-zero t.added_stale),
        )

-- A message that is served carries the id asked for.
abbrev pub HasId : ℕ → Option Msg → Type 0
HasId msgid none = Unit {0}
HasId msgid (some m) = m.id ≡ msgid

module _ (q : Question) (dnssec tcp : Bool) (msgid : ℕ) (keep_stale return_stale : Bool)
    (now₁ now₂ : ℤ) (c : Cache) where
  result-HasId :
      (e : Elem) → HasId msgid (result q dnssec tcp msgid keep_stale return_stale now₁ now₂ c e).0
  unfolding result
  result-HasId e = elim (Bool-cases (is_ahead now₁ e.expiration || return_stale)) [
    | inl hits ↦ rw (hits, result) refl
    | inr misses ↦ rw (misses, result) tt
  ]

  -- `Hit` returns without a fault on every cache, what it serves has the id asked for, and it keeps a cache
  -- within its bound.
  pub hit-returns :
      (r : Option Msg × Cache) × (hit q dnssec tcp msgid keep_stale return_stale now₁ now₂ c
        ≡ some r)
      × HasId msgid r.0
      × (IsBounded c → IsBounded r.1)
  hit-returns = elim (Bool-cases (leb_ℤ c.capacity (pos 0))) [
    | inl off ↦ (
      (none, c),
      hit_miss q dnssec tcp msgid keep_stale return_stale now₁ now₂ c (inl (leb→le _ _ off)),
      tt,
      λ b. b,
    )
    | inr on ↦ elim (Option-cases (lookup (key q dnssec tcp) c.m)) [
      | inl absent ↦ (
        (none, c),
        hit_miss q dnssec tcp msgid keep_stale return_stale now₁ now₂ c (inr absent),
        tt,
        λ b. b,
      )
      | inr (e, found) ↦ (
        result q dnssec tcp msgid keep_stale return_stale now₁ now₂ c e,
        hit-result q dnssec tcp msgid keep_stale return_stale now₁ now₂ c e (ground arith) found,
        result-HasId e,
        λ b. result-IsBounded q dnssec tcp msgid keep_stale return_stale now₁ now₂ c e b found,
      )
    ]
  ]
