-- ===== src/Cache/Insert.antt =====
-- cache/cache.go: `InsertMessage`. Its effect on the size, on the entries, and on the one that is stored.
use go_dnsmasq.Base.{
  ℕ, ◌+◌, ◌≤◌, ◌≡◌, refl, ◌∙◌, ◌⊎◌, inl, inr, Bool, true, false, not, ◌&&◌, List, [], ◌∷◌, none,
  some, arith, if◌then◌else◌, length, Bool-cases,
}
use go_dnsmasq.Base.Int.{ℤ, pos, ◌<ℤ◌, ◌≤ℤ◌, leb_ℤ}
use go_dnsmasq.Base.Text.{Bytes, equal}
use go_dnsmasq.Base.Map.{lookup, Distinct}
use go_dnsmasq.Base.Map.Laws.{lookup-assign, assign-Distinct, length-assign}
use go_dnsmasq.Dns.{Msg}
use go_dnsmasq.Cache.{
  Elem, Cache, new, Clock, is_past, is_ahead, stores, store, new_elem, evict_random_internal,
  insert_message,
}
use go_dnsmasq.Cache.Evict.{
  Ranges, IsBounded, evict_random-capacity, evict_random-Distinct, lookup-evict_random,
  evict_random_room, evict_random-below,
}

nil_of_length {ℓ} : {A : Type ℓ} {xs : List A} → length xs ≡ 0 → xs ≡ []
nil_of_length {xs = []} h = refl
nil_of_length {xs = x ∷ xs} h = absurd (omega arith)

empty_of_below_one : (a : ℤ) (n : ℕ) → a ≡ pos 1 → pos n <ℤ a → n ≡ 0
empty_of_below_one a n e h = ground arith

module _ (c : Cache) (s : Bytes) (msg : Msg) (t : Clock) where
  store-Distinct : Distinct c.m → Distinct (store c s msg t).m
  unfolding store
  store-Distinct d = elim (Bool-cases (stores (lookup s c.m) t)) [
    | inl kept ↦ rw kept (assign-Distinct s (new_elem c msg t) c.m d)
    | inr old ↦ rw old d
  ]

  length-store-le : length (store c s msg t).m ≤ length c.m + 1
  unfolding store
  length-store-le = ground (arith, length-assign s (new_elem c msg t) c.m)

  store-capacity : (store c s msg t).capacity ≡ c.capacity
  unfolding store
  store-capacity = ground arith

  module _ (order₁ order₂ : List Bytes) where
    -- An insertion leaves the cache with fewer entries than its capacity, and no key twice, if it
    -- was so before and `order₂` lists the keys of the map that the second pass ranges over.
    pub insert_message-IsBounded :
        IsBounded c
        → Ranges order₂ (evict_random_internal true t.evicting order₁ (store c s msg t)).m
        → IsBounded (insert_message c s msg t order₁ order₂)
    unfolding insert_message
    insert_message-IsBounded b r =
        let cap = store-capacity in
        let p : leb_ℤ c.capacity (pos 0) ≡ false = ground (arith, b.below) in
        let d = store-Distinct b.distinct in
        let q : pos 0 <ℤ (store c s msg t).capacity = rw cap (omega (arith, b.below)) in
        let l : pos (length (store c s msg t).m) ≤ℤ (store c s msg t).capacity =
          rw cap (omega (arith, b.below, length-store-le)) in
        let small = evict_random-below t.evicting order₁ order₂ (store c s msg t) q l d r in
        rw p (record {
          below = rw (evict_random-capacity t.evicting order₁ order₂ (store c s msg t)) small;
          distinct = evict_random-Distinct t.evicting order₁ order₂ (store c s msg t) d;
        })

  lookup-store :
      (q : Bytes)
      → lookup q (store c s msg t).m
        ≡ (if stores (lookup s c.m) t && equal s q then some (new_elem c msg t) else lookup q c.m)
  unfolding store
  lookup-store q = ground (arith, lookup-assign s q (new_elem c msg t) c.m)

  module _ (order₁ order₂ : List Bytes) where
    -- After an insertion into a cache with distinct keys, a key is gone, or has the entry that the
    -- insertion means: the new one where the message is stored under that key, and its old one
    -- otherwise.
    pub lookup-insert_message :
        Distinct c.m
        → (q : Bytes)
        → (lookup q (insert_message c s msg t order₁ order₂).m ≡ none)
          ⊎ (lookup q (insert_message c s msg t order₁ order₂).m ≡ (
              if not (leb_ℤ c.capacity (pos 0)) && (stores (lookup s c.m) t && equal s q)
              then some (new_elem c msg t)
              else lookup q c.m))
    unfolding insert_message
    lookup-insert_message d q =
        let kept =
          lookup-evict_random t.evicting order₁ order₂ (store c s msg t) (store-Distinct d) q in
        ground (arith, kept, lookup-store q)

    -- With room for two more entries an insertion evicts nothing.
    pub lookup-insert_message_room :
        pos (length c.m + 1) <ℤ c.capacity
        → (q : Bytes)
        → lookup q (insert_message c s msg t order₁ order₂).m
          ≡ (if stores (lookup s c.m) t && equal s q then some (new_elem c msg t) else lookup q c.m)
    unfolding insert_message
    lookup-insert_message_room h q =
        let p : leb_ℤ c.capacity (pos 0) ≡ false = ground arith in
        let fits : pos (length (store c s msg t).m) <ℤ (store c s msg t).capacity =
          rw store-capacity (omega (arith, length-store-le)) in
        rw (p, evict_random_room t.evicting order₁ order₂ (store c s msg t) fits) (lookup-store q)

    -- A cache of capacity 0 or less is left as it is.
    pub insert_message_disabled : c.capacity ≤ℤ pos 0 → insert_message c s msg t order₁ order₂ ≡ c
    unfolding insert_message
    insert_message_disabled h = let p : leb_ℤ c.capacity (pos 0) ≡ true = ground arith in rw p

    -- In a cache with distinct keys, an entry that is still fresh, or past its stale expiration, is
    -- not replaced: its key has the same entry after the insertion, or was evicted.
    pub insert_message_blocked :
        Distinct c.m
        → (e : Elem) → lookup s c.m ≡ some e
        → (is_past t.since_expiration e.expiration ≡ false)
          ⊎ (is_ahead t.since_stale e.stale_expiration ≡ false)
        → (lookup s (insert_message c s msg t order₁ order₂).m ≡ none)
          ⊎ (lookup s (insert_message c s msg t order₁ order₂).m ≡ some e)
    unfolding stores
    insert_message_blocked d e found old = ground (arith, lookup-insert_message d s)

    pub insert_message-Distinct : Distinct c.m → Distinct (insert_message c s msg t order₁ order₂).m
    unfolding insert_message
    insert_message-Distinct d = elim (Bool-cases (leb_ℤ c.capacity (pos 0))) [
      | inl off ↦ rw off d
      | inr on ↦ rw on (evict_random-Distinct t.evicting order₁ order₂ _ (store-Distinct d))
    ]

    pub insert_message-capacity : (insert_message c s msg t order₁ order₂).capacity ≡ c.capacity
    unfolding insert_message
    insert_message-capacity =
        ground
          (arith, store-capacity, evict_random-capacity t.evicting order₁ order₂ (store c s msg t))

    -- A cache of capacity 1 that is within its bound is empty after every insertion, where `order₂`
    -- lists the keys of the map that the second pass ranges over.
    pub insert_message_capacity_one :
        IsBounded c
        → c.capacity ≡ pos 1
        → Ranges order₂ (evict_random_internal true t.evicting order₁ (store c s msg t)).m
        → (insert_message c s msg t order₁ order₂).m ≡ []
    insert_message_capacity_one b one r =
        let after = insert_message-IsBounded order₁ order₂ b r in
        nil_of_length (empty_of_below_one _ _ (insert_message-capacity ∙ one) after.below)

-- `New` with a positive capacity builds a cache within its bound.
pub new-IsBounded :
    (capacity ttl stale_ttl : ℤ) (from_resp : Bool) (ttl_max : ℤ)
    → pos 0 <ℤ capacity
    → IsBounded (new capacity ttl stale_ttl from_resp ttl_max)
unfolding new
new-IsBounded capacity ttl stale_ttl from_resp ttl_max h = record { below = h; distinct = tt }
