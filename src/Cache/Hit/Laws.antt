-- ===== src/Cache/Hit/Laws.antt =====
-- cache/hit.go: what `Hit` answers, counts and removes, on every branch.
use go_dnsmasq.Base.{ℕ, ◌≡◌, ◌≢◌, ◌⊎◌, Bool, ◌||◌, Option, none, some, arith, if◌then◌else◌}
use go_dnsmasq.Base.Int.{ℤ, pos, ◌<ℤ◌, ◌≤ℤ◌}
use go_dnsmasq.Base.Text.{Bytes}
use go_dnsmasq.Base.Text.Laws.{equal_refl, equal_iff}
use go_dnsmasq.Base.Map.{lookup, assign, Distinct}
use go_dnsmasq.Base.Map.Laws.{lookup-assign, lookup-delete, assign-Distinct}
use go_dnsmasq.Dns.{Question, Msg}
use go_dnsmasq.Cache.{Elem, Cache, is_past, is_ahead, remove, search_key}
use go_dnsmasq.Cache.Key.{key}
use go_dnsmasq.Cache.Hit.{count_hit, bump, served, hit_found, hit}

-- What `Hit` leaves under the key of an entry `e` that it found.
abbrev pub left_by_hit : Elem → Bool → Bool → ℤ → ℤ → Option Elem
left_by_hit e keep_stale return_stale now₁ now₂ =
    let valid = is_ahead now₁ e.expiration in
    if valid || return_stale
    then (if is_past now₂ e.stale_expiration then none else some (count_hit valid e))
    else (if keep_stale then some e else none)

module _ (q : Question) (dnssec tcp : Bool) (msgid : ℕ) (keep_stale return_stale : Bool)
    (now₁ now₂ : ℤ) (c : Cache) where
  abbrev pub k : Bytes
  k = key q dnssec tcp

  -- The outcome of `Hit` where an entry `e` stands under the key.
  pub record Answers (e : Elem) (r : Option Msg × Cache) : Type 0 where
    pub runs : hit q dnssec tcp msgid keep_stale return_stale now₁ now₂ c ≡ some r
    pub reply :
        r.0
        ≡ (if is_ahead now₁ e.expiration || return_stale then some (served e.msg msgid) else none)
    pub entry : lookup k r.1.m ≡ left_by_hit e keep_stale return_stale now₁ now₂
    pub others : (j : Bytes) → j ≢ k → lookup j r.1.m ≡ lookup j c.m
    pub capacity : r.1.capacity ≡ c.capacity

  unfoldable pub result : Elem → Option Msg × Cache
  result e =
      let valid = is_ahead now₁ e.expiration in
      let counted = record c { m = assign k (count_hit valid e) c.m } in
      if valid || return_stale
      then (
        some (served e.msg msgid),
        if is_past now₂ e.stale_expiration then remove counted k else counted,
      )
      else (none, if keep_stale then c else remove c k)

  pub hit-result :
      (e : Elem)
      → pos 0 <ℤ c.capacity
      → lookup k c.m ≡ some e
      → hit q dnssec tcp msgid keep_stale return_stale now₁ now₂ c ≡ some (result e)
  unfolding hit hit_found bump search_key result
  hit-result e p found = ground arith

  -- `Hit` on an entry of a cache with a positive capacity and distinct keys answers without a
  -- fault. It serves the message, with the request's id, compressed and with no truncation mark,
  -- where the entry is fresh or stale ones are asked for; it counts the hit; it takes the entry
  -- away where its stale expiration has passed, or where it is expired and not to be kept; and it
  -- leaves every other entry as it was.
  pub hit-Answers :
      (e : Elem)
      → pos 0 <ℤ c.capacity
      → Distinct c.m
      → lookup k c.m ≡ some e
      → (r : Option Msg × Cache) × Answers e r
  unfolding result remove
  hit-Answers e p d found =
      let valid = is_ahead now₁ e.expiration in
      let e' = count_hit valid e in
      let d' = assign-Distinct k e' c.m d in
      (
        result e,
        record {
          runs = hit-result e p found;
          reply = ground arith;
          entry = ground (
            arith,
            lookup-assign k k e' c.m,
            lookup-delete k k (assign k e' c.m) d',
            lookup-delete k k c.m d,
            equal_refl k,
          );
          others = λ j ne. ground (
            arith,
            lookup-assign k j e' c.m,
            lookup-delete k j (assign k e' c.m) d',
            lookup-delete k j c.m d,
            equal_iff k j,
            ne,
          );
          capacity = ground arith;
        },
      )

  -- With nothing under the key, or with caching disabled, `Hit` answers nothing and changes nothing.
  pub hit_miss :
      (c.capacity ≤ℤ pos 0) ⊎ (lookup k c.m ≡ none)
      → hit q dnssec tcp msgid keep_stale return_stale now₁ now₂ c ≡ some (none, c)
  unfolding hit search_key
  hit_miss h = ground arith
