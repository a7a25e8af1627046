-- ===== src/Cache/Evict.antt =====
-- cache/cache.go: eviction. A pass takes one entry away when the cache is exactly full, and none when
-- it holds more than its capacity.
use go_dnsmasq.Base.{
  ℕ, ◌+◌, ◌-◌, ◌≤◌, ◌<◌, ◌≡◌, refl, ◌∙◌, ◌⊎◌, inl, inr, Bool, true, false, List, [], ◌∷◌, none,
  arith, length, is_some, any, Bool-cases, lt→ltb,
}
use go_dnsmasq.Base.Int.{ℤ, pos, negsuc, ◌-ℤ◌, ◌<ℤ◌, ◌≤ℤ◌, ltb_ℤ, ltb_ℤ-irrefl}
use go_dnsmasq.Base.Text.{Bytes, equal}
use go_dnsmasq.Base.Text.Laws.{equal_refl}
use go_dnsmasq.Base.Map.{Map, lookup, delete, keys, Distinct}
use go_dnsmasq.Base.Map.Laws.{lookup-delete, delete-Distinct, length-delete}
use go_dnsmasq.Cache.{
  Elem, Cache, is_zero_ℤ, evict_key, evict_loop, evict_random_internal, evict_random,
}

-- `order` lists the keys of the map, each once: what a `range` over the map visits.
pub record Ranges (order : List Bytes) (m : Map Elem) : Type 0 where
  pub same_keys : (k : Bytes) → any (λ j. equal j k) order ≡ is_some (lookup k m)
  pub same_length : length order ≡ length m

keys-any : (k : Bytes) (m : Map Elem) → any (λ j. equal j k) (keys m) ≡ is_some (lookup k m)
unfolding lookup
keys-any k [] = refl
keys-any k ((j, e) ∷ m) = ground (arith, keys-any k m)

keys-length : (m : Map Elem) → length (keys m) ≡ length m
keys-length [] = refl
keys-length ((j, e) ∷ m) = omega (arith, keys-length m)

-- The order of the entries is such an order.
pub keys-Ranges : (m : Map Elem) → Ranges (keys m) m
keys-Ranges m = record { same_keys = λ k. keys-any k m; same_length = keys-length m }

-- The cache holds fewer entries than its capacity, and no key twice.
pub record IsBounded (c : Cache) : Type 0 where
  pub below : pos (length c.m) <ℤ c.capacity
  pub distinct : Distinct c.m

pred-negsuc : (n : ℕ) → negsuc n -ℤ pos 1 ≡ negsuc (n + 1)
unfolding ◌-ℤ◌
pred-negsuc n = ground arith

evict_loop-negsuc :
    (b : Bool) (now : ℤ) (order : List Bytes) (n : ℕ) (m : Map Elem)
    → evict_loop b now (negsuc n) order m ≡ m
unfolding evict_loop
evict_loop-negsuc b now [] n m = refl
evict_loop-negsuc b now (k ∷ order) n m =
    rw (pred-negsuc n) (evict_loop-negsuc b now order (n + 1) m)

-- At `i == 0` the loop acts on the first key visited alone.
evict_loop-zero :
    (b : Bool) (now : ℤ) (k : Bytes) (order : List Bytes) (m : Map Elem)
    → evict_loop b now (pos 0) (k ∷ order) m ≡ evict_key b now k m
unfolding evict_loop
evict_loop-zero b now k order m = evict_loop-negsuc b now order 0 (evict_key b now k m)

sub_self : (n : ℕ) → pos n -ℤ pos n ≡ pos 0
unfolding ◌-ℤ◌
sub_self n = ground arith

sub_over : (a : ℤ) (n : ℕ) → a <ℤ pos n → (k : ℕ) × (a -ℤ pos n ≡ negsuc k)
unfolding ◌-ℤ◌
sub_over (pos a) n h = (n - a - 1, ground arith)
sub_over (negsuc a) n h = (a + n, ground arith)

-- A pass keeps the map, or takes the one entry away that it visits.
evict_key-cases :
    (b : Bool) (now : ℤ) (k : Bytes) (m : Map Elem)
    → (evict_key b now k m ≡ m) ⊎ (evict_key b now k m ≡ delete k m)
unfolding evict_key
evict_key-cases b now k m = ground arith

-- The last pass takes the key that it visits.
evict_key-false :
    (now : ℤ) (k : Bytes) (m : Map Elem)
    → is_some (lookup k m) ≡ true
    → evict_key false now k m ≡ delete k m
unfolding evict_key
evict_key-false now k m h = ground arith

-- What one pass does to a map, whichever pass it is.
record Shrinks (before after : Map Elem) : Type 0 where
  distinct : Distinct after
  no_longer : length after ≤ length before
  keeps : (q : Bytes) → (lookup q after ≡ none) ⊎ (lookup q after ≡ lookup q before)

Shrinks-refl : (m : Map Elem) → Distinct m → Shrinks m m
Shrinks-refl m d = record { distinct = d; no_longer = omega arith; keeps = λ q. inr refl }

Shrinks-delete : (k : Bytes) (m : Map Elem) → Distinct m → Shrinks m (delete k m)
Shrinks-delete k m d = record {
  distinct = delete-Distinct k m d;
  no_longer = omega (arith, length-delete k m);
  keeps = λ q. ground (arith, lookup-delete k q m d);
}

Shrinks-trans : {a b c : Map Elem} → Shrinks a b → Shrinks b c → Shrinks a c
Shrinks-trans s t = record {
  distinct = t.distinct;
  no_longer = omega (arith, s.no_longer, t.no_longer);
  keeps = λ q. ground (arith, s.keeps q, t.keeps q);
}

Shrinks-evict_key :
    (b : Bool) (now : ℤ) (k : Bytes) (m : Map Elem) → Distinct m → Shrinks m (evict_key b now k m)
Shrinks-evict_key b now k m d = elim (evict_key-cases b now k m) [
  | inl e ↦ rw e (Shrinks-refl m d)
  | inr e ↦ rw e (Shrinks-delete k m d)
]

Shrinks-evict_loop :
    (b : Bool) (now : ℤ) (order : List Bytes) (i : ℤ) (m : Map Elem)
    → Distinct m
    → Shrinks m (evict_loop b now i order m)
unfolding evict_loop
Shrinks-evict_loop b now [] i m d = Shrinks-refl m d
Shrinks-evict_loop b now (k ∷ order) i m d = elim (Bool-cases (is_zero_ℤ i)) [
  | inl zero_i ↦
      let step = Shrinks-evict_key b now k m d in
      rw zero_i (Shrinks-trans step (Shrinks-evict_loop b now order (i -ℤ pos 1) _ step.distinct))
  | inr other ↦ rw other (Shrinks-evict_loop b now order (i -ℤ pos 1) m d)
]

Shrinks-evict_random_internal :
    (b : Bool) (now : ℤ) (order : List Bytes) (c : Cache)
    → Distinct c.m
    → Shrinks c.m (evict_random_internal b now order c).m
unfolding evict_random_internal
Shrinks-evict_random_internal b now order c d =
    elim (Bool-cases (ltb_ℤ (pos (length c.m)) c.capacity)) [
      | inl room ↦ rw room (Shrinks-refl c.m d)
      | inr full ↦ rw full (Shrinks-evict_loop b now order _ c.m d)
    ]

Shrinks-evict_random :
    (now : ℤ) (order₁ order₂ : List Bytes) (c : Cache)
    → Distinct c.m
    → Shrinks c.m (evict_random now order₁ order₂ c).m
unfolding evict_random
Shrinks-evict_random now order₁ order₂ c d =
    let first = Shrinks-evict_random_internal true now order₁ c d in
    Shrinks-trans first (Shrinks-evict_random_internal false now order₂ _ first.distinct)

evict_random_internal-capacity :
    (b : Bool) (now : ℤ) (order : List Bytes) (c : Cache)
    → (evict_random_internal b now order c).capacity ≡ c.capacity
unfolding evict_random_internal
evict_random_internal-capacity b now order c = ground arith

pub evict_random-capacity :
    (now : ℤ) (order₁ order₂ : List Bytes) (c : Cache)
    → (evict_random now order₁ order₂ c).capacity ≡ c.capacity
unfolding evict_random
evict_random-capacity now order₁ order₂ c =
    evict_random_internal-capacity false now order₂ _
    ∙ evict_random_internal-capacity true now order₁ c

pub evict_random-Distinct :
    (now : ℤ) (order₁ order₂ : List Bytes) (c : Cache)
    → Distinct c.m
    → Distinct (evict_random now order₁ order₂ c).m
evict_random-Distinct now order₁ order₂ c d = (Shrinks-evict_random now order₁ order₂ c d).distinct

-- Eviction changes no entry of a cache with distinct keys: a key is found with the entry that it
-- had, or is gone.
pub lookup-evict_random :
    (now : ℤ) (order₁ order₂ : List Bytes) (c : Cache)
    → Distinct c.m
    → (q : Bytes)
    → (lookup q (evict_random now order₁ order₂ c).m ≡ none)
      ⊎ (lookup q (evict_random now order₁ order₂ c).m ≡ lookup q c.m)
lookup-evict_random now order₁ order₂ c d = (Shrinks-evict_random now order₁ order₂ c d).keeps

-- With room left nothing is evicted.
pub evict_random_room :
    (now : ℤ) (order₁ order₂ : List Bytes) (c : Cache)
    → pos (length c.m) <ℤ c.capacity
    → evict_random now order₁ order₂ c ≡ c
unfolding evict_random evict_random_internal
evict_random_room now order₁ order₂ c h =
    let e : ltb_ℤ (pos (length c.m)) c.capacity ≡ true = lt→ltb _ _ h in rw (e, e)

-- A full cache loses an entry: the second pass takes the first key that it visits.
full_pass :
    (now : ℤ) (order : List Bytes) (c : Cache)
    → c.capacity ≡ pos (length c.m)
    → 0 < length c.m
    → Ranges order c.m
    → length (evict_random_internal false now order c).m + 1 ≡ length c.m
unfolding evict_random_internal
full_pass now [] c e h r = absurd (omega (arith, r.same_length))
full_pass now (k ∷ order) c e h r =
    let full : ltb_ℤ (pos (length c.m)) c.capacity ≡ false =
      rw e (ltb_ℤ-irrefl (pos (length c.m))) in
    let found : is_some (lookup k c.m) ≡ true = rw (← r.same_keys k, equal_refl k) refl in
    rw (full, e, sub_self, evict_loop-zero false now k order c.m, evict_key-false now k c.m found)
      (ground (arith, length-delete k c.m))

eq_pos : (a : ℤ) (n : ℕ) → pos n ≤ℤ a → ltb_ℤ (pos n) a ≡ false → a ≡ pos n
eq_pos a n h k = ground arith

below_of_taken : (a : ℤ) {n : ℕ} (k : ℕ) → a ≡ pos n → k + 1 ≡ n → pos k <ℤ a
below_of_taken a k e t = ground arith

-- A cache within its capacity is left with room for one more entry.
pub evict_random-below :
    (now : ℤ) (order₁ order₂ : List Bytes) (c : Cache)
    → pos 0 <ℤ c.capacity
    → pos (length c.m) ≤ℤ c.capacity
    → Distinct c.m
    → Ranges order₂ (evict_random_internal true now order₁ c).m
    → pos (length (evict_random now order₁ order₂ c).m) <ℤ c.capacity
unfolding evict_random
evict_random-below now order₁ order₂ c p h d r =
    let c₁ = evict_random_internal true now order₁ c in
    let shrunk = (Shrinks-evict_random_internal true now order₁ c d).no_longer in
    let cap = evict_random_internal-capacity true now order₁ c in
    elim (Bool-cases (ltb_ℤ (pos (length c₁.m)) c.capacity)) [
      | inl room ↦ unfold evict_random_internal in ground arith
      | inr full ↦
          let e : c.capacity ≡ pos (length c₁.m) = eq_pos c.capacity _ (omega arith) full in
          let taken = full_pass now order₂ c₁ (cap ∙ e) (ground arith) r in
          below_of_taken c.capacity _ e taken
    ]

-- Over its capacity a cache loses nothing at all.
pub evict_random_over :
    (now : ℤ) (order₁ order₂ : List Bytes) (c : Cache)
    → c.capacity <ℤ pos (length c.m)
    → evict_random now order₁ order₂ c ≡ c
unfolding evict_random evict_random_internal
evict_random_over now order₁ order₂ c h =
    let full : ltb_ℤ (pos (length c.m)) c.capacity ≡ false = ground arith in
    let (k, e) = sub_over c.capacity (length c.m) h in
    rw (full, e, evict_loop-negsuc true now order₁ k c.m, full, e)
      (rw (evict_loop-negsuc false now order₂ k c.m) refl)
