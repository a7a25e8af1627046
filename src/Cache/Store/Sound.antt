-- ===== src/Cache/Store/Sound.antt =====
-- cache/cache.go and cache/hit.go: where an answer comes from. It was put under the key of the question, and is
-- answered in time.
use go_dnsmasq.Base.{
  ℕ, ◌≡◌, refl, ap, ◌∙◌, sym, subst, ◌⊎◌, inl, inr, Bool, true, false, ◌&&◌, ◌||◌, List, [], ◌∷◌,
  Option, none, some, arith, if◌then◌else◌, Bool-cases, Option-cases, Occurs,
}
use go_dnsmasq.Base.Int.{ℤ}
use go_dnsmasq.Base.Text.{Bytes, equal}
use go_dnsmasq.Base.Text.Laws.{equal_iff, equal→eq}
use go_dnsmasq.Dns.{Msg}
use go_dnsmasq.Cache.{Cache, Clock, is_ahead, new, search_key}
use go_dnsmasq.Base.Map.{lookup}
use go_dnsmasq.Cache.Hit.{served}
use go_dnsmasq.Cache.Key.{key}
use go_dnsmasq.Cache.Store.{
  Call, put, get, drop, run, Note, Store, view, replaceable, answer, Permits, Trace, done, next,
  life_of,
}
use go_dnsmasq.Cache.Store.Refines.{run-Trace}

-- The note was made for a message put under the key before.
pub record WasPut (life : Msg → Clock → Note) (past : List Call) (k : Bytes) (n : Note)
    : Type 0 where
  pub message : Msg
  pub clock : Clock
  pub order₁ : List Bytes
  pub order₂ : List Bytes
  pub was_put : Occurs (put k message clock order₁ order₂) past
  pub is_note : n ≡ life message clock

-- An answer is a message put before under the key of the question, with the id asked for; it is not expired, or
-- stale messages were asked for.
pub Source : (Msg → Clock → Note) → List Call → Bytes → ℕ → Bool → ℤ → Msg → Type 0
Source life past k msgid return_stale now m =
    (n : Note) × WasPut life past k n
    × (m ≡ served n.msg msgid)
    × ((is_ahead now n.expiration || return_stale) ≡ true)

abbrev pub Explained : (Msg → Clock → Note) → List Call → Call → Option Msg → Type 0
Explained life past (get q dnssec tcp msgid keep_stale return_stale now₁ now₂) (some m) =
    Source life past (key q dnssec tcp) msgid return_stale now₁ m
Explained life past (get q dnssec tcp msgid keep_stale return_stale now₁ now₂) none = Unit {0}
Explained life past (put k m t order₁ order₂) r = r ≡ none
Explained life past (drop k) r = r ≡ none

-- Each answer in turn has its source among the calls before it; `past` holds these, the last one first.
unfoldable pub Sound : (Msg → Clock → Note) → List Call → List Call → List (Option Msg) → Type 0
unfolding Source
Sound life past [] [] = Unit {0}
Sound life past (x ∷ xs) (r ∷ rs) = Explained life past x r × Sound life (x ∷ past) xs rs
Sound life past _ _ = ⊥

-- Every note of the store was put before.
Grounded : (Msg → Clock → Note) → List Call → Store → Type 0
Grounded life past f = (k : Bytes) (n : Note) → f k ≡ some n → WasPut life past k n

WasPut-later :
    (life : Msg → Clock → Note) (past : List Call) (x : Call) (k : Bytes) (n : Note)
    → WasPut life past k n
    → WasPut life (x ∷ past) k n
WasPut-later life past x k n w = record {
  message = w.message;
  clock = w.clock;
  order₁ = w.order₁;
  order₂ = w.order₂;
  was_put = inr w.was_put;
  is_note = w.is_note;
}

chosen {ℓ} :
    {A : Type ℓ} (b : Bool) (a x : A) (o : Option A)
    → b ≡ true
    → (if b then some a else o) ≡ some x
    → x ≡ a
chosen true a x o t h = cc
chosen false a x o t h = absurd (cc)

guarded {ℓ} :
    {A : Type ℓ} (b : Bool) (a x : A) → some x ≡ (if b then some a else none) → (x ≡ a) × (b ≡ true)
guarded true a x h = (cc, refl)
guarded false a x h = absurd (cc)

module _ (enabled : Bool) (life : Msg → Clock → Note) (past : List Call) (f g : Store)
    (grounded : Grounded life past f) where
  -- What is left of a store is grounded.
  less-Grounded :
      (x : Call) → ((k : Bytes) → (g k ≡ none) ⊎ (g k ≡ f k)) → Grounded life (x ∷ past) g
  unfolding Grounded
  less-Grounded x less k n e = elim (less k) [
    | inl gone ↦ absurd (cc (gone, e))
    | inr same ↦ WasPut-later life past x k n (grounded k n (sym same ∙ e))
  ]

  put-Grounded :
      (k : Bytes) (m : Msg) (t : Clock) (order₁ order₂ : List Bytes) (r : Option Msg)
      → Permits enabled life f (put k m t order₁ order₂) r g
      → Grounded life (put k m t order₁ order₂ ∷ past) g
  unfolding Permits Grounded
  put-Grounded k m t order₁ order₂ r (_, p) j n e = elim (p j) [
    | inl gone ↦ absurd (cc (gone, e))
    | inr meant ↦ elim (Bool-cases (enabled && (replaceable (f k) t && equal k j))) [
      | inl placed ↦
          let same : k ≡ j = ground (arith, equal_iff k j, placed) in
          let is : n ≡ life m t = chosen _ (life m t) n (f j) placed (sym meant ∙ e) in
          record {
            message = m;
            clock = t;
            order₁ = order₁;
            order₂ = order₂;
            was_put = inl (ap (λ (i : Bytes). put i m t order₁ order₂) (sym same));
            is_note = is;
          }
      | inr left ↦
          let old : f j ≡ some n = sym (rw left refl) ∙ sym meant ∙ e in
          WasPut-later life past (put k m t order₁ order₂) j n (grounded j n old)
    ]
  ]

  get-Source :
      (k : Bytes) (msgid : ℕ) (return_stale : Bool) (now : ℤ) (m : Msg)
      → some m ≡ answer (f k) msgid return_stale now
      → Source life past k msgid return_stale now m
  unfolding Source Grounded
  get-Source k msgid return_stale now m e = elim (Option-cases (f k)) [
    | inl empty ↦ absurd (cc (e, empty))
    | inr (n, found) ↦
        let (reply, in_time) = guarded _ (served n.msg msgid) m (e ∙ rw found refl) in
        (n, grounded k n found, reply, in_time)
  ]

  step-Sound :
      (x : Call) (r : Option Msg)
      → Permits enabled life f x r g
      → Explained life past x r × Grounded life (x ∷ past) g
  unfolding Permits
  step-Sound (put k m t order₁ order₂) r p = (p.0, put-Grounded k m t order₁ order₂ r p)
  step-Sound (drop k) r (e, gone, others) = (
    e,
    less-Grounded (drop k) (λ j. elim (Bool-cases (equal k j)) [
      | inl same ↦ inl (subst (λ i. g i ≡ none) (equal→eq k j same) gone)
      | inr other ↦ inr (others j (ground (arith, equal_iff k j, other)))
    ]),
  )
  step-Sound (get q dnssec tcp msgid keep_stale return_stale now₁ now₂) r (e, here, others) = (
    explain r e,
    less-Grounded (get q dnssec tcp msgid keep_stale return_stale now₁ now₂) (λ j.
        elim (Bool-cases (equal (key q dnssec tcp) j)) [
          | inl same ↦
              subst (λ i. (g i ≡ none) ⊎ (g i ≡ f i)) (equal→eq (key q dnssec tcp) j same) here
          | inr other ↦ inr (others j (ground (arith, equal_iff (key q dnssec tcp) j, other)))
        ]),
  )
    where
      explain :
          (r : Option Msg)
          → r ≡ answer (f (key q dnssec tcp)) msgid return_stale now₁
          → Explained life past (get q dnssec tcp msgid keep_stale return_stale now₁ now₂) r
      explain none e = tt
      explain (some m) e = get-Source (key q dnssec tcp) msgid return_stale now₁ m e

Trace-Sound :
    {enabled : Bool} {life : Msg → Clock → Note} {f h : Store} {xs : List Call}
    {rs : List (Option Msg)} (past : List Call)
    → Grounded life past f
    → Trace enabled life f xs rs h
    → Sound life past xs rs
unfolding Sound
Trace-Sound past grounded done = tt
Trace-Sound {enabled} {life} past grounded (next {f} {g} {h} {x} {r} {xs} {rs} p later) =
    let (explained, grounded') = step-Sound enabled life past f g grounded x r p in
    (explained, Trace-Sound (x ∷ past) grounded' later)

view-new :
    (capacity ttl stale_ttl : ℤ) (from_resp : Bool) (ttl_max : ℤ) (k : Bytes)
    → view (new capacity ttl stale_ttl from_resp ttl_max) k ≡ none
unfolding view search_key new lookup
view-new capacity ttl stale_ttl from_resp ttl_max k = ground arith

-- Every sequence of calls on a new cache returns, and each message that it answers was put before under the key
-- of the question; it is answered with the id asked for, and it is not expired, or stale messages were
-- asked for. The other calls answer nothing.
pub run-new-Sound :
    (capacity ttl stale_ttl : ℤ) (from_resp : Bool) (ttl_max : ℤ) (xs : List Call)
    → (rs : List (Option Msg)) × (c' : Cache) × (run xs
          (new capacity ttl stale_ttl from_resp ttl_max)
        ≡ some (rs, c'))
      × Sound (life_of (new capacity ttl stale_ttl from_resp ttl_max)) [] xs rs
unfolding Grounded
run-new-Sound capacity ttl stale_ttl from_resp ttl_max xs =
    let c = new capacity ttl stale_ttl from_resp ttl_max in
    let (rs, c', runs, trace) = run-Trace xs c (unfold new in tt) in
    let empty : Grounded (life_of c) [] (view c) =
      λ k n e. absurd (cc (e, view-new capacity ttl stale_ttl from_resp ttl_max k)) in
    (rs, c', runs, Trace-Sound [] empty trace)
