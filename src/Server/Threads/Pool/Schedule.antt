-- ===== src/Server/Threads/Pool/Schedule.antt =====
-- server/server.go: the steps of goroutines that handle requests, in any order.
use go_dnsmasq.Base.{ℕ, ◌≡◌, refl, ap, ◌∙◌, inl, inr, List, [], ◌∷◌, ◌++◌, none, some, map, ◌⊎◌}
use go_dnsmasq.Cache.{Cache}
use go_dnsmasq.Cache.Evict.{IsBounded}
use go_dnsmasq.Server.Threads.Pool.{Thread, interleave}
use go_dnsmasq.Server.Threads.Pool.Turns.{
  Stand, MissesAt, MissesAt-panics, turns, WithinAt, step_at-Turns,
}

-- The schedule runs to its end without a panic.
pub record Runs (is : List ℕ) (ts : List Thread) (c : Cache) : Type 0 where
  pub threads : List Thread
  pub cache : Cache
  pub runs : interleave is ts c ≡ some (threads, cache)
  pub requests : map (λ (t : Thread). t.request) threads ≡ map (λ (t : Thread). t.request) ts
  pub stand : Stand threads
  pub bounded : IsBounded c → IsBounded cache
  pub nearer : (j : ℕ) → WithinAt j ts (turns is j) → WithinAt j threads 0

-- The schedule comes to a turn in which a goroutine counts a hit on a key that another one has taken from the
-- cache since it was found.
pub record Panics (is : List ℕ) (ts : List Thread) (c : Cache) : Type 0 where
  pub before : List ℕ
  pub at : ℕ
  pub behind : List ℕ
  pub threads : List Thread
  pub cache : Cache
  pub order : is ≡ before ++ at ∷ behind
  pub runs : interleave before ts c ≡ some (threads, cache)
  pub misses : MissesAt at threads cache
  pub panics : interleave is ts c ≡ none

-- Goroutines that are as they should be stay so, or one misses its key.
pub interleave-Stand :
    (is : List ℕ) (ts : List Thread) (c : Cache) → Stand ts → Runs is ts c ⊎ Panics is ts c
unfolding interleave turns
interleave-Stand [] ts c st = inl (record {
  threads = ts;
  cache = c;
  runs = refl;
  requests = refl;
  stand = st;
  bounded = λ b. b;
  nearer = λ j h. h;
})
interleave-Stand (i ∷ is) ts c st = elim (step_at-Turns i ts c st) [
  | inr missing ↦ inr (record {
    before = [];
    at = i;
    behind = is;
    threads = ts;
    cache = c;
    order = refl;
    runs = refl;
    misses = missing;
    panics = rw (MissesAt-panics i ts c missing, interleave) refl;
  })
  | inl t ↦ elim (interleave-Stand is t.threads t.cache t.stand) [
    | inl r ↦ inl (record {
      threads = r.threads;
      cache = r.cache;
      runs = rw (t.runs, interleave) r.runs;
      requests = r.requests ∙ t.requests;
      stand = r.stand;
      bounded = λ b. r.bounded (t.bounded b);
      nearer = λ j h. r.nearer j (t.nearer j (turns is j) h);
    })
    | inr p ↦ inr (record {
      before = i ∷ p.before;
      at = p.at;
      behind = p.behind;
      threads = p.threads;
      cache = p.cache;
      order = ap (λ (l : List ℕ). i ∷ l) p.order;
      runs = rw (t.runs, interleave) p.runs;
      misses = p.misses;
      panics = rw (t.runs, interleave) p.panics;
    })
  ]
]
