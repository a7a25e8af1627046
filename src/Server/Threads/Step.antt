-- ===== src/Server/Threads/Step.antt =====
-- server/server.go and cache/hit.go: one step of a goroutine that handles a request.
use go_dnsmasq.Base.{
  ℕ, suc, ◌≡◌, refl, inl, inr, Bool, true, false, [], ◌∷◌, ◌++◌, Option, none, some, arith, ◌⊎◌,
  Option-cases,
}
use go_dnsmasq.Base.Text.{Bytes}
use go_dnsmasq.Base.Map.{lookup, assign}
use go_dnsmasq.Base.Map.Laws.{assign-Distinct, delete-Distinct, length-assign, length-delete}
use go_dnsmasq.Cache.{Cache, remove, search_key}
use go_dnsmasq.Cache.Evict.{IsBounded}
use go_dnsmasq.Cache.Hit.{bump, count_hit}
use go_dnsmasq.Dns.{Msg}
use go_dnsmasq.Server.Serve.Laws.{Silent-insert}
use go_dnsmasq.Server.Threads.{
  Prog, finish, panic, peek, count, drop, put, send, tally, forward, step,
}
use go_dnsmasq.Server.Threads.Owes.{Debt}
use go_dnsmasq.Server.Threads.Within.{Within}
use go_dnsmasq.Server.World.{World, Counter}

-- The next step counts a hit on a key that is no longer in the cache.
unfoldable pub Misses : Prog → Cache → Type 0
Misses finish c = ⊥
Misses panic c = ⊥
Misses (peek k go_on) c = ⊥
Misses (count valid k p) c = lookup k c.m ≡ none
Misses (drop k p) c = ⊥
Misses (put now k m p) c = ⊥
Misses (send m p) c = ⊥
Misses (tally b n p) c = ⊥
Misses (forward m go_on) c = ⊥

-- That step is a panic.
pub Misses-panics : (p : Prog) (w : World) → Misses p w.cache → step p w ≡ none
unfolding Misses step bump
Misses-panics finish w h = absurd h
Misses-panics panic w h = refl
Misses-panics (peek k go_on) w h = absurd h
Misses-panics (count valid k p) w h = rw (h, step, bump) refl
Misses-panics (drop k p) w h = absurd h
Misses-panics (put now k m p) w h = absurd h
Misses-panics (send m p) w h = absurd h
Misses-panics (tally b n p) w h = absurd h
Misses-panics (forward m go_on) w h = absurd h

-- After a step from the world `w`: the goroutine still has its debt and has written nothing, or it has paid.
pub data Paid (o : Option Msg) (w : World) (p' : Prog) (w' : World) : Type 0 where
  same : Debt p' o → w'.written ≡ w.written → Paid o w p' w'
  wrote :
      (req m : Msg)
      → o ≡ some req
      → Debt p' none
      → w'.written ≡ w.written ++ m ∷ []
      → m.id ≡ req.id
      → Paid o w p' w'

-- A step that does not panic.
pub record Moves (o : Option Msg) (p : Prog) (w : World) : Type 0 where
  pub left : Prog
  pub after : World
  pub runs : step p w ≡ some (left, after)
  pub paid : Paid o w left after
  pub bounded : IsBounded w.cache → IsBounded after.cache
  pub fewer : (n : ℕ) → Within p (suc n) → Within left n

bump-Moves :
    (o : Option Msg) (valid : Bool) (k : Bytes) (p : Prog) (w : World)
    → Debt p o
    → Moves o (count valid k p) w ⊎ (lookup k w.cache.m ≡ none)
unfolding step bump Within
bump-Moves o valid k p w d = elim (Option-cases (lookup k w.cache.m)) [
  | inl missing ↦ inr missing
  | inr (e, present) ↦ inl (record {
    left = p;
    after = record w { cache = record w.cache { m = assign k (count_hit valid e) w.cache.m } };
    runs = rw (present, step) refl;
    paid = same d refl;
    bounded = λ b. record {
      below = ground (arith, b.below, length-assign k (count_hit valid e) w.cache.m);
      distinct = assign-Distinct k (count_hit valid e) w.cache.m b.distinct;
    };
    fewer = λ n h. h;
  })
]

remove-IsBounded : (c : Cache) (k : Bytes) → IsBounded c → IsBounded (remove c k)
unfolding remove
remove-IsBounded c k b = record {
  below = ground (arith, b.below, length-delete k c.m);
  distinct = ground (arith, b.distinct, delete-Distinct k c.m b.distinct);
}

tally-Moves :
    (o : Option Msg) (b : Bool) (n : Counter) (p : Prog) (w : World)
    → Debt p o
    → Moves o (tally b n p) w
unfolding step Within
tally-Moves o true n p w d = record {
  left = p;
  after = _;
  runs = refl;
  paid = same d refl;
  bounded = λ b. b;
  fewer = λ n h. h;
}
tally-Moves o false n p w d = record {
  left = p;
  after = w;
  runs = refl;
  paid = same d refl;
  bounded = λ b. b;
  fewer = λ n h. h;
}

-- A goroutine that has its debt takes a step and keeps the debt or pays it, or it misses its key.
pub step-Paid : (o : Option Msg) (p : Prog) (w : World) → Debt p o → Moves o p w ⊎ Misses p w.cache
unfolding step Debt Misses Within
step-Paid none finish w d = inl (record {
  left = finish;
  after = w;
  runs = refl;
  paid = same tt refl;
  bounded = λ b. b;
  fewer = λ n h. h;
})
step-Paid (some req) finish w d = absurd d
step-Paid o panic w d = absurd d
step-Paid none (send m p) w d = absurd d
step-Paid none (forward m go_on) w d = absurd d
step-Paid o (peek k go_on) w d = inl (record {
  left = go_on (search_key w.cache k);
  after = w;
  runs = refl;
  paid = same (d _) refl;
  bounded = λ b. b;
  fewer = λ n h. h (search_key w.cache k);
})
step-Paid o (count valid k p) w d = bump-Moves o valid k p w d
step-Paid o (drop k p) w d = inl (record {
  left = p;
  after = _;
  runs = refl;
  paid = same d refl;
  bounded = remove-IsBounded w.cache k;
  fewer = λ n h. h;
})
step-Paid o (put now k m p) w d =
    let s = Silent-insert now d.0 k m w in
    inl (record {
      left = p;
      after = s.after;
      runs = rw (s.runs, step) refl;
      paid = same d.1 s.written;
      bounded = s.bounded;
      fewer = λ n h. h;
    })
step-Paid (some req) (send m p) w d = inl (record {
  left = p;
  after = _;
  runs = refl;
  paid = wrote req m refl d.1 refl d.0;
  bounded = λ b. b;
  fewer = λ n h. h;
})
step-Paid o (tally b n p) w d = inl (tally-Moves o b n p w d)
step-Paid (some req) (forward m go_on) w d =
    let r = d.0 w in
    inl (record {
      left = go_on r.result;
      after = r.after;
      runs = rw (r.runs, step) refl;
      paid = wrote req r.result.0 refl (d.1 r.result) r.written r.same_id;
      bounded = λ b. rw r.cache b;
      fewer = λ n h. h r.result;
    })
