-- ===== src/Server/Threads/Pool/Turns.antt =====
-- server/server.go: one step among the goroutines that handle requests.
use go_dnsmasq.Base.{
  ℕ, zero, suc, ◌≡◌, refl, ap, sym, ◌∙◌, inl, inr, List, [], ◌∷◌, ◌++◌, Option, none, some, map,
  ◌⊎◌,
}
use go_dnsmasq.Cache.{Cache}
use go_dnsmasq.Cache.Evict.{IsBounded}
use go_dnsmasq.Dns.{Msg}
use go_dnsmasq.Server.Threads.{Prog}
use go_dnsmasq.Server.Threads.Owes.{Debt, Owes, Rest}
use go_dnsmasq.Server.Threads.Pool.{Thread, step_at}
use go_dnsmasq.Server.Threads.Step.{Misses, Misses-panics, Paid, same, wrote, step-Paid}
use go_dnsmasq.Server.Threads.Within.{Within}
use go_dnsmasq.Server.World.{World}

-- The goroutine still owes its response and has written nothing, or it has written one response, which has the
-- id of its request, and will write no other.
pub data Stands (t : Thread) : Type 0 where
  owing : Owes t.request t.prog → t.own.written ≡ [] → Stands t
  responded : (m : Msg) → Rest t.prog → t.own.written ≡ m ∷ [] → m.id ≡ t.request.id → Stands t

unfoldable pub Stand : List Thread → Type 0
Stand [] = Unit {0}
Stand (t ∷ ts) = Stands t × Stand ts

-- The next step of the goroutine with this number counts a hit on a key that is no longer in the cache.
unfoldable pub MissesAt : ℕ → List Thread → Cache → Type 0
MissesAt i [] c = ⊥
MissesAt zero (t ∷ ts) c = Misses t.prog c
MissesAt (suc i) (t ∷ ts) c = MissesAt i ts c

-- That step is a panic.
pub MissesAt-panics :
    (i : ℕ) (ts : List Thread) (c : Cache) → MissesAt i ts c → step_at i ts c ≡ none
unfolding MissesAt step_at
MissesAt-panics zero [] c h = absurd h
MissesAt-panics (suc i) [] c h = absurd h
MissesAt-panics zero (t ∷ ts) c h =
    rw (Misses-panics t.prog (record t.own { cache = c }) h, step_at) refl
MissesAt-panics (suc i) (t ∷ ts) c h = rw (MissesAt-panics i ts c h, step_at) refl

-- One more if the turn of the goroutine `i` is one of `j`.
unfoldable pub turn : ℕ → ℕ → ℕ → ℕ
turn zero zero n = suc n
turn zero (suc j) n = n
turn (suc i) zero n = n
turn (suc i) (suc j) n = turn i j n

-- How many turns the goroutine `j` has in this order.
unfoldable pub turns : List ℕ → ℕ → ℕ
turns [] j = 0
turns (i ∷ is) j = turn i j (turns is j)

-- The goroutine with this number ends after at most this many steps.
unfoldable pub WithinAt : ℕ → List Thread → ℕ → Type 0
WithinAt i [] n = Unit {0}
WithinAt zero (t ∷ ts) n = Within t.prog n
WithinAt (suc i) (t ∷ ts) n = WithinAt i ts n

-- A turn that does not panic.
pub record Turns (i : ℕ) (ts : List Thread) (c : Cache) : Type 0 where
  pub threads : List Thread
  pub cache : Cache
  pub runs : step_at i ts c ≡ some (threads, cache)
  pub requests : map (λ (t : Thread). t.request) threads ≡ map (λ (t : Thread). t.request) ts
  pub stand : Stand threads
  pub bounded : IsBounded c → IsBounded cache
  pub nearer : (j n : ℕ) → WithinAt j ts (turn i j n) → WithinAt j threads n

Paid-Stands :
    (t : Thread) (c : Cache) (p : Prog) (w : World)
    → Owes t.request t.prog
    → t.own.written ≡ []
    → Paid (some t.request) (record t.own { cache = c }) p w
    → Stands (record { request = t.request; prog = p; own = w })
Paid-Stands t c p w d e (same d' kept) = owing d' (kept ∙ e)
Paid-Stands t c p w d e (wrote req m of rest grown id) =
    responded m rest (grown ∙ ap (λ (l : List Msg). l ++ m ∷ []) e)
      (id ∙ ap (λ (r : Msg). r.id) (sym (some_inj of)))
  where
    some_inj : {a b : Msg} → some a ≡ some b → a ≡ b
    some_inj h = cc

quiet-Stands :
    (t : Thread) (c : Cache) (p : Prog) (w : World) (m : Msg)
    → t.own.written ≡ m ∷ []
    → m.id ≡ t.request.id
    → Paid none (record t.own { cache = c }) p w
    → Stands (record { request = t.request; prog = p; own = w })
quiet-Stands t c p w m e id (same d' kept) = responded m d' (kept ∙ e) id
quiet-Stands t c p w m e id (wrote req m' of rest grown id') = absurd (cc)

-- A turn of the first goroutine.
moves-Turns :
    (o : Option Msg) (t : Thread) (ts : List Thread) (c : Cache)
    → Debt t.prog o
    → ((p : Prog) (w : World)
        → Paid o (record t.own { cache = c }) p w
        → Stands (record { request = t.request; prog = p; own = w }))
    → Stand ts
    → Turns zero (t ∷ ts) c ⊎ Misses t.prog c
unfolding step_at Stand turn WithinAt
moves-Turns o t ts c d stands rest = elim (step-Paid o t.prog (record t.own { cache = c }) d) [
  | inr missing ↦ inr missing
  | inl s ↦ inl (record {
    threads = record { request = t.request; prog = s.left; own = s.after } ∷ ts;
    cache = s.after.cache;
    runs = rw (s.runs, step_at) refl;
    requests = refl;
    stand = (stands s.left s.after s.paid, rest);
    bounded = s.bounded;
    nearer = λ j n. near s.left s.after s.fewer j n;
  })
]
  where
    near :
        (p : Prog) (w : World)
        → ((n : ℕ) → Within t.prog (suc n) → Within p n)
        → (j n : ℕ) → WithinAt j (t ∷ ts) (turn zero j n)
        → WithinAt j (record { request = t.request; prog = p; own = w } ∷ ts) n
    near p w f zero n h = f n h
    near p w f (suc j) n h = h

-- A turn of any goroutine keeps all of them as they should be, or it misses its key.
pub step_at-Turns :
    (i : ℕ) (ts : List Thread) (c : Cache) → Stand ts → Turns i ts c ⊎ MissesAt i ts c
unfolding step_at Stand MissesAt turn WithinAt
step_at-Turns i [] c st = inl (record {
  threads = [];
  cache = c;
  runs = refl;
  requests = refl;
  stand = tt;
  bounded = λ b. b;
  nearer = λ j n h. tt;
})
step_at-Turns zero (t ∷ ts) c (owing d e, rest) =
    moves-Turns (some t.request) t ts c d (λ p w. Paid-Stands t c p w d e) rest
step_at-Turns zero (t ∷ ts) c (responded m d e id, rest) =
    moves-Turns none t ts c d (λ p w. quiet-Stands t c p w m e id) rest
step_at-Turns (suc i) (t ∷ ts) c (s, rest) = elim (step_at-Turns i ts c rest) [
  | inr missing ↦ inr missing
  | inl r ↦ inl (record {
    threads = t ∷ r.threads;
    cache = r.cache;
    runs = rw (r.runs, step_at) refl;
    requests = ap (λ (l : List Msg). t.request ∷ l) r.requests;
    stand = (s, r.stand);
    bounded = r.bounded;
    nearer = λ j n. near r.threads r.nearer j n;
  })
]
  where
    near :
        (ts' : List Thread)
        → ((j n : ℕ) → WithinAt j ts (turn i j n) → WithinAt j ts' n)
        → (j n : ℕ) → WithinAt j (t ∷ ts) (turn (suc i) j n)
        → WithinAt j (t ∷ ts') n
    near ts' f zero n h = h
    near ts' f (suc j) n h = f j n h
