-- ===== src/Server/Threads/Pool/Serves.antt =====
-- server/server.go: goroutines that handle requests at the same time answer each of them once.
use go_dnsmasq.Base.{
  ℕ, zero, suc, ◌≤◌, ◌≡◌, refl, ap, ◌∙◌, inl, inr, false, List, [], ◌∷◌, none, some, map, ◌⊎◌,
  subst,
}
use go_dnsmasq.Base.{get_elem?}
use go_dnsmasq.Base.Text.{Bytes}
use go_dnsmasq.Cache.{Cache}
use go_dnsmasq.Cache.Evict.{IsBounded}
use go_dnsmasq.Dns.{DnsLib, RepliesWell, LenWell, Msg}
use go_dnsmasq.Server.Config.{Config, is_nil}
use go_dnsmasq.Server.Forward.Query.{IsFair}
use go_dnsmasq.Server.Forward.Reply.{StubsHaveServers}
use go_dnsmasq.Server.Serve.Laws.{OrdersFair}
use go_dnsmasq.Server.Threads.{Prog, finish}
use go_dnsmasq.Server.Threads.Owes.{Debt}
use go_dnsmasq.Server.Threads.Owes.Handler.{serve_dns-Owes}
use go_dnsmasq.Server.Threads.Pool.{Arrival, Thread, spawn, interleave}
use go_dnsmasq.Server.Threads.Pool.Turns.{Stands, owing, responded, Stand, turns, WithinAt}
use go_dnsmasq.Server.Threads.Within.{Within, Within-ended, Within-le}
use go_dnsmasq.Server.Threads.Within.Handler.{serve_dns-Within}
use go_dnsmasq.Server.Threads.Pool.Schedule.{Panics, interleave-Stand}

-- The goroutine is at its end, and it has written one response, which has the id of its request.
pub record Finished (req : Msg) (t : Thread) : Type 0 where
  pub response : Msg
  pub ended : t.prog ≡ finish
  pub written : t.own.written ≡ response ∷ []
  pub same_id : response.id ≡ req.id

Stands-Finished : (t : Thread) → Stands t → Within t.prog 0 → Finished t.request t
unfolding Debt
Stands-Finished t (owing d e) h = elim (Within-ended t.prog h) [
  | inl ended ↦ absurd (subst (λ (p : Prog). Debt p (some t.request)) ended d)
  | inr faulted ↦ absurd (subst (λ (p : Prog). Debt p (some t.request)) faulted d)
]
Stands-Finished t (responded m d e id) h = elim (Within-ended t.prog h) [
  | inl ended ↦ record { response = m; ended = ended; written = e; same_id = id }
  | inr faulted ↦ absurd (subst (λ (p : Prog). Debt p none) faulted d)
]

cons_same : {x y : Msg} {xs ys : List Msg} → x ∷ xs ≡ y ∷ ys → (x ≡ y) × (xs ≡ ys)
cons_same e = (cc, cc)

same_request : {x a : Arrival} {r : Msg} → r ≡ x.request → some x ≡ some a → r ≡ a.request
same_request e at = e ∙ ap (λ (y : Arrival). y.request) (some_same at)
  where
    some_same : {x a : Arrival} → some x ≡ some a → x ≡ a
    some_same h = cc

get_elem?-Finished :
    (j : ℕ) (rs : List Arrival) (a : Arrival) (ts : List Thread)
    → map (λ (t : Thread). t.request) ts ≡ map (λ (x : Arrival). x.request) rs
    → Stand ts
    → WithinAt j ts 0
    → get_elem? rs j ≡ some a
    → (t : Thread) × (get_elem? ts j ≡ some t) × Finished a.request t
unfolding Stand WithinAt
get_elem?-Finished zero (x ∷ rs) a (t ∷ ts) e st h at = (
  t,
  refl,
  subst (λ (r : Msg). Finished r t) (same_request (cons_same e).0 at) (Stands-Finished t st.0 h),
)
get_elem?-Finished (suc j) (x ∷ rs) a (t ∷ ts) e st h at =
    get_elem?-Finished j rs a ts (cons_same e).1 st.1 h at
get_elem?-Finished j [] a ts e st h at = absurd (cc)
get_elem?-Finished j (x ∷ rs) a [] e st h at = absurd (cc)

-- The environment is fair, an eviction visits the keys of its map, and the request has a question.
pub record IsReady (a : Arrival) : Type 0 where
  pub fair : IsFair a.env
  pub orders : OrdersFair a.now
  pub asks : is_nil a.request.question ≡ false

abbrev pub Ready : List Arrival → Type 0
Ready [] = Unit {0}
Ready (a ∷ rs) = IsReady a × Ready rs

module _ (dns : DnsLib) (replies : RepliesWell dns) (lens : LenWell dns) (cfg : Config)
    (stubs : StubsHaveServers cfg) (version : Bytes) (c : Cache) where
  spawn-Stand : (rs : List Arrival) → Ready rs → Stand (map (spawn dns cfg version c) rs)
  unfolding Stand spawn
  spawn-Stand [] h = tt
  spawn-Stand (a ∷ rs) (h, hs) = (
    owing
        (serve_dns-Owes dns replies lens a.env h.fair cfg stubs version a.now h.orders a.tcp
          a.request h.asks)
        refl,
    spawn-Stand rs hs,
  )

  spawn-requests :
      (rs : List Arrival)
      → map (λ (t : Thread). t.request) (map (spawn dns cfg version c) rs)
        ≡ map (λ (a : Arrival). a.request) rs
  unfolding spawn
  spawn-requests [] = refl
  spawn-requests (a ∷ rs) = ap (λ (l : List Msg). a.request ∷ l) (spawn-requests rs)

  spawn-WithinAt :
      (j n : ℕ) (rs : List Arrival) → 11 ≤ n → WithinAt j (map (spawn dns cfg version c) rs) n
  unfolding spawn WithinAt
  spawn-WithinAt j n [] h = tt
  spawn-WithinAt zero n (a ∷ rs) h =
      Within-le _ 11 n (serve_dns-Within dns a.env cfg version a.now a.tcp a.request) h
  spawn-WithinAt (suc j) n (a ∷ rs) h = spawn-WithinAt j n rs h

  -- Goroutines that handle any number of requests, from a cache that is within its bound, whose steps are
  -- interleaved in any order: at every moment, each has written nothing so far, and still writes one response, or
  -- has written exactly one, which has its request's id, and writes no other; and the cache is within its bound.
  -- The only other outcome is a panic, in a step that counts a hit on a key that is no longer in the cache. The
  -- hypotheses on the DNS library, the upstream servers, the stub zones and the eviction pass are those of one
  -- request, and each request has a question.
  pub interleave-spawn :
      (rs : List Arrival) (is : List ℕ)
      → Ready rs
      → IsBounded c
      → ((ts : List Thread) × (c' : Cache) × (interleave is (map (spawn dns cfg version c) rs) c
            ≡ some (ts, c'))
          × (map (λ (t : Thread). t.request) ts ≡ map (λ (a : Arrival). a.request) rs)
          × Stand ts
          × IsBounded c')
        ⊎ Panics is (map (spawn dns cfg version c) rs) c
  interleave-spawn rs is ready b = elim (interleave-Stand is _ c (spawn-Stand rs ready)) [
    | inl r ↦ inl (r.threads, r.cache, r.runs, r.requests ∙ spawn-requests rs, r.stand, r.bounded b)
    | inr p ↦ inr p
  ]

  -- Whatever the other goroutines do in between, a goroutine that has had eleven turns is at its end, and it has
  -- written exactly one response, which has its request's id, unless a goroutine has panicked in a step that
  -- counts a hit on a key that is no longer in the cache. The hypotheses are those of one request.
  pub interleave-Finished :
      (rs : List Arrival) (is : List ℕ) (j : ℕ) (a : Arrival)
      → Ready rs
      → get_elem? rs j ≡ some a
      → 11 ≤ turns is j
      → ((ts : List Thread) × (c' : Cache) × (t : Thread) × (interleave is
              (map (spawn dns cfg version c) rs)
              c
            ≡ some (ts, c'))
          × (get_elem? ts j ≡ some t)
          × Finished a.request t)
        ⊎ Panics is (map (spawn dns cfg version c) rs) c
  interleave-Finished rs is j a ready at enough =
      elim (interleave-Stand is _ c (spawn-Stand rs ready)) [
        | inl r ↦
            let (t, found, done) =
              get_elem?-Finished j rs a r.threads (r.requests ∙ spawn-requests rs) r.stand
                (r.nearer j (spawn-WithinAt j (turns is j) rs enough)) at in
            inl (r.threads, r.cache, t, r.runs, found, done)
        | inr p ↦ inr p
      ]
