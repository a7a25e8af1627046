-- ===== src/Cache/Store/Refines.antt =====
-- cache/cache.go and cache/hit.go: every sequence of calls does what the store promises.
use go_dnsmasq.Base.{◌≡◌, refl, ap, subst, List, [], ◌∷◌, Option, some}
use go_dnsmasq.Base.Map.{Distinct}
use go_dnsmasq.Dns.{Msg}
use go_dnsmasq.Cache.{Cache, new_elem}
use go_dnsmasq.Cache.Store.{Call, call, run, view, Trace, done, next, is_enabled, life_of}
use go_dnsmasq.Cache.Store.Calls.{call-Does}
use go_dnsmasq.Cache.Store.View.{settings}

same_life : (c c' : Cache) → settings c ≡ settings c' → life_of c ≡ life_of c'
unfolding new_elem
same_life c c' e = ap life_of e

run_cons :
    (x : Call) (xs : List Call) (c : Cache) {r : Option Msg} {c' c'' : Cache}
    {rs : List (Option Msg)}
    → call x c ≡ some (r, c')
    → run xs c' ≡ some (rs, c'')
    → run (x ∷ xs) c ≡ some (r ∷ rs, c'')
unfolding run
run_cons x xs c e h = cc (e, h)

-- Every sequence of calls on a cache with distinct keys returns, and what it returns is what the store promises
-- of these calls, from the store that the cache stands for to the one that the cache left stands for.
pub run-Trace :
    (xs : List Call) (c : Cache)
    → Distinct c.m
    → (rs : List (Option Msg)) × (c' : Cache) × (run xs c ≡ some (rs, c'))
      × Trace (is_enabled c) (life_of c) (view c) xs rs (view c')
unfolding run
run-Trace [] c d = ([], c, refl, done)
run-Trace (x ∷ xs) c d =
    let s = call-Does x c d in
    let (rs, c', runs, later) = run-Trace xs s.after s.distinct in
    (
      s.reply ∷ rs,
      c',
      run_cons x xs c s.runs runs,
      next s.permitted (
          subst (λ l. Trace (is_enabled c) l (view s.after) xs rs (view c'))
            (same_life s.after c s.same)
            (subst (λ b. Trace b (life_of s.after) (view s.after) xs rs (view c'))
              (ap is_enabled s.same) later)),
    )
