-- ===== src/Server/Threads/Within.antt =====
-- server/server.go and cache/hit.go: how many steps a goroutine takes.
pub mod Handler
use go_dnsmasq.Base.{
  ◌≡◌, refl, ◌⊎◌, ℕ, zero, suc, ◌+◌, ◌-◌, ◌≤◌, inl, inr, arith, subst, Bool, true, false, ◌&&◌,
  ◌||◌, List, [], ◌∷◌, Option, none, some, ◌==◌,
}
use go_dnsmasq.Base.Int.{ℤ, pos, ltb_ℤ}
use go_dnsmasq.Base.Text.{Bytes, to_lower}
use go_dnsmasq.Cache.{Elem, is_past, is_ahead}
use go_dnsmasq.Cache.Hit.{served}
use go_dnsmasq.Cache.Key.{key}
use go_dnsmasq.Dns.{
  DnsLib, Question, Rr, Msg, empty_msg, rcode_server_failure, type_a, type_aaaa, class_chaos,
}
use go_dnsmasq.Fit.{fit}
use go_dnsmasq.Server.Config.{Config}
use go_dnsmasq.Server.Forward.{question0, serve_dns_forward}
use go_dnsmasq.Server.Records.{ptr_records}
use go_dnsmasq.Server.Rotate.{round_robin}
use go_dnsmasq.Server.Serve.{
  Moment, requested, fresh_reply, chaos_reply, store_in_cache, host_records, is_reverse,
}
use go_dnsmasq.Server.Threads.{
  Prog, finish, panic, peek, count, drop, put, send, tally, forward, or_panic, hit_found_steps,
  hit_steps, fitted_steps, serve_cached_steps, finish_local_steps, keep_response_steps,
  serve_forwarded_steps, serve_dns_reverse_step, serve_uncached_steps, by_cache_steps,
  serve_dns_steps,
}
use go_dnsmasq.Server.World.{Env, cache_hit}

-- What is left ends after at most this many steps.
unfoldable pub Within : Prog → ℕ → Type 0
Within finish n = Unit {0}
Within panic n = Unit {0}
Within (peek k go_on) zero = ⊥
Within (peek k go_on) (suc n) = (found : Option Elem) → Within (go_on found) n
Within (count valid k p) zero = ⊥
Within (count valid k p) (suc n) = Within p n
Within (drop k p) zero = ⊥
Within (drop k p) (suc n) = Within p n
Within (put now k m p) zero = ⊥
Within (put now k m p) (suc n) = Within p n
Within (send m p) zero = ⊥
Within (send m p) (suc n) = Within p n
Within (tally b c p) zero = ⊥
Within (tally b c p) (suc n) = Within p n
Within (forward m go_on) zero = ⊥
Within (forward m go_on) (suc n) = (r : Msg × Bool) → Within (go_on r) n

pub Within-suc : (p : Prog) (n : ℕ) → Within p n → Within p (suc n)
unfolding Within
Within-suc finish n h = tt
Within-suc panic n h = tt
Within-suc (peek k go_on) zero h = absurd h
Within-suc (count valid k p) zero h = absurd h
Within-suc (drop k p) zero h = absurd h
Within-suc (put now k m p) zero h = absurd h
Within-suc (send m p) zero h = absurd h
Within-suc (tally b c p) zero h = absurd h
Within-suc (forward m go_on) zero h = absurd h
Within-suc (peek k go_on) (suc n) h = λ found. Within-suc (go_on found) n (h found)
Within-suc (count valid k p) (suc n) h = Within-suc p n h
Within-suc (drop k p) (suc n) h = Within-suc p n h
Within-suc (put now k m p) (suc n) h = Within-suc p n h
Within-suc (send m p) (suc n) h = Within-suc p n h
Within-suc (tally b c p) (suc n) h = Within-suc p n h
Within-suc (forward m go_on) (suc n) h = λ r. Within-suc (go_on r) n (h r)

-- What ends after no step has ended.
pub Within-ended : (p : Prog) → Within p 0 → (p ≡ finish) ⊎ (p ≡ panic)
unfolding Within
Within-ended finish h = inl refl
Within-ended panic h = inr refl
Within-ended (peek k go_on) h = absurd h
Within-ended (count valid k p) h = absurd h
Within-ended (drop k p) h = absurd h
Within-ended (put now k m p) h = absurd h
Within-ended (send m p) h = absurd h
Within-ended (tally b c p) h = absurd h
Within-ended (forward m go_on) h = absurd h

Within-add : (p : Prog) (n k : ℕ) → Within p n → Within p (n + k)
Within-add p n zero h = subst (λ (m : ℕ). Within p m) (omega arith) h
Within-add p n (suc k) h =
    subst (λ (m : ℕ). Within p m) (omega arith) (Within-suc p (n + k) (Within-add p n k h))

pub Within-le : (p : Prog) (n m : ℕ) → Within p n → n ≤ m → Within p m
Within-le p n m h le = subst (λ (k : ℕ). Within p k) (omega (arith, le)) (Within-add p n (m - n) h)

pub or_panic-Within :
    {A : Type 0} (o : Option A) (go_on : A → Prog) (n : ℕ)
    → ((a : A) → Within (go_on a) n)
    → Within (or_panic o go_on) n
unfolding Within
or_panic-Within none go_on n h = tt
or_panic-Within (some a) go_on n h = h a

hit_found-Within :
    (e : Elem) (k : Bytes) (msgid : ℕ) (keep_stale return_stale : Bool) (now₁ now₂ : ℤ)
    (go_on : Option Msg → Prog) (n : ℕ)
    → ((o : Option Msg) → Within (go_on o) n)
    → Within (hit_found_steps e k msgid keep_stale return_stale now₁ now₂ go_on) (suc (suc n))
unfolding Within
hit_found-Within e k msgid keep_stale return_stale now₁ now₂ go_on n h =
    by (is_ahead now₁ e.expiration) (is_ahead now₁ e.expiration || return_stale)
      (is_past now₂ e.stale_expiration) keep_stale
  where
    m : Option Msg
    m = some (served e.msg msgid)

    by :
        (valid b past keep : Bool)
        → Within
            (elim b [
              | true ↦ count valid k (elim past [ true ↦ drop k (go_on m) | false ↦ go_on m ])
              | false ↦ elim keep [ true ↦ go_on none | false ↦ drop k (go_on none) ]
            ])
            (suc (suc n))
    by valid true true keep = h m
    by valid true false keep = Within-suc _ n (h m)
    by valid false past true = Within-suc _ (suc n) (Within-suc _ n (h none))
    by valid false past false = Within-suc _ n (h none)

pub hit-Within :
    (k : Bytes) (msgid : ℕ) (keep_stale return_stale : Bool) (now₁ now₂ : ℤ)
    (go_on : Option Msg → Prog) (n : ℕ)
    → ((o : Option Msg) → Within (go_on o) n)
    → Within (hit_steps k msgid keep_stale return_stale now₁ now₂ go_on) (suc (suc (suc n)))
unfolding Within hit_steps
hit-Within k msgid keep_stale return_stale now₁ now₂ go_on n h = by_search
  where
    by_search :
        (o : Option Elem)
        → Within
            (elim o [
              | none ↦ go_on none
              | some e ↦ hit_found_steps e k msgid keep_stale return_stale now₁ now₂ go_on
            ])
            (suc (suc n))
    by_search none = Within-suc _ (suc n) (Within-suc _ n (h none))
    by_search (some e) = hit_found-Within e k msgid keep_stale return_stale now₁ now₂ go_on n h
