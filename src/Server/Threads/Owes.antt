-- ===== src/Server/Threads/Owes.antt =====
-- server/server.go: what a goroutine has yet to write to its client.
pub mod Handler
use go_dnsmasq.Base.{
  ℕ, zero, suc, ◌≡◌, refl, ap, sym, ◌∙◌, inl, inr, Bool, true, false, not, ◌&&◌, ◌||◌, List, [],
  ◌∷◌, ◌++◌, Option, none, some, arith, if◌then◌else◌, ◌==◌, Bool-cases, Option-cases,
}
use go_dnsmasq.Base.Int.{ℤ, pos, ltb_ℤ}
use go_dnsmasq.Base.Text.{Bytes, to_lower}
use go_dnsmasq.Cache.{Elem, is_past, is_ahead}
use go_dnsmasq.Cache.Hit.{served}
use go_dnsmasq.Cache.Key.{key}
use go_dnsmasq.Dns.{
  DnsLib, RepliesWell, LenWell, Question, Rr, Msg, empty_msg, rcode_server_failure, type_a,
  type_aaaa, class_chaos, max_msg_size,
}
use go_dnsmasq.Fit.{fit}
use go_dnsmasq.Fit.Laws.{fit-Fitted}
use go_dnsmasq.Server.Config.{Config, is_nil}
use go_dnsmasq.Server.Forward.{question0, reply, serve_dns_forward}
use go_dnsmasq.Server.Forward.Query.{IsFair}
use go_dnsmasq.Server.Forward.Search.{cons_of_some}
use go_dnsmasq.Server.Forward.Reply.{
  Replies, reply-Replies, StaleFor, StubsHaveServers, serve_dns_forward-Replies,
}
use go_dnsmasq.Server.Records.{ptr_records}
use go_dnsmasq.Server.Rotate.{round_robin}
use go_dnsmasq.Server.Serve.{
  Moment, requested, fresh_reply, chaos_reply, store_in_cache, host_records, is_reverse,
}
use go_dnsmasq.Server.Serve.Laws.{OrdersFair}
use go_dnsmasq.Server.Serve.Once.{rotated, fresh_reply-id, chaos_reply-id}
use go_dnsmasq.Server.Threads.{
  Prog, finish, panic, peek, count, drop, put, send, tally, forward, or_panic, hit_found_steps,
  hit_steps, fitted_steps, serve_cached_steps, finish_local_steps, keep_response_steps,
  serve_forwarded_steps, serve_dns_reverse_step, serve_uncached_steps, by_cache_steps,
  serve_dns_steps,
}
use go_dnsmasq.Server.World.{World, Env, M, cache_hit}

-- What is left of a goroutine writes one response to the request, or, for `none`, writes nothing. Its
-- insertions visit the keys of the map that they evict from.
unfoldable pub Debt : Prog → Option Msg → Type 0
Debt finish none = Unit {0}
Debt finish (some req) = ⊥
Debt panic o = ⊥
Debt (peek k go_on) o = (found : Option Elem) → Debt (go_on found) o
Debt (count valid k p) o = Debt p o
Debt (drop k p) o = Debt p o
Debt (put now k m p) o = OrdersFair now × Debt p o
Debt (send m p) none = ⊥
Debt (send m p) (some req) = (m.id ≡ req.id) × Debt p none
Debt (tally b c p) o = Debt p o
Debt (forward m go_on) none = ⊥
Debt (forward m go_on) (some req) =
    ((w : World) → Replies req m w) × ((r : Msg × Bool) → Debt (go_on r) none)

-- What is left writes one response to the request.
abbrev pub Owes : Msg → Prog → Type 0
Owes req p = Debt p (some req)

-- What is left writes nothing.
abbrev pub Rest : Prog → Type 0
Rest p = Debt p none

hit_found-Owes :
    (req : Msg) (e : Elem) (k : Bytes) (msgid : ℕ) (keep_stale return_stale : Bool) (now₁ now₂ : ℤ)
    (go_on : Option Msg → Prog)
    → Owes req (go_on none)
    → ((m : Msg) → m.id ≡ msgid → Owes req (go_on (some m)))
    → Owes req (hit_found_steps e k msgid keep_stale return_stale now₁ now₂ go_on)
unfolding Debt
hit_found-Owes req e k msgid keep_stale return_stale now₁ now₂ go_on n s =
    by (is_ahead now₁ e.expiration) (is_ahead now₁ e.expiration || return_stale)
      (is_past now₂ e.stale_expiration) keep_stale
  where
    by :
        (valid b past keep : Bool)
        → Owes req (elim b [
          | true ↦ count valid k (elim past [
            | true ↦ drop k (go_on (some (served e.msg msgid)))
            | false ↦ go_on (some (served e.msg msgid))
          ])
          | false ↦ elim keep [ true ↦ go_on none | false ↦ drop k (go_on none) ]
        ])
    by valid true true keep = s (served e.msg msgid) refl
    by valid true false keep = s (served e.msg msgid) refl
    by valid false past true = n
    by valid false past false = n

pub hit-Owes :
    (req : Msg) (k : Bytes) (msgid : ℕ) (keep_stale return_stale : Bool) (now₁ now₂ : ℤ)
    (go_on : Option Msg → Prog)
    → Owes req (go_on none)
    → ((m : Msg) → m.id ≡ msgid → Owes req (go_on (some m)))
    → Owes req (hit_steps k msgid keep_stale return_stale now₁ now₂ go_on)
unfolding Debt hit_steps
hit-Owes req k msgid keep_stale return_stale now₁ now₂ go_on n s = by_search
  where
    by_search :
        (o : Option Elem)
        → Owes req (elim o [
          | none ↦ go_on none
          | some e ↦ hit_found_steps e k msgid keep_stale return_stale now₁ now₂ go_on
        ])
    by_search none = n
    by_search (some e) = hit_found-Owes req e k msgid keep_stale return_stale now₁ now₂ go_on n s

pub or_panic-Owes :
    {A : Type 0} (req : Msg) (o : Option A) (a : A) (go_on : A → Prog)
    → o ≡ some a
    → Owes req (go_on a)
    → Owes req (or_panic o go_on)
or_panic-Owes req o a go_on e h = rw e h
