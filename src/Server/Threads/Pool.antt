-- ===== src/Server/Threads/Pool.antt =====
-- server/server.go: goroutines that handle requests and share the cache, in any interleaving of their steps.
pub mod Turns
pub mod Schedule
pub mod Serves
use go_dnsmasq.Base.{ℕ, zero, suc, Bool, List, [], ◌∷◌, Option, none, some}
use go_dnsmasq.Base.Text.{Bytes}
use go_dnsmasq.Cache.{Cache}
use go_dnsmasq.Dns.{DnsLib, Msg}
use go_dnsmasq.Server.Config.{Config}
use go_dnsmasq.Server.Serve.{Moment}
use go_dnsmasq.Server.Threads.{Prog, step, serve_dns_steps}
use go_dnsmasq.Server.World.{World, Env}

-- A request, and what its goroutine meets: the others' answers, its readings of the clock, and the transport.
pub record Arrival : Type 0 where
  pub env : Env
  pub now : Moment
  pub tcp : Bool
  pub request : Msg

-- A goroutine: its request, what is left of it, and what it has written, counted and asked. The cache of its
-- world is the one that its last step left.
pub record Thread : Type 0 where
  pub request : Msg
  pub prog : Prog
  pub own : World

-- The package `dns` starts a goroutine with `ServeDNS` for each request.
unfoldable pub spawn : DnsLib → Config → Bytes → Cache → Arrival → Thread
spawn dns cfg version c a = record {
  request = a.request;
  prog = serve_dns_steps dns a.env cfg version a.now a.tcp a.request;
  own = record { cache = c; written = []; counted = []; asked = [] };
}

-- The goroutine with this number takes a step, on the cache that all share; `none` is a panic, which ends the
-- program.
unfoldable pub step_at : ℕ → List Thread → Cache → Option (List Thread × Cache)
step_at i [] c = some ([], c)
step_at zero (t ∷ ts) c = elim (step t.prog (record t.own { cache = c })) [
  | none ↦ none
  | some (p, w) ↦ some (record { request = t.request; prog = p; own = w } ∷ ts, w.cache)
]
step_at (suc i) (t ∷ ts) c = elim (step_at i ts c) [
  | none ↦ none
  | some (ts', c') ↦ some (t ∷ ts', c')
]

-- Steps in this order of the goroutines.
unfoldable pub interleave : List ℕ → List Thread → Cache → Option (List Thread × Cache)
unfolding step_at
interleave [] ts c = some (ts, c)
interleave (i ∷ is) ts c = elim (step_at i ts c) [
  | none ↦ none
  | some (ts', c') ↦ interleave is ts' c'
]
