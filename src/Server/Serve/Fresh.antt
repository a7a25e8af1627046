-- ===== src/Server/Serve/Fresh.antt =====
-- server/forwarding.go: with no stale response at hand `ServeDNSForward` answers with none.
use go_dnsmasq.Base.{◌≡◌, Bool, true, false, Option, none, some, arith}
use go_dnsmasq.Dns.{DnsLib, Question, Msg, empty_msg, rcode_refused}
use go_dnsmasq.Server.Config.{Config}
use go_dnsmasq.Server.Forward.{
  Attempt, untried, errored, answered, positive, question0, lift, reply, addressed, answer_or_stale,
  conclude, resolve, serve_dns_forward, refuses, initial_lookup, search_lookup, late_lookup,
}
use go_dnsmasq.Server.World.{World, Env, M, ◌>>=◌, ◌>>◌, inc, forward_count}

-- The computation returns no stale response.
abbrev pub NotStale : M (Msg × Bool) → Type 0
NotStale m = (w : World) (r : Msg × Bool) (w' : World) → m w ≡ some (r, w') → r.1 ≡ false

bind-NotStale :
    {A : Type 0} (m : M A) (f : A → M (Msg × Bool))
    → ((a : A) → NotStale (f a))
    → NotStale (m >>= f)
bind-NotStale {A} m f h w r w' e = by (m w) e
  where
    by :
        (o : Option (A × World))
        → elim o as (λ _. Option ((Msg × Bool) × World)) [ none ↦ none | some (a, v) ↦ f a v ]
          ≡ some (r, w')
        → r.1 ≡ false
    by none e = absurd (cc)
    by (some (a, v)) e = h a v r w' e

reply-NotStale : (m : Msg) → NotStale (reply m)
unfolding reply
reply-NotStale m w r w' e = ground (arith, e)

answer_or_stale-NotStale : (m : Msg) (b : Bool) → NotStale (answer_or_stale none m b)
unfolding answer_or_stale
answer_or_stale-NotStale m b w r w' e = ground (arith, e)

module _ (dns : DnsLib) (env : Env) (cfg : Config) (tcp : Bool) where
  conclude-NotStale : (req : Msg) (a s : Attempt) → NotStale (conclude dns env cfg tcp req none a s)
  unfolding conclude
  conclude-NotStale req (answered m) s = answer_or_stale-NotStale _ false
  conclude-NotStale req untried (answered m) = answer_or_stale-NotStale _ true
  conclude-NotStale req errored (answered m) = answer_or_stale-NotStale _ true
  conclude-NotStale req untried untried = answer_or_stale-NotStale _ false
  conclude-NotStale req untried errored = answer_or_stale-NotStale _ false
  conclude-NotStale req errored untried = answer_or_stale-NotStale _ false
  conclude-NotStale req errored errored = answer_or_stale-NotStale _ false

  -- A positive answer, or what is done without one.
  by_positive-NotStale :
      (req : Msg) (o : Option Msg) (m : M (Msg × Bool))
      → NotStale m
      → NotStale (elim o [ some r ↦ reply (addressed req r) | none ↦ m ])
  by_positive-NotStale req none m h = h
  by_positive-NotStale req (some r) m h = reply-NotStale _

  resolve-NotStale : (q : Question) (req : Msg) → NotStale (resolve dns env cfg tcp q req none)
  unfolding resolve
  resolve-NotStale q req = bind-NotStale (initial_lookup dns env cfg tcp q req) _ (λ a.
      by_positive-NotStale req (positive a) _ (
        bind-NotStale (search_lookup dns env cfg tcp q req a) _ (λ s.
          by_positive-NotStale req (positive s) _ (
            bind-NotStale (late_lookup dns env cfg tcp q req a s) _
              (λ a'. by_positive-NotStale req (positive a') _ (conclude-NotStale req a' s))))))

  -- With no stale response at hand, none is answered.
  pub serve_dns_forward-NotStale :
      (req : Msg) → NotStale (serve_dns_forward dns env cfg tcp req none)
  unfolding serve_dns_forward
  serve_dns_forward-NotStale req =
      bind-NotStale (lift (question0 req)) _ (λ q. by q (refuses dns env cfg tcp q))
    where
      by :
          (q : Question) (b : Bool)
          → NotStale (elim b [
            | true ↦ reply (dns.set_rcode empty_msg req rcode_refused)
            | false ↦ do inc forward_count; resolve dns env cfg tcp q req none
          ])
      by q true = reply-NotStale _
      by q false = bind-NotStale (inc forward_count) _ (λ _. resolve-NotStale q req)
