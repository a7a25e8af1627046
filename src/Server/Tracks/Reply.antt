-- ===== src/Server/Tracks/Reply.antt =====
-- server/forwarding.go: the reply of a forwarded request keeps every relation that its steps keep.
use go_dnsmasq.Base.{
  ◌≡◌, refl, inl, inr, Bool, true, false, not, ◌&&◌, Option, none, some, Bool-cases,
}
use go_dnsmasq.Base.Int.{leb_ℤ}
use go_dnsmasq.Dns.{DnsLib, Question, Msg, empty_msg, rcode_refused}
use go_dnsmasq.Server.Config.{Config}
use go_dnsmasq.Server.Forward.{
  Lookup, nothing, failed, got, Attempt, untried, errored, answered, question0, forward_query,
  forward_search, to_attempt, positive, is_errored, is_untried, addressed, answer_or_stale, reply,
  name_dots, search_enabled, refuses, absolute, initial_lookup, search_lookup, late_lookup,
  conclude, resolve, serve_dns_forward,
}
use go_dnsmasq.Server.Tracks.{
  Tracks, Moves, Moves-bind, Moves-then, Moves-with, Moves-pure, Moves-fault, Moves-inc,
  Moves-inc_if, Moves-write_msg,
}
use go_dnsmasq.Server.World.{
  World, Env, M, pure, ◌>>◌, write_msg, inc, inc_if, forward_count, request_fail, no_data_count,
  stale_cache_hit,
}
use go_dnsmasq.Server.Tracks.Forward.{VisitsAll, forward_query-Moves, forward_search-Moves}

module _ (dns : DnsLib) (env : Env) (visits : VisitsAll env) {cfg : Config} {tcp : Bool}
    (R : World → World → Type 0) (t : Tracks cfg tcp R) where
  to_attempt-Moves : (r : Lookup) (w : World) → Moves R (to_attempt r) w
  to_attempt-Moves nothing w = Moves-fault R t w
  to_attempt-Moves failed w = Moves-pure R t _ w
  to_attempt-Moves (got m) w = Moves-pure R t _ w

  pub reply-Moves : (m : Msg) (w : World) → Moves R (reply m) w
  unfolding reply
  reply-Moves m w =
      Moves-then R t (write_msg m) (pure (m, false)) w (Moves-write_msg R t m w)
        (λ w₁. Moves-pure R t (m, false) w₁)

  -- The end of an answer: the counting of a response with no data, the writing and the return.
  written-Moves :
      (m : Msg) (is_no_data stale : Bool) (w : World)
      → Moves {A = Msg × Bool} R
          (do inc_if is_no_data no_data_count; write_msg m; pure (m, stale))
          w
  written-Moves m is_no_data stale w =
      Moves-then R t (inc_if is_no_data no_data_count) (do write_msg m; pure (m, stale)) w
        (Moves-inc_if R t is_no_data no_data_count w refl)
        (λ w₁.
          Moves-then R t (write_msg m) (pure (m, stale)) w₁ (Moves-write_msg R t m w₁)
            (λ w₂. Moves-pure R t (m, stale) w₂))

  answer_or_stale-Moves :
      (stale : Option Msg) (m : Msg) (is_no_data : Bool) (w : World)
      → Moves R (answer_or_stale stale m is_no_data) w
  unfolding answer_or_stale
  answer_or_stale-Moves none m is_no_data w =
      Moves-then R t (inc request_fail) _ w (Moves-inc R t request_fail w refl)
        (λ w₁. written-Moves m is_no_data false w₁)
  answer_or_stale-Moves (some stale) m is_no_data w =
      Moves-then R t (inc stale_cache_hit) _ w (Moves-inc R t stale_cache_hit w refl)
        (λ w₁. written-Moves stale is_no_data true w₁)

  conclude-Moves :
      (req : Msg) (stale : Option Msg) (a s : Attempt) (w : World)
      → Moves R (conclude dns env cfg tcp req stale a s) w
  unfolding conclude
  conclude-Moves req stale (answered m) s w = answer_or_stale-Moves stale _ false w
  conclude-Moves req stale untried (answered m) w = answer_or_stale-Moves stale _ true w
  conclude-Moves req stale errored (answered m) w = answer_or_stale-Moves stale _ true w
  conclude-Moves req stale untried untried w = answer_or_stale-Moves stale _ false w
  conclude-Moves req stale untried errored w = answer_or_stale-Moves stale _ false w
  conclude-Moves req stale errored untried w = answer_or_stale-Moves stale _ false w
  conclude-Moves req stale errored errored w = answer_or_stale-Moves stale _ false w

  module _ (q : Question) (req : Msg) (e : question0 req ≡ some q) where
    absolute-Moves : (w : World) → Moves R (absolute dns env cfg tcp q req) w
    unfolding absolute
    absolute-Moves w = elim (Bool-cases (leb_ℤ cfg.fwd_ndots (name_dots dns env cfg tcp q))) [
      | inl long ↦
          rw (long, absolute)
            (Moves-bind R t (forward_query dns env cfg tcp q.name req) to_attempt w
              (forward_query-Moves dns env visits R t req q w e) (λ r w₁. to_attempt-Moves r w₁))
      | inr short ↦ rw (short, absolute) (Moves-pure R t _ w)
    ]

    initial_lookup-Moves : (w : World) → Moves R (initial_lookup dns env cfg tcp q req) w
    unfolding initial_lookup
    initial_lookup-Moves w = elim (Bool-cases (leb_ℤ cfg.ndots (name_dots dns env cfg tcp q))) [
      | inl long ↦ rw (long, initial_lookup) (absolute-Moves w)
      | inr short ↦ rw (short, initial_lookup) (Moves-pure R t _ w)
    ]

    search_lookup-Moves :
        (a : Attempt) (w : World) → Moves R (search_lookup dns env cfg tcp q req a) w
    unfolding search_lookup
    search_lookup-Moves a w =
        elim (Bool-cases (not (is_errored a) && search_enabled dns env cfg tcp)) [
          | inl on ↦
              rw (on, search_lookup)
                (Moves-bind R t (forward_search dns env cfg tcp q req) to_attempt w
                  (forward_search-Moves dns env visits R t q req w) (λ r w₁. to_attempt-Moves r w₁))
          | inr off ↦ rw (off, search_lookup) (Moves-pure R t _ w)
        ]

    late_lookup-Moves :
        (a s : Attempt) (w : World) → Moves R (late_lookup dns env cfg tcp q req a s) w
    unfolding late_lookup
    late_lookup-Moves a s w = elim (Bool-cases (not (is_errored s) && is_untried a)) [
      | inl on ↦ rw (on, late_lookup) (absolute-Moves w)
      | inr off ↦ rw (off, late_lookup) (Moves-pure R t _ w)
    ]

    -- A stage that answers with a positive response, or goes on.
    stage-Moves :
        (o : Option Msg) (go_on : M (Msg × Bool)) (w : World)
        → Moves R go_on w
        → Moves R (elim o [ some m ↦ reply (addressed req m) | none ↦ go_on ]) w
    stage-Moves none go_on w k = k
    stage-Moves (some m) go_on w k = reply-Moves (addressed req m) w

    resolve-Moves :
        (stale : Option Msg) (w : World) → Moves R (resolve dns env cfg tcp q req stale) w
    unfolding resolve
    resolve-Moves stale w =
        Moves-bind R t (initial_lookup dns env cfg tcp q req) _ w (initial_lookup-Moves w) (λ a w₁.
          stage-Moves (positive a) _ w₁ (
            Moves-bind R t (search_lookup dns env cfg tcp q req a) _ w₁ (search_lookup-Moves a w₁)
              (λ s w₂. stage-Moves (positive s) _ w₂ (
                Moves-bind R t (late_lookup dns env cfg tcp q req a s) _ w₂
                  (late_lookup-Moves a s w₂)
                  (λ a' w₃. stage-Moves (positive a') _ w₃ (conclude-Moves req stale a' s w₃))))))

  -- Forwarding keeps the relation.
  pub serve_dns_forward-Moves :
      (req : Msg) (stale : Option Msg) (w : World)
      → Moves R (serve_dns_forward dns env cfg tcp req stale) w
  unfolding serve_dns_forward
  serve_dns_forward-Moves req stale w = Moves-with R t (question0 req) _ w (λ q e.
      elim (Bool-cases (refuses dns env cfg tcp q)) [
        | inl refused ↦ rw refused (reply-Moves (dns.set_rcode empty_msg req rcode_refused) w)
        | inr taken ↦ rw taken (
            Moves-then R t (inc forward_count) (resolve dns env cfg tcp q req stale) w
              (Moves-inc R t forward_count w refl) (λ w₁. resolve-Moves q req e stale w₁))
      ])
