-- ===== src/Server/Forward/Reply.antt =====
-- server/forwarding.go: `ServeDNSForward` answers every request once.
use go_dnsmasq.Base.{
  ◌≡◌, refl, ap, ◌∙◌, inl, inr, Bool, true, false, not, ◌&&◌, List, [], ◌∷◌, ◌++◌, Option, none,
  some, arith, Bool-cases, Occurs,
}
use go_dnsmasq.Base.Int.{leb_ℤ}
use go_dnsmasq.Base.Text.{Bytes}
use go_dnsmasq.Dns.{
  DnsLib, RepliesWell, Msg, Question, empty_msg, rcode_server_failure, rcode_refused,
}
use go_dnsmasq.Server.Config.{Config, is_nil}
use go_dnsmasq.Server.World.{World, Env, M, ◌>>=◌, ◌>>◌, inc, forward_count}
use go_dnsmasq.Server.Forward.{
  Lookup, nothing, failed, got, Attempt, untried, errored, answered, to_attempt, positive,
  is_errored, is_untried, addressed, answer_or_stale, reply, question0, lift, name_dots,
  search_enabled, refuses, absolute, initial_lookup, search_lookup, late_lookup, conclude, resolve,
  serve_dns_forward,
}
use go_dnsmasq.Server.Forward.Query.{
  IsFair, HasServers, IsLookup, Ends, Ends-pure, Ends-bind, forward_query-Ends,
}
use go_dnsmasq.Server.Forward.Search.{IsAnswered, Ends-lift, cons_of_some, forward_search-Ends}

-- The computation returns a message, after writing that message and nothing else to the client; it has the
-- id of the request, and the cache is as it was.
pub record Replies (req : Msg) (m : M (Msg × Bool)) (w : World) : Type 0 where
  pub result : Msg × Bool
  pub after : World
  pub runs : m w ≡ some (result, after)
  pub written : after.written ≡ w.written ++ result.0 ∷ []
  pub cache : after.cache ≡ w.cache
  pub same_id : result.0.id ≡ req.id

pub Replies-bind :
    {A : Type 0} (P : A → Type 0) (req : Msg) (m : M A) (f : A → M (Msg × Bool)) (w : World)
    → Ends P m w
    → ((a : A) (w' : World) → P a → Replies req (f a) w')
    → Replies req (m >>= f) w
Replies-bind P req m f w e k =
    let r = k e.result e.after e.holds in
    record {
      result = r.result;
      after = r.after;
      runs = rw (e.runs, ◌>>=◌) r.runs;
      written = r.written ∙ ap (λ (l : List Msg). l ++ r.result.0 ∷ []) e.quiet.written;
      cache = r.cache ∙ e.quiet.cache;
      same_id = r.same_id;
    }

pub reply-Replies : (req m : Msg) (w : World) → m.id ≡ req.id → Replies req (reply m) w
unfolding reply
reply-Replies req m w e = record {
  result = (m, false);
  after = _;
  runs = refl;
  written = refl;
  cache = refl;
  same_id = e;
}

-- A stale response, if there is one, has the id of the request.
abbrev pub StaleFor : Msg → Option Msg → Type 0
StaleFor req none = Unit {0}
StaleFor req (some m) = m.id ≡ req.id

answer_or_stale-Replies :
    (req : Msg) (stale : Option Msg) (m : Msg) (b : Bool) (w : World)
    → StaleFor req stale
    → m.id ≡ req.id
    → Replies req (answer_or_stale stale m b) w
unfolding answer_or_stale
answer_or_stale-Replies req none m b w s e = record {
  result = (m, false);
  after = _;
  runs = refl;
  written = ground arith;
  cache = ground arith;
  same_id = e;
}
answer_or_stale-Replies req (some stale) m b w s e = record {
  result = (stale, true);
  after = _;
  runs = refl;
  written = ground arith;
  cache = ground arith;
  same_id = s;
}

Any : Attempt → Type 0
Any a = Unit {0}

module _ (dns : DnsLib) (env : Env) (cfg : Config) (tcp : Bool) (fair : IsFair env)
    (has : HasServers cfg) (q : Question) (req : Msg) (asks : is_nil req.question ≡ false) where
  attempt_of_lookup : (l : Lookup) (w : World) → IsAnswered l → Ends Any (to_attempt l) w
  unfolding Any
  attempt_of_lookup nothing w ok = absurd ok
  attempt_of_lookup failed w ok = Ends-pure Any errored w tt
  attempt_of_lookup (got m) w ok = Ends-pure Any (answered m) w tt

  IsAnswered-of_lookup : (l : Lookup) → IsLookup l → IsAnswered l
  IsAnswered-of_lookup nothing ok = ok
  IsAnswered-of_lookup failed ok = ok
  IsAnswered-of_lookup (got m) ok = tt

  absolute-Ends : (w : World) → Ends Any (absolute dns env cfg tcp q req) w
  unfolding absolute Any
  absolute-Ends w = elim (Bool-cases (leb_ℤ cfg.fwd_ndots (name_dots dns env cfg tcp q))) [
    | inl yes_ ↦
        rw (yes_, absolute)
          (Ends-bind IsLookup Any _ _ w (forward_query-Ends dns env cfg tcp fair has q.name req w)
            (λ l w₁ ok. attempt_of_lookup l w₁ (IsAnswered-of_lookup l ok)))
    | inr no_ ↦ rw (no_, absolute) (Ends-pure Any untried w tt)
  ]

  initial-Ends : (w : World) → Ends Any (initial_lookup dns env cfg tcp q req) w
  unfolding initial_lookup Any
  initial-Ends w = elim (Bool-cases (leb_ℤ cfg.ndots (name_dots dns env cfg tcp q))) [
    | inl yes_ ↦ rw (yes_, initial_lookup) (absolute-Ends w)
    | inr no_ ↦ rw (no_, initial_lookup) (Ends-pure Any untried w tt)
  ]

  search-Ends : (a : Attempt) (w : World) → Ends Any (search_lookup dns env cfg tcp q req a) w
  unfolding search_lookup Any
  search-Ends a w = elim (Bool-cases (not (is_errored a) && search_enabled dns env cfg tcp)) [
    | inl yes_ ↦
        rw (yes_, search_lookup)
          (Ends-bind IsAnswered Any _ _ w
            (forward_search-Ends dns env cfg tcp fair has q req asks w) attempt_of_lookup)
    | inr no_ ↦ rw (no_, search_lookup) (Ends-pure Any untried w tt)
  ]

  late-Ends : (a s : Attempt) (w : World) → Ends Any (late_lookup dns env cfg tcp q req a s) w
  unfolding late_lookup Any
  late-Ends a s w = elim (Bool-cases (not (is_errored s) && is_untried a)) [
    | inl yes_ ↦ rw (yes_, late_lookup) (absolute-Ends w)
    | inr no_ ↦ rw (no_, late_lookup) (Ends-pure Any a w tt)
  ]

  module _ (well : RepliesWell dns) (stale : Option Msg) (for_req : StaleFor req stale) where
    conclude-Replies :
        (a s : Attempt) (w : World) → Replies req (conclude dns env cfg tcp req stale a s) w
    unfolding conclude
    conclude-Replies (answered m) s w = answer_or_stale-Replies req stale _ false w for_req refl
    conclude-Replies untried (answered m) w =
        answer_or_stale-Replies req stale _ true w for_req (well.set_rcode_id empty_msg req m.rcode)
    conclude-Replies errored (answered m) w =
        answer_or_stale-Replies req stale _ true w for_req (well.set_rcode_id empty_msg req m.rcode)
    conclude-Replies untried untried w =
        answer_or_stale-Replies req stale _ false w for_req
          (well.set_rcode_id empty_msg req rcode_server_failure)
    conclude-Replies untried errored w =
        answer_or_stale-Replies req stale _ false w for_req
          (well.set_rcode_id empty_msg req rcode_server_failure)
    conclude-Replies errored untried w =
        answer_or_stale-Replies req stale _ false w for_req
          (well.set_rcode_id empty_msg req rcode_server_failure)
    conclude-Replies errored errored w =
        answer_or_stale-Replies req stale _ false w for_req
          (well.set_rcode_id empty_msg req rcode_server_failure)

    -- The shape of each stage of `ServeDNSForward`: a positive answer is returned, anything else goes on.
    stage-Replies :
        (o : Option Msg) (k : M (Msg × Bool)) (w : World)
        → Replies req k w
        → Replies req (elim o [ some m ↦ reply (addressed req m) | none ↦ k ]) w
    stage-Replies none k w r = r
    stage-Replies (some m) k w r = reply-Replies req (addressed req m) w refl

    resolve-Replies : (w : World) → Replies req (resolve dns env cfg tcp q req stale) w
    unfolding resolve
    resolve-Replies w = Replies-bind Any req _ _ w (initial-Ends w) (λ a w₁ _.
        stage-Replies (positive a) _ w₁ (
          Replies-bind Any req _ _ w₁ (search-Ends a w₁) (λ s w₂ _.
            stage-Replies (positive s) _ w₂ (
              Replies-bind Any req _ _ w₂ (late-Ends a s w₂)
                (λ a' w₃ _. stage-Replies (positive a') _ w₃ (conclude-Replies a' s w₃))))))

-- Every stub zone has a server.
abbrev pub StubsHaveServers : Config → Type 0
StubsHaveServers cfg = (z : Bytes × List Bytes) → Occurs z cfg.stub → is_nil z.1 ≡ false

module _ (dns : DnsLib) (env : Env) (cfg : Config) (tcp : Bool) where
  with_question :
      RepliesWell dns
      → IsFair env
      → StubsHaveServers cfg
      → (q : Question) (req : Msg) (stale : Option Msg) (w : World) → is_nil req.question ≡ false
      → StaleFor req stale
      → Replies req
          (elim (refuses dns env cfg tcp q) [
            | true ↦ reply (dns.set_rcode empty_msg req rcode_refused)
            | false ↦ do inc forward_count; resolve dns env cfg tcp q req stale
          ])
          w
  with_question well fair stubs q req stale w asks for_req =
      elim (Bool-cases (refuses dns env cfg tcp q)) [
        | inl yes_ ↦ rw yes_ (reply-Replies req _ w (well.set_rcode_id empty_msg req rcode_refused))
        | inr no_ ↦
            let has : HasServers cfg = record { default = ground arith; stubs = stubs } in
            rw no_ (
              Replies-bind (λ _. Unit {0}) req (inc forward_count) _ w
                (record {
                  result = tt;
                  after = record w { counted = w.counted ++ forward_count ∷ [] };
                  runs = refl;
                  quiet = record { written = refl; cache = refl };
                  holds = tt;
                })
                (λ _ w₁ _.
                  resolve-Replies dns env cfg tcp fair has q req asks well stale for_req w₁))
      ]

  -- With a DNS library that builds replies as documented, upstream responses that carry a question,
  -- a server for every stub zone, and a stale response, if there is one, with the request's id:
  -- `ServeDNSForward` returns for every request that has a question, after writing exactly one
  -- message to the client. The message is the one that it returns, has the request's id, and the
  -- cache is left as it was.
  pub serve_dns_forward-Replies :
      RepliesWell dns
      → IsFair env
      → StubsHaveServers cfg
      → (req : Msg) (stale : Option Msg) (w : World) → is_nil req.question ≡ false
      → StaleFor req stale
      → Replies req (serve_dns_forward dns env cfg tcp req stale) w
  unfolding serve_dns_forward
  serve_dns_forward-Replies well fair stubs req stale w asks for_req =
      let (q, qs, e) = cons_of_some req.question asks in
      Replies-bind (λ _. Unit {0}) req (lift (question0 req)) _ w
        (Ends-lift (λ _. Unit {0}) (question0 req) q w (ground (arith, e)) tt)
        (λ q' w₁ _. with_question well fair stubs q' req stale w₁ asks for_req)
