-- ===== src/Server/Forward.antt =====
-- server/forwarding.go: `forwardQuery`, `forwardSearch` and `ServeDNSForward`.
pub mod Query
pub mod Search
pub mod Reply
use mathlib.Core.Option
use go_dnsmasq.Base.{
  ℕ, Bool, true, false, not, ◌&&◌, ◌||◌, List, [], ◌∷◌, ◌++◌, Option, none, some, if◌then◌else◌,
  ◌==◌, is_some,
}
use go_dnsmasq.Base.Int.{ℤ, pos, ◌-ℤ◌, ltb_ℤ, leb_ℤ}
use go_dnsmasq.Base.Text.{Bytes, has_suffix, to_lower}
use go_dnsmasq.Base.Map.{Map}
use go_dnsmasq.Dns.{
  Question, Header, Rr, cname, Msg, DnsLib, empty_msg, rcode_success, rcode_server_failure,
  rcode_name_error, rcode_refused, type_cname, class_inet,
}
use go_dnsmasq.Server.Config.{Config, append_domain, is_nil}
use go_dnsmasq.Server.World.{
  World, Env, M, pure, ◌>>=◌, ◌>>◌, fault, get_world, write_msg, inc, inc_if, ask, forward_count,
  stub_forward_count, name_error_count, no_data_count, stale_cache_hit, request_fail,
}

-- A pair of a message and an error, as the lookups return: `nothing` is a nil message with a nil error.
pub data Lookup : Type 0 where
  nothing failed : Lookup
  got : Msg → Lookup

-- The servers for a name: those of the first zone visited that is a suffix of it, if there is one.
unfoldable pub pick_servers : Bytes → List Bytes → Map (List Bytes) → List Bytes × Bool
pick_servers name nameservers [] = (nameservers, false)
pick_servers name nameservers ((zone, srv) ∷ stub) =
    if has_suffix name zone then (srv, true) else pick_servers name nameservers stub

-- `req.Question[0]`; `none` is the fault on an empty list.
abbrev pub question0 : Msg → Option Question
question0 m = elim m.question [ [] ↦ none | q ∷ qs ↦ some q ]

-- `m.Question[0] = q`; `none` is the fault on a message with no question.
abbrev pub set_question0 : Msg → Question → Option Msg
set_question0 m q = elim m.question [ [] ↦ none | q' ∷ qs ↦ some (record m { question = q ∷ qs }) ]

-- A value that may be missing for a fault.
abbrev pub lift : {A : Type 0} → Option A → M A
lift none w = none
lift (some a) w = some (a, w)

-- The variables of the loop of `forwardSearch`. `last` is `r` and `err`, `nothing` before the first query.
pub record SearchState : Type 0 where
  pub last : Lookup
  pub nodata : Option Msg
  pub search_name : Bytes

-- `len(r.Answer) == 0 && !r.MsgHdr.Truncated`.
abbrev pub is_nodata : Msg → Bool
is_nodata r = is_nil r.answer && not r.truncated

-- Whether the loop goes on after the response `r`.
abbrev pub goes_on : Msg → Bool
goes_on r =
    if r.rcode == rcode_success
    then is_nodata r
    else r.rcode == rcode_name_error || r.rcode == rcode_server_failure

-- The loop's variables after the response `r`.
abbrev pub note_response : SearchState → Bytes → Msg → SearchState
note_response s name r = record {
  last = got r;
  nodata = if r.rcode == rcode_success && is_nodata r then some r else s.nodata;
  search_name = name;
}

-- The alias record put before the answers.
abbrev pub alias : Question → Bytes → Rr
alias q search_name = record {
  header = record { name = q.name; rrtype = type_cname; class = class_inet; ttl = 360 };
  rdata = cname search_name;
}

-- What `forwardSearch` makes of a response, before the question is restored.
abbrev pub with_alias : Question → SearchState → Msg → Msg
with_alias q s r =
    if r.rcode == rcode_success
    then (if is_nil r.answer then r else record r { answer = alias q s.search_name ∷ r.answer })
    else elim s.nodata [ none ↦ r | some n ↦ n ]

module _ (dns : DnsLib) (env : Env) (cfg : Config) (tcp : Bool) where
  -- The loop of `forwardQuery`; `r` is the outcome of the last exchange.
  unfoldable pub query_loop : Msg → List Bytes → Lookup → M Lookup
  query_loop req [] r = pure r
  query_loop req (server ∷ nservers) r = do
    answer ← ask env (record { tcp = tcp; server = server; msg = req })
    elim answer [
      | none ↦ query_loop req nservers failed
      | some m ↦ do
        inc_if (m.rcode == rcode_name_error) name_error_count
        elim (cfg.rcache_non_negative && not (m.rcode == rcode_success)) [
          | true ↦ query_loop req nservers (got m)
          | false ↦ pure (got m)
        ]
    ]

  -- `forwardQuery`, for a request with the name `name`.
  unfoldable pub forward_query : Bytes → Msg → M Lookup
  unfolding pick_servers query_loop
  forward_query name req = do
    w ← get_world
    let (nservers, matched) = pick_servers name cfg.nameservers (env.stub_order w.asked cfg.stub)
    inc_if matched stub_forward_count
    query_loop req nservers nothing

  -- The loop of `forwardSearch` over the search domains, for the request's question `q`.
  unfoldable pub search_loop : Question → Msg → List Bytes → SearchState → M SearchState
  unfolding append_domain
  search_loop q req [] s = pure s
  search_loop q req (domain ∷ domains) s = elim (has_suffix q.name domain) [
    | true ↦ search_loop q req domains s
    | false ↦ do
      let name = to_lower (append_domain dns q.name domain)
      copy ← lift (set_question0 req (record { name = name; qtype = q.qtype; qclass = q.qclass }))
      res ← forward_query name copy
      elim res [
        | nothing ↦ fault
        | failed ↦ pure (record s { last = failed; search_name = name })
        | got r ↦ do
          inc_if (r.rcode == rcode_name_error) name_error_count
          elim (goes_on r) [
            | true ↦ search_loop q req domains (note_response s name r)
            | false ↦ pure (note_response s name r)
          ]
      ]
  ]

  -- `forwardSearch` behind its loop.
  unfoldable pub search_result : Question → Msg → SearchState → Option Lookup
  search_result q req s = elim s.last [
    | nothing ↦ some (got (dns.set_rcode empty_msg req rcode_name_error))
    | got r ↦ Option.map got (set_question0 (with_alias q s r) q)
    | failed ↦ elim s.nodata [ none ↦ some failed | some n ↦ Option.map got (set_question0 n q) ]
  ]

  -- `forwardSearch`.
  unfoldable pub forward_search : Question → Msg → M Lookup
  unfolding search_loop search_result
  forward_search q req = do
    s ←
        search_loop q req cfg.search_domains
          (record { last = nothing; nodata = none; search_name = [] })
    lift (search_result q req s)

-- Where a lookup of `ServeDNSForward` stands: not made, failed, or answered.
pub data Attempt : Type 0 where
  untried errored : Attempt
  answered : Msg → Attempt

-- Reading the response code of a nil message faults.
abbrev pub to_attempt : Lookup → M Attempt
to_attempt nothing = fault
to_attempt failed = pure errored
to_attempt (got m) = pure (answered m)

-- The answer, if its response code is NOERROR.
abbrev pub positive : Attempt → Option Msg
positive untried = none
positive errored = none
positive (answered m) = if m.rcode == rcode_success then some m else none

abbrev pub is_errored : Attempt → Bool
is_errored errored = true
is_errored _ = false

abbrev pub is_untried : Attempt → Bool
is_untried untried = true
is_untried _ = false

-- `res.Compress = true` and `res.Id = req.Id`.
abbrev pub addressed : Msg → Msg → Msg
addressed req m = record m { compress = true; id = req.id }

-- The last steps of each way to answer: the stale response, if there is one, is served instead.
unfoldable pub answer_or_stale : Option Msg → Msg → Bool → M (Msg × Bool)
answer_or_stale none m is_no_data = do
  inc request_fail
  inc_if is_no_data no_data_count
  write_msg m
  pure (m, false)
answer_or_stale (some stale) m is_no_data = do
  inc stale_cache_hit
  inc_if is_no_data no_data_count
  write_msg stale
  pure (stale, true)

-- `writeMsg(w, m)` and the return.
unfoldable pub reply : Msg → M (Msg × Bool)
reply m = do write_msg m; pure (m, false)

module _ (dns : DnsLib) (env : Env) (cfg : Config) (tcp : Bool) where
  -- `nameDots`.
  abbrev pub name_dots : Question → ℤ
  name_dots q = pos (dns.count_label q.name) -ℤ pos 1

  abbrev pub search_enabled : Bool
  search_enabled = cfg.enable_search && not (is_nil cfg.search_domains)

  -- The switch that sets `refuse`.
  abbrev pub refuses : Question → Bool
  refuses q =
      cfg.no_rec
      || (is_nil cfg.nameservers || (ltb_ℤ (name_dots q) cfg.fwd_ndots && not cfg.enable_search))

  -- An absolute lookup, if the name has dots enough to be forwarded.
  unfoldable pub absolute : Question → Msg → M Attempt
  absolute q req = elim (leb_ℤ cfg.fwd_ndots (name_dots q)) [
    | true ↦ forward_query dns env cfg tcp q.name req >>= to_attempt
    | false ↦ pure untried
  ]

  -- The initial absolute lookup.
  unfoldable pub initial_lookup : Question → Msg → M Attempt
  unfolding absolute
  initial_lookup q req = elim (leb_ℤ cfg.ndots (name_dots q)) [
    | true ↦ absolute q req
    | false ↦ pure untried
  ]

  -- The search lookup, unless the initial lookup failed.
  unfoldable pub search_lookup : Question → Msg → Attempt → M Attempt
  search_lookup q req a = elim (not (is_errored a) && search_enabled) [
    | true ↦ forward_search dns env cfg tcp q req >>= to_attempt
    | false ↦ pure untried
  ]

  -- The second chance for an absolute lookup: the attempt `a`, or a new one.
  unfoldable pub late_lookup : Question → Msg → Attempt → Attempt → M Attempt
  unfolding absolute
  late_lookup q req a s = elim (not (is_errored s) && is_untried a) [
    | true ↦ absolute q req
    | false ↦ pure a
  ]

  -- The end of `ServeDNSForward`, behind the lookups `a` and `s`.
  unfoldable pub conclude : Msg → Option Msg → Attempt → Attempt → M (Msg × Bool)
  unfolding answer_or_stale
  conclude req stale (answered m) s = answer_or_stale stale (addressed req m) false
  conclude req stale untried (answered m) =
      answer_or_stale stale (dns.set_rcode empty_msg req m.rcode) true
  conclude req stale errored (answered m) =
      answer_or_stale stale (dns.set_rcode empty_msg req m.rcode) true
  conclude req stale untried s =
      answer_or_stale stale (dns.set_rcode empty_msg req rcode_server_failure) false
  conclude req stale errored s =
      answer_or_stale stale (dns.set_rcode empty_msg req rcode_server_failure) false

  -- `ServeDNSForward` behind its refusals.
  unfoldable pub resolve : Question → Msg → Option Msg → M (Msg × Bool)
  unfolding initial_lookup search_lookup late_lookup conclude reply
  resolve q req stale = do
    a ← initial_lookup q req
    elim (positive a) [
      | some m ↦ reply (addressed req m)
      | none ↦ do
        s ← search_lookup q req a
        elim (positive s) [
          | some m ↦ reply (addressed req m)
          | none ↦ do
            a' ← late_lookup q req a s
            elim (positive a') [ some m ↦ reply (addressed req m) | none ↦ conclude req stale a' s ]
        ]
    ]

  -- `ServeDNSForward`: the message written, and whether it is a stale one.
  unfoldable pub serve_dns_forward : Msg → Option Msg → M (Msg × Bool)
  unfolding resolve reply
  serve_dns_forward req stale = do
    q ← lift (question0 req)
    elim (refuses q) [
      | true ↦ reply (dns.set_rcode empty_msg req rcode_refused)
      | false ↦ do inc forward_count; resolve q req stale
    ]
