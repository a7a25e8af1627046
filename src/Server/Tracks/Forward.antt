-- ===== src/Server/Tracks/Forward.antt =====
-- server/forwarding.go: forwarding keeps every relation that its steps keep.
use go_dnsmasq.Base.{
  ◌≡◌, refl, ap, subst, ◌⊎◌, inl, inr, Bool, true, false, not, ◌&&◌, List, [], ◌∷◌, Option, none,
  some, arith, ◌==◌, Bool-cases, Occurs,
}
use go_dnsmasq.Base.Text.{Bytes, has_suffix, to_lower}
use go_dnsmasq.Base.Map.{Map}
use go_dnsmasq.Dns.{DnsLib, Question, Msg, rcode_success, rcode_name_error}
use go_dnsmasq.Server.Config.{Config, append_domain}
use go_dnsmasq.Server.Forward.{
  Lookup, nothing, failed, got, SearchState, pick_servers, question0, set_question0, goes_on,
  note_response, query_loop, forward_query, search_loop, search_result, forward_search,
}
use go_dnsmasq.Server.Tracks.{
  MayAsk, of_zone, of_default, Tracks, Moves, Moves-bind, Moves-then, Moves-choice, Moves-lift,
  Moves-with, Moves-pure, Moves-fault, Moves-inc_if, Moves-ask,
}
use go_dnsmasq.Server.World.{
  World, Query, Env, pure, fault, ◌>>◌, get_world, inc_if, ask, name_error_count,
  stub_forward_count,
}

-- A `range` over the stub zones visits the entries of the map, and all of them.
pub record VisitsAll (env : Env) : Type 0 where
  pub some_ :
      (asked : List Query) (m : Map (List Bytes)) (z : Bytes × List Bytes)
      → Occurs z (env.stub_order asked m)
      → Occurs z m
  pub all_ :
      (asked : List Query) (m : Map (List Bytes)) (z : Bytes × List Bytes)
      → Occurs z m
      → Occurs z (env.stub_order asked m)

-- The servers picked are those of a zone that the name ends in, or the nameservers if it ends in none.
pub pick_servers-picks :
    (name : Bytes) (nameservers : List Bytes) (stub : Map (List Bytes))
    → ((z : Bytes × List Bytes) × Occurs z stub
        × (has_suffix name z.0 ≡ true)
        × ((pick_servers name nameservers stub).0 ≡ z.1))
      ⊎ (((pick_servers name nameservers stub).0 ≡ nameservers)
          × ((z : Bytes × List Bytes) → Occurs z stub → has_suffix name z.0 ≡ false))
unfolding pick_servers
pick_servers-picks name nameservers [] = inr (refl, λ z o. absurd o)
pick_servers-picks name nameservers ((zone, srv) ∷ stub) =
    elim (Bool-cases (has_suffix name zone)) [
      | inl here ↦ inl ((zone, srv), inl refl, here, rw here refl)
      | inr there ↦ elim (pick_servers-picks name nameservers stub) [
        | inl (z, o, e, s) ↦ inl (z, inr o, e, rw there s)
        | inr (s, none_) ↦ inr (
          rw there s,
          λ z o. elim o [
            | inl e ↦ rw (ap (λ (z : Bytes × List Bytes). z.0) e) there
            | inr o' ↦ none_ z o'
          ],
        )
      ]
    ]

module _ (dns : DnsLib) (env : Env) (visits : VisitsAll env) {cfg : Config} {tcp : Bool}
    (R : World → World → Type 0) (t : Tracks cfg tcp R) where
  after_ask :
      (req : Msg) (servers : List Bytes) (answer : Option Msg) (w : World)
      → ((r : Lookup) (w : World) → Moves R (query_loop dns env cfg tcp req servers r) w)
      → Moves R
          (elim answer [
            | none ↦ query_loop dns env cfg tcp req servers failed
            | some m ↦ do
              inc_if (m.rcode == rcode_name_error) name_error_count
              elim (cfg.rcache_non_negative && not (m.rcode == rcode_success)) [
                | true ↦ query_loop dns env cfg tcp req servers (got m)
                | false ↦ pure (got m)
              ]
          ])
          w
  after_ask req servers none w later = later failed w
  after_ask req servers (some m) w later =
      let next = query_loop dns env cfg tcp req servers (got m) in
      let again = cfg.rcache_non_negative && not (m.rcode == rcode_success) in
      Moves-then R t (inc_if (m.rcode == rcode_name_error) name_error_count)
        (elim again [ true ↦ next | false ↦ pure (got m) ]) w
        (Moves-inc_if R t (m.rcode == rcode_name_error) name_error_count w refl)
        (λ w₂.
          Moves-choice R t again next (pure (got m)) w₂ (later (got m) w₂)
            (Moves-pure R t (got m) w₂))

  query_loop-Moves :
      (req : Msg) (q : Question) (servers : List Bytes) (r : Lookup) (w : World)
      → question0 req ≡ some q
      → ((s : Bytes) → Occurs s servers → MayAsk cfg q.name s)
      → Moves R (query_loop dns env cfg tcp req servers r) w
  unfolding query_loop
  query_loop-Moves req q [] r w e may = Moves-pure R t _ w
  query_loop-Moves req q (s ∷ servers) r w e may =
      let later =
        λ (r : Lookup) (w : World). query_loop-Moves req q servers r w e (λ s o. may s (inr o)) in
      Moves-bind R t (ask env (record { tcp = tcp; server = s; msg = req })) _ w
        (Moves-ask R t env (record { tcp = tcp; server = s; msg = req }) w
          (record { transport = refl; asked = q; is_asked = e; may = may s (inl refl) }))
        (λ answer w₁. after_ask req servers answer w₁ later)

  -- The servers picked for a name may be asked for it.
  picked-MayAsk :
      (name : Bytes) (asked : List Query) (s : Bytes)
      → Occurs s (pick_servers name cfg.nameservers (env.stub_order asked cfg.stub)).0
      → MayAsk cfg name s
  picked-MayAsk name asked s o =
      elim (pick_servers-picks name cfg.nameservers (env.stub_order asked cfg.stub)) [
        | inl (z, oz, e, p) ↦ of_zone z (visits.some_ asked cfg.stub z oz) e (subst (Occurs s) p o)
        | inr (p, none_) ↦
            of_default (subst (Occurs s) p o) (λ z oz. none_ z (visits.all_ asked cfg.stub z oz))
      ]

  pub forward_query-Moves :
      (req : Msg) (q : Question) (w : World)
      → question0 req ≡ some q
      → Moves R (forward_query dns env cfg tcp q.name req) w
  unfolding forward_query
  forward_query-Moves req q w e =
      Moves-bind R t get_world _ w (record { holds = t.same w })
        (λ v w₁.
          let picked = pick_servers q.name cfg.nameservers (env.stub_order v.asked cfg.stub) in
          Moves-then R t (inc_if picked.1 stub_forward_count)
            (query_loop dns env cfg tcp req picked.0 nothing) w₁
            (Moves-inc_if R t picked.1 stub_forward_count w₁ refl)
            (λ w₂. query_loop-Moves req q picked.0 nothing w₂ e (picked-MayAsk q.name v.asked)))

  -- What `forwardSearch` does with the outcome of a query.
  after_search :
      (q : Question) (req : Msg) (domains : List Bytes) (s : SearchState) (name : Bytes)
      (res : Lookup) (w : World)
      → ((s : SearchState) (w : World) → Moves R (search_loop dns env cfg tcp q req domains s) w)
      → Moves {A = SearchState} R
          (elim res [
            | nothing ↦ fault
            | failed ↦ pure (record s { last = failed; search_name = name })
            | got r ↦ do
              inc_if (r.rcode == rcode_name_error) name_error_count
              elim (goes_on r) [
                | true ↦ search_loop dns env cfg tcp q req domains (note_response s name r)
                | false ↦ pure (note_response s name r)
              ]
          ])
          w
  after_search q req domains s name nothing w later = Moves-fault R t w
  after_search q req domains s name failed w later = Moves-pure R t _ w
  after_search q req domains s name (got r) w later =
      let s' = note_response s name r in
      let next = search_loop dns env cfg tcp q req domains s' in
      Moves-then R t (inc_if (r.rcode == rcode_name_error) name_error_count)
        (elim (goes_on r) [ true ↦ next | false ↦ pure s' ]) w
        (Moves-inc_if R t (r.rcode == rcode_name_error) name_error_count w refl)
        (λ w₁. Moves-choice R t (goes_on r) next (pure s') w₁ (later s' w₁) (Moves-pure R t s' w₁))

  question0-set_question0 :
      (m m' : Msg) (q : Question) → set_question0 m q ≡ some m' → question0 m' ≡ some q
  question0-set_question0 m m' q e = ground (arith, e)

  search_loop-Moves :
      (q : Question) (req : Msg) (domains : List Bytes) (s : SearchState) (w : World)
      → Moves R (search_loop dns env cfg tcp q req domains s) w
  unfolding search_loop
  search_loop-Moves q req [] s w = Moves-pure R t _ w
  search_loop-Moves q req (domain ∷ domains) s w =
      let name = to_lower (append_domain dns q.name domain) in
      let asked : Question = record { name = name; qtype = q.qtype; qclass = q.qclass } in
      let later = λ (s : SearchState) (w : World). search_loop-Moves q req domains s w in
      elim (Bool-cases (has_suffix q.name domain)) [
        | inl has ↦ rw (has, search_loop) (later s w)
        | inr lacks ↦
            rw (lacks, search_loop)
              (Moves-with R t (set_question0 req asked) _ w (λ copy e.
                Moves-bind R t (forward_query dns env cfg tcp name copy) _ w
                  (forward_query-Moves copy asked w (question0-set_question0 req copy asked e))
                  (λ res w₁. after_search q req domains s name res w₁ later)))
      ]

  pub forward_search-Moves :
      (q : Question) (req : Msg) (w : World) → Moves R (forward_search dns env cfg tcp q req) w
  unfolding forward_search
  forward_search-Moves q req w =
      Moves-bind R t
        (search_loop dns env cfg tcp q req cfg.search_domains
          (record { last = nothing; nodata = none; search_name = [] }))
        _ w (search_loop-Moves q req cfg.search_domains _ w)
        (λ s w₁. Moves-lift R t (search_result dns env cfg tcp q req s) w₁)
