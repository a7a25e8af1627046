-- ===== src/Server/Forward/Search.antt =====
-- server/forwarding.go: `forwardSearch`. It returns, with a response or an error, and leaves the client and
-- the cache alone.
use mathlib.Core.Option
use go_dnsmasq.Base.{
  ◌≡◌, refl, ap, ◌∙◌, ◌⊎◌, inl, inr, Bool, true, false, ◌&&◌, List, [], ◌∷◌, Option, none, some,
  arith, ◌==◌, Bool-cases, Option-cases,
}
use go_dnsmasq.Base.Text.{Bytes, has_suffix, to_lower}
use go_dnsmasq.Dns.{DnsLib, Msg, Question, empty_msg, rcode_name_error, rcode_success}
use go_dnsmasq.Server.Config.{Config, is_nil, append_domain}
use go_dnsmasq.Server.World.{World, Env, pure, ◌>>◌, fault, inc_if, name_error_count}
use go_dnsmasq.Server.Forward.{
  Lookup, nothing, failed, got, SearchState, set_question0, lift, goes_on, note_response,
  with_alias, is_nodata, search_loop, search_result, forward_search,
}
use go_dnsmasq.Server.Forward.Query.{
  IsFair, HasServers, IsLookup, Answer, Ends, Ends-pure, Ends-bind, Ends-inc_if, forward_query-Ends,
}

-- The variables of the loop hold messages with a question.
pub record IsSearch (s : SearchState) : Type 0 where
  pub last : (s.last ≡ nothing) ⊎ IsLookup s.last
  pub nodata : Answer s.nodata

-- A message or an error, and not nil for both.
abbrev pub IsAnswered : Lookup → Type 0
IsAnswered nothing = ⊥
IsAnswered failed = Unit {0}
IsAnswered (got m) = Unit {0}

pub Ends-lift :
    {A : Type 0} (P : A → Type 0) (o : Option A) (a : A) (w : World)
    → o ≡ some a
    → P a
    → Ends P (lift o) w
Ends-lift P o a w e p = rw e (Ends-pure P a w p)

pub cons_of_some :
    {A : Type 0} (xs : List A) → is_nil xs ≡ false → (x : A) × (ys : List A) × (xs ≡ x ∷ ys)
cons_of_some [] h = absurd (cc)
cons_of_some (x ∷ xs) h = (x, xs, refl)

pub some_question :
    (m : Msg) (q : Question)
    → is_nil m.question ≡ false
    → (m' : Msg) × (set_question0 m q ≡ some m') × (is_nil m'.question ≡ false)
some_question m q h =
    let (q', qs, e) = cons_of_some m.question h in
    (record m { question = q ∷ qs }, ground (arith, e), refl)

note-IsSearch :
    (s : SearchState) (name : Bytes) (r : Msg)
    → IsSearch s
    → is_nil r.question ≡ false
    → IsSearch (note_response s name r)
note-IsSearch s name r i h = record {
  last = inr h;
  nodata = elim (Bool-cases (r.rcode == rcode_success && is_nodata r)) [
    | inl b ↦ rw b h
    | inr b ↦ rw b i.nodata
  ];
}

alias_question :
    (nodata : Option Msg) (name : Bytes) (r : Msg) (q : Question)
    → Answer nodata
    → is_nil r.question ≡ false
    → is_nil
        (with_alias q (record { last = got r; nodata = nodata; search_name = name }) r).question
      ≡ false
alias_question none name r q n h = ground arith
alias_question (some m) name r q n h = ground arith

last_question :
    (s : SearchState) (r : Msg)
    → s.last ≡ got r
    → (s.last ≡ nothing) ⊎ IsLookup s.last
    → is_nil r.question ≡ false
last_question s r e (inl none_) = absurd (cc)
last_question s r e (inr ok) = rw e at ok

module _ (dns : DnsLib) (env : Env) (cfg : Config) (tcp : Bool) (fair : IsFair env)
    (has : HasServers cfg) (q : Question) (req : Msg) (asks : is_nil req.question ≡ false) where
  abbrev Later : List Bytes → Type 0
  Later domains =
      (s : SearchState) (w : World)
      → IsSearch s
      → Ends IsSearch (search_loop dns env cfg tcp q req domains s) w

  after_response :
      (domains : List Bytes) (s : SearchState) (name : Bytes) (r : Msg) (w : World)
      → IsSearch s
      → is_nil r.question ≡ false
      → Later domains
      → Ends IsSearch
          (elim (goes_on r) [
            | true ↦ search_loop dns env cfg tcp q req domains (note_response s name r)
            | false ↦ pure (note_response s name r)
          ])
          w
  after_response domains s name r w i h later =
      let noted = note-IsSearch s name r i h in
      elim (Bool-cases (goes_on r)) [
        | inl more ↦ rw more (later (note_response s name r) w noted)
        | inr done ↦ rw done (Ends-pure IsSearch (note_response s name r) w noted)
      ]

  after_lookup :
      (domains : List Bytes) (s : SearchState) (name : Bytes) (res : Lookup) (w : World)
      → IsSearch s
      → IsLookup res
      → Later domains
      → Ends IsSearch
          (elim res [
            | nothing ↦ fault
            | failed ↦ pure (record s { last = failed; search_name = name })
            | got r ↦ do
              inc_if (r.rcode == rcode_name_error) name_error_count
              elim (goes_on r) [
                | true ↦ search_loop dns env cfg tcp q req domains (note_response s name r)
                | false ↦ pure (note_response s name r)
              ]
          ])
          w
  after_lookup domains s name nothing w i ok later = absurd ok
  after_lookup domains s name failed w i ok later =
      Ends-pure IsSearch _ w (record { last = inr tt; nodata = i.nodata })
  after_lookup domains s name (got r) w i ok later =
      Ends-bind (λ _. Unit {0}) IsSearch _ _ w (Ends-inc_if _ _ w)
        (λ _ w₁ _. after_response domains s name r w₁ i ok later)

  search_loop-Ends : (domains : List Bytes) → Later domains
  unfolding search_loop
  search_loop-Ends [] s w i = Ends-pure IsSearch s w i
  search_loop-Ends (domain ∷ domains) s w i = elim (Bool-cases (has_suffix q.name domain)) [
    | inl skip ↦ rw (skip, search_loop) (search_loop-Ends domains s w i)
    | inr use_ ↦
        let name = to_lower (append_domain dns q.name domain) in
        let asked : Question = record { name = name; qtype = q.qtype; qclass = q.qclass } in
        let (copy, e, _) = some_question req asked asks in
        rw (use_, search_loop)
          (Ends-bind (λ _. Unit {0}) IsSearch (lift (set_question0 req asked)) _ w
            (Ends-lift (λ _. Unit {0}) _ copy w e tt)
            (λ copy' w₁ _.
              Ends-bind IsLookup IsSearch _ _ w₁
                (forward_query-Ends dns env cfg tcp fair has name copy' w₁)
                (λ res w₂ ok. after_lookup domains s name res w₂ i ok (search_loop-Ends domains))))
  ]

  with_alias_question :
      (s : SearchState) (r : Msg)
      → Answer s.nodata
      → is_nil r.question ≡ false
      → is_nil (with_alias q s r).question ≡ false
  with_alias_question s r n h = alias_question s.nodata s.search_name r q n h

  got-IsAnswered :
      (m : Msg)
      → is_nil m.question ≡ false
      → (l : Lookup) × (Option.map got (set_question0 m q) ≡ some l) × IsAnswered l
  got-IsAnswered m h = let (m', e, _) = some_question m q h in (got m', rw e refl, tt)

  search_result-got :
      (s : SearchState) (r : Msg)
      → s.last ≡ got r
      → search_result dns env cfg tcp q req s ≡ Option.map got (set_question0 (with_alias q s r) q)
  unfolding search_result
  search_result-got s r e = ap (λ l. search_result dns env cfg tcp q req (record s { last = l })) e

  result_of_got :
      (last : Lookup) (s : SearchState)
      → s.last ≡ last
      → IsSearch s
      → (l : Lookup) × (search_result dns env cfg tcp q req s ≡ some l) × IsAnswered l
  unfolding search_result
  result_of_got nothing s e i =
      (got (dns.set_rcode empty_msg req rcode_name_error), rw (e, search_result) refl, tt)
  result_of_got failed s e i = elim (Option-cases s.nodata) [
    | inl absent ↦ (failed, rw (e, search_result) (rw absent refl), tt)
    | inr (n, present) ↦
        let (l, run, ok) = got-IsAnswered n (rw present at i.nodata) in
        (l, rw (e, search_result) (rw present run), ok)
  ]
  result_of_got (got r) s e i =
      let h : is_nil r.question ≡ false = last_question s r e i.last in
      let (l, run, ok) = got-IsAnswered (with_alias q s r) (with_alias_question s r i.nodata h) in
      (l, search_result-got s r e ∙ run, ok)

  -- The search ends in an error or a response, and neither writes to the client nor touches the cache.
  pub forward_search-Ends : (w : World) → Ends IsAnswered (forward_search dns env cfg tcp q req) w
  unfolding forward_search
  forward_search-Ends w =
      Ends-bind IsSearch IsAnswered _ _ w
        (search_loop-Ends cfg.search_domains _ w (record { last = inl refl; nodata = tt }))
        (λ s w₁ i.
          let (l, run, ok) = result_of_got s.last s refl i in Ends-lift IsAnswered _ l w₁ run ok)
