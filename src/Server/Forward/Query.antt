-- ===== src/Server/Forward/Query.antt =====
-- server/forwarding.go: `forwardQuery`. It returns, with an answer or an error, and leaves the client and the
-- cache alone.
use go_dnsmasq.Base.{
  ◌≡◌, ◌∙◌, refl, ◌⊎◌, inl, inr, Bool, true, false, not, ◌&&◌, List, [], ◌∷◌, ◌++◌, Option, none,
  some, arith, if◌then◌else◌, ◌==◌, Bool-cases, Option-cases, Occurs,
}
use go_dnsmasq.Base.Text.{Bytes, has_suffix}
use go_dnsmasq.Base.Map.{Map}
use go_dnsmasq.Dns.{DnsLib, Msg, rcode_name_error, rcode_success}
use go_dnsmasq.Server.Config.{Config, is_nil}
use go_dnsmasq.Server.World.{
  World, Counter, Env, Query, M, pure, ◌>>=◌, ◌>>◌, get_world, inc_if, ask, stub_forward_count,
  name_error_count,
}
use go_dnsmasq.Server.Forward.{
  Lookup, nothing, failed, got, pick_servers, query_loop, forward_query,
}

-- What is assumed of the surroundings: a `range` over the stub zones visits entries of the map only, and an
-- upstream response carries a question.
pub record IsFair (env : Env) : Type 0 where
  pub visits :
      (asked : List Query) (m : Map (List Bytes)) (z : Bytes × List Bytes)
      → Occurs z (env.stub_order asked m)
      → Occurs z m
  pub questions :
      (asked : List Query) (q : Query) (m : Msg)
      → env.exchange asked q ≡ some m
      → is_nil m.question ≡ false

-- There is a server to ask for every name.
pub record HasServers (cfg : Config) : Type 0 where
  pub default : is_nil cfg.nameservers ≡ false
  pub stubs : (z : Bytes × List Bytes) → Occurs z cfg.stub → is_nil z.1 ≡ false

-- Nothing was written to the client, and the cache is as it was.
pub record Quiet (w w' : World) : Type 0 where
  pub written : w'.written ≡ w.written
  pub cache : w'.cache ≡ w.cache

pub Quiet-refl : (w : World) → Quiet w w
Quiet-refl w = record { written = refl; cache = refl }

pub Quiet-trans : {u v w : World} → Quiet u v → Quiet v w → Quiet u w
Quiet-trans p q = record { written = q.written ∙ p.written; cache = q.cache ∙ p.cache }

-- An outcome of a lookup that can be used: an error, or a message with a question.
abbrev pub IsLookup : Lookup → Type 0
IsLookup nothing = ⊥
IsLookup failed = Unit {0}
IsLookup (got m) = is_nil m.question ≡ false

-- A computation that returns, leaves the client and the cache alone, and whose result has the property.
pub record Ends {A : Type 0} (P : A → Type 0) (m : M A) (w : World) : Type 0 where
  pub result : A
  pub after : World
  pub runs : m w ≡ some (result, after)
  pub quiet : Quiet w after
  pub holds : P result

pub Ends-pure : {A : Type 0} (P : A → Type 0) (a : A) (w : World) → P a → Ends P (pure a) w
Ends-pure P a w p = record { result = a; after = w; runs = refl; quiet = Quiet-refl w; holds = p }

pub Ends-bind :
    {A B : Type 0} (P : A → Type 0) (Q : B → Type 0) (m : M A) (f : A → M B) (w : World)
    → Ends P m w
    → ((a : A) (w' : World) → P a → Ends Q (f a) w')
    → Ends Q (m >>= f) w
Ends-bind P Q m f w e k =
    let e' = k e.result e.after e.holds in
    record {
      result = e'.result;
      after = e'.after;
      runs = rw (e.runs, ◌>>=◌) e'.runs;
      quiet = Quiet-trans e.quiet e'.quiet;
      holds = e'.holds;
    }

pub Ends-inc_if : (b : Bool) (c : Counter) (w : World) → Ends (λ _. Unit {0}) (inc_if b c) w
Ends-inc_if b c w = record {
  result = tt;
  after = if b then record w { counted = w.counted ++ c ∷ [] } else w;
  runs = refl;
  quiet = record { written = ground arith; cache = ground arith };
  holds = tt;
}

pub Ends-get_world : (w : World) → Ends (λ _. Unit {0}) get_world w
Ends-get_world w = record { result = w; after = w; runs = refl; quiet = Quiet-refl w; holds = tt }

-- The answer of an exchange, which carries a question.
abbrev pub Answer : Option Msg → Type 0
Answer none = Unit {0}
Answer (some m) = is_nil m.question ≡ false

Answer-exchange :
    (env : Env) → IsFair env → (asked : List Query) (q : Query) → Answer (env.exchange asked q)
Answer-exchange env fair asked q = elim (Option-cases (env.exchange asked q)) [
  | inl failure ↦ rw failure tt
  | inr (m, ok) ↦ rw ok (fair.questions asked q m ok)
]

Ends-ask : (env : Env) → IsFair env → (q : Query) (w : World) → Ends Answer (ask env q) w
Ends-ask env fair q w = record {
  result = env.exchange w.asked q;
  after = record w { asked = w.asked ++ q ∷ [] };
  runs = refl;
  quiet = record { written = refl; cache = refl };
  holds = Answer-exchange env fair w.asked q;
}

module _ (dns : DnsLib) (env : Env) (cfg : Config) (tcp : Bool) (fair : IsFair env) where
  -- The choice between another server and the response at hand.
  after_response :
      (req : Msg) (servers : List Bytes) (m : Msg) (w : World)
      → is_nil m.question ≡ false
      → ((r : Lookup) (w : World)
          → (is_nil servers ≡ false) ⊎ IsLookup r
          → Ends IsLookup (query_loop dns env cfg tcp req servers r) w)
      → Ends IsLookup
          (elim (cfg.rcache_non_negative && not (m.rcode == rcode_success)) [
            | true ↦ query_loop dns env cfg tcp req servers (got m)
            | false ↦ pure (got m)
          ])
          w
  after_response req servers m w ok later =
      elim (Bool-cases (cfg.rcache_non_negative && not (m.rcode == rcode_success))) [
        | inl again ↦ rw again (later (got m) w (inr ok))
        | inr done ↦ rw done (Ends-pure IsLookup (got m) w ok)
      ]

  -- The rest of a round of the loop.
  after-Answer :
      (req : Msg) (servers : List Bytes) (answer : Option Msg) (w : World)
      → Answer answer
      → ((r : Lookup) (w : World)
          → (is_nil servers ≡ false) ⊎ IsLookup r
          → Ends IsLookup (query_loop dns env cfg tcp req servers r) w)
      → Ends IsLookup
          (elim answer [
            | none ↦ query_loop dns env cfg tcp req servers failed
            | some m ↦ do
              inc_if (m.rcode == rcode_name_error) name_error_count
              elim (cfg.rcache_non_negative && not (m.rcode == rcode_success)) [
                | true ↦ query_loop dns env cfg tcp req servers (got m)
                | false ↦ pure (got m)
              ]
          ])
          w
  after-Answer req servers none w ok later = later failed w (inr tt)
  after-Answer req servers (some m) w ok later =
      Ends-bind (λ _. Unit {0}) IsLookup _ _ w (Ends-inc_if _ _ w)
        (λ _ w₁ _. after_response req servers m w₁ ok later)

  query_loop-Ends :
      (req : Msg) (servers : List Bytes) (r : Lookup) (w : World)
      → (is_nil servers ≡ false) ⊎ IsLookup r
      → Ends IsLookup (query_loop dns env cfg tcp req servers r) w
  unfolding query_loop
  query_loop-Ends req [] r w (inl some_server) = absurd (cc)
  query_loop-Ends req [] r w (inr ok) = Ends-pure IsLookup r w ok
  query_loop-Ends req (s ∷ servers) r w h =
      Ends-bind Answer IsLookup _ _ w
        (Ends-ask env fair (record { tcp = tcp; server = s; msg = req }) w)
        (λ answer w₁ ok. after-Answer req servers answer w₁ ok (query_loop-Ends req servers))

  pick_servers-some :
      (name : Bytes) (nameservers : List Bytes) (stub : Map (List Bytes))
      → is_nil nameservers ≡ false
      → ((z : Bytes × List Bytes) → Occurs z stub → is_nil z.1 ≡ false)
      → is_nil (pick_servers name nameservers stub).0 ≡ false
  unfolding pick_servers
  pick_servers-some name nameservers [] d s = d
  pick_servers-some name nameservers ((zone, srv) ∷ stub) d s =
      elim (Bool-cases (has_suffix name zone)) [
        | inl here ↦ rw here (s (zone, srv) (inl refl))
        | inr there ↦ rw there (pick_servers-some name nameservers stub d (λ z o. s z (inr o)))
      ]

  -- With upstream responses that carry a question and a server for every name, a forwarded query
  -- ends in an error or a response with a question, and neither writes to the client nor touches
  -- the cache.
  pub forward_query-Ends :
      HasServers cfg
      → (name : Bytes) (req : Msg) (w : World)
      → Ends IsLookup (forward_query dns env cfg tcp name req) w
  unfolding forward_query
  forward_query-Ends has name req w =
      Ends-bind (λ _. Unit {0}) IsLookup get_world _ w (Ends-get_world w)
        (λ v w₁ _.
          let picked = pick_servers name cfg.nameservers (env.stub_order v.asked cfg.stub) in
          let some_server =
            pick_servers-some name cfg.nameservers (env.stub_order v.asked cfg.stub) has.default
              (λ z o. has.stubs z (fair.visits v.asked cfg.stub z o)) in
          Ends-bind (λ _. Unit {0}) IsLookup (inc_if picked.1 stub_forward_count) _ w₁
            (Ends-inc_if picked.1 stub_forward_count w₁)
            (λ _ w₂ _. query_loop-Ends req picked.0 nothing w₂ (inl some_server)))
