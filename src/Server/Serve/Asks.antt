-- ===== src/Server/Serve/Asks.antt =====
-- server/server.go: to whom `ServeDNS` sends queries.
use go_dnsmasq.Base.{
  ℕ, ◌≡◌, refl, ap, append_assoc, ◌∙◌, Bool, true, false, List, [], ◌∷◌, ◌++◌, Option, none, some,
  All, All-append, of_Holds, ◌==◌, ◌||◌,
}
use go_dnsmasq.Base.Int.{pos, ltb_ℤ}
use go_dnsmasq.Base.Text.{Bytes}
use go_dnsmasq.Dns.{DnsLib, RepliesWell, LenWell, Question, Msg, type_a, type_aaaa}
use go_dnsmasq.Server.Config.{Config, is_nil}
use go_dnsmasq.Server.Forward.{question0, lift}
use go_dnsmasq.Server.Forward.Query.{IsFair}
use go_dnsmasq.Server.Forward.Reply.{StubsHaveServers}
use go_dnsmasq.Server.Rotate.{round_robin}
use go_dnsmasq.Server.Serve.{
  Moment, look_up, requested, fresh_reply, serve_cached, serve_uncached, serve_dns,
}
use go_dnsmasq.Server.Serve.Laws.{OrdersFair}
use go_dnsmasq.Server.Serve.Once.{serve_dns-Serves}
use go_dnsmasq.Server.Tracks.{
  IsAllowed, Tracks, Moves, Moves-bind, Moves-then, Moves-lift, Moves-write_msg,
}
use go_dnsmasq.Server.Tracks.Forward.{VisitsAll}
use go_dnsmasq.Server.Tracks.Serve.{look_up-Moves, fitted-Moves, serve_uncached-Moves}
use go_dnsmasq.Server.World.{
  World, Counter, Query, Env, ◌>>◌, write_msg, inc, inc_if, request_count, dnssec_ok_count,
  cache_hit, cache_miss,
}

-- The queries sent in between are all allowed.
pub record AsksOnly (cfg : Config) (tcp : Bool) (w w' : World) : Type 0 where
  pub queries : List Query
  pub asked : w'.asked ≡ w.asked ++ queries
  pub allowed : All (IsAllowed cfg tcp) queries

append_nil : (l : List Query) → l ≡ l ++ []
append_nil [] = refl
append_nil (x ∷ l) = ap (◌∷◌ x) (append_nil l)

-- A step that sends nothing.
AsksOnly-silent :
    (cfg : Config) (tcp : Bool) (w w' : World) → w'.asked ≡ w.asked → AsksOnly cfg tcp w w'
AsksOnly-silent cfg tcp w w' e = record {
  queries = [];
  asked = e ∙ append_nil w.asked;
  allowed = tt;
}

AsksOnly-trans :
    (cfg : Config) (tcp : Bool) (u v w : World)
    → AsksOnly cfg tcp u v
    → AsksOnly cfg tcp v w
    → AsksOnly cfg tcp u w
AsksOnly-trans cfg tcp u v w a b = record {
  queries = a.queries ++ b.queries;
  asked =
      b.asked
      ∙ ap (λ (l : List Query). l ++ b.queries) a.asked
      ∙ append_assoc u.asked a.queries b.queries;
  allowed = All-append (IsAllowed cfg tcp) a.queries b.queries a.allowed b.allowed;
}

AsksOnly-Tracks : (cfg : Config) (tcp : Bool) → Tracks cfg tcp (AsksOnly cfg tcp)
AsksOnly-Tracks cfg tcp = record {
  same = λ w. AsksOnly-silent cfg tcp w w refl;
  trans = AsksOnly-trans cfg tcp;
  counts = λ c w e. AsksOnly-silent cfg tcp w _ refl;
  writes = λ m w. AsksOnly-silent cfg tcp w _ refl;
  asks = λ q w a. record { queries = q ∷ []; asked = refl; allowed = (a, tt) };
  caches = λ c w. AsksOnly-silent cfg tcp w _ refl;
}

module _ (dns : DnsLib) (env : Env) (visits : VisitsAll env) (cfg : Config) (version : Bytes)
    (now : Moment) (tcp : Bool) where
  abbrev R : World → World → Type 0
  R = AsksOnly cfg tcp

  t : Tracks cfg tcp R
  t = AsksOnly-Tracks cfg tcp

  any_inc_if : (b : Bool) (c : Counter) (w : World) → Moves R (inc_if b c) w
  any_inc_if true c w = record { holds = AsksOnly-silent cfg tcp w _ refl }
  any_inc_if false c w = record { holds = AsksOnly-silent cfg tcp w _ refl }

  any_inc : (c : Counter) (w : World) → Moves R (inc c) w
  any_inc c w = record { holds = AsksOnly-silent cfg tcp w _ refl }

  serve_cached-Asks :
      (q : Question) (size : ℕ) (req m : Msg) (w : World)
      → Moves R (serve_cached dns env cfg version now tcp q size req m) w
  unfolding serve_cached
  serve_cached-Asks q size req m w =
      fitted-Moves dns env visits R t version now req m size _ w (λ m' w₁.
        Moves-bind R t
          (lift (elim (q.qtype == type_a || q.qtype == type_aaaa) [
            | true ↦ round_robin cfg.round_robin now.ids m'.answer
            | false ↦ some m'.answer
          ]))
          _ w₁ (Moves-lift R t _ w₁)
          (λ answer w₂.
            Moves-then R t (write_msg (record m' { answer = answer })) (inc cache_hit) w₂
              (Moves-write_msg R t _ w₂) (λ w₃. any_inc cache_hit w₃)))

  by_cache-Asks :
      (q : Question) (dnssec : Bool) (size : ℕ) (req : Msg) (found : Option Msg) (w : World)
      → Moves {A = Unit {0}} R
          (elim found [
            | some m1 ↦ serve_cached dns env cfg version now tcp q size req m1
            | none ↦ do inc cache_miss; serve_uncached dns env cfg version now tcp q dnssec size req
          ])
          w
  by_cache-Asks q dnssec size req (some m1) w = serve_cached-Asks q size req m1 w
  by_cache-Asks q dnssec size req none w =
      Moves-then R t (inc cache_miss) (serve_uncached dns env cfg version now tcp q dnssec size req)
        w (any_inc cache_miss w)
        (λ w₁. serve_uncached-Moves dns env visits R t version now q dnssec size req w₁)

  serve_dns-Moves : (req : Msg) (w : World) → Moves R (serve_dns dns env cfg version now tcp req) w
  unfolding serve_dns
  serve_dns-Moves req w =
      let size = (requested dns req).0 in
      let dnssec = (requested dns req).1 in
      let msgid = (fresh_reply dns env cfg version now tcp req).id in
      Moves-bind R t (lift (question0 req)) _ w (Moves-lift R t (question0 req) w) (λ q w₁.
        let search =
          look_up q dnssec tcp msgid (ltb_ℤ (pos 0) cfg.rstale_ttl) false now.hit₁ now.hit₂ in
        Moves-bind R t (inc request_count) _ w₁ (any_inc request_count w₁) (λ _ w₂.
          Moves-bind R t (inc_if dnssec dnssec_ok_count) _ w₂ (any_inc_if dnssec dnssec_ok_count w₂)
            (λ _ w₃.
              Moves-bind R t search _ w₃
                (look_up-Moves dns env visits R t q dnssec tcp msgid (ltb_ℤ (pos 0) cfg.rstale_ttl)
                  false now.hit₁ now.hit₂ w₃)
                (λ found w₄. by_cache-Asks q dnssec size req found w₄))))

  -- `ServeDNS` returns for every request that has a question, and each query that it has sent to answer it goes
  -- over the transport of the client, to a server that may be asked for the name in that query: one of a stub zone
  -- that the name ends in, or a nameserver if the name ends in no stub zone. The hypotheses: a `range` over the
  -- stub zones visits each of them and nothing else, the DNS library builds replies and measures messages as
  -- documented, upstream responses carry a question, every stub zone has a server, and the last eviction pass
  -- visits the keys of the map.
  pub serve_dns-AsksOnly :
      RepliesWell dns
      → LenWell dns
      → IsFair env
      → StubsHaveServers cfg
      → OrdersFair now
      → (req : Msg) (w : World) → is_nil req.question ≡ false
      → (w' : World) × (serve_dns dns env cfg version now tcp req w ≡ some (tt, w'))
        × AsksOnly cfg tcp w w'
  serve_dns-AsksOnly replies lens fair stubs orders req w asks =
      let s =
        serve_dns-Serves dns replies lens env fair cfg stubs version now orders tcp req w asks in
      (
        s.after,
        s.runs,
        of_Holds (λ p. AsksOnly cfg tcp w p.1) _ (tt, s.after) (serve_dns-Moves req w).holds s.runs,
      )
