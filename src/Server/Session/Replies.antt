-- ===== src/Server/Session/Replies.antt =====
-- server/server.go: every request of a session gets its response, in order.
use go_dnsmasq.Base.{
  ℕ, ◌≡◌, refl, ap, append_assoc, ◌∙◌, false, List, [], ◌∷◌, ◌++◌, some, All, map,
}
use go_dnsmasq.Base.Text.{Bytes}
use go_dnsmasq.Cache.Evict.{IsBounded}
use go_dnsmasq.Dns.{DnsLib, RepliesWell, LenWell, Msg}
use go_dnsmasq.Server.Config.{Config, is_nil}
use go_dnsmasq.Server.Forward.Query.{IsFair}
use go_dnsmasq.Server.Forward.Reply.{StubsHaveServers}
use go_dnsmasq.Server.Serve.Laws.{OrdersFair}
use go_dnsmasq.Server.Serve.Once.{serve_dns-Serves}
use go_dnsmasq.Server.Session.{Request, serve_all}
use go_dnsmasq.Server.World.{World, Env, M, ◌>>=◌}

-- A request with a question, whose evictions visit the keys of the map.
pub record IsRequest (r : Request) : Type 0 where
  pub asks : is_nil r.msg.question ≡ false
  pub fair : OrdersFair r.now

-- The computation returns, after writing to the client messages with these ids in order; it keeps a cache within
-- its bound.
pub record Writes (ids : List ℕ) (m : M (Unit {0})) (w : World) : Type 0 where
  pub after : World
  pub messages : List Msg
  pub runs : m w ≡ some (tt, after)
  pub written : after.written ≡ w.written ++ messages
  pub same_ids : map (λ (m : Msg). m.id) messages ≡ ids
  pub bounded : IsBounded w.cache → IsBounded after.cache

module _ (dns : DnsLib) (replies : RepliesWell dns) (lens : LenWell dns) (env : Env)
    (fair : IsFair env) (cfg : Config) (stubs : StubsHaveServers cfg) (version : Bytes) where
  append_nil : (l : List Msg) → l ≡ l ++ []
  append_nil [] = refl
  append_nil (x ∷ l) = ap (◌∷◌ x) (append_nil l)

  -- Requests with a question, handled one after another, get one response each, in order, with its id; no request
  -- makes the handler fault, and a cache within its bound stays so. The hypotheses are those on a single
  -- request: the DNS library builds replies and measures messages as documented, upstream responses carry
  -- a question, every stub zone has a server, and the last eviction pass visits the keys of the map.
  pub serve_all-Writes :
      (rs : List Request) (w : World)
      → All IsRequest rs
      → Writes (map (λ (r : Request). r.msg.id) rs) (serve_all dns env cfg version rs) w
  unfolding serve_all
  serve_all-Writes [] w a = record {
    after = w;
    messages = [];
    runs = refl;
    written = append_nil w.written;
    same_ids = refl;
    bounded = λ b. b;
  }
  serve_all-Writes (r ∷ rs) w (is, a) =
      let s =
        serve_dns-Serves dns replies lens env fair cfg stubs version r.now is.fair r.tcp r.msg w
          is.asks in
      let later = serve_all-Writes rs s.after a in
      record {
        after = later.after;
        messages = s.message ∷ later.messages;
        runs = rw (s.runs, ◌>>=◌) later.runs;
        written =
            later.written
            ∙ ap (λ (l : List Msg). l ++ later.messages) s.written
            ∙ append_assoc w.written (s.message ∷ []) later.messages;
        same_ids = rw (s.same_id, later.same_ids) refl;
        bounded = λ b. later.bounded (s.bounded b);
      }
