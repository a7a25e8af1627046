-- ===== src/Server/Session.antt =====
-- server/server.go: a server from `New` on, and requests handled by it one after another.
pub mod Replies
use go_dnsmasq.Base.{Bool, List, [], ◌∷◌, ◌++◌}
use go_dnsmasq.Base.Text.{Bytes}
use go_dnsmasq.Cache.{new}
use go_dnsmasq.Dns.{Msg, DnsLib}
use go_dnsmasq.Server.Config.{Config}
use go_dnsmasq.Server.Serve.{Moment, serve_dns}
use go_dnsmasq.Server.World.{World, Env, M, pure, ◌>>=◌, ◌>>◌}

-- `New`: a server with an empty cache, which has sent and counted nothing.
unfoldable pub new_server : Config → World
new_server cfg = record {
  cache = new cfg.rcache cfg.rcache_ttl cfg.rstale_ttl cfg.rcache_ttl_from_resp cfg.rcache_ttl_max;
  written = [];
  counted = [];
  asked = [];
}

-- A request, the transport that it came over, and what the handler meets with it.
pub record Request : Type 0 where
  pub msg : Msg
  pub tcp : Bool
  pub now : Moment

-- The handler, run on each request in turn.
unfoldable pub serve_all : DnsLib → Env → Config → Bytes → List Request → M (Unit {0})
serve_all dns env cfg version [] = pure tt
serve_all dns env cfg version (r ∷ rs) = do
  serve_dns dns env cfg version r.now r.tcp r.msg
  serve_all dns env cfg version rs
