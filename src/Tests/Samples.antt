-- ===== src/Tests/Samples.antt =====
-- The inputs that the tests share: a stand-in for the DNS library, requests, messages, caches.
use go_dnsmasq.Base.{
  ℕ, ◌+◌, ◌*◌, ◌≡◌, refl, inl, inr, Bool, some, true, false, [], ◌∷◌, ◌++◌, none, arith,
  if◌then◌else◌, ◌==◌, length, length-take,
}
use go_dnsmasq.Base.Int.{ℤ, pos}
use go_dnsmasq.Base.Text.{Bytes, lit, equal}
use go_dnsmasq.Base.Map.{keys}
use go_dnsmasq.Cache.{Elem, Cache, Clock}
use go_dnsmasq.Server.Config.{Config, is_nil}
use go_dnsmasq.Server.Forward.Query.{IsFair}
use go_dnsmasq.Server.Serve.{Moment}
use go_dnsmasq.Server.Forward.Reply.{StubsHaveServers}
use go_dnsmasq.Server.Tracks.Forward.{VisitsAll}
use go_dnsmasq.Server.World.{Env}
use go_dnsmasq.Dns.{Question, Rr, a, Msg, DnsLib, RepliesWell, LenWell, empty_msg}

abbrev pub count_dots : Bytes → ℕ
count_dots [] = 0
count_dots (c ∷ s) = (if c == b'.' then 1 else 0) + count_dots s

-- Every name of the samples is absolute.
abbrev pub dns : DnsLib
dns = record {
  set_reply = λ m req. record m { id = req.id; rcode = 0; question = req.question };
  set_rcode = λ m req c. record m { id = req.id; rcode = c; question = req.question };
  len = λ m. 12 + 16 * length m.answer + 16 * length m.extra;
  count_label = count_dots;
  fqdn = λ s. s;
  reverse_addr = λ s. s ++ lit ".in-addr.arpa.";
  edns0 = λ m. none;
}

pub dns-RepliesWell : RepliesWell dns
dns-RepliesWell = record {
  set_reply_id = λ m req. refl;
  set_reply_rcode = λ m req. refl;
  set_rcode_id = λ m req c. refl;
  set_rcode_rcode = λ m req c. refl;
}

pub dns-LenWell : LenWell dns
dns-LenWell = record {
  len_prefix = λ m i j h. omega (arith, length-take i m.answer, length-take j m.answer);
  len_truncated = λ m b. refl;
}

abbrev pub asking : Question
asking = record { name = lit "db.lan."; qtype = 1; qclass = 1 }

abbrev pub address : ℕ → Rr
address last = record {
  header = record { name = lit "db.lan."; rrtype = 1; class = 1; ttl = 30 };
  rdata = a (10 ∷ 0 ∷ 0 ∷ last ∷ []);
}

abbrev pub request : Msg
request = record empty_msg { id = 7; question = asking ∷ [] }

abbrev pub response : Msg
response = record empty_msg { id = 9; question = asking ∷ []; answer = address 1 ∷ address 2 ∷ [] }

-- Seconds, as instants.
abbrev pub at_second : ℕ → ℤ
at_second n = pos (n * 1_000_000_000)

abbrev pub clock : Clock
clock = record {
  since_expiration = at_second 100;
  since_stale = at_second 100;
  added = at_second 100;
  added_resp = at_second 100;
  added_stale = at_second 100;
  evicting = at_second 100;
}

abbrev pub empty_cache : ℕ → Cache
empty_cache n = record {
  capacity = pos n;
  m = [];
  ttl = at_second 60;
  stale_ttl = pos 0;
  ttl_from_resp = false;
  ttl_max = at_second 3600;
  ttl_min_seconds = 60;
  ttl_max_seconds = 3600;
}

abbrev pub fresh_elem : Elem
fresh_elem = record {
  expiration = at_second 160;
  msg = response;
  stale_expiration = at_second 100;
  hits = 0;
  stale_hits = 0;
  ttl_seconds = 0;
}

abbrev pub config : Config
config = record {
  dns_addr = lit "127.0.0.1:53";
  systemd = false;
  default_resolver = false;
  search_domains = lit "lan." ∷ [];
  enable_search = true;
  hostsfile = [];
  poll_interval = pos 0;
  round_robin = true;
  nameservers = lit "9.9.9.9:53" ∷ lit "8.8.8.8:53" ∷ [];
  no_rec = false;
  read_timeout = at_second 2;
  ttl = 0;
  hosts_ttl = 0;
  rcache = pos 4;
  rcache_ttl = pos 60;
  rstale_ttl = pos 0;
  rcache_ttl_from_resp = false;
  rcache_ttl_max = pos 3600;
  rcache_non_negative = true;
  fwd_ndots = pos 0;
  ndots = pos 1;
  verbose = false;
  stub = (lit "lan.", lit "10.0.0.9:53" ∷ []) ∷ [];
}

-- The first nameserver does not answer; the others answer with the response.
abbrev pub env : Env
env = record {
  exchange = λ asked q. if equal q.server (lit "9.9.9.9:53") then none else some response;
  stub_order = λ asked m. m;
  find_hosts = λ name. some [];
  find_reverse = λ name. some [];
}

pub env-IsFair : IsFair env
env-IsFair = record { visits = λ asked m z o. o; questions = λ asked q m e. answered m _ e }
  where
    answered :
        (m : Msg) (b : Bool)
        → (if b then none else some response) ≡ some m
        → is_nil m.question ≡ false
    answered m true e = cc
    answered m false e = ground arith

abbrev pub now : Moment
now = record {
  hit₁ = at_second 100;
  hit₂ = at_second 100;
  stale₁ = at_second 100;
  stale₂ = at_second 100;
  clock = clock;
  order₁ = keys;
  order₂ = keys;
  ids = λ n. n;
}

pub config-StubsHaveServers : StubsHaveServers config
config-StubsHaveServers z (inl e) = rw e refl
config-StubsHaveServers z (inr o) = absurd o

pub env-VisitsAll : VisitsAll env
env-VisitsAll = record { some_ = λ asked m z o. o; all_ = λ asked m z o. o }
