-- ===== src/Server/World.antt =====
-- What a request to the server reads and changes: the cache, the responses written to the client, the
-- counters of server/stats.go, and the queries sent to upstream servers. A computation that faults (a
-- nil pointer or an index out of range) ends in `none`.
use go_dnsmasq.Base.{Bool, List, [], ◌∷◌, ◌++◌, Option, none, some, if◌then◌else◌}
use go_dnsmasq.Base.Text.{Bytes}
use go_dnsmasq.Base.Map.{Map}
use go_dnsmasq.Dns.{Msg}
use go_dnsmasq.Cache.{Cache}
use go_dnsmasq.Hosts.Net.{Ip}

-- The counters of server/stats.go.
pub data Counter : Type 0 where
  forward_count stub_forward_count lookup_count request_count dnssec_ok_count : Counter
  name_error_count refused_count no_data_count dnssec_cache_miss cache_miss : Counter
  cache_hit stale_cache_hit request_fail : Counter

-- A call of `Exchange` on the UDP or the TCP client.
pub record Query : Type 0 where
  pub tcp : Bool
  pub server : Bytes
  pub msg : Msg

-- `counted` holds one entry for each `Inc(1)`; all three lists are in the order of the calls.
pub record World : Type 0 where
  pub cache : Cache
  pub written : List Msg
  pub counted : List Counter
  pub asked : List Query

-- What the server asks of others. An answer of an upstream server may depend on all earlier queries;
-- `none` is an error. `stub_order` is the order in which a `range` visits the stub zones. The interface
-- `Hostfile` is the last two; `none` is an error there too.
pub record Env : Type 0 where
  pub exchange : List Query → Query → Option Msg
  pub stub_order : List Query → Map (List Bytes) → Map (List Bytes)
  pub find_hosts : Bytes → Option (List Ip)
  pub find_reverse : Bytes → Option Bytes

abbrev pub M : Type 0 → Type 0
M A = World → Option (A × World)

abbrev pub pure : {A : Type 0} → A → M A
pure a w = some (a, w)

infixl 5 ◌>>=◌ ◌>>◌
abbrev pub ◌>>=◌ : {A B : Type 0} → M A → (A → M B) → M B
◌>>=◌ m f w = elim (m w) [ none ↦ none | some (a, w') ↦ f a w' ]

abbrev pub ◌>>◌ : {B : Type 0} → M (Unit {0}) → M B → M B
m >> k = m >>= λ _. k

abbrev pub fault : {A : Type 0} → M A
fault w = none

abbrev pub get_world : M World
get_world w = some (w, w)

-- `w.WriteMsg(m)`; an error of it is only logged.
abbrev pub write_msg : Msg → M (Unit {0})
write_msg m w = some (tt, record w { written = w.written ++ m ∷ [] })

-- `Inc(1)`.
abbrev pub inc : Counter → M (Unit {0})
inc c w = some (tt, record w { counted = w.counted ++ c ∷ [] })

abbrev pub inc_if : Bool → Counter → M (Unit {0})
inc_if b c w = some (tt, if b then record w { counted = w.counted ++ c ∷ [] } else w)

-- `client.Exchange(req, server)`.
abbrev pub ask : Env → Query → M (Option Msg)
ask env q w = some (env.exchange w.asked q, record w { asked = w.asked ++ q ∷ [] })
