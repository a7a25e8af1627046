-- ===== src/Control.antt =====
-- control/control.go: the control server, which reports the counters and the cache over HTTP.
pub mod Stats
use go_dnsmasq.Base.{ℕ, Bool, List, [], ◌∷◌, ◌++◌, Option, none, some, if◌then◌else◌, ltb}
use go_dnsmasq.Base.Int.{ℤ}
use go_dnsmasq.Base.Text.{Bytes, lit, equal}
use go_dnsmasq.Cache.{Cache, cache_size}
use go_dnsmasq.Cache.Dump.{CacheDump, dump_cache}
use go_dnsmasq.HostPort.Decimal.{itoa}
use go_dnsmasq.Server.Tally.{count, hit_and_miss}
use go_dnsmasq.Server.World.{
  World, Counter, forward_count, stub_forward_count, lookup_count, request_count, dnssec_ok_count,
  name_error_count, no_data_count, dnssec_cache_miss, cache_miss, cache_hit, stale_cache_hit,
  request_fail,
}

-- `control`. Its cache is that of the server.
pub record Control : Type 0 where
  pub port : ℤ

-- `New`.
unfoldable pub new_control : ℤ → Control
new_control port = record { port = port }

pub record PingResponse : Type 0 where
  pub ping : Bytes

-- 0.0, or the quotient of two counts as floating-point numbers.
pub data HitRate : Type 0 where
  zero_rate : HitRate
  ratio : ℕ → ℕ → HitRate

pub record StatsResponse : Type 0 where
  pub forward_count : ℕ
  pub stub_forward_count : ℕ
  pub lookup_count : ℕ
  pub request_count : ℕ
  pub dnssec_ok_count : ℕ
  pub name_error_count : ℕ
  pub no_data_count : ℕ
  pub dnssec_cache_miss : ℕ
  pub cache_miss : ℕ
  pub cache_hit : ℕ
  pub request_fail : ℕ
  pub stale_cache_hit : ℕ
  pub cache_size : ℕ
  pub cache_capacity : ℤ
  pub cache_hit_rate : HitRate

-- The hit rate of `statsHandler`.
unfoldable pub hit_rate : List Counter → HitRate
hit_rate counted =
    if ltb 0 (hit_and_miss counted)
    then ratio (count cache_hit counted) (hit_and_miss counted)
    else zero_rate

-- The response that `statsHandler` builds.
unfoldable pub stats_response : World → StatsResponse
unfolding hit_rate
stats_response w = record {
  forward_count = count forward_count w.counted;
  stub_forward_count = count stub_forward_count w.counted;
  lookup_count = count lookup_count w.counted;
  request_count = count request_count w.counted;
  dnssec_ok_count = count dnssec_ok_count w.counted;
  name_error_count = count name_error_count w.counted;
  no_data_count = count no_data_count w.counted;
  dnssec_cache_miss = count dnssec_cache_miss w.counted;
  cache_miss = count cache_miss w.counted;
  cache_hit = count cache_hit w.counted;
  request_fail = count request_fail w.counted;
  stale_cache_hit = count stale_cache_hit w.counted;
  cache_size = cache_size w.cache;
  cache_capacity = w.cache.capacity;
  cache_hit_rate = hit_rate w.counted;
}

-- What is written to the client: by `http.Error` a text and a status, and else a content type, a status and a body.
pub data Reply : Type 0 where
  error_reply : Bytes → ℕ → Reply
  body_reply : Bytes → ℕ → Bytes → Reply

-- `writeResponse`. An error of the writing is only logged.
unfoldable pub write_response : Bytes → Option Bytes → Reply
write_response rsp (some err) = error_reply err 500
write_response rsp none = body_reply (lit "application/json") 200 rsp

-- `getAddr`.
unfoldable pub get_addr : ℤ → Bytes
unfolding itoa
get_addr port = lit "127.0.0.1" ++ b':' ∷ itoa port

-- `json.Marshal` on the two responses, with the text of its error if there is one, and the layout of the dump as
-- text by text/tabwriter.
pub record Printers : Type 0 where
  pub marshal_ping : PingResponse → Bytes × Option Bytes
  pub marshal_stats : StatsResponse → Bytes × Option Bytes
  pub lay_out : CacheDump → Bytes

-- What `DumpCache` meets: the readings of the clock, and the order of the `range` over the map.
pub record DumpMoment : Type 0 where
  pub now : ℤ
  pub since : Bytes → ℤ × ℤ
  pub order : List Bytes

module _ (print : Printers) where
  unfoldable pub ping_handler : Reply
  unfolding write_response
  ping_handler =
      let (rsp, err) = print.marshal_ping (record { ping = lit "pong" }) in write_response rsp err

  unfoldable pub stats_handler : World → Reply
  unfolding write_response stats_response
  stats_handler w =
      let (rsp, err) = print.marshal_stats (stats_response w) in write_response rsp err

  unfoldable pub dump_handler : DumpMoment → World → Reply
  unfolding dump_cache
  dump_handler t w =
      body_reply (lit "text/plain") 200 (print.lay_out (dump_cache t.now t.since t.order w.cache))

  -- The handlers that `Run` registers, by their paths; `none` is left to the mux of net/http.
  unfoldable pub run : Bytes → DumpMoment → World → Option Reply
  unfolding ping_handler stats_handler dump_handler
  run path t w =
      if equal path (lit "/ping")
      then some ping_handler
      else if equal path (lit "/stats")
      then some (stats_handler w)
      else if equal path (lit "/dump")
      then some (dump_handler t w)
      else none
