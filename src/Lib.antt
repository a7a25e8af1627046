-- ===== src/Lib.antt =====
-- go-dnsmasq, a caching DNS forwarder: its cache, its hosts file, its configuration, its rewriting of
-- resolv.conf, the handler that answers a request from the cache, the hosts file or upstream servers, and the
-- control server that reports on it.
--
-- The parts, and the files of the repository that they are translated from:
-- - Dns: the messages and what the program uses of the library github.com/miekg/dns. The library is
--   a record of functions, `DnsLib`; `RepliesWell` and `LenWell` are what the code relies on.
-- - HostPort: what the program uses of Go's packages net, strconv and fmt on addresses with a port and on
--   numbers: `split_host_port`, `join_host_port`, `atoi`, `decimal`.
-- - Cache (cache/cache.go): `Elem`, `Cache` and the functions `new`, `remove`, `evict_random`,
--   `insert_message`, `search_key`, `lowest_ttl`. Cache.Key has `key` and `key_rrset`. Cache.Hit
--   (cache/hit.go) has `hit`, the call run alone; Cache.Race has the same call as a relation of steps,
--   between which another goroutine may use the cache. A map is an association list. Every reading of
--   the clock is a value of its own (`Clock`), in nanoseconds, and so is the order in which a `range`
--   visits a map.
--   Cache.Store states what a sequence of calls promises: a store with a note under some keys, which may
--   forget; `view` is the store that a cache stands for. Cache.Dump has what `DumpCache` prints.
-- - Fit (server/msg.go): `fit` shortens a message to a size.
-- - Hosts (hostsfile/utils.go): `parse_line`, `new_hostlist`, `find_hosts`. Hosts.Net has what the code
--   uses of Go's package net, on addresses of 4 or 16 bytes; `net.ParseIP` and `IP.String` are arguments.
--   Hosts.Poll (hostsfile/hostsfile.go) has `new_hostsfile` and the reload of the file, `tick` by
--   `tick`, and Hosts.Poll.Follow runs of ticks.
-- - Server.Config (server/config.go): `resolv_conf`, `check_config` and `append_domain`.
-- - Server.World: what a request acts on: the cache, the messages written to the client, the counters
--   of server/stats.go, the upstream queries made. A handler is a state transformer that may fault.
-- - Server.Forward (server/forwarding.go): `forward_query`, `forward_search`, `serve_dns_forward`.
-- - Server.Records, Server.Rotate and Server.Serve (server/server.go): the records made from the hosts
--   file, `round_robin`, and the handler `serve_dns` with its deferred function.
-- - Server.Listen (server/server.go): `run`, which sockets are served.
-- - Server.Threads (server/server.go and cache/hit.go): the handler in steps, and goroutines side by side.
-- - Server.Session (server/server.go): `new_server`, and `serve_all`, requests handled one after another.
-- - Server.Tracks: an interface for relations between the world before and after a part of the handler; what
--   forwarding and serving keep of such a relation. Server.Serve.Asks fills it with the queries sent, and
--   Server.Tally with the counters.
-- - Options (main.go): the reading of the options, `config_of`, and `start`, the action of the program up to
--   the configuration that the server is started with. `net.ParseIP` is an argument; here `none` is a fatal
--   error, which ends the program. Options.Launch has the whole action up to its goroutines, `launch`.
--   Options.Service and Control.Stats are about all parts together.
--   Options.Declared has the table of the options, `app_flags`, and what the action asks a `cli.Context`, which is
--   an argument.
-- - Control (control/control.go): the handlers of the control server, on the world of the server.
-- - Stats (stats/graphite.go): the table of counters, `init`, which registers them, and what `collect` starts.
-- - ResolvConf (resolvconf/resolvconf.go): the text that `store_address` and `clean` leave in
--   /etc/resolv.conf. The pattern that finds the lines added is `is_added`, line by line. ResolvConf.File is
--   the writing in place, where a call of the file system may fail, and Options.Exit what the program does to
--   the file from its start to its end, where each of its three rewritings may fail (`Rewritings`).
-- - Base: numbers, integers, lists, byte strings and maps, as Go has them. Tests: runs of the
--   definitions on concrete inputs.
--
-- How they interact: `serve_dns` looks in the cache (`hit`), then in the hosts file, answers queries of
-- class CHAOS itself, and forwards the rest with a stale response at hand. A response from the cache, from
-- the hosts file or of class CHAOS is fitted to the transport before it is written; a forwarded one is
-- written as it came. `finish_local` and `keep_response` insert it into the cache. The handler reaches the
-- hosts file and the upstream servers through `Env`; `start` makes the configuration that it runs with, of the
-- options and of resolv.conf. The control server reads the counters and the cache that the handler changes.
--
-- `none` stands for a panic of the program, an index out of range or a nil pointer, and for fuel that ran
-- out. Log lines are left out. Native numbers stand for lengths and unsigned integers; a Go `int` is an
-- integer, ℤ; conversions and products that can wrap are reduced modulo a power of 2 (`duration`,
-- `to_uint32`, the hit counters).
--
-- Loops: `collapse` takes the fuel `length line + 1`, since each round shortens the line; `narrow` takes
-- one more than the distance of its bounds, since each round brings them nearer; `shuffle` takes one more
-- than the greatest value of its bound, which the code draws anew from `dns.Id()` in each round. All other
-- loops are recursion on a list.
--
-- Every request has its own `Moment`, the readings of the clock that its goroutine makes. `serve_dns` and
-- `serve_all` run requests one after another. Server.Threads has the same handler as the steps between which other
-- goroutines may use the cache, one for each time that it takes the cache's lock: `serve_dns_steps`, which `solo`
-- runs alone, and Server.Threads.Pool any number of goroutines, whose steps a schedule interleaves.
--
-- Not modelled: sockets, the help texts of the options, the number of threads, signals and logging (main.go), the
-- registry and the exporters of go-metrics, the encoding of JSON and the layout of the dump as text.
pub mod Base
pub mod Dns
pub mod HostPort
pub mod Cache
pub mod Fit
pub mod Hosts
pub mod Server
pub mod Options
pub mod ResolvConf
pub mod Control
pub mod Stats
pub mod Tests
