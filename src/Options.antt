-- ===== src/Options.antt =====
-- main.go: the options that name servers, search domains and stub zones. `none` is `log.Fatalf`, which ends
-- the program.
pub mod Stubs
pub mod Start
pub mod Address
pub mod Action
pub mod Service
pub mod Exit
pub mod Launch
pub mod Named
pub mod Declared
use go_dnsmasq.Base.{
  ℕ, Bool, true, false, not, ◌&&◌, ◌||◌, List, [], ◌∷◌, ◌++◌, Option, none, some, if◌then◌else◌,
  ltb,
}
use go_dnsmasq.Base.Int.{ℤ, pos, ltb_ℤ}
use go_dnsmasq.Base.Text.{Bytes, lit, has_suffix, contains, split, trim_space, to_lower}
use go_dnsmasq.Base.Map.{Map, lookup, assign}
use go_dnsmasq.Dns.{DnsLib, ClientConfig}
use go_dnsmasq.HostPort.{split_host_port, atoi}
use go_dnsmasq.Hosts.Net.{Ip}
use go_dnsmasq.Server.Config.{Config, check_config, resolv_conf, is_nil}

-- The values of the options. `append_search` is the deprecated option, if it is set, and `ndots_set` tells
-- whether the option for `ndots` is set.
pub record Flags : Type 0 where
  pub listen : Bytes
  pub default_resolver : Bool
  pub nameservers : Bytes
  pub stubzones : List Bytes
  pub hostsfile : Bytes
  pub hostsfile_poll : ℤ
  pub search_domains : Bytes
  pub append_search : Option Bool
  pub enable_search : Bool
  pub rcache : ℤ
  pub rcache_ttl : ℤ
  pub rcache_ttl_from_resp : Bool
  pub rcache_ttl_max : ℤ
  pub rstale_ttl : ℤ
  pub rcache_non_negative : Bool
  pub no_rec : Bool
  pub fwd_ndots : ℤ
  pub ndots : ℤ
  pub ndots_set : Bool
  pub round_robin : Bool
  pub systemd : Bool
  pub verbose : Bool
  pub syslog : Bool
  pub multithreading : Bool

-- `if strings.HasSuffix(h, "]") { h += ":53" } else if !strings.Contains(h, ":") { h += ":53" }`.
unfoldable pub with_port : Bytes → Bytes
with_port h =
    if has_suffix h (lit "]")
    then h ++ lit ":53"
    else if not (contains h (lit ":"))
    then h ++ lit ":53"
    else h

-- `stubmap[zone]`, nil on a missing key.
unfoldable pub servers_of : Bytes → Map (List Bytes) → List Bytes
servers_of zone m = elim (lookup zone m) [ none ↦ [] | some servers ↦ servers ]

-- `stubmap[sdomain] = append(stubmap[sdomain], hostPort)`.
unfoldable pub append_server : Bytes → Bytes → Map (List Bytes) → Map (List Bytes)
unfolding servers_of
append_server zone server m = assign zone (servers_of zone m ++ server ∷ []) m

module _ (parse_ip : Bytes → Ip) where
  -- `validateHostPort(hostPort) == nil`.
  unfoldable pub validate_host_port : Bytes → Bool
  validate_host_port host_port = elim (split_host_port host_port) [
    | none ↦ false
    | some (host, port) ↦
        not (is_nil (parse_ip host))
        && not (ltb_ℤ (atoi port) (pos 1) || ltb_ℤ (pos 65535) (atoi port))
  ]

  -- An address as the options take it.
  unfoldable pub checked : Bytes → Option Bytes
  unfolding with_port validate_host_port
  checked h = if validate_host_port (with_port h) then some (with_port h) else none

  -- The loop over the parts of the option for the nameservers.
  unfoldable pub read_servers : List Bytes → Option (List Bytes)
  unfolding checked
  read_servers [] = some []
  read_servers (h ∷ hs) =
      let others = read_servers hs in
      elim (checked (trim_space h)) [
        | none ↦ none
        | some s ↦ elim others [ none ↦ none | some servers ↦ some (s ∷ servers) ]
      ]

  -- The option for the nameservers.
  unfoldable pub read_nameservers : Bytes → Option (List Bytes)
  unfolding read_servers
  read_nameservers ns = if is_nil ns then some [] else read_servers (split b',' ns)

module _ (parse_ip : Bytes → Ip) (dns : DnsLib) where
  -- The loop over the parts of the option for the search domains.
  unfoldable pub read_domains : List Bytes → Option (List Bytes)
  read_domains [] = some []
  read_domains (d ∷ ds) =
      let others = read_domains ds in
      if ltb (dns.count_label d) 2 then none else elim others [
        | none ↦ none
        | some domains ↦ some (dns.fqdn (to_lower (trim_space d)) ∷ domains)
      ]

  -- The option for the search domains.
  unfoldable pub read_search_domains : Bytes → Option (List Bytes)
  unfolding read_domains
  read_search_domains sd = if is_nil sd then some [] else read_domains (split b',' sd)

  -- The loop over the domains of a stub zone, for one server.
  unfoldable pub add_domains : Bytes → List Bytes → Map (List Bytes) → Option (Map (List Bytes))
  unfolding append_server
  add_domains server [] m = some m
  add_domains server (d ∷ ds) m =
      let others = add_domains server ds (append_server (dns.fqdn (trim_space d)) server m) in
      if ltb (dns.count_label d) 1 then none else others

  -- The loop over the servers of a stub zone.
  unfoldable pub add_hosts : List Bytes → List Bytes → Map (List Bytes) → Option (Map (List Bytes))
  unfolding checked add_domains
  add_hosts domains [] m = some m
  add_hosts domains (h ∷ hs) m = elim (checked parse_ip (trim_space h)) [
    | none ↦ none
    | some server ↦ elim (add_domains server domains m) [
      | none ↦ none
      | some m' ↦ add_hosts domains hs m'
    ]
  ]

  -- One value of the option for the stub zones, by its segments.
  unfoldable pub add_segments : List Bytes → Map (List Bytes) → Option (Map (List Bytes))
  unfolding add_hosts
  add_segments (domains ∷ hosts ∷ []) m =
      if is_nil domains || is_nil hosts
      then none
      else add_hosts (split b',' domains) (split b',' hosts) m
  add_segments _ m = none

  -- The loop over the values of the option for the stub zones.
  unfoldable pub add_stubzones : List Bytes → Map (List Bytes) → Option (Map (List Bytes))
  unfolding add_segments
  add_stubzones [] m = some m
  add_stubzones (zone ∷ zones) m = elim (add_segments (split b'/' zone) m) [
    | none ↦ none
    | some m' ↦ add_stubzones zones m'
  ]

  -- The stub zones put into a configuration.
  unfoldable pub with_stubzones : Config → List Bytes → Option Config
  unfolding add_stubzones
  with_stubzones config zones =
      if is_nil zones then some config else elim (add_stubzones zones []) [
        | none ↦ none
        | some stub ↦ some (record config { stub = stub })
      ]

  -- The configuration that the server is started with: `CheckConfig`, then the stub zones.
  unfoldable pub configure : Config → List Bytes → Option Config
  unfolding with_stubzones
  configure config zones = elim (check_config config).1 [
    | some e ↦ none
    | none ↦ with_stubzones (check_config config).0 zones
  ]

  -- The configuration made from the options. Its fields that are not named in the source are zero.
  unfoldable pub config_of : Flags → Option Config
  config_of flags = elim (read_nameservers parse_ip flags.nameservers) [
    | none ↦ none
    | some nameservers ↦ elim (read_search_domains flags.search_domains) [
      | none ↦ none
      | some search_domains ↦ elim (checked parse_ip flags.listen) [
        | none ↦ none
        | some listen ↦ some (record {
          dns_addr = listen;
          systemd = flags.systemd;
          default_resolver = flags.default_resolver;
          search_domains = search_domains;
          enable_search = elim flags.append_search [ none ↦ flags.enable_search | some b ↦ b ];
          hostsfile = flags.hostsfile;
          poll_interval = flags.hostsfile_poll;
          round_robin = flags.round_robin;
          nameservers = nameservers;
          no_rec = flags.no_rec;
          read_timeout = pos 2_000_000_000;
          ttl = 0;
          hosts_ttl = 0;
          rcache = flags.rcache;
          rcache_ttl = flags.rcache_ttl;
          rstale_ttl = flags.rstale_ttl;
          rcache_ttl_from_resp = flags.rcache_ttl_from_resp;
          rcache_ttl_max = flags.rcache_ttl_max;
          rcache_non_negative = flags.rcache_non_negative;
          fwd_ndots = flags.fwd_ndots;
          ndots = flags.ndots;
          verbose = flags.verbose;
          stub = [];
        })
      ]
    ]
  ]

  -- The program's action up to the start of its server: the options, resolv.conf, `CheckConfig` and the stub
  -- zones. An error of `ResolvConf` is only logged.
  unfoldable pub start : Flags → Option ClientConfig → Option Config
  start flags conf = elim (config_of flags) [
    | none ↦ none
    | some config ↦ configure (resolv_conf dns config flags.ndots_set conf).0 flags.stubzones
  ]
