-- ===== src/Options/Declared/Defaults.antt =====
-- main.go: the program started with no option set.
use go_dnsmasq.Base.{◌≡◌, refl, false, not, List, [], Option, none, some, arith, if◌then◌else◌}
use go_dnsmasq.Base.Int.{ℤ, pos, ◌<ℤ◌, eq_ℤ}
use go_dnsmasq.Base.Text.{Bytes, lit, equal, split, trim_space, has_suffix, contains, contains_byte}
use go_dnsmasq.Options.Declared.Reads.{Agrees, flags_of-Agrees}
use go_dnsmasq.Dns.{DnsLib, ClientConfig}
use go_dnsmasq.HostPort.{split_host_port, atoi}
use go_dnsmasq.Hosts.Net.{Ip}
use go_dnsmasq.Options.{
  start, config_of, read_nameservers, read_search_domains, checked, with_port, validate_host_port,
  configure, with_stubzones,
}
use go_dnsmasq.Options.Action.{servers_of_conf}
use go_dnsmasq.Options.Declared.{
  Kind, string_flag, int_flag, app_flags, names_of, kind_of, Context, flags_of,
}
use go_dnsmasq.Server.Config.{Config, is_nil, resolv_conf, check_config, check_numbers}

abbrev string_default : Option Kind → Bytes
string_default (some (string_flag d)) = d
string_default k = []

abbrev int_default : Option Kind → ℤ
int_default (some (int_flag d)) = d
int_default k = pos 0

-- What the library gives where no option is set: the default that is declared, or the zero value.
abbrev pub unset : Context
unset = record {
  string = λ n. string_default (kind_of n app_flags);
  bool = λ n. false;
  int = λ n. int_default (kind_of n app_flags);
  string_slice = λ n. [];
  is_set = λ n. false;
}

-- The server listens on the local host, asks these servers, keeps no response and searches no domain.
abbrev pub default_config : List Bytes → ℤ → Config
default_config servers ndots = record {
  dns_addr = lit "127.0.0.1:53";
  systemd = false;
  default_resolver = false;
  search_domains = [];
  enable_search = false;
  hostsfile = [];
  poll_interval = pos 0;
  round_robin = false;
  nameservers = servers;
  no_rec = false;
  read_timeout = pos 2_000_000_000;
  ttl = 360;
  hosts_ttl = 10;
  rcache = pos 0;
  rcache_ttl = pos 60;
  rstale_ttl = pos 0;
  rcache_ttl_from_resp = false;
  rcache_ttl_max = pos 3600;
  rcache_non_negative = false;
  fwd_ndots = pos 0;
  ndots = ndots;
  verbose = false;
  stub = [];
}

-- The library reads a number of dots that is not 0 from resolv.conf.
abbrev pub HasNdots : Option ClientConfig → Type 0
HasNdots none = Unit {0}
HasNdots (some conf) = pos 0 <ℤ conf.ndots

abbrev ndots_of : Option ClientConfig → ℤ
ndots_of none = pos 1
ndots_of (some conf) = conf.ndots

taken_ndots : (n : ℤ) → (if not (eq_ℤ n (pos 1)) then n else pos 1) ≡ n
taken_ndots n = ground arith

module _ (parse_ip : Bytes → Ip) (dns : DnsLib)
    (local_host : is_nil (parse_ip (lit "127.0.0.1")) ≡ false) where
  listens : checked parse_ip (lit "127.0.0.1:53") ≡ some (lit "127.0.0.1:53")
  unfolding checked with_port validate_host_port has_suffix contains contains_byte split_host_port
      atoi
  listens = rw local_host refl

  config_of-unset :
      config_of parse_ip dns (flags_of unset)
      ≡ some (record (default_config [] (pos 1)) { ttl = 0; hosts_ttl = 0 })
  unfolding flags_of kind_of app_flags names_of equal split trim_space read_nameservers
      read_search_domains config_of
  config_of-unset = rw (listens, config_of) refl

  configured :
      (servers : List Bytes) (ndots : ℤ)
      → pos 0 <ℤ ndots
      → configure parse_ip dns (record (default_config servers ndots) { ttl = 0; hosts_ttl = 0 }) []
        ≡ (if is_nil servers then none else some (default_config servers ndots))
  unfolding configure check_config check_numbers with_stubzones
  configured servers ndots h = ground (arith, h)

  start-unset :
      (conf : Option ClientConfig)
      → HasNdots conf
      → start parse_ip dns (flags_of unset) conf ≡ (
          if is_nil (servers_of_conf parse_ip dns conf)
          then none
          else some (default_config (servers_of_conf parse_ip dns conf) (ndots_of conf)))
  unfolding start resolv_conf flags_of
  start-unset none h = rw (config_of-unset, start) (configured [] (pos 1) (omega arith))
  start-unset (some conf) h =
      rw (config_of-unset, start, taken_ndots conf.ndots)
        (configured (servers_of_conf parse_ip dns (some conf)) conf.ndots h)

  -- Started with no option set, the program listens on port 53 of the local host and asks the servers of
  -- resolv.conf, with no cache and no search; if resolv.conf cannot be read or names no server it ends with an
  -- error. The hypotheses: the library gives the declared default of every option, or the zero value of its type,
  -- where it is not set; 127.0.0.1 is an address; and the number of dots in resolv.conf is positive.
  pub start-default_config :
      (c : Context) (conf : Option ClientConfig)
      → Agrees c unset
      → HasNdots conf
      → start parse_ip dns (flags_of c) conf ≡ (
          if is_nil (servers_of_conf parse_ip dns conf)
          then none
          else some (default_config (servers_of_conf parse_ip dns conf) (ndots_of conf)))
  start-default_config c conf a h = rw (flags_of-Agrees c unset a) (start-unset conf h)
