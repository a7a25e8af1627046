-- ===== src/Options/Declared.antt =====
-- main.go: the options that the program declares, and how its action reads them.
pub mod Reads
pub mod Defaults
use go_dnsmasq.Base.{Bool, true, false, List, [], ◌∷◌, Option, none, some, if◌then◌else◌, any, map}
use go_dnsmasq.Base.Int.{ℤ, pos}
use go_dnsmasq.Base.Text.{Bytes, lit, equal, split, trim_space}
use go_dnsmasq.Options.{Flags}

-- The types of options of the library github.com/urfave/cli, with the default where one can be declared.
pub data Kind : Type 0 where
  string_flag : Bytes → Kind
  int_flag : ℤ → Kind
  bool_flag : Kind
  string_slice_flag : Kind

-- The help texts are left out.
pub record Flag : Type 0 where
  pub name : Bytes
  pub kind : Kind
  pub env_var : Bytes
  pub hidden : Bool

abbrev flag : Bytes → Kind → Bytes → Flag
flag name kind env_var = record { name = name; kind = kind; env_var = env_var; hidden = false }

-- `app.Flags`.
unfoldable pub app_flags : List Flag
app_flags =
    flag (lit "listen, l") (string_flag (lit "127.0.0.1:53")) (lit "DNSMASQ_LISTEN")
    ∷ flag (lit "default-resolver, d") bool_flag (lit "DNSMASQ_DEFAULT")
    ∷ flag (lit "nameservers, n") (string_flag []) (lit "DNSMASQ_SERVERS")
    ∷ flag (lit "stubzones, z") string_slice_flag (lit "DNSMASQ_STUB")
    ∷ flag (lit "hostsfile, f") (string_flag []) (lit "DNSMASQ_HOSTSFILE")
    ∷ flag (lit "hostsfile-poll, p") (int_flag (pos 0)) (lit "DNSMASQ_POLL")
    ∷ flag (lit "search-domains, s") (string_flag []) (lit "DNSMASQ_SEARCH_DOMAINS,DNSMASQ_SEARCH,")
    ∷ record (flag (lit "append-search-domains, a") bool_flag (lit "DNSMASQ_APPEND")) {
      hidden = true;
    }
    ∷ flag (lit "enable-search, search") bool_flag (lit "DNSMASQ_ENABLE_SEARCH")
    ∷ flag (lit "rcache, r") (int_flag (pos 0)) (lit "DNSMASQ_RCACHE")
    ∷ flag (lit "rcache-ttl") (int_flag (pos 60)) (lit "DNSMASQ_RCACHE_TTL")
    ∷ flag (lit "rcache-ttl-from-resp") bool_flag (lit "GO_DNSMASQ_RSTALE_TTL_FROM_RESP")
    ∷ flag (lit "rcache-ttl-max") (int_flag (pos 3600)) (lit "GO_DNSMASQ_RCACHE_TTL_MAX")
    ∷ flag (lit "rstale-ttl") (int_flag (pos 0)) (lit "GO_DNSMASQ_RSTALE_TTL")
    ∷ flag (lit "rcache-non-negative") bool_flag (lit "GO_DNSMASQ_CACHE_NON_NEGATIVE")
    ∷ flag (lit "no-rec") bool_flag (lit "DNSMASQ_NOREC")
    ∷ flag (lit "fwd-ndots") (int_flag (pos 0)) (lit "DNSMASQ_FWD_NDOTS")
    ∷ flag (lit "ndots") (int_flag (pos 1)) (lit "DNSMASQ_NDOTS")
    ∷ flag (lit "round-robin") bool_flag (lit "DNSMASQ_RR")
    ∷ flag (lit "systemd") bool_flag (lit "DNSMASQ_SYSTEMD")
    ∷ flag (lit "verbose") bool_flag (lit "DNSMASQ_VERBOSE")
    ∷ flag (lit "syslog") bool_flag (lit "DNSMASQ_SYSLOG")
    ∷ flag (lit "multithreading") bool_flag (lit "DNSMASQ_MULTITHREADING")
    ∷ []

-- The library reads the names of an option apart at commas, and trims them.
unfoldable pub names_of : Flag → List Bytes
names_of f = map trim_space (split b',' f.name)

-- The kind of the option with this name, if one is declared.
unfoldable pub kind_of : Bytes → List Flag → Option Kind
unfolding names_of
kind_of n [] = none
kind_of n (f ∷ fs) =
    let other = kind_of n fs in if any (equal n) (names_of f) then some f.kind else other

-- What the action asks a `cli.Context`.
pub record Context : Type 0 where
  pub string : Bytes → Bytes
  pub bool : Bytes → Bool
  pub int : Bytes → ℤ
  pub string_slice : Bytes → List Bytes
  pub is_set : Bytes → Bool

-- The reads of the action, and of `ResolvConf`.
unfoldable pub flags_of : Context → Flags
flags_of c = record {
  listen = c.string (lit "listen");
  default_resolver = c.bool (lit "default-resolver");
  nameservers = c.string (lit "nameservers");
  stubzones = c.string_slice (lit "stubzones");
  hostsfile = c.string (lit "hostsfile");
  hostsfile_poll = c.int (lit "hostsfile-poll");
  search_domains = c.string (lit "search-domains");
  append_search =
      if c.is_set (lit "append-search-domains")
      then some (c.bool (lit "append-search-domains"))
      else none;
  enable_search = c.bool (lit "enable-search");
  rcache = c.int (lit "rcache");
  rcache_ttl = c.int (lit "rcache-ttl");
  rcache_ttl_from_resp = c.bool (lit "rcache-ttl-from-resp");
  rcache_ttl_max = c.int (lit "rcache-ttl-max");
  rstale_ttl = c.int (lit "rstale-ttl");
  rcache_non_negative = c.bool (lit "rcache-non-negative");
  no_rec = c.bool (lit "no-rec");
  fwd_ndots = c.int (lit "fwd-ndots");
  ndots = c.int (lit "ndots");
  ndots_set = c.is_set (lit "ndots");
  round_robin = c.bool (lit "round-robin");
  systemd = c.bool (lit "systemd");
  verbose = c.bool (lit "verbose");
  syslog = c.bool (lit "syslog");
  multithreading = c.bool (lit "multithreading");
}
