-- ===== src/Tests/OptionsRuns.antt =====
-- The options, on concrete inputs.
use go_dnsmasq.Base.{
  ◌≡◌, refl, sym, subst, inl, inr, arith, Bool-cases, true, false, List, [], ◌∷◌, none, some,
  if◌then◌else◌, All, Bool, not, ◌&&◌, ◌++◌, any, is_some,
}
use go_dnsmasq.Base.Int.{pos}
use go_dnsmasq.Base.Text.{
  Bytes, to_lower, lit, equal, has_suffix, contains, contains_byte, split, trim_space,
}
use go_dnsmasq.Base.Map.{lookup, assign}
use go_dnsmasq.HostPort.{split_host_port, join_host_port, atoi}
use go_dnsmasq.Hosts.Net.{Ip}
use go_dnsmasq.Options.Address.{written, checked_address}
use go_dnsmasq.Options.Action.{IsFile, Started, start-Started}
use go_dnsmasq.Options.Named.{named, start-named}
use go_dnsmasq.Options.Exit.{Rewritings, Leaves, start-Leaves}
use go_dnsmasq.ResolvConf.RoundTrip.{IsPlain}
use go_dnsmasq.Server.Config.{is_nil}
use go_dnsmasq.Tests.ResolvRuns.{no_faults, text, text-IsPlain, cleaned_text}
use go_dnsmasq.Options.{servers_of}
use go_dnsmasq.Base.Text.{split_after}
use go_dnsmasq.Options.Service.{Served, start-Served}
use go_dnsmasq.Server.Session.{Request}
use go_dnsmasq.Server.Session.Replies.{IsRequest}
use go_dnsmasq.Cache.Evict.{keys-Ranges}
use go_dnsmasq.Dns.{ClientConfig}
use go_dnsmasq.Options.{
  Flags, checked, start, with_port, append_server, validate_host_port, configure, read_nameservers,
  config_of, read_search_domains,
}
use go_dnsmasq.Options.Start.{IsReady, configure_accepts}
use go_dnsmasq.Options.Declared.{Flag, app_flags, names_of, kind_of, Context, flags_of}
use go_dnsmasq.Options.Declared.Reads.{Agrees, flags_of-Agrees}
use go_dnsmasq.Options.Declared.Defaults.{unset, default_config, start-default_config}
use go_dnsmasq.Base.Text.Laws.{equal→eq}
use go_dnsmasq.Options.Stubs.{IsZone}
use go_dnsmasq.Server.Config.{Config, check_config, resolv_conf}
use go_dnsmasq.Tests.Samples.{
  dns, config, request, now, env, env-IsFair, dns-RepliesWell, dns-LenWell,
}

abbrev pub parse_ip : Bytes → Ip
parse_ip h = if equal h (lit "localhost") then [] else h

abbrev zones : List Bytes
zones = lit "lan.,dev./10.0.0.9, 10.0.0.8:53" ∷ lit "lan./10.0.0.7" ∷ []

abbrev started : Config
started = record (check_config config).0 {
  stub =
      (lit "lan.", lit "10.0.0.9:53" ∷ lit "10.0.0.8:53" ∷ lit "10.0.0.7:53" ∷ [])
      ∷ (lit "dev.", lit "10.0.0.9:53" ∷ lit "10.0.0.8:53" ∷ [])
      ∷ [];
}

unfoldable pub program : Unit {0}
unfolding contains_byte configure check_config split equal trim_space with_port has_suffix contains
    append_server lookup assign validate_host_port split_host_port join_host_port atoi
    read_nameservers config_of start resolv_conf read_search_domains to_lower
program = tt

zones_read : configure parse_ip dns config zones ≡ some started
unfolding program
zones_read = refl

-- A server by name is refused, and so is a port that is no number.
refused :
    (configure parse_ip dns config (lit "lan./localhost" ∷ []) ≡ none)
    × (configure parse_ip dns config (lit "lan./10.0.0.9:x" ∷ []) ≡ none)
    × (configure parse_ip dns config (lit "lan." ∷ []) ≡ none)
unfolding program
refused = (refl, refl, refl)

read_two :
    read_nameservers parse_ip (lit "9.9.9.9, 8.8.8.8")
    ≡ some (lit "9.9.9.9:53" ∷ lit "8.8.8.8:53" ∷ [])
unfolding program
read_two = refl

zones-IsZone : All (λ z. IsZone parse_ip dns (split b'/' z)) zones
unfolding program IsZone
zones-IsZone =
    ((refl, (refl, (refl, tt)), (refl, (refl, tt))), ((refl, (refl, tt), (refl, tt)), tt))

config_accepted : (check_config config).1 ≡ none
unfolding check_config
config_accepted = refl

configure_accepts_example :
    (c' : Config) × (configure parse_ip dns config zones ≡ some c') × IsReady parse_ip dns c'
configure_accepts_example = configure_accepts parse_ip dns config zones config_accepted zones-IsZone

abbrev pub flags : Flags
flags = record {
  listen = lit "127.0.0.1";
  default_resolver = false;
  nameservers = lit "9.9.9.9";
  stubzones = zones;
  hostsfile = [];
  hostsfile_poll = pos 0;
  search_domains = [];
  append_search = none;
  enable_search = true;
  rcache = pos 4;
  rcache_ttl = pos 60;
  rcache_ttl_from_resp = false;
  rcache_ttl_max = pos 3600;
  rstale_ttl = pos 0;
  rcache_non_negative = true;
  no_rec = false;
  fwd_ndots = pos 0;
  ndots = pos 1;
  ndots_set = false;
  round_robin = true;
  systemd = false;
  verbose = false;
  syslog = false;
  multithreading = false;
}

abbrev pub conf : ClientConfig
conf = record {
  servers = lit "10.0.0.1" ∷ lit "::1" ∷ [];
  search = lit "Lan." ∷ [];
  port = lit "53";
  ndots = pos 2;
}

-- The option names a nameserver, so that of resolv.conf is not taken; its search domain and its ndots are.
abbrev pub launched : Config
launched = record started {
  nameservers = lit "9.9.9.9:53" ∷ [];
  search_domains = lit "lan." ∷ [];
  enable_search = true;
  ndots = pos 2;
}

conf-IsFile : IsFile parse_ip dns conf
unfolding program
conf-IsFile = record {
  addresses = ((refl, (refl, refl)), ((refl, (refl, refl)), tt));
  port = (refl, (refl, refl));
  in_range = (refl, refl);
}

pub flags_taken : start parse_ip dns flags (some conf) ≡ some launched
unfolding program
flags_taken = refl

-- Without the option the nameservers are those of resolv.conf, an address with colons in brackets.
servers_of_file :
    (resolv_conf dns (record config { nameservers = [] }) false (some conf)).0.nameservers
    ≡ lit "10.0.0.1:53" ∷ lit "[::1]:53" ∷ []
unfolding program
servers_of_file = refl

start-Started_example : Started parse_ip dns flags (some conf) launched
start-Started_example =
    start-Started parse_ip dns flags (some conf) launched conf-IsFile flags_taken

checked_address_example :
    (checked parse_ip (written parse_ip (lit "::1")) ≡ some (join_host_port (lit "::1") (lit "53")))
    × (checked parse_ip (join_host_port (lit "::1") (lit "5353"))
        ≡ some (join_host_port (lit "::1") (lit "5353")))
unfolding program
checked_address_example =
    checked_address parse_ip (lit "::1") (lit "5353") refl (refl, refl) (refl, (refl, refl))
      (refl, refl)

abbrev pub requests : List Request
requests =
    record { msg = request; tcp = false; now = now }
    ∷ record { msg = request; tcp = true; now = now }
    ∷ []

pub requests-IsRequest : All IsRequest requests
requests-IsRequest =
    (record { asks = refl; fair = keys-Ranges }, (record { asks = refl; fair = keys-Ranges }, tt))

start-Served_example : Served parse_ip dns launched (lit "dev") env requests
start-Served_example =
    start-Served parse_ip dns flags (some conf) launched (lit "dev") env requests dns-RepliesWell
      dns-LenWell env-IsFair requests-IsRequest flags_taken

start-named_example : servers_of (lit "dev.") launched.stub ≡ named parse_ip dns (lit "dev.") zones
start-named_example = start-named parse_ip dns flags (some conf) launched flags_taken (lit "dev.")

-- An address parser that takes every text without a newline.
unfoldable pub one_line : Bytes → Ip
one_line h = if contains_byte b'\n' h then [] else h

pub one_line_lem : (h : Bytes) → is_nil (one_line h) ≡ false → contains_byte b'\n' h ≡ false
unfolding one_line
one_line_lem h e = elim (Bool-cases (contains_byte b'\n' h)) [
  | inl broken ↦ absurd (ground (arith, broken, e))
  | inr whole ↦ whole
]

default_taken :
    start one_line dns (record flags { default_resolver = true }) (some conf)
    ≡ some (record launched { default_resolver = true })
unfolding program one_line
default_taken = refl

abbrev pub all_well : Rewritings
all_well = record { starting = no_faults; storing = no_faults; ending = no_faults }

start-Leaves_example : Leaves all_well (record launched { default_resolver = true }) text
start-Leaves_example =
    start-Leaves one_line dns one_line_lem (record flags { default_resolver = true }) (some conf)
      (record launched { default_resolver = true }) text all_well default_taken refl
      (subst (λ t. All IsPlain (split_after b'\n' t)) (sym cleaned_text) text-IsPlain)

abbrev flat : (Flag → List Bytes) → List Flag → List Bytes
flat f [] = []
flat f (x ∷ xs) = f x ++ flat f xs

abbrev distinct : List Bytes → Bool
distinct [] = true
distinct (n ∷ ns) = not (any (equal n) ns) && distinct ns

-- A context that also takes an option that is not declared for set.
abbrev coloured : Context
coloured = record unset { is_set = λ n. equal n (lit "colour") }

coloured-Agrees : Agrees coloured unset
unfolding kind_of app_flags names_of equal split trim_space
coloured-Agrees = record {
  strings = λ n d h. refl;
  ints = λ n d h. refl;
  bools = λ n h. refl;
  slices = λ n h. refl;
  set = λ n h. elim (Bool-cases (equal n (lit "colour"))) [
    | inl e ↦ absurd (
        undeclared (subst (λ (m : Bytes). is_some (kind_of m app_flags) ≡ true) (equal→eq n _ e) h))
    | inr e ↦ e
  ];
}
  where
    undeclared : is_some (kind_of (lit "colour") app_flags) ≡ true → ⊥
    undeclared h = cc

flags_of-Agrees_example : flags_of coloured ≡ flags_of unset
flags_of-Agrees_example = flags_of-Agrees coloured unset coloured-Agrees

local_host : is_nil (parse_ip (lit "127.0.0.1")) ≡ false
unfolding equal
local_host = refl

start-default_config_example :
    start parse_ip dns (flags_of coloured) (some conf)
    ≡ some (default_config (lit "10.0.0.1:53" ∷ lit "[::1]:53" ∷ []) (pos 2))
unfolding program
start-default_config_example =
    start-default_config parse_ip dns local_host coloured (some conf) coloured-Agrees (omega arith)

-- No two options share a name.
names_differ : distinct (flat names_of app_flags) ≡ true
unfolding app_flags names_of equal split trim_space
names_differ = refl
