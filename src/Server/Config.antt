-- ===== src/Server/Config.antt =====
-- server/config.go: the options, `CheckConfig` and `appendDomain`.
pub mod Check
use go_dnsmasq.Base.{
  ℕ, Bool, true, false, not, ◌&&◌, List, [], ◌∷◌, ◌++◌, Option, none, some, if◌then◌else◌, ltb,
  length, ◌==◌, map,
}
use go_dnsmasq.Base.Int.{ℤ, pos, ltb_ℤ, leb_ℤ, eq_ℤ}
use go_dnsmasq.Base.Text.{Bytes, lit, has_prefix, trim_left, to_lower}
use go_dnsmasq.Base.Map.{Map}
use go_dnsmasq.Dns.{DnsLib, ClientConfig}
use go_dnsmasq.HostPort.{join_host_port}

pub record Config : Type 0 where
  pub dns_addr : Bytes
  pub systemd : Bool
  pub default_resolver : Bool
  pub search_domains : List Bytes
  pub enable_search : Bool
  pub hostsfile : Bytes
  pub poll_interval : ℤ
  pub round_robin : Bool
  pub nameservers : List Bytes
  pub no_rec : Bool
  pub read_timeout : ℤ
  pub ttl : ℕ
  pub hosts_ttl : ℕ
  pub rcache : ℤ
  pub rcache_ttl : ℤ
  pub rstale_ttl : ℤ
  pub rcache_ttl_from_resp : Bool
  pub rcache_ttl_max : ℤ
  pub rcache_non_negative : Bool
  pub fwd_ndots : ℤ
  pub ndots : ℤ
  pub verbose : Bool
  pub stub : Map (List Bytes)

pub data ConfigError : Type 0 where
  no_listen no_nameservers bad_rcache bad_rcache_ttl bad_rstale_ttl : ConfigError
  bad_rcache_ttl_max bad_ndots bad_fwd_ndots : ConfigError

abbrev pub is_nil {ℓ} : {A : Type ℓ} → List A → Bool
is_nil [] = true
is_nil (x ∷ xs) = false

-- The checks of `CheckConfig` on the numbers, in order.
unfoldable pub check_numbers : Config → Option ConfigError
check_numbers c =
    if ltb_ℤ c.rcache (pos 0)
    then some bad_rcache
    else if leb_ℤ c.rcache_ttl (pos 0)
    then some bad_rcache_ttl
    else if ltb_ℤ c.rstale_ttl (pos 0)
    then some bad_rstale_ttl
    else if ltb_ℤ c.rcache_ttl_max (pos 0)
    then some bad_rcache_ttl_max
    else if leb_ℤ c.ndots (pos 0)
    then some bad_ndots
    else if ltb_ℤ c.fwd_ndots (pos 0)
    then some bad_fwd_ndots
    else none

-- Search is switched off where there is no search domain.
abbrev pub without_search : Config → Config
without_search c =
    if c.enable_search && is_nil c.search_domains then record c { enable_search = false } else c

-- `CheckConfig`: the configuration after the call, and the error returned.
unfoldable pub check_config : Config → Config × Option ConfigError
unfolding check_numbers
check_config c =
    if is_nil c.dns_addr
    then (c, some no_listen)
    else if not c.no_rec && is_nil c.nameservers
    then (c, some no_nameservers)
    else (let c' = without_search c in
        elim (check_numbers c') [
          | some e ↦ (c', some e)
          | none ↦ (record c' { ttl = 360; hosts_ttl = 10; stub = [] }, none)
        ])

-- `appendDomain`.
unfoldable pub append_domain : DnsLib → Bytes → Bytes → Bytes
unfolding trim_left has_prefix
append_domain dns s1 s2 =
    let s2' =
      if ltb 0 (length s2) && has_prefix s2 (lit ".") then trim_left (λ c. c == b'.') s2 else s2 in
    dns.fqdn s1 ++ dns.fqdn s2'

-- `ResolvConf`, where `dns.ClientConfigFromFile` returned `conf`, or an error: the configuration after the call,
-- and whether it returned nil. `ndots_set` is `ctx.IsSet("ndots")`.
unfoldable pub resolv_conf : DnsLib → Config → Bool → Option ClientConfig → Config × Bool
resolv_conf dns config ndots_set none = (config, false)
resolv_conf dns config ndots_set (some conf) = (
  record config {
    nameservers =
        if is_nil config.nameservers
        then map (λ s. join_host_port s conf.port) conf.servers
        else config.nameservers;
    ndots = if not ndots_set && not (eq_ℤ conf.ndots (pos 1)) then conf.ndots else config.ndots;
    search_domains =
        if config.enable_search && is_nil config.search_domains
        then map (λ s. dns.fqdn (to_lower s)) conf.search
        else config.search_domains;
  },
  true,
)
