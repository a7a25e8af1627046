-- ===== src/Options/Action.antt =====
-- main.go and server/config.go: from the options and resolv.conf to the configuration that the server runs with.
use go_dnsmasq.Base.{
  Holds-each, Holds, Holds-bind, Holds-checked, of_Holds, ◌≡◌, refl, subst, ◌∙◌, sym, inl, inr,
  Bool, true, false, List, [], ◌∷◌, Option, none, some, arith, if◌then◌else◌, All, Bool-cases, map,
}
use go_dnsmasq.Base.Text.{Bytes, split, trim_space}
use go_dnsmasq.Dns.{DnsLib, ClientConfig}
use go_dnsmasq.HostPort.{join_host_port}
use go_dnsmasq.HostPort.Laws.{IsBare, IsPort}
use go_dnsmasq.Hosts.Net.{Ip}
use go_dnsmasq.Options.{
  Flags, validate_host_port, checked, read_servers, read_nameservers, read_search_domains,
  config_of, with_stubzones, configure, start, add_stubzones,
}
use go_dnsmasq.Options.Address.{InRange, validate_host_port-join_host_port}
use go_dnsmasq.Options.Start.{IsReady, configure-IsReady}
use go_dnsmasq.Options.Stubs.{Valid, checked-Valid}
use go_dnsmasq.Server.Config.{Config, check_config, resolv_conf, is_nil}

-- The fields that nothing changes behind `ResolvConf`.
record Kept (c c' : Config) : Type 0 where
  dns_addr : c'.dns_addr ≡ c.dns_addr
  nameservers : c'.nameservers ≡ c.nameservers

check_config-Kept : (c : Config) → Kept c (check_config c).0
unfolding check_config
check_config-Kept c = record { dns_addr = ground arith; nameservers = ground arith }

module _ (parse_ip : Bytes → Ip) (dns : DnsLib) where
  -- The servers of resolv.conf are addresses with no brackets, and its port is one.
  pub record IsFile (conf : ClientConfig) : Type 0 where
    pub addresses : All (λ s. (is_nil (parse_ip s) ≡ false) × IsBare s) conf.servers
    pub port : IsPort conf.port
    pub in_range : InRange conf.port

  abbrev pub IsResolvConf : Option ClientConfig → Type 0
  IsResolvConf none = Unit {0}
  IsResolvConf (some conf) = IsFile conf

  -- The servers of resolv.conf, as `ResolvConf` writes them.
  abbrev pub servers_of_conf : Option ClientConfig → List Bytes
  servers_of_conf none = []
  servers_of_conf (some conf) = map (λ s. join_host_port s conf.port) conf.servers

  with_stubzones-Kept :
      (c : Config) (zones : List Bytes) → Holds (Kept c) (with_stubzones parse_ip dns c zones)
  unfolding with_stubzones
  with_stubzones-Kept c zones = elim (Bool-cases (is_nil zones)) [
    | inl no_zone ↦ rw no_zone (record { dns_addr = refl; nameservers = refl })
    | inr given ↦ rw given (
        Holds-bind (Kept c) (add_stubzones parse_ip dns zones []) _
          (λ m e. record { dns_addr = refl; nameservers = refl }))
  ]

  configure-Kept :
      (c : Config) (zones : List Bytes) (c' : Config)
      → configure parse_ip dns c zones ≡ some c'
      → Kept c c'
  unfolding configure
  configure-Kept c zones c' e =
      let k = check_config-Kept c in
      let h =
        Holds-checked (Kept (check_config c).0) (check_config c).1 _
          (λ _. with_stubzones-Kept (check_config c).0 zones) in
      let k' = of_Holds (Kept (check_config c).0) _ c' h e in
      record { dns_addr = k'.dns_addr ∙ k.dns_addr; nameservers = k'.nameservers ∙ k.nameservers }

  -- What `ResolvConf` leaves of the two fields.
  resolv_conf-nameservers :
      (c : Config) (ndots_set : Bool) (conf : Option ClientConfig)
      → ((resolv_conf dns c ndots_set conf).0.nameservers
          ≡ (if is_nil c.nameservers then servers_of_conf conf else c.nameservers))
        × ((resolv_conf dns c ndots_set conf).0.dns_addr ≡ c.dns_addr)
  unfolding resolv_conf
  resolv_conf-nameservers c ndots_set none = (nil_or c.nameservers, refl)
    where
      nil_or : (l : List Bytes) → l ≡ (if is_nil l then [] else l)
      nil_or [] = refl
      nil_or (x ∷ l) = refl
  resolv_conf-nameservers c ndots_set (some conf) = (refl, refl)

  conf-Valid :
      (conf : ClientConfig) (servers : List Bytes)
      → All (λ s. (is_nil (parse_ip s) ≡ false) × IsBare s) servers
      → IsPort conf.port
      → InRange conf.port
      → All (Valid parse_ip dns) (map (λ s. join_host_port s conf.port) servers)
  conf-Valid conf [] a p r = tt
  conf-Valid conf (s ∷ servers) ((ip, bare), a) p r = (
    validate_host_port-join_host_port parse_ip s conf.port ip bare p r,
    conf-Valid conf servers a p r,
  )

  servers_of_conf-Valid :
      (conf : Option ClientConfig)
      → IsResolvConf conf
      → All (Valid parse_ip dns) (servers_of_conf conf)
  servers_of_conf-Valid none h = tt
  servers_of_conf-Valid (some conf) h = conf-Valid conf conf.servers h.addresses h.port h.in_range

  read_servers-Valid :
      (hs : List Bytes) → Holds (All (Valid parse_ip dns)) (read_servers parse_ip hs)
  unfolding read_servers
  read_servers-Valid [] = tt
  read_servers-Valid (h ∷ hs) = Holds-bind _ (checked parse_ip (trim_space h)) _ (λ s e.
      Holds-bind _ (read_servers parse_ip hs) _ (λ others e'. (
        of_Holds (Valid parse_ip dns) _ s (checked-Valid parse_ip dns (trim_space h)) e,
        of_Holds (All (Valid parse_ip dns)) _ others (read_servers-Valid hs) e',
      )))

  read_nameservers-Valid :
      (ns : Bytes) → Holds (All (Valid parse_ip dns)) (read_nameservers parse_ip ns)
  unfolding read_nameservers
  read_nameservers-Valid ns = elim (Bool-cases (is_nil ns)) [
    | inl empty ↦ rw empty tt
    | inr given ↦ rw given (read_servers-Valid (split b',' ns))
  ]

  -- The configuration that the server is started with, by the options and resolv.conf.
  pub record Started (flags : Flags) (conf : Option ClientConfig) (c : Config) : Type 0 where
    pub ready : IsReady parse_ip dns c
    pub listens : validate_host_port parse_ip c.dns_addr ≡ true
    pub asks : All (λ s. validate_host_port parse_ip s ≡ true) c.nameservers
    pub own : List Bytes
    pub is_own : read_nameservers parse_ip flags.nameservers ≡ some own
    pub supersedes : c.nameservers ≡ (if is_nil own then servers_of_conf conf else own)

  -- What the options give, before resolv.conf is looked at.
  record Given (flags : Flags) (c : Config) : Type 0 where
    listens : Valid parse_ip dns c.dns_addr
    asks : All (Valid parse_ip dns) c.nameservers
    is_own : read_nameservers parse_ip flags.nameservers ≡ some c.nameservers

  config_of-Given : (flags : Flags) → Holds (Given flags) (config_of parse_ip dns flags)
  unfolding config_of
  config_of-Given flags = Holds-bind _ (read_nameservers parse_ip flags.nameservers) _ (λ own e.
      Holds-bind _ (read_search_domains parse_ip dns flags.search_domains) _ (λ domains _.
        Holds-bind _ (checked parse_ip flags.listen) _ (λ listen e'. record {
          listens =
              of_Holds (Valid parse_ip dns) _ listen (checked-Valid parse_ip dns flags.listen) e';
          asks =
              of_Holds (All (Valid parse_ip dns)) _ own (read_nameservers-Valid flags.nameservers)
                e;
          is_own = e;
        })))

  merged-Valid :
      (own : List Bytes) (conf : Option ClientConfig)
      → IsResolvConf conf
      → All (Valid parse_ip dns) own
      → All (Valid parse_ip dns) (if is_nil own then servers_of_conf conf else own)
  merged-Valid [] conf h a = servers_of_conf-Valid conf h
  merged-Valid (s ∷ own) conf h a = a

  configured :
      (flags : Flags) (conf : Option ClientConfig) (c c' : Config)
      → IsResolvConf conf
      → Given flags c
      → configure parse_ip dns (resolv_conf dns c flags.ndots_set conf).0 flags.stubzones ≡ some c'
      → Started flags conf c'
  configured flags conf c c' file g e =
      let r = resolv_conf-nameservers c flags.ndots_set conf in
      let k = configure-Kept (resolv_conf dns c flags.ndots_set conf).0 flags.stubzones c' e in
      let ns : c'.nameservers
          ≡ (if is_nil c.nameservers then servers_of_conf conf else c.nameservers) =
        k.nameservers ∙ r.0 in
      record {
        ready = configure-IsReady parse_ip dns _ flags.stubzones c' e;
        listens = rw (k.dns_addr ∙ r.1) g.listens;
        asks =
            subst (All (Valid parse_ip dns)) (sym ns) (merged-Valid c.nameservers conf file g.asks);
        own = c.nameservers;
        is_own = g.is_own;
        supersedes = ns;
      }

  -- The program listens on a valid address and port.
  pub start-listens :
      (flags : Flags) (conf : Option ClientConfig) (c : Config)
      → start parse_ip dns flags conf ≡ some c
      → validate_host_port parse_ip c.dns_addr ≡ true
  unfolding start
  start-listens flags conf c e =
      of_Holds Listens _ c
        (Holds-bind Listens (config_of parse_ip dns flags) _
          (λ c₀ e₀. of_configure c₀ (of_Holds (Given flags) _ c₀ (config_of-Given flags) e₀)))
        e
    where
      Listens : Config → Type 0
      Listens c = validate_host_port parse_ip c.dns_addr ≡ true

      of_configure :
          (c₀ : Config)
          → Given flags c₀
          → Holds Listens
              (configure parse_ip dns (resolv_conf dns c₀ flags.ndots_set conf).0 flags.stubzones)
      of_configure c₀ g = Holds-each (λ c' e'.
          rw
            (
              (configure-Kept (resolv_conf dns c₀ flags.ndots_set conf).0 flags.stubzones c'
                  e').dns_addr,
              (resolv_conf-nameservers c₀ flags.ndots_set conf).1,
            )
            g.listens)

  -- Where resolv.conf names its servers by addresses with no brackets, with a port in range, or could not be read,
  -- and the program starts its server: the configuration passes `CheckConfig`, every stub zone has a server, the
  -- program listens on and asks valid addresses and ports only, and the nameservers are those of the option
  -- if it names any, and else those of resolv.conf.
  pub start-Started :
      (flags : Flags) (conf : Option ClientConfig) (c : Config)
      → IsResolvConf conf
      → start parse_ip dns flags conf ≡ some c
      → Started flags conf c
  unfolding start
  start-Started flags conf c file e =
      of_Holds (Started flags conf) _ c
        (Holds-bind (Started flags conf) (config_of parse_ip dns flags) _ (λ c₀ e₀.
          Holds-each (λ c' e'.
            configured flags conf c₀ c' file
              (of_Holds (Given flags) _ c₀ (config_of-Given flags) e₀) e')))
        e
