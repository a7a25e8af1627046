-- ===== src/Options/Launch/Outcomes.antt =====
-- main.go: what the action of the program comes to.
use go_dnsmasq.Base.{
  ◌≡◌, refl, inl, inr, true, false, [], ◌∷◌, Bool, Option, none, some, arith, Option-cases,
  Bool-cases, ◌⊎◌, leb→le,
}
use go_dnsmasq.Base.Int.{ℤ, pos, ◌≤ℤ◌, leb_ℤ, ltb_ℤ}
use go_dnsmasq.Base.Text.{Bytes, split}
use go_dnsmasq.Cache.Evict.{IsBounded}
use go_dnsmasq.Cache.Insert.{new-IsBounded}
use go_dnsmasq.Dns.{DnsLib, ClientConfig}
use go_dnsmasq.Hosts.Build.{IsHostlist, ReadsAll, new_hostlist-IsHostlist}
use go_dnsmasq.Hosts.Net.{Ip}
use go_dnsmasq.Hosts.Poll.{Opened, unreadable, opened, new_hostsfile, load_host_entries}
use go_dnsmasq.Options.{config_of, configure, start}
use go_dnsmasq.Options.Declared.{Context, flags_of}
use go_dnsmasq.Options.Exit.{Rewritings, listen_host, register_host}
use go_dnsmasq.Options.Launch.{
  Running, Launched, fatal, running, launch_configured, launch_cleaned, launch,
}
use go_dnsmasq.ResolvConf.{store_address, clean}
use go_dnsmasq.ResolvConf.File.{
  IsTorn, store_file, clean_file, store_file-IsTorn, clean_file-IsTorn,
}
use go_dnsmasq.Server.Config.{Config, resolv_conf}
use go_dnsmasq.Server.Session.{new_server}
use go_dnsmasq.Stats.{Variables, collect}
use go_dnsmasq.Control.{new_control}

-- `NewHostsfile` fails, or its entries are well formed.
Opens : Opened → Type 0
Opens unreadable = Unit {0}
Opens (opened h polled) = IsHostlist h.hosts

module _ (parse_ip : Bytes → Ip) where
  new_hostsfile-Opens :
      (path : Bytes) (poll : ℤ) (content : Option Bytes)
      → ((text : Bytes) → content ≡ some text → ReadsAll parse_ip (split b'\n' text))
      → (o : Opened) × (new_hostsfile parse_ip path poll content ≡ some o) × Opens o
  unfolding new_hostsfile load_host_entries Opens
  new_hostsfile-Opens [] poll content reads = (_, refl, record { unique = tt; lower = tt })
  new_hostsfile-Opens (x ∷ path) poll none reads = (_, refl, tt)
  new_hostsfile-Opens (x ∷ path) poll (some text) reads =
      let (hs, e, i) = new_hostlist-IsHostlist parse_ip text (reads text refl) in
      (opened (record { hosts = hs; size = 0; mtime = pos 0 }) (ltb_ℤ (pos 0) poll), rw e refl, i)

-- The cache of a new server is within its bound, or its capacity is not positive.
empty-IsBounded : (c : Config) → (c.rcache ≤ℤ pos 0) ⊎ IsBounded (new_server c).cache
unfolding new_server
empty-IsBounded c = elim (Bool-cases (leb_ℤ c.rcache (pos 0))) [
  | inl off ↦ inl (leb→le _ _ off)
  | inr on ↦ inr (
      new-IsBounded c.rcache c.rcache_ttl c.rstale_ttl c.rcache_ttl_from_resp c.rcache_ttl_max
        (ground (arith, on)))
]

pub same_launched : {Addr : Type 0} {a b : Launched Addr} → some a ≡ some b → a ≡ b
same_launched e = cc

module _ {Addr : Type 0} (parse_ip : Bytes → Ip) (dns : DnsLib)
    (client_config : Bytes → Option ClientConfig) (read_file : Bytes → Option Bytes)
    (resolve : Bytes → Option Addr) (vars : Variables) where
  -- What the program runs with on this resolv.conf.
  pub record Runs (f : Rewritings) (ctx : Context) (file : Bytes) (r : Running Addr) : Type 0 where
    pub cleaned : IsTorn (clean file) file (clean_file f.starting file)
    pub started :
        start parse_ip dns (flags_of ctx) (client_config (clean_file f.starting file).0)
        ≡ some r.config
    pub hosts : IsHostlist r.hosts.hosts
    pub server : r.server ≡ new_server r.config
    pub cache : (r.config.rcache ≤ℤ pos 0) ⊎ IsBounded r.server.cache
    pub unregistered :
        (r.config.default_resolver ≡ true) ⊎ (r.resolv ≡ (clean_file f.starting file).0)
    pub registered :
        (r.config.default_resolver ≡ false)
        ⊎ ((written : Bool) × IsTorn
              (store_address (listen_host r.config) (clean_file f.starting file).0)
              (clean_file f.starting file).0
              (r.resolv, written))

  -- A fatal error leaves resolv.conf as it was, or as `Clean` leaves it.
  unfoldable pub Outcome : Rewritings → Context → Bytes → Launched Addr → Type 0
  Outcome f ctx file (fatal left) =
      (left ≡ file) ⊎ ((written : Bool) × IsTorn (clean file) file (left, written))
  Outcome f ctx file (running r) = Runs f ctx file r

  register_host-IsTorn :
      (f : Rewritings) (c : Config) (cleaned : Bytes)
      → ((c.default_resolver ≡ true) ⊎ (register_host f c cleaned ≡ cleaned))
        × ((c.default_resolver ≡ false)
            ⊎ ((written : Bool) × IsTorn
                  (store_address (listen_host c) cleaned)
                  cleaned
                  (register_host f c cleaned, written)))
  unfolding register_host
  register_host-IsTorn f c cleaned = elim (Bool-cases c.default_resolver) [
    | inl on ↦ (
      inl on,
      inr (
        (store_file f.storing (listen_host c) cleaned).1,
        rw on (store_file-IsTorn f.storing (listen_host c) cleaned),
      ),
    )
    | inr off ↦ (inr (rw off refl), inl off)
  ]

  launch_configured-Outcome :
      (f : Rewritings) (ctx : Context) (file : Bytes) (c : Config)
      → ((path text : Bytes) → read_file path ≡ some text → ReadsAll parse_ip (split b'\n' text))
      → start parse_ip dns (flags_of ctx) (client_config (clean_file f.starting file).0) ≡ some c
      → (l : Launched Addr) × (launch_configured parse_ip dns client_config read_file resolve vars f
            c
            (clean_file f.starting file).0
          ≡ some l)
        × Outcome f ctx file l
  unfolding launch_configured Outcome Opens
  launch_configured-Outcome f ctx file c reads e =
      let (o, runs, opens) =
        new_hostsfile-Opens parse_ip c.hostsfile c.poll_interval (read_file c.hostsfile)
          (reads c.hostsfile) in
      by o runs opens
    where
      cleaned : Bytes
      cleaned = (clean_file f.starting file).0

      by :
          (o : Opened)
          → new_hostsfile parse_ip c.hostsfile c.poll_interval (read_file c.hostsfile) ≡ some o
          → Opens o
          → (l : Launched Addr) × (launch_configured parse_ip dns client_config read_file resolve
                vars f c cleaned
              ≡ some l)
            × Outcome f ctx file l
      by unreadable runs opens = (
        fatal cleaned,
        rw (runs, launch_configured) refl,
        inr ((clean_file f.starting file).1, clean_file-IsTorn f.starting file),
      )
      by (opened h polled) runs opens = (
        running (record {
          config = c;
          hosts = h;
          polled = polled;
          server = new_server c;
          control = new_control (pos 8053);
          exporters = collect resolve vars;
          resolv = register_host f c cleaned;
        }),
        rw (runs, launch_configured) refl,
        record {
          cleaned = clean_file-IsTorn f.starting file;
          started = e;
          hosts = opens;
          server = refl;
          cache = empty-IsBounded c;
          unregistered = (register_host-IsTorn f c cleaned).0;
          registered = (register_host-IsTorn f c cleaned).1;
        },
      )

  launch_cleaned-Outcome :
      (f : Rewritings) (ctx : Context) (file : Bytes) (c₀ : Config)
      → ((path text : Bytes) → read_file path ≡ some text → ReadsAll parse_ip (split b'\n' text))
      → config_of parse_ip dns (flags_of ctx) ≡ some c₀
      → (l : Launched Addr) × (launch_cleaned parse_ip dns client_config read_file resolve vars f
            (flags_of ctx)
            c₀
            (clean_file f.starting file).0
          ≡ some l)
        × Outcome f ctx file l
  unfolding launch_cleaned Outcome start
  launch_cleaned-Outcome f ctx file c₀ reads e =
      let flags = flags_of ctx in
      let cleaned = (clean_file f.starting file).0 in
      elim (Option-cases (
        configure parse_ip dns (resolv_conf dns c₀ flags.ndots_set (client_config cleaned)).0
          flags.stubzones)) [
            | inl refused ↦ (
              fatal cleaned,
              rw (refused, launch_cleaned) refl,
              inr ((clean_file f.starting file).1, clean_file-IsTorn f.starting file),
            )
            | inr (c, accepted) ↦
                let (l, runs, o) =
                  launch_configured-Outcome f ctx file c reads (rw (e, start, accepted) refl) in
                (l, rw (accepted, launch_cleaned) runs, o)
          ]

  pub launch-Outcome :
      (f : Rewritings) (ctx : Context) (file : Bytes)
      → ((path text : Bytes) → read_file path ≡ some text → ReadsAll parse_ip (split b'\n' text))
      → (l : Launched Addr) × (launch parse_ip dns client_config read_file resolve vars f ctx file
          ≡ some l)
        × Outcome f ctx file l
  unfolding launch Outcome
  launch-Outcome f ctx file reads = elim (Option-cases (config_of parse_ip dns (flags_of ctx))) [
    | inl refused ↦ (fatal file, rw (refused, launch) refl, inl refl)
    | inr (c₀, given) ↦
        let (l, runs, o) = launch_cleaned-Outcome f ctx file c₀ reads given in
        (l, rw (given, launch) runs, o)
  ]
