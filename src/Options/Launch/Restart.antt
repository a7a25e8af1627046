-- ===== src/Options/Launch/Restart.antt =====
-- main.go: a start of the program after an error of its server.
use go_dnsmasq.Base.{
  ◌≡◌, refl, ap, sym, ◌∙◌, inl, inr, true, false, Option, none, some, arith, All, Option-cases, ◌⊎◌,
  subst,
}
use go_dnsmasq.Base.Text.{Bytes, contains_byte, split, split_after}
use go_dnsmasq.Dns.{DnsLib, ClientConfig}
use go_dnsmasq.Hosts.Build.{ReadsAll}
use go_dnsmasq.Hosts.Net.{Ip}
use go_dnsmasq.Hosts.Poll.{unreadable, opened, new_hostsfile}
use go_dnsmasq.Options.{config_of, start}
use go_dnsmasq.Options.Declared.{Context, flags_of}
use go_dnsmasq.Options.Exit.{
  Rewritings, listen_host, register_host, after_exit, by_error, Misses, not_cleaned, not_stored,
  start-Leaves,
}
use go_dnsmasq.Options.Launch.{
  Running, Launched, fatal, running, launch_configured, launch_cleaned, launch,
}
use go_dnsmasq.Options.Launch.Outcomes.{Outcome, launch-Outcome, same_launched}
use go_dnsmasq.ResolvConf.{store_address, clean}
use go_dnsmasq.ResolvConf.File.{
  store_file, clean_file, store_file-IsTorn, clean_file-IsTorn, IsTorn-cases,
}
use go_dnsmasq.ResolvConf.RoundTrip.{IsPlain}
use go_dnsmasq.Server.Config.{Config, is_nil}
use go_dnsmasq.Stats.{Variables, collect}
use go_dnsmasq.Control.{new_control}
use go_dnsmasq.Server.Session.{new_server}
use go_dnsmasq.Base.Int.{pos}

-- A rewriting of resolv.conf returned an error: at the first start, at its registration, or at one of those of the
-- second start.
pub data Fails (f f' : Rewritings) (c : Config) (file : Bytes) : Type 0 where
  at_first : Misses f c file → Fails f f' c file
  at_second_clean :
      (clean_file f'.starting (store_address (listen_host c) (clean file))).1 ≡ false
      → Fails f f' c file
  at_second_store :
      (store_file f'.storing (listen_host c) (clean file)).1 ≡ false → Fails f f' c file

-- A registration that returns nil writes the new text.
register_host-store_address :
    (f : Rewritings) (c : Config) (t : Bytes)
    → c.default_resolver ≡ true
    → (register_host f c t ≡ store_address (listen_host c) t)
      ⊎ ((store_file f.storing (listen_host c) t).1 ≡ false)
unfolding register_host
register_host-store_address f c t on =
    elim (IsTorn-cases (store_address (listen_host c) t) t (store_file f.storing (listen_host c) t)
      (store_file-IsTorn f.storing (listen_host c) t)) [ inl e ↦ inl (rw on e) | inr e ↦ inr e ]

-- No rewriting returned an error, and then each wrote its new text, or one did.
all_written :
    (f f' : Rewritings) (c : Config) (file : Bytes)
    → c.default_resolver ≡ true
    → (((clean_file f.starting file).0 ≡ clean file)
        × ((clean_file f'.starting (store_address (listen_host c) (clean file))).0
            ≡ clean (store_address (listen_host c) (clean file)))
        × (register_host f c (clean file) ≡ register_host f' c (clean file)))
      ⊎ Fails f f' c file
all_written f f' c file on =
    let new = store_address (listen_host c) (clean file) in
    elim (IsTorn-cases (clean file) file (clean_file f.starting file)
      (clean_file-IsTorn f.starting file)) [
        | inr bad ↦ inr (at_first (not_cleaned bad))
        | inl first ↦
            elim (IsTorn-cases (clean new) new (clean_file f'.starting new)
              (clean_file-IsTorn f'.starting new)) [
                | inr bad ↦ inr (at_second_clean bad)
                | inl second ↦ elim (register_host-store_address f c (clean file) on) [
                  | inr bad ↦ inr (at_first (not_stored bad))
                  | inl stored ↦ elim (register_host-store_address f' c (clean file) on) [
                    | inr bad ↦ inr (at_second_store bad)
                    | inl again ↦ inl (first, second, stored ∙ sym again)
                  ]
                ]
              ]
      ]

module _ {Addr : Type 0} (parse_ip : Bytes → Ip) (dns : DnsLib)
    (client_config : Bytes → Option ClientConfig) (read_file : Bytes → Option Bytes)
    (resolve : Bytes → Option Addr) (vars : Variables) where
  same_configured :
      (f f' : Rewritings) (c : Config) (t : Bytes)
      → register_host f c t ≡ register_host f' c t
      → launch_configured parse_ip dns client_config read_file resolve vars f c t
        ≡ launch_configured parse_ip dns client_config read_file resolve vars f' c t
  unfolding launch_configured
  same_configured f f' c t e = ap with_resolv e
    where
      with_resolv : Bytes → Option (Launched Addr)
      with_resolv x =
          elim (new_hostsfile parse_ip c.hostsfile c.poll_interval (read_file c.hostsfile)) [
            | none ↦ none
            | some unreadable ↦ some (fatal t)
            | some (opened h polled) ↦ some (
                running (record {
                  config = c;
                  hosts = h;
                  polled = polled;
                  server = new_server c;
                  control = new_control (pos 8053);
                  exporters = collect resolve vars;
                  resolv = x;
                }))
          ]

  -- The action, by the configuration that it comes to.
  launch-configured :
      (f : Rewritings) (ctx : Context) (file : Bytes) (c : Config)
      → start parse_ip dns (flags_of ctx) (client_config (clean_file f.starting file).0) ≡ some c
      → launch parse_ip dns client_config read_file resolve vars f ctx file
        ≡ launch_configured parse_ip dns client_config read_file resolve vars f c
            (clean_file f.starting file).0
  unfolding launch launch_cleaned start
  launch-configured f ctx file c e = elim (Option-cases (config_of parse_ip dns (flags_of ctx))) [
    | inl refused ↦ absurd (ground (arith, rw (refused, start) at e))
    | inr (c₀, given) ↦ rw (given, launch, launch_cleaned, rw (given, start) at e) refl
  ]

  restarted :
      (f f' : Rewritings) (ctx : Context) (file left : Bytes) (r : Running Addr)
      → (clean_file f.starting file).0 ≡ clean file
      → (clean_file f'.starting left).0 ≡ clean file
      → start parse_ip dns (flags_of ctx) (client_config (clean_file f.starting file).0)
        ≡ some r.config
      → launch parse_ip dns client_config read_file resolve vars f ctx file ≡ some (running r)
      → register_host f r.config (clean file) ≡ register_host f' r.config (clean file)
      → launch parse_ip dns client_config read_file resolve vars f' ctx left ≡ some (running r)
  restarted f f' ctx file left r first second started e same =
      let started' =
        subst (λ (t : Bytes). start parse_ip dns (flags_of ctx) (client_config t) ≡ some r.config)
          (first ∙ sym second) started in
      launch-configured f' ctx left r.config started'
      ∙ ap
          (λ (t : Bytes).
            launch_configured parse_ip dns client_config read_file resolve vars f' r.config t)
          second
      ∙ sym (same_configured f f' r.config (clean file) same)
      ∙ ap
          (λ (t : Bytes).
            launch_configured parse_ip dns client_config read_file resolve vars f r.config t)
          (sym first)
      ∙ sym (launch-configured f ctx file r.config started)
      ∙ e

  -- A start after an error of the server comes to what the first start came to: the entry that the server left in
  -- resolv.conf as default nameserver is not read back, whatever else fails, unless a rewriting of resolv.conf
  -- returned an error, at the first start or at the second. The hypotheses: no line of the hosts file faults, an
  -- address has no newline in it, and every line of the cleaned resolv.conf is plain, as for `StoreAddress` and
  -- `Clean` alone.
  pub launch-after_exit :
      (f f' : Rewritings) (ctx : Context) (file : Bytes) (r : Running Addr)
      → ((path text : Bytes) → read_file path ≡ some text → ReadsAll parse_ip (split b'\n' text))
      → ((h : Bytes) → is_nil (parse_ip h) ≡ false → contains_byte b'\n' h ≡ false)
      → All IsPlain (split_after b'\n' (clean file))
      → launch parse_ip dns client_config read_file resolve vars f ctx file ≡ some (running r)
      → r.config.default_resolver ≡ true
      → (launch parse_ip dns client_config read_file resolve vars f' ctx
            (after_exit f r.config by_error file)
          ≡ some (running r))
        ⊎ Fails f f' r.config file
  unfolding Outcome
  launch-after_exit f f' ctx file r reads no_newline plain e on =
      let (l, runs, o) =
        launch-Outcome parse_ip dns client_config read_file resolve vars f ctx file reads in
      let outcome =
        subst (Outcome parse_ip dns client_config read_file resolve vars f ctx file)
          (same_launched (sym runs ∙ e)) o in
      let c = r.config in
      let left =
        start-Leaves parse_ip dns no_newline (flags_of ctx) _ c file f outcome.started on plain in
      elim (all_written f f' c file on) [
        | inr bad ↦ inr bad
        | inl (first, second, same) ↦ elim left.failed [
          | inr m ↦ inr (at_first m)
          | inl entered ↦ inl (
              restarted f f' ctx file (after_exit f c by_error file) r first
                (ap (λ (t : Bytes). (clean_file f'.starting t).0) entered ∙ second ∙ left.recovers)
                outcome.started e same)
        ]
      ]
