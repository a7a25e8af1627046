-- ===== src/Options/Exit.antt =====
-- main.go: what the program does to resolv.conf from its start to its end.
use go_dnsmasq.Base.{
  ◌≡◌, refl, ap, inl, inr, true, false, [], Option, none, some, arith, All, if◌then◌else◌,
  Option-cases, ◌⊎◌, ◌∙◌,
}
use go_dnsmasq.Base.Text.{Bytes, split_after, contains_byte}
use go_dnsmasq.Dns.{DnsLib, ClientConfig}
use go_dnsmasq.HostPort.{split_host_port}
use go_dnsmasq.Hosts.Net.{Ip}
use go_dnsmasq.Options.{Flags, validate_host_port, start}
use go_dnsmasq.Options.Action.{start-listens}
use go_dnsmasq.ResolvConf.{store_address, clean}
use go_dnsmasq.ResolvConf.File.{
  Faults, store_file, clean_file, store_file-IsTorn, clean_file-IsTorn, IsTorn-cases,
}
use go_dnsmasq.ResolvConf.RoundTrip.{IsPlain, clean-store_address}
use go_dnsmasq.Server.Config.{Config, is_nil}

-- The host that the program listens on; an error of `net.SplitHostPort` is not looked at.
unfoldable pub listen_host : Config → Bytes
listen_host c = elim (split_host_port c.dns_addr) [ none ↦ [] | some (host, port) ↦ host ]

-- The calls that fail in the three rewritings of resolv.conf: `Clean` before the configuration, `StoreAddress` behind
-- it, and `Clean` at the end.
pub record Rewritings : Type 0 where
  pub starting : Faults
  pub storing : Faults
  pub ending : Faults

-- The registration as default nameserver; an error of it is only logged.
unfoldable pub register_host : Rewritings → Config → Bytes → Bytes
unfolding listen_host
register_host f c cleaned =
    if c.default_resolver then (store_file f.storing (listen_host c) cleaned).0 else cleaned

-- resolv.conf while the program runs.
unfoldable pub registered : Rewritings → Config → Bytes → Bytes
unfolding register_host
registered f c file = register_host f c (clean_file f.starting file).0

-- Why the program ends: by a signal, or by an error of the server. An error ends it in `log.Fatalf`, which runs no
-- deferred function.
pub data ExitReason : Type 0 where
  by_signal by_error : ExitReason

-- resolv.conf behind the end of the program.
unfoldable pub after_exit : Rewritings → Config → ExitReason → Bytes → Bytes
unfolding registered
after_exit f c by_signal file =
    if c.default_resolver
    then (clean_file f.ending (registered f c file)).0
    else registered f c file
after_exit f c by_error file = registered f c file

-- `Clean` at the start returned an error, or `StoreAddress` on what it left.
pub data Misses (f : Rewritings) (c : Config) (file : Bytes) : Type 0 where
  not_cleaned : (clean_file f.starting file).1 ≡ false → Misses f c file
  not_stored : (store_file f.storing (listen_host c) (clean file)).1 ≡ false → Misses f c file

-- resolv.conf behind a program that was its default nameserver: what `Clean` makes of it, or the same with the
-- entry of the program, which `Clean` takes out; unless a rewriting returned an error.
pub record Leaves (f : Rewritings) (c : Config) (file : Bytes) : Type 0 where
  pub signalled :
      (after_exit f c by_signal file ≡ clean file)
      ⊎ (Misses f c file
          ⊎ ((clean_file f.ending (store_address (listen_host c) (clean file))).1 ≡ false))
  pub failed :
      (after_exit f c by_error file ≡ store_address (listen_host c) (clean file)) ⊎ Misses f c file
  pub recovers : clean (store_address (listen_host c) (clean file)) ≡ clean file

-- Either resolv.conf has the entry of the program, or one of the two rewritings returned an error.
pub registered-store_address :
    (f : Rewritings) (c : Config) (file : Bytes)
    → c.default_resolver ≡ true
    → (registered f c file ≡ store_address (listen_host c) (clean file)) ⊎ Misses f c file
unfolding registered register_host
registered-store_address f c file on =
    elim (IsTorn-cases (clean file) file (clean_file f.starting file)
      (clean_file-IsTorn f.starting file)) [
        | inr e ↦ inr (not_cleaned e)
        | inl cleaned ↦
            elim (IsTorn-cases (store_address (listen_host c) (clean file)) (clean file)
              (store_file f.storing (listen_host c) (clean file))
              (store_file-IsTorn f.storing (listen_host c) (clean file))) [
                | inr e ↦ inr (not_stored e)
                | inl stored ↦ inl (rw (on, cleaned) stored)
              ]
      ]

after_exit_signalled :
    (f : Rewritings) (c : Config) (file : Bytes)
    → c.default_resolver ≡ true
    → after_exit f c by_signal file ≡ (clean_file f.ending (registered f c file)).0
unfolding after_exit
after_exit_signalled f c file on = ground (arith, on)

pub after_exit_failed :
    (f : Rewritings) (c : Config) (file : Bytes)
    → after_exit f c by_error file ≡ registered f c file
unfolding after_exit
after_exit_failed f c file = refl

module _ (parse_ip : Bytes → Ip) (dns : DnsLib) where
  of_valid :
      (addr : Bytes)
      → validate_host_port parse_ip addr ≡ true
      → (p : Bytes × Bytes) × (split_host_port addr ≡ some p) × (is_nil (parse_ip p.0) ≡ false)
  unfolding validate_host_port
  of_valid addr v = elim (Option-cases (split_host_port addr)) [
    | inl e ↦ absurd (ground (arith, e, v))
    | inr (p, e) ↦ (p, e, ground (arith, e, v))
  ]

  -- Whatever calls of the file system fail, a program that was started as the default nameserver leaves resolv.conf
  -- as `Clean` makes it, where a signal ends it, and where an error of its server ends it the same with its own
  -- entry, unless the rewriting at its start, the registration or, with a signal, the rewriting at its end returned
  -- an error. `Clean` takes that entry out again. The hypotheses: an address has no newline in it, and every line of
  -- the cleaned text is plain, as for `StoreAddress` and `Clean` alone.
  pub start-Leaves :
      ((h : Bytes) → is_nil (parse_ip h) ≡ false → contains_byte b'\n' h ≡ false)
      → (flags : Flags) (conf : Option ClientConfig) (c : Config) (file : Bytes) (f : Rewritings)
      → start parse_ip dns flags conf ≡ some c
      → c.default_resolver ≡ true
      → All IsPlain (split_after b'\n' (clean file))
      → Leaves f c file
  unfolding listen_host
  start-Leaves no_newline flags conf c file f e on plain =
      let (p, split, ip) = of_valid c.dns_addr (start-listens parse_ip dns flags conf c e) in
      let back : clean (store_address (listen_host c) (clean file)) ≡ clean file =
        rw (listen_host, split) (clean-store_address p.0 (clean file) (no_newline p.0 ip) plain) in
      let new = store_address (listen_host c) (clean file) in
      record {
        signalled = elim (registered-store_address f c file on) [
          | inr m ↦ inr (inl m)
          | inl stored ↦
              elim (IsTorn-cases (clean new) new (clean_file f.ending new)
                (clean_file-IsTorn f.ending new)) [
                  | inr e ↦ inr (inr e)
                  | inl cleaned ↦ inl (
                      after_exit_signalled f c file on
                      ∙ ap (λ (t : Bytes). (clean_file f.ending t).0) stored
                      ∙ cleaned
                      ∙ back)
                ]
        ];
        failed = rw (after_exit_failed f c file) (registered-store_address f c file on);
        recovers = back;
      }
