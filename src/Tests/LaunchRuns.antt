-- ===== src/Tests/LaunchRuns.antt =====
-- The start of the program as a whole, on concrete inputs.
use go_dnsmasq.Base.{◌≡◌, refl, sym, subst, true, false, [], ◌∷◌, Option, none, some, All, ◌⊎◌}
use go_dnsmasq.Base.Int.{pos}
use go_dnsmasq.Base.Text.{Bytes, lit, equal, split_after}
use go_dnsmasq.Control.{new_control}
use go_dnsmasq.Hosts.Poll.{new_hostsfile}
use go_dnsmasq.Options.Declared.{Context, flags_of, kind_of, app_flags, names_of}
use go_dnsmasq.Options.Declared.Defaults.{unset, default_config}
use go_dnsmasq.Options.Exit.{Rewritings, register_host, after_exit, by_error}
use go_dnsmasq.Options.Launch.{Running, Launched, running, launch}
use go_dnsmasq.Options.Launch.Restart.{Fails, launch-after_exit}
use go_dnsmasq.ResolvConf.File.{clean_file}
use go_dnsmasq.ResolvConf.RoundTrip.{IsPlain}
use go_dnsmasq.Server.Config.{Config}
use go_dnsmasq.Server.Session.{new_server}
use go_dnsmasq.Stats.{Variables, collect}
use go_dnsmasq.Tests.OptionsRuns.{one_line, one_line_lem, all_well, conf, program}
use go_dnsmasq.Tests.ResolvRuns.{no_faults, text, text-IsPlain, cleaned_text}
use go_dnsmasq.Tests.Samples.{dns}

abbrev vars : Variables
vars = record { graphite_server = []; graphite_prefix = []; stathat_user = [] }

-- Only the program's own entry is asked for; there is no hosts file.
abbrev as_default : Context
as_default = record unset { bool = λ n. equal n (lit "default-resolver") }

abbrev go : Rewritings → Bytes → Option (Launched Bytes)
go f file = launch one_line dns (λ t. some conf) (λ path. none) (λ a. some a) vars f as_default file

-- The opening of resolv.conf fails at the start.
abbrev unopened : Rewritings
unopened = record all_well { starting = record no_faults { opening = true } }

abbrev launched : Running Bytes
launched =
    let c : Config = record (default_config (lit "10.0.0.1:53" ∷ lit "[::1]:53" ∷ []) (pos 2)) {
      default_resolver = true;
    } in
    record {
      config = c;
      hosts = record { hosts = []; size = 0; mtime = pos 0 };
      polled = false;
      server = new_server c;
      control = new_control (pos 8053);
      exporters = [];
      resolv = register_host all_well c (clean_file no_faults text).0;
    }

goes : go all_well text ≡ some (running launched)
unfolding program launch flags_of kind_of app_flags names_of new_hostsfile collect one_line
goes = refl

launch-after_exit_example :
    (go all_well (after_exit all_well launched.config by_error text) ≡ some (running launched))
    ⊎ Fails all_well all_well launched.config text
launch-after_exit_example =
    launch-after_exit one_line dns (λ t. some conf) (λ path. none) (λ a. some a) vars all_well
      all_well as_default text launched (λ path t h. absurd (cc)) one_line_lem
      (subst (λ t. All IsPlain (split_after b'\n' t)) (sym cleaned_text) text-IsPlain) goes refl
