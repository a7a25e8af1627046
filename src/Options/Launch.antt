-- ===== src/Options/Launch.antt =====
-- main.go and control/control.go: the action of the program up to its goroutines.
pub mod Outcomes
pub mod Restart
use go_dnsmasq.Base.{Bool, List, Option, none, some}
use go_dnsmasq.Base.Int.{pos}
use go_dnsmasq.Base.Text.{Bytes}
use go_dnsmasq.Control.{Control, new_control}
use go_dnsmasq.Dns.{DnsLib, ClientConfig}
use go_dnsmasq.Hosts.Net.{Ip}
use go_dnsmasq.Hosts.Poll.{Hostsfile, unreadable, opened, new_hostsfile}
use go_dnsmasq.Options.{Flags, config_of, configure}
use go_dnsmasq.Options.Declared.{Context, flags_of}
use go_dnsmasq.Options.Exit.{Rewritings, register_host}
use go_dnsmasq.ResolvConf.File.{clean_file}
use go_dnsmasq.Server.Config.{Config, resolv_conf}
use go_dnsmasq.Server.Session.{new_server}
use go_dnsmasq.Server.World.{World}
use go_dnsmasq.Stats.{Exporter, Variables, collect}

-- What the program runs with: its configuration, the hosts file and whether it is polled, the state of the server,
-- the control server, the exporters, and resolv.conf.
pub record Running (Addr : Type 0) : Type 0 where
  pub config : Config
  pub hosts : Hostsfile
  pub polled : Bool
  pub server : World
  pub control : Control
  pub exporters : List (Exporter Addr)
  pub resolv : Bytes

-- `log.Fatal` leaves resolv.conf only.
pub data Launched (Addr : Type 0) : Type 0 where
  fatal : Bytes → Launched Addr
  running : Running Addr → Launched Addr

-- Arguments: `net.ParseIP`, the DNS library, `dns.ClientConfigFromFile` on the text of resolv.conf, the reading of a
-- file, `net.ResolveTCPAddr`, the environment, and the calls that fail in the rewritings of resolv.conf.
module _ {Addr : Type 0} (parse_ip : Bytes → Ip) (dns : DnsLib)
    (client_config : Bytes → Option ClientConfig) (read_file : Bytes → Option Bytes)
    (resolve : Bytes → Option Addr) (vars : Variables) (f : Rewritings) where
  -- Behind `CheckConfig` and the stub zones.
  unfoldable pub launch_configured : Config → Bytes → Option (Launched Addr)
  launch_configured c cleaned =
      elim (new_hostsfile parse_ip c.hostsfile c.poll_interval (read_file c.hostsfile)) [
        | none ↦ none
        | some unreadable ↦ some (fatal cleaned)
        | some (opened h polled) ↦ some (
            running (record {
              config = c;
              hosts = h;
              polled = polled;
              server = new_server c;
              control = new_control (pos 8053);
              exporters = collect resolve vars;
              resolv = register_host f c cleaned;
            }))
      ]

  -- Behind the checks of the options, on resolv.conf as `Clean` leaves it.
  unfoldable pub launch_cleaned : Flags → Config → Bytes → Option (Launched Addr)
  unfolding launch_configured
  launch_cleaned flags c₀ cleaned =
      elim (configure parse_ip dns (resolv_conf dns c₀ flags.ndots_set (client_config cleaned)).0
        flags.stubzones) [ none ↦ some (fatal cleaned) | some c ↦ launch_configured c cleaned ]

  -- The action on resolv.conf with this text; `none` is a fault of the parser of the hosts file.
  unfoldable pub launch : Context → Bytes → Option (Launched Addr)
  unfolding launch_cleaned
  launch ctx file = elim (config_of parse_ip dns (flags_of ctx)) [
    | none ↦ some (fatal file)
    | some c₀ ↦ launch_cleaned (flags_of ctx) c₀ (clean_file f.starting file).0
  ]
