-- ===== src/Tests/HostsRuns.antt =====
-- The hosts file, on concrete inputs.
use go_dnsmasq.Base.{
  ℕ, ◌≡◌, refl, true, false, Bool, List, Option, map, ◌==◌, [], ◌∷◌, ◌++◌, none, some,
  if◌then◌else◌,
}
use go_dnsmasq.Base.Int.{pos}
use go_dnsmasq.Base.Text.{
  Bytes, lit, equal, contains, contains_byte, replace_all, split, trim_space, to_lower, trim_suffix,
}
use go_dnsmasq.Hosts.{
  Hostlist, words, parse_line, new_hostlist, find_hosts, hostsfile_find_hosts, equal_hostname,
}
use go_dnsmasq.Hosts.Build.{ReadsAll}
use go_dnsmasq.Hosts.Line.{Outcome, parse_line-Outcome}
use go_dnsmasq.Hosts.Match.{Resolves, find_hosts-Resolves}
use go_dnsmasq.Hosts.Poll.Follow.{latest, at_tick, Current, new_hostsfile-Current}
use go_dnsmasq.Hosts.Net.{Ip, v4_in_v6, is_global_unicast}
use go_dnsmasq.Hosts.Poll.{Metadata, opened, new_hostsfile, monitor_host_entries, Hostsfile}

program : Unit {0}
unfolding new_hostlist equal split words contains replace_all trim_space to_lower contains_byte
    find_hosts trim_suffix is_global_unicast equal_hostname
program = tt

abbrev ip : ℕ → Ip
ip last = v4_in_v6 ++ 10 ∷ 0 ∷ 0 ∷ last ∷ []

parse_ip : Bytes → Ip
parse_ip s =
    if equal s (lit "10.0.0.1") then ip 1 else if equal s (lit "10.0.0.2") then ip 2 else []

abbrev text : Bytes
text = lit "10.0.0.1  DB.lan\n#10.0.0.2 old\n10.0.0.2\t*.dev.lan # all\n"

abbrev hosts : Hostlist
hosts =
    record { domain = lit "db.lan"; ip = ip 1; ipv6 = false; wildcard = false }
    ∷ record { domain = lit "dev.lan"; ip = ip 2; ipv6 = false; wildcard = true }
    ∷ []

parse_text : new_hostlist parse_ip text ≡ some hosts
unfolding program parse_ip
parse_text = refl

-- A host name of one byte makes the parser fault.
parse_short : parse_line parse_ip (lit "10.0.0.1 a") ≡ none
unfolding program parse_ip
parse_short = refl

-- A wildcard covers one label, not two.
find_wild :
    (hostsfile_find_hosts hosts (lit "web.dev.lan.") ≡ ip 2 ∷ [])
    × (hostsfile_find_hosts hosts (lit "a.web.dev.lan.") ≡ [])
unfolding program hostsfile_find_hosts
find_wild = (refl, refl)

parse_line-Outcome_example :
    Outcome parse_ip (lit "10.0.0.1 a") (parse_line parse_ip (lit "10.0.0.1 a"))
parse_line-Outcome_example = parse_line-Outcome parse_ip (lit "10.0.0.1 a")

text-ReadsAll : ReadsAll parse_ip (split b'\n' text)
unfolding program parse_ip
text-ReadsAll = (refl, (refl, (refl, (refl, tt))))

find_hosts-Resolves_example :
    Resolves hosts (lit "web.dev.lan") (find_hosts hosts (lit "web.dev.lan"))
find_hosts-Resolves_example = find_hosts-Resolves hosts (lit "web.dev.lan")

abbrev loaded : Hostsfile
loaded = record { hosts = []; size = 10; mtime = pos 5 }

-- The file is empty at first.
abbrev content_of : Metadata → Bytes
content_of s = if s.1 == 0 then [] else text

reads : (s : Metadata) → ReadsAll parse_ip (split b'\n' (content_of s))
unfolding program parse_ip
reads s = at_size (s.1 == 0)
  where
    at_size : (empty : Bool) → ReadsAll parse_ip (split b'\n' (if empty then [] else text))
    at_size true = (refl, tt)
    at_size false = (refl, (refl, (refl, (refl, tt))))

-- A tick that finds no metadata, and one that finds the new file.
abbrev stats : List (Option Metadata)
stats = none ∷ some (pos 5, 55) ∷ []

new_hostsfile-Current_example :
    (h h' : Hostsfile) × (new_hostsfile parse_ip
        (lit "/etc/hosts")
        (pos 30)
        (some (content_of (pos 0, 0)))
      ≡ some (opened h true))
    × (monitor_host_entries parse_ip h (map (at_tick parse_ip content_of reads) stats) ≡ some h')
    × Current parse_ip content_of reads (latest (pos 0, 0) stats) h'
new_hostsfile-Current_example =
    new_hostsfile-Current parse_ip content_of reads b'/' (lit "etc/hosts") (pos 30) stats
