-- ===== src/Options/Named.antt =====
-- main.go: which servers a stub zone gets.
use go_dnsmasq.Base.{
  Holds, Holds-bind, Holds-checked, of_Holds, ◌≡◌, refl, ap, sym, subst, ◌∙◌, inl, inr, ◌||◌, List,
  [], ◌∷◌, ◌++◌, Option, none, some, arith, append_assoc, Bool-cases, ltb, if◌then◌else◌,
}
use go_dnsmasq.Base.Text.{Bytes, equal, split, trim_space}
use go_dnsmasq.Base.Map.{Map, lookup}
use go_dnsmasq.Base.Map.Laws.{lookup-assign}
use go_dnsmasq.Base.Text.Laws.{equal→eq}
use go_dnsmasq.Dns.{DnsLib, ClientConfig}
use go_dnsmasq.Hosts.Net.{Ip}
use go_dnsmasq.Server.Config.{Config, check_config, resolv_conf, is_nil}
use go_dnsmasq.Options.{
  Flags, with_port, servers_of, append_server, checked, add_domains, add_hosts, add_segments,
  add_stubzones, with_stubzones, configure, config_of, start,
}

append_nil : (l : List Bytes) → l ≡ l ++ []
append_nil [] = refl
append_nil (x ∷ l) = ap (◌∷◌ x) (append_nil l)

servers_of-append_server :
    (zone k server : Bytes) (m : Map (List Bytes))
    → servers_of zone (append_server k server m)
      ≡ servers_of zone m ++ (if equal k zone then server ∷ [] else [])
unfolding servers_of append_server
servers_of-append_server zone k server m = elim (Bool-cases (equal k zone)) [
  | inl same ↦
      rw (servers_of, append_server, lookup-assign k zone (servers_of k m ++ server ∷ []) m, same)
        (ap (λ z. servers_of z m ++ server ∷ []) (equal→eq k zone same))
  | inr other ↦
      rw (servers_of, append_server, lookup-assign k zone (servers_of k m ++ server ∷ []) m, other)
        (append_nil (servers_of zone m))
]

module _ (parse_ip : Bytes → Ip) (dns : DnsLib) (zone : Bytes) where
  -- The server, once for each of the domains that is the zone.
  abbrev pub for_domains : Bytes → List Bytes → List Bytes
  for_domains server [] = []
  for_domains server (d ∷ ds) =
      (if equal (dns.fqdn (trim_space d)) zone then server ∷ [] else []) ++ for_domains server ds

  abbrev pub for_hosts : List Bytes → List Bytes → List Bytes
  for_hosts domains [] = []
  for_hosts domains (h ∷ hs) =
      for_domains (with_port (trim_space h)) domains ++ for_hosts domains hs

  abbrev pub for_segments : List Bytes → List Bytes
  for_segments (domains ∷ hosts ∷ []) = for_hosts (split b',' domains) (split b',' hosts)
  for_segments _ = []

  -- The servers that the values of the option name for the zone, in the order of the option.
  abbrev pub named : List Bytes → List Bytes
  named [] = []
  named (v ∷ values) = for_segments (split b'/' v) ++ named values

  -- The zone has these servers more in the second map.
  abbrev Gains : Map (List Bytes) → List Bytes → Map (List Bytes) → Type 0
  Gains m more m' = servers_of zone m' ≡ servers_of zone m ++ more

  Gains-trans :
      (m m' m'' : Map (List Bytes)) (xs ys : List Bytes)
      → Gains m xs m'
      → Gains m' ys m''
      → Gains m (xs ++ ys) m''
  Gains-trans m m' m'' xs ys e e' =
      e' ∙ ap (λ (l : List Bytes). l ++ ys) e ∙ append_assoc (servers_of zone m) xs ys

  Gains-then :
      (m m' : Map (List Bytes)) (xs ys : List Bytes) (o : Option (Map (List Bytes)))
      → Gains m xs m'
      → Holds (Gains m' ys) o
      → Holds (Gains m (xs ++ ys)) o
  Gains-then m m' xs ys none e h = tt
  Gains-then m m' xs ys (some m'') e h = Gains-trans m m' m'' xs ys e h

  add_domains-Gains :
      (server : Bytes) (ds : List Bytes) (m : Map (List Bytes))
      → Holds (Gains m (for_domains server ds)) (add_domains parse_ip dns server ds m)
  unfolding add_domains
  add_domains-Gains server [] m = append_nil (servers_of zone m)
  add_domains-Gains server (d ∷ ds) m = elim (Bool-cases (ltb (dns.count_label d) 1)) [
    | inl bad ↦ rw bad tt
    | inr good ↦
        let m₁ = append_server (dns.fqdn (trim_space d)) server m in
        rw good (
          Gains-then m m₁ _ _ (add_domains parse_ip dns server ds m₁)
            (servers_of-append_server zone (dns.fqdn (trim_space d)) server m)
            (add_domains-Gains server ds m₁))
  ]

  checked_as : (h server : Bytes) → checked parse_ip h ≡ some server → with_port h ≡ server
  unfolding checked
  checked_as h server e = ground (arith, e)

  add_hosts-Gains :
      (ds hs : List Bytes) (m : Map (List Bytes))
      → Holds (Gains m (for_hosts ds hs)) (add_hosts parse_ip dns ds hs m)
  unfolding add_hosts
  add_hosts-Gains ds [] m = append_nil (servers_of zone m)
  add_hosts-Gains ds (h ∷ hs) m =
      Holds-bind (Gains m (for_hosts ds (h ∷ hs))) (checked parse_ip (trim_space h)) _ (λ server e.
        Holds-bind (Gains m (for_hosts ds (h ∷ hs))) (add_domains parse_ip dns server ds m) _
          (λ m' e'.
            let g =
              of_Holds (Gains m (for_domains server ds)) _ m' (add_domains-Gains server ds m) e' in
            Gains-then m m' (for_domains (with_port (trim_space h)) ds) (for_hosts ds hs)
              (add_hosts parse_ip dns ds hs m')
              (subst (λ s. Gains m (for_domains s ds) m') (sym (checked_as (trim_space h) server e))
                g)
              (add_hosts-Gains ds hs m')))

  add_segments-Gains :
      (segments : List Bytes) (m : Map (List Bytes))
      → Holds (Gains m (for_segments segments)) (add_segments parse_ip dns segments m)
  unfolding add_segments
  add_segments-Gains [] m = tt
  add_segments-Gains (ds ∷ []) m = tt
  add_segments-Gains (ds ∷ hs ∷ w ∷ ws) m = tt
  add_segments-Gains (ds ∷ hs ∷ []) m = elim (Bool-cases (is_nil ds || is_nil hs)) [
    | inl bad ↦ rw bad tt
    | inr good ↦ rw good (add_hosts-Gains (split b',' ds) (split b',' hs) m)
  ]

  add_stubzones-Gains :
      (values : List Bytes) (m : Map (List Bytes))
      → Holds (Gains m (named values)) (add_stubzones parse_ip dns values m)
  unfolding add_stubzones
  add_stubzones-Gains [] m = append_nil (servers_of zone m)
  add_stubzones-Gains (v ∷ values) m =
      Holds-bind (Gains m (named (v ∷ values))) (add_segments parse_ip dns (split b'/' v) m) _
        (λ m' e.
          Gains-then m m' (for_segments (split b'/' v)) (named values)
            (add_stubzones parse_ip dns values m')
            (of_Holds (Gains m (for_segments (split b'/' v))) _ m'
              (add_segments-Gains (split b'/' v) m) e)
            (add_stubzones-Gains values m'))

  with_stubzones-named :
      (c : Config) (values : List Bytes)
      → c.stub ≡ []
      → Holds
          (λ (c' : Config). servers_of zone c'.stub ≡ named values)
          (with_stubzones parse_ip dns c values)
  unfolding with_stubzones servers_of lookup
  with_stubzones-named c [] e = rw e refl
  with_stubzones-named c (v ∷ values) e =
      Holds-bind (λ (c' : Config). servers_of zone c'.stub ≡ named (v ∷ values))
        (add_stubzones parse_ip dns (v ∷ values) []) _
        (λ m e'.
          of_Holds (Gains [] (named (v ∷ values))) _ m (add_stubzones-Gains (v ∷ values) []) e')

  no_stubs : (c : Config) → (check_config c).1 ≡ none → (check_config c).0.stub ≡ []
  unfolding check_config
  no_stubs c e = ground (arith, e)

  configure-named :
      (c : Config) (values : List Bytes)
      → Holds
          (λ (c' : Config). servers_of zone c'.stub ≡ named values)
          (configure parse_ip dns c values)
  unfolding configure
  configure-named c values =
      Holds-checked (λ (c' : Config). servers_of zone c'.stub ≡ named values) (check_config c).1 _
        (λ e. with_stubzones-named (check_config c).0 values (no_stubs c e))

-- In a program that was started the servers of each stub zone are those that the values of the option name for
-- it, each server with its port, in the order of the option; a zone that no value names has none.
pub start-named :
    (parse_ip : Bytes → Ip) (dns : DnsLib) (flags : Flags) (conf : Option ClientConfig) (c : Config)
    → start parse_ip dns flags conf ≡ some c
    → (zone : Bytes) → servers_of zone c.stub ≡ named parse_ip dns zone flags.stubzones
unfolding start
start-named parse_ip dns flags conf c e zone =
    of_Holds (λ (c' : Config). servers_of zone c'.stub ≡ named parse_ip dns zone flags.stubzones) _
      c
      (Holds-bind
        (λ (c' : Config). servers_of zone c'.stub ≡ named parse_ip dns zone flags.stubzones)
        (config_of parse_ip dns flags) _
        (λ c₀ _.
          configure-named parse_ip dns zone (resolv_conf dns c₀ flags.ndots_set conf).0
            flags.stubzones))
      e
