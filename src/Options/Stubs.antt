-- ===== src/Options/Stubs.antt =====
-- main.go: the reading of the stub zones, and what holds of the map that it builds.
use go_dnsmasq.Base.{
  Holds, Holds-bind, bind_some, of_Holds, ◌≡◌, refl, inl, inr, true, false, ◌||◌, List, [], ◌∷◌,
  ◌++◌, some, arith, All, All-append, subst, sym, Occurs, Bool-cases, Option-cases, ltb,
  if◌then◌else◌,
}
use go_dnsmasq.Base.Text.{Bytes, equal, split, trim_space}
use go_dnsmasq.Base.Map.{Map, lookup, assign}
use go_dnsmasq.Dns.{DnsLib}
use go_dnsmasq.Hosts.Net.{Ip}
use go_dnsmasq.Server.Config.{is_nil}
use go_dnsmasq.Options.{
  with_port, servers_of, append_server, validate_host_port, checked, add_domains, add_hosts,
  add_segments, add_stubzones,
}

module _ {V : Type 0} (P : V → Type 0) where
  pub assign-All :
      (k : Bytes) (v : V) (m : Map V) → P v → All (λ e. P e.1) m → All (λ e. P e.1) (assign k v m)
  unfolding assign
  assign-All k v [] p a = (p, tt)
  assign-All k v ((j, w) ∷ m) p a = elim (Bool-cases (equal j k)) [
    | inl same ↦ rw same (p, a.1)
    | inr other ↦ rw other (a.0, assign-All k v m p a.1)
  ]

  lookup-All : (k : Bytes) (v : V) (m : Map V) → All (λ e. P e.1) m → lookup k m ≡ some v → P v
  unfolding lookup
  lookup-All k v [] a h = absurd (cc)
  lookup-All k v ((j, w) ∷ m) a h = elim (Bool-cases (equal j k)) [
    | inl same ↦ subst P (value same h) a.0
    | inr other ↦ lookup-All k v m a.1 (ground arith)
  ]
    where
      value : equal j k ≡ true → (if equal j k then some w else lookup k m) ≡ some v → w ≡ v
      value same h = ground arith

  pub All-Occurs : (m : List V) → All P m → (v : V) → Occurs v m → P v
  All-Occurs [] a v o = absurd o
  All-Occurs (w ∷ m) a v (inl e) = subst P (sym e) a.0
  All-Occurs (w ∷ m) a v (inr o) = All-Occurs m a.1 v o

module _ (parse_ip : Bytes → Ip) (dns : DnsLib) where
  abbrev pub Valid : Bytes → Type 0
  Valid server = validate_host_port parse_ip server ≡ true

  -- A zone has a server, and each of its servers is an address with a port.
  pub record IsServed (servers : List Bytes) : Type 0 where
    pub some_server : is_nil servers ≡ false
    pub valid : All Valid servers

  abbrev pub AllServed : Map (List Bytes) → Type 0
  AllServed m = All (λ e. IsServed e.1) m

  servers_of-Valid :
      (zone : Bytes) (m : Map (List Bytes)) → AllServed m → All Valid (servers_of zone m)
  unfolding servers_of
  servers_of-Valid zone m a = elim (Option-cases (lookup zone m)) [
    | inl e ↦
        let q : servers_of zone m ≡ [] = rw (e, servers_of) refl in subst (All Valid) (sym q) tt
    | inr (servers, e) ↦
        let q : servers_of zone m ≡ servers = rw (e, servers_of) refl in
        subst (All Valid) (sym q) (lookup-All IsServed zone servers m a e).valid
  ]

  append_server-AllServed :
      (zone server : Bytes) (m : Map (List Bytes))
      → validate_host_port parse_ip server ≡ true
      → AllServed m
      → AllServed (append_server zone server m)
  unfolding append_server
  append_server-AllServed zone server m v a =
      assign-All IsServed zone (servers_of zone m ++ server ∷ []) m
        (record {
          some_server = snoc-not_nil (servers_of zone m) server;
          valid =
              All-append Valid (servers_of zone m) (server ∷ []) (servers_of-Valid zone m a)
                (v, tt);
        })
        a
    where
      snoc-not_nil : (xs : List Bytes) (x : Bytes) → is_nil (xs ++ x ∷ []) ≡ false
      snoc-not_nil [] x = refl
      snoc-not_nil (y ∷ xs) x = refl

  pub checked-Valid : (h : Bytes) → Holds Valid (checked parse_ip h)
  unfolding checked
  checked-Valid h = elim (Bool-cases (validate_host_port parse_ip (with_port h))) [
    | inl good ↦ rw good good
    | inr bad ↦ rw bad tt
  ]

  add_domains-AllServed :
      (server : Bytes) (ds : List Bytes) (m : Map (List Bytes))
      → Valid server
      → AllServed m
      → Holds AllServed (add_domains parse_ip dns server ds m)
  unfolding add_domains
  add_domains-AllServed server [] m v a = a
  add_domains-AllServed server (d ∷ ds) m v a = elim (Bool-cases (ltb (dns.count_label d) 1)) [
    | inl bad ↦ rw bad tt
    | inr good ↦
        rw good (add_domains-AllServed server ds _ v (append_server-AllServed _ server m v a))
  ]

  add_hosts-AllServed :
      (ds hs : List Bytes) (m : Map (List Bytes))
      → AllServed m
      → Holds AllServed (add_hosts parse_ip dns ds hs m)
  unfolding add_hosts
  add_hosts-AllServed ds [] m a = a
  add_hosts-AllServed ds (h ∷ hs) m a =
      Holds-bind AllServed (checked parse_ip (trim_space h)) _ (λ server e.
        let v = of_Holds Valid _ server (checked-Valid (trim_space h)) e in
        Holds-bind AllServed (add_domains parse_ip dns server ds m) _ (λ m' e'.
          add_hosts-AllServed ds hs m'
            (of_Holds AllServed _ m' (add_domains-AllServed server ds m v a) e')))

  add_segments-AllServed :
      (segments : List Bytes) (m : Map (List Bytes))
      → AllServed m
      → Holds AllServed (add_segments parse_ip dns segments m)
  unfolding add_segments
  add_segments-AllServed [] m a = tt
  add_segments-AllServed (ds ∷ []) m a = tt
  add_segments-AllServed (ds ∷ hs ∷ w ∷ ws) m a = tt
  add_segments-AllServed (ds ∷ hs ∷ []) m a = elim (Bool-cases (is_nil ds || is_nil hs)) [
    | inl bad ↦ rw bad tt
    | inr good ↦ rw good (add_hosts-AllServed (split b',' ds) (split b',' hs) m a)
  ]

  pub add_stubzones-AllServed :
      (zones : List Bytes) (m : Map (List Bytes))
      → AllServed m
      → Holds AllServed (add_stubzones parse_ip dns zones m)
  unfolding add_stubzones
  add_stubzones-AllServed [] m a = a
  add_stubzones-AllServed (z ∷ zones) m a =
      Holds-bind AllServed (add_segments parse_ip dns (split b'/' z) m) _ (λ m' e.
        add_stubzones-AllServed zones m'
          (of_Holds AllServed _ m' (add_segments-AllServed (split b'/' z) m a) e))

  -- A value of the option as it is meant: domains, a slash and servers, none of them empty.
  unfoldable pub IsZone : List Bytes → Type 0
  IsZone (ds ∷ hs ∷ []) =
      (is_nil ds || is_nil hs ≡ false)
      × All (λ d. ltb (dns.count_label d) 1 ≡ false) (split b',' ds)
      × All (λ h. validate_host_port parse_ip (with_port (trim_space h)) ≡ true) (split b',' hs)
  IsZone _ = ⊥

  add_domains_accepts :
      (server : Bytes) (ds : List Bytes) (m : Map (List Bytes))
      → All (λ d. ltb (dns.count_label d) 1 ≡ false) ds
      → (m' : Map (List Bytes)) × (add_domains parse_ip dns server ds m ≡ some m')
  unfolding add_domains
  add_domains_accepts server [] m a = (m, refl)
  add_domains_accepts server (d ∷ ds) m a =
      let (m', e) =
        add_domains_accepts server ds (append_server (dns.fqdn (trim_space d)) server m) a.1 in
      (m', rw (a.0, e) refl)

  checked_accepts :
      (h : Bytes)
      → validate_host_port parse_ip (with_port h) ≡ true
      → checked parse_ip h ≡ some (with_port h)
  unfolding checked
  checked_accepts h good = rw good refl

  add_hosts_accepts :
      (ds hs : List Bytes) (m : Map (List Bytes))
      → All (λ d. ltb (dns.count_label d) 1 ≡ false) ds
      → All (λ h. validate_host_port parse_ip (with_port (trim_space h)) ≡ true) hs
      → (m' : Map (List Bytes)) × (add_hosts parse_ip dns ds hs m ≡ some m')
  unfolding add_hosts
  add_hosts_accepts ds [] m a b = (m, refl)
  add_hosts_accepts ds (h ∷ hs) m a b =
      let (m₁, e₁) = add_domains_accepts (with_port (trim_space h)) ds m a in
      let (m₂, e₂) = add_hosts_accepts ds hs m₁ a b.1 in
      (m₂, bind_some _ _ _ m₂ (checked_accepts (trim_space h) b.0) (bind_some _ m₁ _ m₂ e₁ e₂))

  add_segments_accepts :
      (segments : List Bytes) (m : Map (List Bytes))
      → IsZone segments
      → (m' : Map (List Bytes)) × (add_segments parse_ip dns segments m ≡ some m')
  unfolding add_segments IsZone
  add_segments_accepts [] m z = absurd z
  add_segments_accepts (ds ∷ []) m z = absurd z
  add_segments_accepts (ds ∷ hs ∷ w ∷ ws) m z = absurd z
  add_segments_accepts (ds ∷ hs ∷ []) m (full, a, b) =
      let (m', e) = add_hosts_accepts (split b',' ds) (split b',' hs) m a b in
      (m', rw (full, e) refl)

  pub add_stubzones_accepts :
      (zones : List Bytes) (m : Map (List Bytes))
      → All (λ z. IsZone (split b'/' z)) zones
      → (m' : Map (List Bytes)) × (add_stubzones parse_ip dns zones m ≡ some m')
  unfolding add_stubzones
  add_stubzones_accepts [] m a = (m, refl)
  add_stubzones_accepts (z ∷ zones) m a =
      let (m₁, e₁) = add_segments_accepts (split b'/' z) m a.0 in
      let (m₂, e₂) = add_stubzones_accepts zones m₁ a.1 in (m₂, bind_some _ m₁ _ m₂ e₁ e₂)
