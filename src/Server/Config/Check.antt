-- ===== src/Server/Config/Check.antt =====
-- server/config.go: which configurations `CheckConfig` accepts.
use go_dnsmasq.Base.{◌≡◌, ◌⊎◌, ◌↔◌, inl, inr, refl, true, false, ◌&&◌, [], none, arith, Bool-cases}
use go_dnsmasq.Base.Int.{pos, ◌<ℤ◌, ◌≤ℤ◌}
use go_dnsmasq.Server.Config.{Config, check_numbers, without_search, check_config, is_nil}

-- The bounds that the documentation of the options gives.
pub record HasBounds (c : Config) : Type 0 where
  pub rcache : pos 0 ≤ℤ c.rcache
  pub rcache_ttl : pos 0 <ℤ c.rcache_ttl
  pub rstale_ttl : pos 0 ≤ℤ c.rstale_ttl
  pub rcache_ttl_max : pos 0 ≤ℤ c.rcache_ttl_max
  pub ndots : pos 0 <ℤ c.ndots
  pub fwd_ndots : pos 0 ≤ℤ c.fwd_ndots

-- A configuration that the server can run with.
pub record IsUsable (c : Config) : Type 0 where
  pub bounds : HasBounds c
  pub listens : is_nil c.dns_addr ≡ false
  pub resolves : (c.no_rec ≡ true) ⊎ (is_nil c.nameservers ≡ false)
  pub searches : c.enable_search ≡ true → is_nil c.search_domains ≡ false

check_numbers→ : (c : Config) → check_numbers c ≡ none → HasBounds c
unfolding check_numbers
check_numbers→ c h = ground arith

→check_numbers : (c : Config) → HasBounds c → check_numbers c ≡ none
unfolding check_numbers
→check_numbers c b = ground arith

without_search-bounds : (c : Config) → HasBounds c ↔ HasBounds (without_search c)
without_search-bounds c = elim (Bool-cases (c.enable_search && is_nil c.search_domains)) [
  | inl off ↦ rw off ((λ b. omega (arith, b)), (λ b. omega (arith, b)))
  | inr on ↦ rw on ((λ b. b), (λ b. b))
]

-- `CheckConfig` accepts a configuration exactly if the numbers have their bounds, an address to listen on is
-- given, and there are nameservers or recursion is off.
pub check_config_accepts :
    (c : Config)
    → ((check_config c).1 ≡ none) ↔ (
        HasBounds c
        × (is_nil c.dns_addr ≡ false)
        × ((c.no_rec ≡ true) ⊎ (is_nil c.nameservers ≡ false)))
unfolding check_config
check_config_accepts c = (forth, back)
  where
    forth :
        (check_config c).1 ≡ none
        → HasBounds c
          × (is_nil c.dns_addr ≡ false)
          × ((c.no_rec ≡ true) ⊎ (is_nil c.nameservers ≡ false))
    forth h =
        let n : check_numbers (without_search c) ≡ none = ground arith in
        (
          (without_search-bounds c).1 (check_numbers→ (without_search c) n),
          ground arith,
          ground arith,
        )

    back :
        HasBounds c
          × (is_nil c.dns_addr ≡ false)
          × ((c.no_rec ≡ true) ⊎ (is_nil c.nameservers ≡ false))
        → (check_config c).1 ≡ none
    back (b, l, r) =
        let n = →check_numbers (without_search c) ((without_search-bounds c).0 b) in
        ground (arith, n)

abbrev with_defaults : Config → Config
with_defaults c = record c { ttl = 360; hosts_ttl = 10; stub = [] }

check_config-eq :
    (c : Config)
    → (check_config c).1 ≡ none
    → check_config c ≡ (with_defaults (without_search c), none)
unfolding check_config
check_config-eq c h = ground arith

without_search-IsUsable :
    (c : Config)
    → HasBounds c
    → is_nil c.dns_addr ≡ false
    → (c.no_rec ≡ true) ⊎ (is_nil c.nameservers ≡ false)
    → IsUsable (with_defaults (without_search c))
without_search-IsUsable c b l r = elim (Bool-cases (c.enable_search && is_nil c.search_domains)) [
  | inl off ↦
      rw off (record {
        bounds = omega (arith, b);
        listens = l;
        resolves = r;
        searches = λ e. absurd (cc);
      })
  | inr on ↦ rw on (record {
    bounds = omega (arith, b);
    listens = l;
    resolves = r;
    searches = λ e. ground arith;
  })
]

-- An accepted configuration is one that the server can run with: its numbers have their bounds,
-- there are nameservers unless recursion is off, and search is on only where there are search
-- domains. The two fixed TTLs are set, and there is no stub zone yet.
pub check_config-IsUsable :
    (c : Config)
    → (check_config c).1 ≡ none
    → IsUsable (check_config c).0
      × ((check_config c).0.ttl ≡ 360)
      × ((check_config c).0.hosts_ttl ≡ 10)
      × ((check_config c).0.stub ≡ [])
check_config-IsUsable c h =
    let (b, l, r) = (check_config_accepts c).0 h in
    rw (check_config-eq c h) (without_search-IsUsable c b l r, refl, refl, refl)
