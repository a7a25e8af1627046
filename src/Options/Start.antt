-- ===== src/Options/Start.antt =====
-- main.go: the configuration that the server is started with.
use go_dnsmasq.Base.{
  Holds, Holds-bind, Holds-checked, checked_none, bind_some, of_Holds, ◌≡◌, ◌∙◌, refl, inl, inr,
  true, List, [], none, some, arith, All, subst, Occurs, Bool-cases,
}
use go_dnsmasq.Base.Text.{Bytes, split}
use go_dnsmasq.Base.Map.{Map}
use go_dnsmasq.Dns.{DnsLib}
use go_dnsmasq.Hosts.Net.{Ip}
use go_dnsmasq.Server.Config.{Config, check_config, is_nil}
use go_dnsmasq.Server.Config.Check.{IsUsable, check_config-IsUsable}
use go_dnsmasq.Server.Forward.Reply.{StubsHaveServers}
use go_dnsmasq.Options.{validate_host_port, add_stubzones, with_stubzones, configure}
use go_dnsmasq.Options.Stubs.{
  All-Occurs, IsServed, AllServed, add_stubzones-AllServed, IsZone, add_stubzones_accepts,
}

module _ (parse_ip : Bytes → Ip) (dns : DnsLib) where
  -- What the handler assumes of its configuration.
  pub record IsReady (c : Config) : Type 0 where
    pub usable : IsUsable c
    pub served : StubsHaveServers c
    pub valid :
        (z : Bytes × List Bytes)
        → Occurs z c.stub
        → All (λ s. validate_host_port parse_ip s ≡ true) z.1

  with_stub-IsReady :
      (c : Config) (m : Map (List Bytes))
      → IsUsable c
      → AllServed parse_ip dns m
      → IsReady (record c { stub = m })
  with_stub-IsReady c m u a = record {
    usable = record {
      bounds = omega (arith, u.bounds);
      listens = u.listens;
      resolves = u.resolves;
      searches = u.searches;
    };
    served = λ z o. (All-Occurs (λ e. IsServed parse_ip dns e.1) m a z o).some_server;
    valid = λ z o. (All-Occurs (λ e. IsServed parse_ip dns e.1) m a z o).valid;
  }

  with_stubzones-Holds :
      (c : Config) (zones : List Bytes)
      → IsUsable c
      → c.stub ≡ []
      → Holds IsReady (with_stubzones parse_ip dns c zones)
  unfolding with_stubzones
  with_stubzones-Holds c zones u empty = elim (Bool-cases (is_nil zones)) [
    | inl no_zone ↦ rw no_zone (record {
      usable = u;
      served = λ z o. absurd (subst (Occurs z) empty o);
      valid = λ z o. absurd (subst (Occurs z) empty o);
    })
    | inr given ↦ rw given (
        Holds-bind IsReady (add_stubzones parse_ip dns zones []) _ (λ m e. with_stub-IsReady c m u (
          of_Holds (AllServed parse_ip dns) _ m (add_stubzones-AllServed parse_ip dns zones [] tt)
            e)))
  ]

  pub configure-Holds :
      (c : Config) (zones : List Bytes) → Holds IsReady (configure parse_ip dns c zones)
  unfolding configure
  configure-Holds c zones = Holds-checked IsReady (check_config c).1 _ (λ accepted.
      let (u, _, _, empty) = check_config-IsUsable c accepted in
      with_stubzones-Holds (check_config c).0 zones u empty)

  -- Where the program starts its server, the configuration is accepted by `CheckConfig`, every stub zone has
  -- a server, and each server of a stub zone has a valid address and port.
  pub configure-IsReady :
      (c : Config) (zones : List Bytes) (c' : Config)
      → configure parse_ip dns c zones ≡ some c'
      → IsReady c'
  configure-IsReady c zones c' e = of_Holds IsReady _ c' (configure-Holds c zones) e

  with_stubzones_accepts :
      (c : Config) (zones : List Bytes)
      → All (λ z. IsZone parse_ip dns (split b'/' z)) zones
      → (c' : Config) × (with_stubzones parse_ip dns c zones ≡ some c')
  unfolding with_stubzones
  with_stubzones_accepts c zones a = elim (Bool-cases (is_nil zones)) [
    | inl no_zone ↦ (c, rw no_zone refl)
    | inr given ↦
        let (m, h) = add_stubzones_accepts parse_ip dns zones [] a in
        (record c { stub = m }, rw given (bind_some _ m _ _ h refl))
  ]

  -- With a configuration that `CheckConfig` accepts and stub zones that are each some domains with a label, a
  -- slash and some servers with a valid address and port, the program comes to a configuration for its server.
  pub configure_accepts :
      (c : Config) (zones : List Bytes)
      → (check_config c).1 ≡ none
      → All (λ z. IsZone parse_ip dns (split b'/' z)) zones
      → (c' : Config) × (configure parse_ip dns c zones ≡ some c') × IsReady c'
  unfolding configure
  configure_accepts c zones accepted a =
      let (c', e) = with_stubzones_accepts (check_config c).0 zones a in
      let h : configure parse_ip dns c zones ≡ some c' =
        checked_none (check_config c).1 _ accepted ∙ e in
      (c', h, configure-IsReady c zones c' h)
