-- ===== src/Server/Listen/Kinds.antt =====
-- server/server.go: `Run` serves the sockets of systemd that are UDP connections or TCP listeners, and no others.
use go_dnsmasq.Base.{
  ◌≡◌, refl, ap, sym, inl, inr, Bool, true, false, ◌&&◌, List, [], ◌∷◌, some, All, Occurs,
  Bool-cases,
}
use go_dnsmasq.Server.Config.{Config, is_nil}
use go_dnsmasq.Server.Listen.{Socket, Activation, Service, serves, services, run}

abbrev service_of : Bool → Socket → Service
service_of tcp s = record { tcp = tcp; addr = s.addr }

services_none :
    (tcp : Bool) (sockets : List Socket)
    → All (λ s. s.is_dns ≡ false) sockets
    → services tcp sockets ≡ []
unfolding services
services_none tcp [] a = refl
services_none tcp (s ∷ sockets) (e, a) = rw e (services_none tcp sockets a)

services_each :
    (tcp : Bool) (sockets : List Socket) (s : Socket)
    → Occurs s sockets
    → s.is_dns ≡ true
    → Occurs (service_of tcp s) (services tcp sockets)
unfolding services
services_each tcp [] s o e = absurd o
services_each tcp (t ∷ sockets) s (inl same) e =
    rw (sym same, e, services) (inl (ap (service_of tcp) same))
services_each tcp (t ∷ sockets) s (inr o) e = elim (Bool-cases t.is_dns) [
  | inl dns_one ↦ rw (dns_one, services) (inr (services_each tcp sockets s o e))
  | inr other ↦ rw (other, services) (services_each tcp sockets s o e)
]

-- Sockets of systemd of which none is a UDP connection or a TCP listener are no error, and `Run` serves nothing: it
-- returns nil at once.
pub run_idle :
    (cfg : Config) (act : Activation) (packet_conns listeners : List Socket)
    → cfg.systemd ≡ true
    → act.packet_conns ≡ some packet_conns
    → act.listeners ≡ some listeners
    → (is_nil packet_conns && is_nil listeners) ≡ false
    → All (λ s. s.is_dns ≡ false) packet_conns
    → All (λ s. s.is_dns ≡ false) listeners
    → run cfg act ≡ serves []
unfolding run
run_idle cfg act packet_conns listeners on ps ls given a b =
    rw (on, ps, ls, given, services_none false packet_conns a, services_none true listeners b) refl
