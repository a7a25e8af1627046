-- ===== src/Server/Listen.antt =====
-- server/server.go: which sockets `Run` serves.
pub mod Kinds
use go_dnsmasq.Base.{
  Bool, true, false, ◌&&◌, List, [], ◌∷◌, ◌++◌, Option, none, some, if◌then◌else◌,
}
use go_dnsmasq.Base.Text.{Bytes}
use go_dnsmasq.Server.Config.{Config, is_nil}

-- A socket that systemd supplied: its address, and whether it is a `*net.UDPConn`, or a `*net.TCPListener`.
pub record Socket : Type 0 where
  pub addr : Bytes
  pub is_dns : Bool

-- What `activation.PacketConns` and `activation.Listeners` return; `none` is an error.
pub record Activation : Type 0 where
  pub packet_conns : Option (List Socket)
  pub listeners : Option (List Socket)

-- A goroutine that serves requests at an address, over TCP or UDP.
pub record Service : Type 0 where
  pub tcp : Bool
  pub addr : Bytes

-- `Run` returns an error, or it waits for these goroutines and returns nil when the last one has ended.
pub data Outcome : Type 0 where
  no_activation no_sockets : Outcome
  serves : List Service → Outcome

-- The loop over the sockets of one kind.
unfoldable pub services : Bool → List Socket → List Service
services tcp [] = []
services tcp (s ∷ sockets) = elim s.is_dns [
  | true ↦ record { tcp = tcp; addr = s.addr } ∷ services tcp sockets
  | false ↦ services tcp sockets
]

-- `Run`.
unfoldable pub run : Config → Activation → Outcome
unfolding services
run cfg act = elim cfg.systemd [
  | true ↦ elim act.packet_conns [
    | none ↦ no_activation
    | some packet_conns ↦ elim act.listeners [
      | none ↦ no_activation
      | some listeners ↦
          if is_nil packet_conns && is_nil listeners
          then no_sockets
          else serves (services false packet_conns ++ services true listeners)
    ]
  ]
  | false ↦ serves (
      record { tcp = true; addr = cfg.dns_addr } ∷ record { tcp = false; addr = cfg.dns_addr } ∷ [])
]
