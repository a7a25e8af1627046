-- ===== src/Server/Records.antt =====
-- server/server.go: `AddressRecords` and `PTRRecords`, the records made from the hosts file.
use go_dnsmasq.Base.{ℕ, not, ◌&&◌, ◌||◌, List, [], ◌∷◌, Option, none, some, if◌then◌else◌, ◌==◌}
use go_dnsmasq.Base.Text.{Bytes, to_lower}
use go_dnsmasq.Dns.{Question, Rr, a, aaaa, ptr, type_a, type_aaaa, type_any, type_ptr, class_inet}
use go_dnsmasq.Hosts.Net.{Ip, is_nil, to4, to16}
use go_dnsmasq.Server.World.{Env}

-- The switch of `AddressRecords` on one address.
unfoldable pub address_record : Question → ℕ → Ip → Option Rr
address_record q ttl ip =
    if not (is_nil (to4 ip)) && (q.qtype == type_a || q.qtype == type_any)
    then some (record {
      header = record { name = q.name; rrtype = type_a; class = class_inet; ttl = ttl };
      rdata = a (to4 ip);
    })
    else if is_nil (to4 ip) && (q.qtype == type_aaaa || q.qtype == type_any)
    then some (record {
      header = record { name = q.name; rrtype = type_aaaa; class = class_inet; ttl = ttl };
      rdata = aaaa (to16 ip);
    })
    else none

-- Its loop.
unfoldable pub address_loop : Question → ℕ → List Ip → List Rr
unfolding address_record
address_loop q ttl [] = []
address_loop q ttl (ip ∷ ips) =
    let rest = address_loop q ttl ips in
    elim (address_record q ttl ip) [ none ↦ rest | some r ↦ r ∷ rest ]

-- `AddressRecords`; after an error of the hosts file, which is logged, there are no records.
unfoldable pub address_records : Env → Question → Bytes → ℕ → List Rr
unfolding address_loop
address_records env q name ttl = elim (env.find_hosts name) [
  | none ↦ []
  | some ips ↦ address_loop q ttl ips
]

-- `PTRRecords`, likewise.
unfoldable pub ptr_records : Env → Question → ℕ → List Rr
ptr_records env q ttl = elim (env.find_reverse (to_lower q.name)) [
  | none ↦ []
  | some [] ↦ []
  | some (b ∷ host) ↦
      record {
        header = record { name = q.name; rrtype = type_ptr; class = class_inet; ttl = ttl };
        rdata = ptr (b ∷ host);
      }
      ∷ []
]
