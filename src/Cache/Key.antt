-- ===== src/Cache/Key.antt =====
-- cache/cache.go: `Key` and `KeyRRset`. `h.Sum(i)` appends to `i` the digest of what was written to the
-- hash, and nothing is: both end in the SHA-1 digest of the empty text.
pub mod Injective
use go_dnsmasq.Base.{ℕ, ◌/◌, ◌%◌, ◌^◌, Bool, List, [], ◌∷◌, ◌++◌, Option, none, some, if◌then◌else◌}
use go_dnsmasq.Base.Text.{Bytes}
use go_dnsmasq.Dns.{Question, Rdata, a, aaaa, cname, ptr, nsec3, txt, soa, srv, other, Rr}

-- `packUint16` and `packUint32`.
unfoldable pub pack_uint16 : ℕ → Bytes
pack_uint16 i = (i / 2 ^ 8 % 2 ^ 8) ∷ (i % 2 ^ 8) ∷ []

unfoldable pub pack_uint32 : ℕ → Bytes
pack_uint32 i = (i / 2 ^ 24 % 2 ^ 8) ∷ (i / 2 ^ 16 % 2 ^ 8) ∷ (i / 2 ^ 8 % 2 ^ 8) ∷ (i % 2 ^ 8) ∷ []

abbrev pub sha1_empty : Bytes
sha1_empty =
    0xda ∷ 0x39 ∷ 0xa3 ∷ 0xee ∷ 0x5e ∷ 0x6b ∷ 0x4b ∷ 0x0d ∷ 0x32 ∷ 0x55 ∷ 0xbf ∷ 0xef ∷ 0x95 ∷ 0x60
    ∷ 0x18 ∷ 0x90 ∷ 0xaf ∷ 0xd8 ∷ 0x07 ∷ 0x09 ∷ []

-- The two marks behind the question.
abbrev pub flags : Bool → Bool → Bytes
flags dnssec tcp = (if dnssec then 255 ∷ [] else []) ++ (if tcp then 254 ∷ [] else [])

-- `Key`.
unfoldable pub key : Question → Bool → Bool → Bytes
unfolding pack_uint16
key q dnssec tcp = ((q.name ++ pack_uint16 q.qtype) ++ flags dnssec tcp) ++ sha1_empty

-- What `KeyRRset` appends for one record.
pack_rdata : Rdata → Bytes
unfolding pack_uint16 pack_uint32
pack_rdata (soa serial) = pack_uint32 serial
pack_rdata (srv priority weight port target) =
    pack_uint16 priority ++ pack_uint16 weight ++ pack_uint16 weight ++ target
pack_rdata (a ip) = ip
pack_rdata (aaaa ip) = ip
pack_rdata (nsec3 next_domain) = next_domain
pack_rdata _ = []

pack_rrs : List Rr → Bytes
unfolding pack_rdata
pack_rrs [] = []
pack_rrs (r ∷ rrs) = pack_rdata r.rdata ++ pack_rrs rrs

-- `KeyRRset`; `none` is the fault of `rrs[0]` on an empty set.
unfoldable pub key_rrset : List Rr → Option Bytes
unfolding pack_uint16 pack_rrs
key_rrset [] = none
key_rrset (r ∷ rrs) =
    some (r.header.name ++ pack_uint16 r.header.rrtype ++ pack_rrs (r ∷ rrs) ++ sha1_empty)
