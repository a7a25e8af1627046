-- ===== src/Dns.antt =====
-- What server/ and cache/ use of github.com/miekg/dns: the fields of messages, questions and records
-- that the program reads or writes, and the library's operations as an interface.
use go_dnsmasq.Base.{ℕ, Bool, false, List, [], Option, ◌≡◌, ◌≤◌, take}
use go_dnsmasq.Base.Int.{ℤ}
use go_dnsmasq.Base.Text.{Bytes}

pub record Question : Type 0 where
  pub name : Bytes
  pub qtype : ℕ
  pub qclass : ℕ

pub record Header : Type 0 where
  pub name : Bytes
  pub rrtype : ℕ
  pub class : ℕ
  pub ttl : ℕ

-- The record types that the program builds or takes apart; `other` is any further type.
pub data Rdata : Type 0 where
  a aaaa cname ptr nsec3 : Bytes → Rdata
  txt : List Bytes → Rdata
  soa : ℕ → Rdata
  srv : ℕ → ℕ → ℕ → Bytes → Rdata
  other : Bytes → Rdata

pub record Rr : Type 0 where
  pub header : Header
  pub rdata : Rdata

pub record Msg : Type 0 where
  pub id : ℕ
  pub rcode : ℕ
  pub truncated : Bool
  pub authoritative : Bool
  pub recursion_available : Bool
  pub compress : Bool
  pub question : List Question
  pub answer : List Rr
  pub extra : List Rr

-- `new(dns.Msg)`.
abbrev pub empty_msg : Msg
empty_msg = record {
  id = 0;
  rcode = 0;
  truncated = false;
  authoritative = false;
  recursion_available = false;
  compress = false;
  question = [];
  answer = [];
  extra = [];
}

abbrev pub rcode_success : ℕ
rcode_success = 0

abbrev pub rcode_server_failure : ℕ
rcode_server_failure = 2

abbrev pub rcode_name_error : ℕ
rcode_name_error = 3

abbrev pub rcode_refused : ℕ
rcode_refused = 5

abbrev pub type_a : ℕ
type_a = 1

abbrev pub type_cname : ℕ
type_cname = 5

abbrev pub type_ptr : ℕ
type_ptr = 12

abbrev pub type_txt : ℕ
type_txt = 16

abbrev pub type_aaaa : ℕ
type_aaaa = 28

abbrev pub type_any : ℕ
type_any = 255

abbrev pub class_inet : ℕ
class_inet = 1

abbrev pub class_chaos : ℕ
class_chaos = 3

abbrev pub max_msg_size : ℕ
max_msg_size = 65535

-- What `dns.ClientConfigFromFile` reads from a file like /etc/resolv.conf.
pub record ClientConfig : Type 0 where
  pub servers : List Bytes
  pub search : List Bytes
  pub port : Bytes
  pub ndots : ℤ

-- The library's operations. A method that writes to its receiver returns the receiver's new value;
-- `Copy` is the identity on values.
pub record DnsLib : Type 0 where
  -- `m.SetReply(req)` and `m.SetRcode(req, rcode)`.
  pub set_reply : Msg → Msg → Msg
  pub set_rcode : Msg → Msg → ℕ → Msg
  -- `m.Len()`.
  pub len : Msg → ℕ
  -- `dns.CountLabel(s)`, `dns.Fqdn(s)` and the name that `dns.ReverseAddr(s)` returns.
  pub count_label : Bytes → ℕ
  pub fqdn : Bytes → Bytes
  pub reverse_addr : Bytes → Bytes
  -- `UDPSize()` and `Do()` of the record that `req.IsEdns0()` returns.
  pub edns0 : Msg → Option (ℕ × Bool)

-- What the library documents of the replies that it builds: the request's id, and the response code.
pub record RepliesWell (dns : DnsLib) : Type 0 where
  pub set_reply_id : (m req : Msg) → (dns.set_reply m req).id ≡ req.id
  pub set_reply_rcode : (m req : Msg) → (dns.set_reply m req).rcode ≡ rcode_success
  pub set_rcode_id : (m req : Msg) (c : ℕ) → (dns.set_rcode m req c).id ≡ req.id
  pub set_rcode_rcode : (m req : Msg) (c : ℕ) → (dns.set_rcode m req c).rcode ≡ c

-- What the program relies on in the length of a packed message: leaving out the last answers never makes
-- it longer, and the truncation mark is a bit of the header.
pub record LenWell (dns : DnsLib) : Type 0 where
  pub len_prefix :
      (m : Msg) (i j : ℕ)
      → i ≤ j
      → dns.len (record m { answer = take i m.answer })
        ≤ dns.len (record m { answer = take j m.answer })
  pub len_truncated : (m : Msg) (b : Bool) → dns.len (record m { truncated = b }) ≡ dns.len m
