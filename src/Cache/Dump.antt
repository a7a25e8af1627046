-- ===== src/Cache/Dump.antt =====
-- cache/cache.go: what `DumpCache` shows of the cache, before it is laid out as text.
pub mod Rows
use go_dnsmasq.Base.{
  ℕ, zero, suc, ◌+◌, ◌*◌, ◌/◌, ◌%◌, Bool, true, false, List, [], ◌∷◌, ◌++◌, Option, none, some,
  if◌then◌else◌, ◌==◌, length,
}
use go_dnsmasq.Base.Int.{ℤ, pos, negsuc, ◌-ℤ◌}
use go_dnsmasq.Base.Text.{Bytes, lit, trim_left}
use go_dnsmasq.Base.Map.{Map, lookup}
use go_dnsmasq.Cache.{Elem, Cache, is_past, cache_size}
use go_dnsmasq.Dns.{Question}
use go_dnsmasq.HostPort.Decimal.{decimal}

-- `qTypeToName`.
abbrev pub q_type_to_name : ℕ → Option Bytes
q_type_to_name t =
    if t == 1
    then some (lit "A")
    else if t == 28
    then some (lit "AAAA")
    else if t == 5
    then some (lit "CNAME")
    else if t == 15
    then some (lit "MX")
    else if t == 2
    then some (lit "NS")
    else if t == 16
    then some (lit "TXT")
    else if t == 6
    then some (lit "SOA")
    else none

-- `getRecordTypeName`.
unfoldable pub get_record_type_name : ℕ → Bytes
get_record_type_name t = elim (q_type_to_name t) [ none ↦ decimal t | some name ↦ name ]

abbrev reverse : Bytes → Bytes → Bytes
reverse [] acc = acc
reverse (x ∷ s) acc = reverse s (x ∷ acc)

-- `strings.Trim(s, ",")`.
unfoldable pub trim_commas : Bytes → Bytes
unfolding trim_left
trim_commas s =
    let front = trim_left (λ c. c == b',') s in
    reverse (trim_left (λ c. c == b',') (reverse front [])) []

-- The names of the questions, a comma behind each.
unfoldable pub names : List Question → Bytes
names [] = []
names (q ∷ qs) = q.name ++ b',' ∷ names qs

-- The type of the question, if there is one.
unfoldable pub single_type : List Question → ℕ
single_type (q ∷ []) = q.qtype
single_type _ = 0

abbrev minus : ℕ → ℤ
minus zero = pos 0
minus (suc n) = negsuc n

-- `d.Truncate(time.Second)`, which rounds to zero.
unfoldable pub truncate : ℤ → ℤ
truncate (pos n) = pos (n / 1_000_000_000 * 1_000_000_000)
truncate (negsuc n) = minus ((n + 1) / 1_000_000_000 * 1_000_000_000)

-- A line of the table.
pub record DumpRow : Type 0 where
  pub q_type : Bytes
  pub expired : Bool
  pub stale_expired : Bool
  pub ttl_seconds : ℕ
  pub expire_in : ℤ
  pub stale_expire_in : ℤ
  pub question : Bytes
  pub hits : ℕ
  pub stale_hits : ℕ

-- `row v` at the time `now`, where the clock reads `since` in the two calls of `time.Since`.
unfoldable pub dump_row : ℤ → ℤ × ℤ → Elem → DumpRow
unfolding get_record_type_name trim_commas names single_type truncate
dump_row now since v = record {
  q_type = get_record_type_name (single_type v.msg.question);
  expired = is_past since.0 v.expiration;
  stale_expired = is_past since.1 v.stale_expiration;
  ttl_seconds = v.ttl_seconds;
  expire_in = truncate (v.expiration -ℤ now);
  stale_expire_in = truncate (v.stale_expiration -ℤ now);
  question = trim_commas (names v.msg.question);
  hits = v.hits;
  stale_hits = v.stale_hits;
}

-- The loop of `DumpCache` over the entries, in the order that the `range` visits their keys; `since` is what the
-- clock reads at an entry.
unfoldable pub dump_rows : ℤ → (Bytes → ℤ × ℤ) → Map Elem → List Bytes → List DumpRow
unfolding dump_row
dump_rows now since m [] = []
dump_rows now since m (k ∷ ks) = elim (lookup k m) [
  | none ↦ dump_rows now since m ks
  | some v ↦ dump_row now (since k) v ∷ dump_rows now since m ks
]

-- What `DumpCache` prints.
pub record CacheDump : Type 0 where
  pub capacity : ℤ
  pub current_size : ℕ
  pub default : ℤ
  pub stale_ttl : ℤ
  pub min_ttl : ℕ
  pub max_ttl : ℕ
  pub dumped_at : ℤ
  pub rows : List DumpRow

unfoldable pub dump_cache : ℤ → (Bytes → ℤ × ℤ) → List Bytes → Cache → CacheDump
unfolding dump_rows
dump_cache now since order c = record {
  capacity = c.capacity;
  current_size = cache_size c;
  default = c.ttl;
  stale_ttl = c.stale_ttl;
  min_ttl = c.ttl_min_seconds;
  max_ttl = c.ttl_max_seconds;
  dumped_at = now;
  rows = dump_rows now since c.m order;
}
