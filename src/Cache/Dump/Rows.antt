-- ===== src/Cache/Dump/Rows.antt =====
-- cache/cache.go: `DumpCache` lists what the cache holds.
use go_dnsmasq.Base.{
  ℕ, ◌^◌, ◌<◌, ◌≡◌, refl, ap, sym, ◌∙◌, inl, inr, true, false, List, [], ◌∷◌, Option, none, some,
  if◌then◌else◌, arith, length, any, is_some, Bool-cases, Occurs,
}
use go_dnsmasq.Base.Int.{ℤ, ltb_ℤ-asymm}
use go_dnsmasq.Base.Text.{Bytes, lit, equal, equal}
use go_dnsmasq.Base.Text.Laws.{equal→eq, equal_refl}
use go_dnsmasq.Base.Map.{Map, lookup}
use go_dnsmasq.Cache.{Elem, Cache, is_ahead}
use go_dnsmasq.Cache.Dump.{
  q_type_to_name, get_record_type_name, DumpRow, dump_row, dump_rows, CacheDump, dump_cache,
}
use go_dnsmasq.Cache.Evict.{Ranges}
use go_dnsmasq.HostPort.{digits}
use go_dnsmasq.HostPort.Decimal.{decimal, digits-decimal}

-- The type that a name stands for.
abbrev type_of : Bytes → ℕ
type_of name = elim (digits 0 name) [
  | some n ↦ n
  | none ↦
      if equal name (lit "A")
      then 1
      else if equal name (lit "AAAA")
      then 28
      else if equal name (lit "CNAME")
      then 5
      else if equal name (lit "MX")
      then 15
      else if equal name (lit "NS")
      then 2
      else if equal name (lit "TXT")
      then 16
      else 6
]

named : (t : ℕ) (name : Bytes) → q_type_to_name t ≡ some name → type_of name ≡ t
unfolding digits equal
named t name e = ground (arith, e)

type_of-name_or :
    (t : ℕ) (o : Option Bytes)
    → t < 2 ^ 16
    → q_type_to_name t ≡ o
    → type_of (elim o [ none ↦ decimal t | some name ↦ name ]) ≡ t
type_of-name_or t none h e = rw (digits-decimal t (omega arith), type_of) refl
type_of-name_or t (some name) h e = named t name e

type_of-get_record_type_name : (t : ℕ) → t < 2 ^ 16 → type_of (get_record_type_name t) ≡ t
unfolding get_record_type_name
type_of-get_record_type_name t h = type_of-name_or t (q_type_to_name t) h refl

-- Different types of 16 bits have different names.
pub get_record_type_name-injective :
    (t u : ℕ) → t < 2 ^ 16 → u < 2 ^ 16 → get_record_type_name t ≡ get_record_type_name u → t ≡ u
get_record_type_name-injective t u h k e =
    sym (type_of-get_record_type_name t h) ∙ ap type_of e ∙ type_of-get_record_type_name u k

module _ (now : ℤ) (since : Bytes → ℤ × ℤ) (m : Map Elem) where
  -- A row for each key that the map has.
  length-dump_rows :
      (ks : List Bytes)
      → ((k : Bytes) → any (λ j. equal j k) ks ≡ true → is_some (lookup k m) ≡ true)
      → length (dump_rows now since m ks) ≡ length ks
  unfolding dump_rows
  length-dump_rows [] h = refl
  length-dump_rows (k ∷ ks) h =
      let later = length-dump_rows ks (λ j e. h j (ground (arith, e))) in
      let here = h k (ground (arith, equal_refl k)) in ground (arith, later, here)

  dump_rows-Occurs :
      (ks : List Bytes) (k : Bytes) (e : Elem)
      → any (λ j. equal j k) ks ≡ true
      → lookup k m ≡ some e
      → Occurs (dump_row now (since k) e) (dump_rows now since m ks)
  unfolding dump_rows
  dump_rows-Occurs [] k e h found = absurd (ground (arith, h))
  dump_rows-Occurs (j ∷ ks) k e h found = elim (Bool-cases (equal j k)) [
    | inl here ↦
        rw (equal→eq j k here, found, dump_rows)
          (inl (ap (λ i. dump_row now (since i) e) (sym (equal→eq j k here))))
    | inr other ↦ further (lookup j m) (dump_rows-Occurs ks k e (ground (arith, other, h)) found)
  ]
    where
      further :
          (o : Option Elem)
          → Occurs (dump_row now (since k) e) (dump_rows now since m ks)
          → Occurs (dump_row now (since k) e) (elim o [
            | none ↦ dump_rows now since m ks
            | some v ↦ dump_row now (since j) v ∷ dump_rows now since m ks
          ])
      further none l = l
      further (some v) l = inr l

-- What the dump tells of the entry under a key: the entry has its row, and where the row says that it is expired
-- the clock reads an instant at which it is not answered as a fresh one.
pub record IsListed (d : CacheDump) (since : Bytes → ℤ × ℤ) (k : Bytes) (e : Elem) : Type 0 where
  pub row : DumpRow
  pub is_row : row ≡ dump_row d.dumped_at (since k) e
  pub listed : Occurs row d.rows
  pub expired : row.expired ≡ true → is_ahead (since k).0 e.expiration ≡ false

-- Where the loop of `DumpCache` visits the keys of the map, the dump has as many rows as the size that it shows,
-- and every entry has its row; an entry shown as expired is not a fresh one for `Hit` at that instant.
pub dump_cache-IsListed :
    (now : ℤ) (since : Bytes → ℤ × ℤ) (order : List Bytes) (c : Cache)
    → Ranges order c.m
    → (length (dump_cache now since order c).rows ≡ (dump_cache now since order c).current_size)
      × ((k : Bytes) (e : Elem)
          → lookup k c.m ≡ some e
          → IsListed (dump_cache now since order c) since k e)
unfolding dump_cache dump_row
dump_cache-IsListed now since order c r = (
  length-dump_rows now since c.m order (λ k e. sym (r.same_keys k) ∙ e) ∙ r.same_length,
  λ k e found. record {
    row = dump_row now (since k) e;
    is_row = refl;
    listed = dump_rows-Occurs now since c.m order k e (rw (r.same_keys k, found) refl) found;
    expired = λ past. ltb_ℤ-asymm e.expiration (since k).0 past;
  },
)
