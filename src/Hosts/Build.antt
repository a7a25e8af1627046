-- ===== src/Hosts/Build.antt =====
-- hostsfile/utils.go: `newHostlistString` and `add`. The list never holds an entry twice.
use go_dnsmasq.Base.{
  ◌≡◌, refl, inl, inr, true, false, List, [], ◌∷◌, ◌++◌, some, arith, any, is_some, All, All-append,
  Bool-cases, Option-cases,
}
use go_dnsmasq.Base.Text.{Bytes, to_lower, split}
use go_dnsmasq.Base.Text.Laws.{to_lower_idem}
use go_dnsmasq.Hosts.Net.{Ip}
use go_dnsmasq.Hosts.{
  Hostname, Hostlist, new_hostname, equal_hostname, add, add_all, add_lines, parse_line,
  new_hostlist,
}

-- No entry equals a later one.
abbrev pub Unique : Hostlist → Type 0
Unique [] = Unit {0}
Unique (h ∷ hs) = All (λ g. equal_hostname h g ≡ false) hs × Unique hs

abbrev pub IsLower : Hostname → Type 0
IsLower h = to_lower h.domain ≡ h.domain

-- The invariant of a list that `newHostlistString` builds.
pub record IsHostlist (hs : Hostlist) : Type 0 where
  pub unique : Unique hs
  pub lower : All IsLower hs

Unique-snoc :
    (hs : Hostlist) (h : Hostname)
    → any (λ found. equal_hostname found h) hs ≡ false
    → Unique hs
    → Unique (hs ++ h ∷ [])
Unique-snoc [] h a u = (tt, tt)
Unique-snoc (g ∷ hs) h a u = (
  All-append (λ g'. equal_hostname g g' ≡ false) hs (h ∷ []) u.0 (ground arith, tt),
  Unique-snoc hs h (ground arith) u.1,
)

-- `add` keeps the invariant, whatever the entry is.
pub add-IsHostlist : (hs : Hostlist) (h : Hostname) → IsHostlist hs → IsHostlist (add hs h).0
unfolding add new_hostname
add-IsHostlist hs h i =
    let h' = new_hostname h.domain h.ip h.ipv6 h.wildcard in
    elim (Bool-cases (any (λ found. equal_hostname found h') hs)) [
      | inl dup ↦ rw dup i
      | inr fresh ↦ rw fresh (record {
        unique = Unique-snoc hs h' fresh i.unique;
        lower = All-append IsLower hs (h' ∷ []) i.lower (to_lower_idem h.domain, tt);
      })
    ]

add_all-IsHostlist : (parsed hs : Hostlist) → IsHostlist hs → IsHostlist (add_all hs parsed)
unfolding add_all
add_all-IsHostlist [] hs i = i
add_all-IsHostlist (h ∷ parsed) hs i =
    add_all-IsHostlist parsed (add hs h).0 (add-IsHostlist hs h i)

module _ (parse_ip : Bytes → Ip) where
  -- The reading of no line faults.
  abbrev pub ReadsAll : List Bytes → Type 0
  ReadsAll lines = All (λ line. is_some (parse_line parse_ip line) ≡ true) lines

  add_lines-IsHostlist :
      (lines : List Bytes) (hs : Hostlist)
      → IsHostlist hs
      → ReadsAll lines
      → (out : Hostlist) × (add_lines parse_ip hs lines ≡ some out) × IsHostlist out
  unfolding add_lines
  add_lines-IsHostlist [] hs i reads = (hs, refl, i)
  add_lines-IsHostlist (line ∷ lines) hs i reads = elim (Option-cases (parse_line parse_ip line)) [
    | inl fault ↦ absurd (ground (arith, reads.0))
    | inr (parsed, ok) ↦
        rw ok
          (add_lines-IsHostlist lines (add_all hs parsed) (add_all-IsHostlist parsed hs i) reads.1)
  ]

  -- Where no line of the file faults, the list is built; it holds no two equal entries, and every domain
  -- in it is in lower case.
  pub new_hostlist-IsHostlist :
      (text : Bytes)
      → ReadsAll (split b'\n' text)
      → (hs : Hostlist) × (new_hostlist parse_ip text ≡ some hs) × IsHostlist hs
  unfolding new_hostlist
  new_hostlist-IsHostlist text =
      add_lines-IsHostlist (split b'\n' text) [] (record { unique = tt; lower = tt })
