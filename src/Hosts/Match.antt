-- ===== src/Hosts/Match.antt =====
-- hostsfile/utils.go: `FindHosts`, against the names that an entry stands for.
use go_dnsmasq.Base.{
  ◌-◌, ◌<◌, ◌≤◌, ◌≡◌, refl, sym, ap, ◌∙◌, ◌⊎◌, inl, inr, Bool, true, false, List, [], ◌∷◌, ◌++◌,
  arith, length, take, drop, length-append, take-append-drop, take-append, drop-append, Bool-cases,
  Occurs,
}
use go_dnsmasq.Base.Text.{Bytes, equal, contains_byte}
use go_dnsmasq.Base.Text.Laws.{equal_iff, equal_refl, equal→eq}
use go_dnsmasq.Hosts.Net.{Ip}
use go_dnsmasq.Hosts.{Hostname, Hostlist, is_exact, is_wild, collect, is_empty, find_hosts}

-- The entry is for this very name.
pub record NamesExactly (name : Bytes) (h : Hostname) : Type 0 where
  pub plain : h.wildcard ≡ false
  pub same : h.domain ≡ name

-- The entry is a wildcard, and the name is one label, a dot, and the entry's domain. The label may be
-- empty.
pub record NamesByWildcard (name : Bytes) (h : Hostname) : Type 0 where
  pub starred : h.wildcard ≡ true
  pub label : Bytes
  pub one_label : contains_byte b'.' label ≡ false
  pub splits : name ≡ label ++ b'.' ∷ h.domain

exact→ : (name : Bytes) (h : Hostname) → is_exact name h ≡ true → NamesExactly name h
unfolding is_exact
exact→ name h e = record { plain = ground arith; same = ground (arith, equal_iff h.domain name) }

→exact : (name : Bytes) (h : Hostname) → NamesExactly name h → is_exact name h ≡ true
unfolding is_exact
→exact name h n = ground (arith, equal_iff h.domain name, n.plain, n.same)

wild→ : (name : Bytes) (h : Hostname) → is_wild name h ≡ true → NamesByWildcard name h
unfolding is_wild
wild→ name h e =
    let cut = length name - length (b'.' ∷ h.domain) in
    let s : equal (drop cut name) (b'.' ∷ h.domain) ≡ true = ground arith in
    record {
      starred = ground arith;
      label = take cut name;
      one_label = ground arith;
      splits = sym (take-append-drop cut name) ∙ ap (◌++◌ (take cut name)) (equal→eq _ _ s);
    }

cut_splits :
    (name label domain : Bytes)
    → name ≡ label ++ b'.' ∷ domain
    → (length domain < length name) × (length name - length (b'.' ∷ domain) ≡ length label)
cut_splits name label domain e =
    let n = ap length e ∙ length-append label (b'.' ∷ domain) in (omega arith, omega arith)

→wild : (name : Bytes) (h : Hostname) → NamesByWildcard name h → is_wild name h ≡ true
unfolding is_wild
→wild name h n =
    let (l, c) = cut_splits name n.label h.domain n.splits in
    let t : take (length name - length (b'.' ∷ h.domain)) name ≡ n.label =
      rw c (ap (take (length n.label)) n.splits ∙ take-append n.label (b'.' ∷ h.domain)) in
    let d : drop (length name - length (b'.' ∷ h.domain)) name ≡ b'.' ∷ h.domain =
      rw c (ap (drop (length n.label)) n.splits ∙ drop-append n.label (b'.' ∷ h.domain)) in
    let s : equal (drop (length name - length (b'.' ∷ h.domain)) name) (b'.' ∷ h.domain) ≡ true =
      rw d (equal_refl (b'.' ∷ h.domain)) in
    ground (arith, n.starred, n.one_label, l, s, ap (contains_byte b'.') t)

-- The slices of the second loop are in range where they are taken.
pub wild_slice_in_range :
    (name domain : Bytes) → length domain < length name → length (b'.' ∷ domain) ≤ length name
wild_slice_in_range name domain h = omega arith

collect_sound :
    (p : Hostname → Bool) (hs : Hostlist) (ip : Ip)
    → Occurs ip (collect p hs)
    → (h : Hostname) × Occurs h hs × (p h ≡ true) × (ip ≡ h.ip)
unfolding collect
collect_sound p [] ip o = absurd o
collect_sound p (h ∷ hs) ip o = elim (Bool-cases (p h)) [
  | inl yes_ ↦ elim (rw yes_ at o) [
    | inl e ↦ (h, inl refl, yes_, e)
    | inr later ↦ let (g, og, pg, eg) = collect_sound p hs ip later in (g, inr og, pg, eg)
  ]
  | inr no_ ↦ let (g, og, pg, eg) = collect_sound p hs ip (rw no_ at o) in (g, inr og, pg, eg)
]

collect_complete :
    (p : Hostname → Bool) (hs : Hostlist) (h : Hostname)
    → Occurs h hs
    → p h ≡ true
    → Occurs h.ip (collect p hs)
unfolding collect
collect_complete p [] h o e = absurd o
collect_complete p (g ∷ hs) h (inl same) e = rw (← same, e) (inl refl)
collect_complete p (g ∷ hs) h (inr later) e =
    let found = collect_complete p hs h later e in
    elim (Bool-cases (p g)) [ inl yes_ ↦ rw yes_ (inr found) | inr no_ ↦ rw no_ found ]

not_empty : (ips : List Ip) (ip : Ip) → Occurs ip ips → is_empty ips ≡ false
not_empty [] ip o = absurd o
not_empty (x ∷ ips) ip o = refl

first_of_many : (ips : List Ip) → is_empty ips ≡ false → (ip : Ip) × Occurs ip ips
first_of_many [] e = absurd (cc)
first_of_many (x ∷ ips) e = (x, inl refl)

-- What `FindHosts` promises of its answer.
pub record Resolves (hs : Hostlist) (name : Bytes) (addrs : List Ip) : Type 0 where
  pub sound :
      (ip : Ip)
      → Occurs ip addrs
      → (h : Hostname) × Occurs h hs
        × (ip ≡ h.ip)
        × (NamesExactly name h
            ⊎ (NamesByWildcard name h × ((g : Hostname) → Occurs g hs → ¬ NamesExactly name g)))
  pub exact : (h : Hostname) → Occurs h hs → NamesExactly name h → Occurs h.ip addrs
  pub wild :
      (h : Hostname)
      → Occurs h hs
      → NamesByWildcard name h
      → ((g : Hostname) → Occurs g hs → ¬ NamesExactly name g)
      → Occurs h.ip addrs

no_exact :
    (hs : Hostlist) (name : Bytes)
    → is_empty (collect (is_exact name) hs) ≡ true
    → (g : Hostname) → Occurs g hs
    → ¬ NamesExactly name g
no_exact hs name e g o n =
    absurd
      (ground (arith, not_empty _ g.ip (collect_complete (is_exact name) hs g o (→exact name g n))))

-- `FindHosts` answers with the addresses of the entries for the very name, if there is one;
-- otherwise with those of the wildcard entries whose domain the name has behind one label, which
-- may be empty, and a dot; and with no others.
pub find_hosts-Resolves : (hs : Hostlist) (name : Bytes) → Resolves hs name (find_hosts hs name)
unfolding find_hosts
find_hosts-Resolves hs name = elim (Bool-cases (is_empty (collect (is_exact name) hs))) [
  | inl none_exact ↦ rw none_exact (record {
    sound = λ ip o.
        let (h, oh, ph, eh) = collect_sound (is_wild name) hs ip o in
        (h, oh, eh, inr (wild→ name h ph, no_exact hs name none_exact));
    exact = λ h o n. absurd (no_exact hs name none_exact h o n);
    wild = λ h o n others. collect_complete (is_wild name) hs h o (→wild name h n);
  })
  | inr some_exact ↦ rw some_exact (record {
    sound = λ ip o.
        let (h, oh, ph, eh) = collect_sound (is_exact name) hs ip o in
        (h, oh, eh, inl (exact→ name h ph));
    exact = λ h o n. collect_complete (is_exact name) hs h o (→exact name h n);
    wild = λ h o n others.
        let (ip, oi) = first_of_many (collect (is_exact name) hs) some_exact in
        let (g, og, pg, _) = collect_sound (is_exact name) hs ip oi in
        absurd (others g og (exact→ name g pg));
  })
]
