-- ===== src/Hosts/Line.antt =====
-- hostsfile/utils.go: `parseLine`. Its loop over the spaces ends, and it faults on short words alone.
use go_dnsmasq.Base.{
  ℕ, zero, suc, ◌≤◌, ◌<◌, ◌≡◌, refl, ◌⊎◌, inl, inr, Bool, true, false, List, [], ◌∷◌, Option, none,
  some, arith, ltb, length, any, take, Bool-cases, Option-cases, ltb→lt,
}
use go_dnsmasq.Base.Text.{Bytes, contains, replace_all, contains_byte, equal, to_lower, lit}
use go_dnsmasq.Base.Text.Spaces.{two_spaces, length-replace_all-lt}
use go_dnsmasq.Hosts.Net.{Ip}
use go_dnsmasq.Hosts.{
  Hostname, Hostlist, new_hostname, collapse, first, rest, words, classify, parse_domain,
  parse_domains, parse_words, parse_line,
}

-- With fuel above the length of the line, the loop leaves no two spaces in a row.
pub contains-collapse :
    (fuel : ℕ) (line : Bytes)
    → length line < fuel
    → contains (collapse fuel line) two_spaces ≡ false
unfolding collapse
contains-collapse zero line h = absurd (omega arith)
contains-collapse (suc fuel) line h = elim (Bool-cases (contains line two_spaces)) [
  | inl more ↦ rw more (
      contains-collapse fuel (replace_all line two_spaces (b' ' ∷ []))
        (omega (arith, length-replace_all-lt line more)))
  | inr done ↦ rw done done
]

-- What `parseLine` makes of one word: the entry of the word, in lower case, and marked as a wildcard if it
-- begins with "*.", without those two bytes.
pub record Parsed (ip : Ip) (is_ipv6 : Bool) (word : Bytes) (h : Hostname) : Type 0 where
  pub same_ip : h.ip ≡ ip
  pub same_family : h.ipv6 ≡ is_ipv6
  pub long : 2 ≤ length word
  pub form :
      ((h.wildcard ≡ true) × (s : Bytes) × (word ≡ b'*' ∷ b'.' ∷ s) × (h.domain ≡ to_lower s))
      ⊎ ((h.wildcard ≡ false)
          × (h.domain ≡ to_lower word)
          × (equal (take 2 word) (lit "*.") ≡ false))

star_dot : (x y : ℕ) → equal (x ∷ y ∷ []) (lit "*.") ≡ true → (x ≡ b'*') × (y ≡ b'.')
unfolding equal
star_dot x y h = ground arith

pub data ParsedAll (ip : Ip) (is_ipv6 : Bool) : List Bytes → Hostlist → Type 0 where
  nil : ParsedAll ip is_ipv6 [] []
  cons :
      {w : Bytes} {ws : List Bytes} {h : Hostname} {hs : Hostlist}
      → Parsed ip is_ipv6 w h
      → ParsedAll ip is_ipv6 ws hs
      → ParsedAll ip is_ipv6 (w ∷ ws) (h ∷ hs)

-- `parse_domain` on a word of two bytes or more.
long_word :
    (ip : Ip) (is_ipv6 : Bool) (w : Bytes)
    → 2 ≤ length w
    → (h : Hostname) × (parse_domain ip is_ipv6 w ≡ some h) × Parsed ip is_ipv6 w h
unfolding parse_domain equal
long_word ip is_ipv6 [] l = absurd (omega arith)
long_word ip is_ipv6 (x ∷ []) l = absurd (omega arith)
long_word ip is_ipv6 (x ∷ y ∷ s) l = elim (Bool-cases (equal (take 2 (x ∷ y ∷ s)) (lit "*."))) [
  | inl wild ↦
      let (ex, ey) = star_dot x y wild in
      (
        new_hostname s ip is_ipv6 true,
        ground arith,
        record {
          same_ip = unfold new_hostname in refl;
          same_family = unfold new_hostname in refl;
          long = l;
          form = inl (unfold new_hostname in refl, s, rw (ex, ey), unfold new_hostname in refl);
        },
      )
  | inr plain ↦ (
    new_hostname (x ∷ y ∷ s) ip is_ipv6 false,
    ground arith,
    record {
      same_ip = unfold new_hostname in refl;
      same_family = unfold new_hostname in refl;
      long = l;
      form = inr (unfold new_hostname in refl, unfold new_hostname in refl, plain);
    },
  )
]

short_word :
    (ip : Ip) (is_ipv6 : Bool) (w : Bytes) → length w < 2 → parse_domain ip is_ipv6 w ≡ none
unfolding parse_domain
short_word ip is_ipv6 w l = ground arith

abbrev pub is_short : Bytes → Bool
is_short w = ltb (length w) 2

-- The loop over the domains runs to its end exactly if no word is shorter than two bytes; then it makes
-- one entry for each word, in order.
domains-cases :
    (ip : Ip) (is_ipv6 : Bool) (ws : List Bytes)
    → ((any is_short ws ≡ true) × (parse_domains ip is_ipv6 ws ≡ none))
      ⊎ ((any is_short ws ≡ false)
          × (hs : Hostlist) × (parse_domains ip is_ipv6 ws ≡ some hs)
          × ParsedAll ip is_ipv6 ws hs)
unfolding parse_domains
domains-cases ip is_ipv6 [] = inr (refl, [], refl, nil)
domains-cases ip is_ipv6 (w ∷ ws) = elim (Bool-cases (is_short w)) [
  | inl short ↦ inl (rw short refl, rw (short_word ip is_ipv6 w (ltb→lt _ _ short)) refl)
  | inr long ↦
      let (h, e, p) = long_word ip is_ipv6 w (ground arith) in
      elim (domains-cases ip is_ipv6 ws) [
        | inl (some_short, fails) ↦ inl (rw long some_short, rw (e, fails) refl)
        | inr (none_short, hs, runs, ps) ↦
            inr (rw long none_short, h ∷ hs, rw (e, runs) refl, cons p ps)
      ]
]

hash : (c : ℕ) → equal (c ∷ []) (lit "#") ≡ true → c ≡ b'#'
unfolding equal
hash c h = ground arith

abbrev pub StartsComment : Bytes → Type 0
StartsComment [] = Unit {0}
StartsComment (c ∷ line) = c ≡ b'#'

module _ (parse_ip : Bytes → Ip) where
  -- Why a line gives no entry: it is empty or a comment, its address has a zone, or the address is none
  -- that hosts may have.
  abbrev pub LeftOut : Bytes → Type 0
  LeftOut line =
      StartsComment line
      ⊎ (contains_byte b'%' (first (words line)) ≡ true)
      ⊎ (classify (parse_ip (first (words line))) ≡ none)

  -- The address that a line starts with is taken, as an IPv6 one if the flag says so.
  pub record Accepted (line : Bytes) (is_ipv6 : Bool) : Type 0 where
    pub no_zone : contains_byte b'%' (first (words line)) ≡ false
    pub class : classify (parse_ip (first (words line))) ≡ some is_ipv6

  -- The outcomes of `parseLine`; the fault is `none`.
  pub data Outcome (line : Bytes) : Option Hostlist → Type 0 where
    left_out : LeftOut line → Outcome line (some [])
    faults :
        (is_ipv6 : Bool)
        → Accepted line is_ipv6
        → any is_short (rest (words line)) ≡ true
        → Outcome line none
    entries :
        {hs : Hostlist} (is_ipv6 : Bool)
        → Accepted line is_ipv6
        → any is_short (rest (words line)) ≡ false
        → ParsedAll (parse_ip (first (words line))) is_ipv6 (rest (words line)) hs
        → Outcome line (some hs)

  words-Outcome : (line : Bytes) → Outcome line (parse_words parse_ip (words line))
  unfolding parse_words
  words-Outcome line = elim (Bool-cases (contains_byte b'%' (first (words line)))) [
    | inl zone ↦ rw zone (left_out (inr (inl zone)))
    | inr no_zone ↦ elim (Option-cases (classify (parse_ip (first (words line))))) [
      | inl refused ↦ rw (no_zone, refused) (left_out (inr (inr refused)))
      | inr (v6, taken) ↦
          let ok : Accepted line v6 = record { no_zone = no_zone; class = taken } in
          elim (domains-cases (parse_ip (first (words line))) v6 (rest (words line))) [
            | inl (short, fails) ↦ rw (no_zone, taken, fails) (faults v6 ok short)
            | inr (long, hs, runs, ps) ↦ rw (no_zone, taken, runs) (entries v6 ok long ps)
          ]
    ]
  ]

  -- `parseLine` leaves a line out, or makes one entry for each word behind the address, in order. It
  -- faults exactly on an accepted line with a word of fewer than two bytes behind the address.
  pub parse_line-Outcome : (line : Bytes) → Outcome line (parse_line parse_ip line)
  unfolding parse_line
  parse_line-Outcome [] = left_out (inl tt)
  parse_line-Outcome (c ∷ line) = elim (Bool-cases (equal (c ∷ []) (lit "#"))) [
    | inl comment ↦ rw comment (left_out (inl (hash c comment)))
    | inr other ↦ rw other (words-Outcome (c ∷ line))
  ]
