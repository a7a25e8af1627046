-- ===== src/Hosts.antt =====
-- hostsfile/utils.go and hostsfile/hostsfile.go: the hosts file, as a list of entries. `net.ParseIP` and
-- the text of an address are parameters; a fault of the program (a slice out of range) is `none`.
pub mod Net
pub mod Line
pub mod Build
pub mod Match
pub mod Poll
use go_dnsmasq.Base.{
  ℕ, zero, suc, ◌+◌, ◌-◌, Bool, true, false, not, ◌&&◌, ◌||◌, List, [], ◌∷◌, ◌++◌, Option, none,
  some, if◌then◌else◌, ltb, length, take, drop, any, map,
}
use go_dnsmasq.Base.Text.{
  Bytes, lit, equal, has_prefix, has_suffix, contains, contains_byte, replace_all, split,
  trim_space, to_lower, trim_suffix,
}
use go_dnsmasq.Hosts.Net.{Ip, is_nil, to4, to16, ip_equal, is_global_unicast, is_loopback}

pub record Hostname : Type 0 where
  pub domain : Bytes
  pub ip : Ip
  pub ipv6 : Bool
  pub wildcard : Bool

abbrev pub Hostlist : Type 0
Hostlist = List Hostname

-- `newHostname`.
unfoldable pub new_hostname : Bytes → Ip → Bool → Bool → Hostname
new_hostname domain ip ipv6 wildcard = record {
  domain = to_lower domain;
  ip = ip;
  ipv6 = ipv6;
  wildcard = wildcard;
}

eq_bool : Bool → Bool → Bool
eq_bool true b = b
eq_bool false b = not b

-- `(*hostname).Equal`.
unfoldable pub equal_hostname : Hostname → Hostname → Bool
unfolding eq_bool
equal_hostname h g =
    if not (eq_bool h.wildcard g.wildcard) || not (eq_bool h.ipv6 g.ipv6)
    then false
    else if not (ip_equal h.ip g.ip)
    then false
    else if not (equal h.domain g.domain)
    then false
    else true

-- `(*hostlist).add`: the list, and whether an error is returned.
unfoldable pub add : Hostlist → Hostname → Hostlist × Bool
unfolding new_hostname
add hs h =
    let hostname = new_hostname h.domain h.ip h.ipv6 h.wildcard in
    if any (λ found. equal_hostname found hostname) hs
    then (hs, true)
    else (hs ++ hostname ∷ [], false)

abbrev two_spaces : Bytes
two_spaces = b' ' ∷ b' ' ∷ []

-- `for strings.Contains(line, "  ") { line = strings.Replace(line, "  ", " ", -1) }`, on fuel.
unfoldable pub collapse : ℕ → Bytes → Bytes
collapse zero line = line
collapse (suc fuel) line =
    let shorter = collapse fuel (replace_all line two_spaces (b' ' ∷ [])) in
    if contains line two_spaces then shorter else line

unfoldable pub first : List Bytes → Bytes
first [] = []
first (w ∷ ws) = w

unfoldable pub rest : List Bytes → List Bytes
rest [] = []
rest (w ∷ ws) = ws

-- `words` of `parseLine`, each trimmed.
unfoldable pub words : Bytes → List Bytes
unfolding collapse first
words line =
    let uncommented = first (split b'#' line) in
    let spaced = replace_all uncommented (b'\t' ∷ []) (b' ' ∷ []) in
    map trim_space (split b' ' (trim_space (collapse (suc (length spaced)) spaced)))

-- One word of the loop over the domains; `v[0:2]` faults on a word of fewer than two bytes.
unfoldable pub parse_domain : Ip → Bool → Bytes → Option Hostname
unfolding new_hostname
parse_domain ip is_ipv6 v =
    if ltb (length v) 2
    then none
    else if equal (take 2 v) (lit "*.")
    then some (new_hostname (drop 2 v) ip is_ipv6 true)
    else some (new_hostname v ip is_ipv6 false)

infixl 5 ◌>>=◌
abbrev pub ◌>>=◌ {ℓ κ} : {A : Type ℓ} {B : Type κ} → Option A → (A → Option B) → Option B
none >>= f = none
some a >>= f = f a

-- The loop over the domains.
unfoldable pub parse_domains : Ip → Bool → List Bytes → Option Hostlist
unfolding parse_domain
parse_domains ip is_ipv6 [] = some []
parse_domains ip is_ipv6 (v ∷ domains) = do
  h ← parse_domain ip is_ipv6 v
  hs ← parse_domains ip is_ipv6 domains
  some (h ∷ hs)

-- `fe00::`.
abbrev fe00 : Ip
fe00 = 0xfe ∷ 0 ∷ 0 ∷ 0 ∷ 0 ∷ 0 ∷ 0 ∷ 0 ∷ 0 ∷ 0 ∷ 0 ∷ 0 ∷ 0 ∷ 0 ∷ 0 ∷ 0 ∷ []

-- The switch of `parseLine` on the address: `some is_ipv6`, or `none` where the line is left out.
unfoldable pub classify : Ip → Option Bool
classify ip =
    if not (is_global_unicast ip) && not (is_loopback ip)
    then none
    else if ip_equal ip fe00
    then none
    else if not (is_nil (to4 ip))
    then some false
    else if not (is_nil (to16 ip))
    then some true
    else none

-- The inner loop of `newHostlistString`; an error of `add` is only logged.
unfoldable pub add_all : Hostlist → Hostlist → Hostlist
unfolding add
add_all hs [] = hs
add_all hs (h ∷ parsed) = add_all (add hs h).0 parsed

module _ (parse_ip : Bytes → Ip) where
  -- `parseLine` behind the split into words.
  unfoldable pub parse_words : List Bytes → Option Hostlist
  unfolding first rest classify parse_domains
  parse_words ws =
      if contains_byte b'%' (first ws) then some [] else elim (classify (parse_ip (first ws))) [
        | none ↦ some []
        | some is_ipv6 ↦ parse_domains (parse_ip (first ws)) is_ipv6 (rest ws)
      ]

  -- `parseLine`.
  unfoldable pub parse_line : Bytes → Option Hostlist
  unfolding parse_words words
  parse_line [] = some []
  parse_line (c ∷ line) =
      if equal (c ∷ []) (lit "#") then some [] else parse_words (words (c ∷ line))

  unfoldable pub add_lines : Hostlist → List Bytes → Option Hostlist
  unfolding add_all parse_line
  add_lines hs [] = some hs
  add_lines hs (line ∷ lines) = do parsed ← parse_line line; add_lines (add_all hs parsed) lines

  -- `newHostlistString`.
  unfoldable pub new_hostlist : Bytes → Option Hostlist
  unfolding add_lines
  new_hostlist data_ = add_lines [] (split b'\n' data_)

-- `!hostname.wildcard && hostname.domain == name`.
unfoldable pub is_exact : Bytes → Hostname → Bool
is_exact name h = not h.wildcard && equal h.domain name

-- The tests of the second loop of `FindHosts`.
unfoldable pub is_wild : Bytes → Hostname → Bool
is_wild name h =
    if h.wildcard && ltb (length h.domain) (length name)
    then (let domain_match = b'.' ∷ h.domain in
        let cut = length name - length domain_match in
        if equal (drop cut name) domain_match
        then not (contains_byte b'.' (take cut name))
        else false)
    else false

-- A loop that appends `hostname.ip` where a test holds.
unfoldable pub collect : (Hostname → Bool) → Hostlist → List Ip
collect p [] = []
collect p (h ∷ hs) = let others = collect p hs in if p h then h.ip ∷ others else others

abbrev is_empty {ℓ} : {A : Type ℓ} → List A → Bool
is_empty [] = true
is_empty (x ∷ xs) = false

-- `(*hostlist).FindHosts`.
unfoldable pub find_hosts : Hostlist → Bytes → List Ip
unfolding collect is_exact is_wild
find_hosts hs name =
    let addrs = collect (is_exact name) hs in
    if is_empty addrs then collect (is_wild name) hs else addrs

head? : List Ip → Option Ip
head? [] = none
head? (ip ∷ ips) = some ip

-- `(*hostlist).FindHost`.
unfoldable pub find_host : Hostlist → Bytes → Option Ip
unfolding find_hosts head?
find_host hs name = head? (find_hosts hs name)

-- `(*Hostsfile).FindHosts`.
unfoldable pub hostsfile_find_hosts : Hostlist → Bytes → List Ip
hostsfile_find_hosts hs name = find_hosts hs (trim_suffix name (b'.' ∷ []))

-- `(*Hostsfile).FindReverse`: `reverse ip` is the name that `dns.ReverseAddr(ip.String())` returns.
unfoldable pub find_reverse : (Ip → Bytes) → (Bytes → Bytes) → Hostlist → Bytes → Bytes
find_reverse reverse fqdn [] name = []
find_reverse reverse fqdn (h ∷ hs) name =
    let later = find_reverse reverse fqdn hs name in
    if equal name (reverse h.ip) then fqdn h.domain else later
