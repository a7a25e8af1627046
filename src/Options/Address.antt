-- ===== src/Options/Address.antt =====
-- main.go: which addresses the options take, and the port that they get.
use go_dnsmasq.Base.{
  ◌≡◌, refl, ap, append_assoc, subst, inl, inr, true, false, [], ◌∷◌, ◌++◌, some, arith,
  if◌then◌else◌, Bool-cases,
}
use go_dnsmasq.Base.Int.{pos, leb_ℤ, ltb_ℤ}
use go_dnsmasq.Base.Text.{Bytes, lit, has_suffix, has_prefix, contains, contains_byte}
use go_dnsmasq.Base.Text.Laws.{has_suffix-append, has_suffix_absent, contains_byte-append}
use go_dnsmasq.HostPort.{join_host_port, atoi}
use go_dnsmasq.HostPort.Laws.{IsBare, IsPort, split_host_port-join_host_port}
use go_dnsmasq.Hosts.Net.{Ip}
use go_dnsmasq.Options.{with_port, validate_host_port, checked}
use go_dnsmasq.Server.Config.{is_nil}

contains-contains_byte : (b : _) (s : Bytes) → contains s (b ∷ []) ≡ contains_byte b s
unfolding contains contains_byte has_prefix
contains-contains_byte b [] = refl
contains-contains_byte b (x ∷ s) = ground (arith, contains-contains_byte b s)

-- The port is a number from 1 to 65535.
abbrev pub InRange : Bytes → Type 0
InRange port = (leb_ℤ (pos 1) (atoi port) ≡ true) × (leb_ℤ (atoi port) (pos 65535) ≡ true)

module _ (parse_ip : Bytes → Ip) where
  -- An address joined with a port is accepted, where the host is an address with no brackets and the port is
  -- in range.
  pub validate_host_port-join_host_port :
      (host port : Bytes)
      → is_nil (parse_ip host) ≡ false
      → IsBare host
      → IsPort port
      → InRange port
      → validate_host_port parse_ip (join_host_port host port) ≡ true
  unfolding validate_host_port
  validate_host_port-join_host_port host port ip h p (low, high) =
      let l : ltb_ℤ (atoi port) (pos 1) ≡ false = ground arith in
      let u : ltb_ℤ (pos 65535) (atoi port) ≡ false = ground arith in
      rw (split_host_port-join_host_port host port h p, validate_host_port) (rw (ip, l, u) refl)

  -- A host as the options want it without a port: an address with a colon stands in brackets.
  abbrev pub written : Bytes → Bytes
  written host = if contains_byte b':' host then b'[' ∷ host ++ b']' ∷ [] else host

  no_bracket_last : (s : Bytes) → contains_byte b']' s ≡ false → has_suffix s (lit "]") ≡ false
  unfolding has_suffix
  no_bracket_last [] h = refl
  no_bracket_last (x ∷ s) h = has_suffix_absent b']' [] x s h

  checked_valid :
      (h s : Bytes)
      → with_port h ≡ s
      → validate_host_port parse_ip s ≡ true
      → checked parse_ip h ≡ some s
  unfolding checked
  checked_valid h s e v = rw (e, v) refl

  with_port-written :
      (host : Bytes) → IsBare host → with_port (written host) ≡ join_host_port host (lit "53")
  unfolding with_port join_host_port
  with_port-written host h = elim (Bool-cases (contains_byte b':' host)) [
    | inl six ↦
        let e : has_suffix ((b'[' ∷ host) ++ b']' ∷ []) (lit "]") ≡ true =
          has_suffix-append (b'[' ∷ host) (lit "]") in
        rw (six, e) (ap (◌∷◌ b'[') (append_assoc host (b']' ∷ []) (lit ":53")))
    | inr four ↦ rw (four, no_bracket_last host h.1, contains-contains_byte b':' host, four) refl
  ]

  with_port_kept : (s port : Bytes) → IsPort port → with_port (s ++ b':' ∷ port) ≡ s ++ b':' ∷ port
  unfolding with_port contains_byte
  with_port_kept s port p =
      let e : has_suffix (s ++ b':' ∷ port) (lit "]") ≡ false =
        has_suffix_absent b']' s b':' port (ground (arith, p.1.1)) in
      let c : contains_byte b':' (s ++ b':' ∷ port) ≡ true =
        ground (arith, contains_byte-append b':' s (b':' ∷ port)) in
      rw (e, contains-contains_byte b':' (s ++ b':' ∷ port), c) refl

  with_port-join_host_port :
      (host port : Bytes)
      → IsPort port
      → with_port (join_host_port host port) ≡ join_host_port host port
  unfolding join_host_port
  with_port-join_host_port host port p = elim (Bool-cases (contains_byte b':' host)) [
    | inl six ↦
        let e = ap (◌∷◌ b'[') (append_assoc host (b']' ∷ []) (b':' ∷ port)) in
        rw six (subst (λ t. with_port t ≡ t) e (with_port_kept (b'[' ∷ host ++ b']' ∷ []) port p))
    | inr four ↦ rw four (with_port_kept host port p)
  ]

  -- An address with no brackets in it, written in brackets if it has a colon, is taken with the port 53; and
  -- one joined with a port in range, with no colon or bracket in it, is taken as it is.
  pub checked_address :
      (host port : Bytes)
      → is_nil (parse_ip host) ≡ false
      → IsBare host
      → IsPort port
      → InRange port
      → (checked parse_ip (written host) ≡ some (join_host_port host (lit "53")))
        × (checked parse_ip (join_host_port host port) ≡ some (join_host_port host port))
  unfolding atoi contains_byte
  checked_address host port ip h p range = (
    checked_valid (written host) _ (with_port-written host h)
        (validate_host_port-join_host_port host (lit "53") ip h (refl, (refl, refl)) (refl, refl)),
    checked_valid _ _ (with_port-join_host_port host port p)
        (validate_host_port-join_host_port host port ip h p range),
  )
