-- ===== src/HostPort/Laws.antt =====
-- `net.SplitHostPort` and `net.JoinHostPort` undo each other.
use go_dnsmasq.Base.{
  ℕ, ◌≡◌, refl, ◌∙◌, inl, inr, true, false, [], ◌∷◌, ◌++◌, none, some, arith, ◌==◌, Bool-cases,
}
use go_dnsmasq.Base.Text.{Bytes, contains_byte}
use go_dnsmasq.Base.Text.Laws.{contains_byte-append}
use go_dnsmasq.HostPort.{
  cut_first, cut_last, split_bracketed, split_plain, split_host_port, join_host_port,
}

cut_first-append :
    (b : ℕ) (s t : Bytes) → contains_byte b s ≡ false → cut_first b (s ++ b ∷ t) ≡ some (s, t)
unfolding cut_first contains_byte
cut_first-append b [] t h = let e : (b == b) ≡ true = ground arith in rw (e, cut_first) refl
cut_first-append b (x ∷ s) t h =
    let other : (x == b) ≡ false = ground arith in
    let none_left : contains_byte b s ≡ false = ground arith in
    rw (other, cut_first-append b s t none_left, cut_first) refl

cut_last_absent : (b : ℕ) (s : Bytes) → contains_byte b s ≡ false → cut_last b s ≡ none
unfolding cut_last contains_byte
cut_last_absent b [] h = refl
cut_last_absent b (x ∷ s) h =
    let other : (x == b) ≡ false = ground arith in
    let none_left : contains_byte b s ≡ false = ground arith in
    rw (cut_last_absent b s none_left, other) refl

cut_last-append :
    (b : ℕ) (s t : Bytes) → contains_byte b t ≡ false → cut_last b (s ++ b ∷ t) ≡ some (s, t)
unfolding cut_last
cut_last-append b [] t h =
    let e : (b == b) ≡ true = ground arith in rw (cut_last_absent b t h, e) refl
cut_last-append b (x ∷ s) t h = rw (cut_last-append b s t h) refl

-- A text with no brackets.
abbrev pub IsBare : Bytes → Type 0
IsBare s = (contains_byte b'[' s ≡ false) × (contains_byte b']' s ≡ false)

-- A port with no colon and no brackets.
abbrev pub IsPort : Bytes → Type 0
IsPort s = (contains_byte b':' s ≡ false) × IsBare s

split_host_port_bare :
    (host port : Bytes)
    → contains_byte b'[' host ≡ false
    → split_host_port (host ++ b':' ∷ port) ≡ split_plain (host ++ b':' ∷ port)
unfolding split_host_port contains_byte
split_host_port_bare [] port h = refl
split_host_port_bare (x ∷ host) port h =
    let other : (x == b'[') ≡ false = ground arith in rw other refl

module _ (host port : Bytes) (h : IsBare host) (p : IsPort port) where
  split_plain-append :
      contains_byte b':' host ≡ false → split_plain (host ++ b':' ∷ port) ≡ some (host, port)
  unfolding split_plain contains_byte
  split_plain-append colon =
      let l : contains_byte b'[' (host ++ b':' ∷ port) ≡ false =
        ground (arith, contains_byte-append b'[' host (b':' ∷ port)) in
      let r : contains_byte b']' (host ++ b':' ∷ port) ≡ false =
        ground (arith, contains_byte-append b']' host (b':' ∷ port)) in
      rw (cut_last-append b':' host port p.0, split_plain) (rw (colon, l, r) refl)

  split_bracketed-append : split_bracketed (host ++ b']' ∷ b':' ∷ port) ≡ some (host, port)
  unfolding split_bracketed contains_byte
  split_bracketed-append =
      let l : contains_byte b'[' (host ++ b']' ∷ b':' ∷ port) ≡ false =
        ground (arith, contains_byte-append b'[' host (b']' ∷ b':' ∷ port)) in
      rw (cut_first-append b']' host (b':' ∷ port) h.1, split_bracketed) (rw (p.0, p.1.1, l) refl)

  split_host_port-plain :
      contains_byte b':' host ≡ false → split_host_port (host ++ b':' ∷ port) ≡ some (host, port)
  split_host_port-plain colon = split_host_port_bare host port h.0 ∙ split_plain-append colon

  -- `SplitHostPort` takes a host and a port apart that `JoinHostPort` put together, where the host has no
  -- brackets and the port has neither brackets nor a colon.
  pub split_host_port-join_host_port :
      split_host_port (join_host_port host port) ≡ some (host, port)
  unfolding join_host_port split_host_port
  split_host_port-join_host_port = elim (Bool-cases (contains_byte b':' host)) [
    | inl six ↦ rw six split_bracketed-append
    | inr four ↦ rw four (split_host_port-plain four)
  ]
