-- ===== src/Cache/Key/Injective.antt =====
-- cache/cache.go: which requests share a key of the cache.
use mathlib.Core.List.{reverse, reverse-append, reverse-reverse, append_cancel_right}
use go_dnsmasq.Base.{
  ℕ, ◌/◌, ◌%◌, ◌^◌, ◌<◌, ◌≡◌, ◌≢◌, refl, sym, ap, ◌∙◌, Bool, true, false, [], ◌∷◌, ◌++◌, arith,
}
use go_dnsmasq.Base.Text.{Bytes}
use go_dnsmasq.Dns.{Question}
use go_dnsmasq.Cache.Key.{pack_uint16, sha1_empty, flags, key}

-- A name in absolute form, which ends in one dot.
pub record IsFqdn (name : Bytes) : Type 0 where
  pub stem : Bytes
  pub ends : name ≡ stem ++ b'.' ∷ []
  pub one_dot : (t : Bytes) → stem ≢ t ++ b'.' ∷ []

reverse-snoc : (s : Bytes) (x : ℕ) → reverse (s ++ x ∷ []) ≡ x ∷ reverse s
reverse-snoc s x = reverse-append s (x ∷ [])

-- The last bytes of a key without the digest, read backwards.
backwards : Bool → Bool → ℕ → ℕ → Bytes → Bytes
backwards true true hi lo n = 254 ∷ 255 ∷ lo ∷ hi ∷ n
backwards true false hi lo n = 255 ∷ lo ∷ hi ∷ n
backwards false true hi lo n = 254 ∷ lo ∷ hi ∷ n
backwards false false hi lo n = lo ∷ hi ∷ n

reverse-flags :
    (d t : Bool) (n : Bytes) (hi lo : ℕ)
    → reverse ((n ++ hi ∷ lo ∷ []) ++ flags d t) ≡ backwards d t hi lo (reverse n)
unfolding backwards
reverse-flags true true n hi lo = rw (reverse-append, reverse-append) refl
reverse-flags true false n hi lo = rw (reverse-append, reverse-append) refl
reverse-flags false true n hi lo = rw (reverse-append, reverse-append) refl
reverse-flags false false n hi lo = rw (reverse-append, reverse-append) refl

-- What two keys share, read backwards.
abbrev Same : Bool → Bool → Bool → Bool → ℕ → ℕ → ℕ → ℕ → Bytes → Bytes → Type 0
Same d t d' t' hi lo hi' lo' u u' = (d ≡ d') × (t ≡ t') × (hi ≡ hi') × (lo ≡ lo') × (u ≡ u')

module _ (hi lo hi' lo' : ℕ) (u u' : Bytes) (ends : (w : Bytes) → u ≢ b'.' ∷ w)
    (ends' : (w : Bytes) → u' ≢ b'.' ∷ w) (small : hi < 255) (small' : hi' < 255) where
  backwards-injective :
      (d t d' t' : Bool)
      → backwards d t hi lo (b'.' ∷ u) ≡ backwards d' t' hi' lo' (b'.' ∷ u')
      → Same d t d' t' hi lo hi' lo' u u'
  unfolding backwards
  backwards-injective true true true true e = ground arith
  backwards-injective true true true false e = absurd (ground arith)
  backwards-injective true true false true e = absurd (ends' u (ground arith))
  backwards-injective true true false false e = absurd (ground arith)
  backwards-injective true false true true e = absurd (ground arith)
  backwards-injective true false true false e = ground arith
  backwards-injective true false false true e = absurd (ground arith)
  backwards-injective true false false false e = absurd (ends' u (ground arith))
  backwards-injective false true true true e = absurd (ends u' (ground arith))
  backwards-injective false true true false e = absurd (ground arith)
  backwards-injective false true false true e = ground arith
  backwards-injective false true false false e = absurd (ends' u (ground arith))
  backwards-injective false false true true e = absurd (ground arith)
  backwards-injective false false true false e = absurd (ends u' (ground arith))
  backwards-injective false false false true e = absurd (ends u' (ground arith))
  backwards-injective false false false false e = ground arith

one_dot_reverse : {name : Bytes} (f : IsFqdn name) (w : Bytes) → reverse f.stem ≢ b'.' ∷ w
one_dot_reverse f w e =
    f.one_dot (reverse w)
      (sym (reverse-reverse f.stem) ∙ ap reverse e ∙ reverse-append (b'.' ∷ []) w)

reverse-IsFqdn : {name : Bytes} (f : IsFqdn name) → reverse name ≡ b'.' ∷ reverse f.stem
reverse-IsFqdn f = ap reverse f.ends ∙ reverse-snoc f.stem b'.'

reverse-key :
    (q : Question) (d t : Bool) (f : IsFqdn q.name)
    → reverse ((q.name ++ pack_uint16 q.qtype) ++ flags d t)
      ≡ backwards d t (q.qtype / 2 ^ 8 % 2 ^ 8) (q.qtype % 2 ^ 8) (b'.' ∷ reverse f.stem)
unfolding pack_uint16
reverse-key q d t f =
    reverse-flags d t q.name (q.qtype / 2 ^ 8 % 2 ^ 8) (q.qtype % 2 ^ 8)
    ∙ ap (backwards d t (q.qtype / 2 ^ 8 % 2 ^ 8) (q.qtype % 2 ^ 8)) (reverse-IsFqdn f)

-- Two requests for absolute names that end in one dot, of types below 65280, share a key only if they
-- ask for the same name and type, with the same DNSSEC flag and over the same transport. The class of a
-- question is no part of the key.
pub key-injective :
    (q r : Question) (d t d' t' : Bool)
    → IsFqdn q.name
    → IsFqdn r.name
    → q.qtype < 65280
    → r.qtype < 65280
    → key q d t ≡ key r d' t'
    → (q.name ≡ r.name) × (q.qtype ≡ r.qtype) × (d ≡ d') × (t ≡ t')
unfolding key
key-injective q r d t d' t' f g small small' e =
    let same = append_cancel_right _ _ sha1_empty e in
    let (ed, et, eh, el, eu) =
      backwards-injective (q.qtype / 2 ^ 8 % 2 ^ 8) (q.qtype % 2 ^ 8) (r.qtype / 2 ^ 8 % 2 ^ 8)
        (r.qtype % 2 ^ 8) (reverse f.stem) (reverse g.stem) (one_dot_reverse f) (one_dot_reverse g)
        (omega arith) (omega arith) d t d' t'
        (sym (reverse-key q d t f) ∙ ap reverse same ∙ reverse-key r d' t' g) in
    let stems : f.stem ≡ g.stem =
      sym (reverse-reverse f.stem) ∙ ap reverse eu ∙ reverse-reverse g.stem in
    (f.ends ∙ ap (λ s. s ++ b'.' ∷ []) stems ∙ sym g.ends, omega arith, ed, et)

-- Questions that differ in their class alone share a key.
pub key_any_class :
    (q : Question) (class : ℕ) (d t : Bool) → key (record q { qclass = class }) d t ≡ key q d t
unfolding key
key_any_class q class d t = refl
