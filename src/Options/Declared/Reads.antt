-- ===== src/Options/Declared/Reads.antt =====
-- main.go: the program reads only options that it declares, by their types and defaults.
use go_dnsmasq.Base.{◌≡◌, refl, true, some, arith, is_some}
use go_dnsmasq.Base.Int.{ℤ}
use go_dnsmasq.Base.Text.{Bytes, lit, equal, split, trim_space}
use go_dnsmasq.Options.Declared.{
  string_flag, int_flag, bool_flag, string_slice_flag, app_flags, names_of, kind_of, Context,
  flags_of,
}

-- The two give the same for the declared options, read by the types that they are declared with.
pub record Agrees (c c' : Context) : Type 0 where
  pub strings :
      (n d : Bytes) → kind_of n app_flags ≡ some (string_flag d) → c.string n ≡ c'.string n
  pub ints : (n : Bytes) (d : ℤ) → kind_of n app_flags ≡ some (int_flag d) → c.int n ≡ c'.int n
  pub bools : (n : Bytes) → kind_of n app_flags ≡ some bool_flag → c.bool n ≡ c'.bool n
  pub slices :
      (n : Bytes)
      → kind_of n app_flags ≡ some string_slice_flag
      → c.string_slice n ≡ c'.string_slice n
  pub set : (n : Bytes) → is_some (kind_of n app_flags) ≡ true → c.is_set n ≡ c'.is_set n

-- The action reads declared options only, under one of their names and by the type that each is declared with:
-- where two contexts agree on those, it reads the same from both.
pub flags_of-Agrees : (c c' : Context) → Agrees c c' → flags_of c ≡ flags_of c'
unfolding flags_of kind_of app_flags names_of equal split trim_space
flags_of-Agrees c c' h = ground (
  arith,
  h.strings (lit "listen") _ refl,
  h.strings (lit "nameservers") _ refl,
  h.strings (lit "hostsfile") _ refl,
  h.strings (lit "search-domains") _ refl,
  h.slices (lit "stubzones") refl,
  h.ints (lit "hostsfile-poll") _ refl,
  h.ints (lit "rcache") _ refl,
  h.ints (lit "rcache-ttl") _ refl,
  h.ints (lit "rcache-ttl-max") _ refl,
  h.ints (lit "rstale-ttl") _ refl,
  h.ints (lit "fwd-ndots") _ refl,
  h.ints (lit "ndots") _ refl,
  h.bools (lit "default-resolver") refl,
  h.bools (lit "append-search-domains") refl,
  h.bools (lit "enable-search") refl,
  h.bools (lit "rcache-ttl-from-resp") refl,
  h.bools (lit "rcache-non-negative") refl,
  h.bools (lit "no-rec") refl,
  h.bools (lit "round-robin") refl,
  h.bools (lit "systemd") refl,
  h.bools (lit "verbose") refl,
  h.bools (lit "syslog") refl,
  h.bools (lit "multithreading") refl,
  h.set (lit "append-search-domains") refl,
  h.set (lit "ndots") refl,
)
