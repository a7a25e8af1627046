-- ===== src/Tests/ResolvRuns.antt =====
-- The rewriting of resolv.conf, on a concrete text.
use go_dnsmasq.Base.{◌≡◌, refl, false, All}
use go_dnsmasq.Base.Text.{
  Bytes, lit, equal, has_prefix, has_suffix, contains, contains_byte, replace_all, split_after,
  trim_left, trim_space, to_lower, concat,
}
use go_dnsmasq.ResolvConf.{is_added, is_nameserver, comment, store_address, clean}
use go_dnsmasq.ResolvConf.File.{Faults, update_file, IsTorn, update_file-IsTorn}
use go_dnsmasq.ResolvConf.{update_resolv_conf}
use go_dnsmasq.Base.{none, some, ◌==◌, if◌then◌else◌}
use go_dnsmasq.ResolvConf.RoundTrip.{IsPlain, clean-store_address}

abbrev pub text : Bytes
text = lit "search lan\nnameserver 9.9.9.9\n"

program : Unit {0}
unfolding store_address clean is_added is_nameserver comment equal has_prefix has_suffix contains
    contains_byte replace_all split_after trim_left trim_space to_lower concat
program = tt

-- `StoreAddress` puts its line first, and comments the nameservers out.
stored_text :
    store_address (lit "127.0.0.1") text
    ≡ lit
        "nameserver 127.0.0.1 # added by go-dnsmasq\nsearch lan\n# disabled by go-dnsmasq # nameserver 9.9.9.9\n"
unfolding program
stored_text = refl

-- The space before a nameserver line is lost.
lost_space :
    clean (store_address (lit "127.0.0.1") (lit " nameserver 9.9.9.9")) ≡ lit "nameserver 9.9.9.9"
unfolding program
lost_space = refl

pub text-IsPlain : All IsPlain (split_after b'\n' text)
unfolding program
text-IsPlain = (
  record { kept = refl; kept_commented = refl; fresh = refl; flush = λ server. refl },
  (
    record { kept = refl; kept_commented = refl; fresh = refl; flush = λ server. refl },
    (record { kept = refl; kept_commented = refl; fresh = refl; flush = λ server. refl }, tt),
  ),
)

pub cleaned_text : clean text ≡ text
unfolding program
cleaned_text = refl

no_newline : contains_byte b'\n' (lit "127.0.0.1") ≡ false
unfolding program
no_newline = refl

clean-store_address_example : clean (store_address (lit "127.0.0.1") text) ≡ text
clean-store_address_example = clean-store_address (lit "127.0.0.1") text no_newline text-IsPlain

-- No call fails.
abbrev pub no_faults : Faults
no_faults = record {
  opening = false;
  reading = false;
  seeking = false;
  writing = λ n. none;
  truncating = false;
}

-- The write of the first line fails after three bytes.
abbrev faults : Faults
faults = record {
  opening = false;
  reading = false;
  seeking = false;
  writing = λ n. if n == 1 then some 3 else none;
  truncating = false;
}

torn_text :
    update_file faults (lit "nameserver 127.0.0.1\n") text
    ≡ (lit "nameserver 127.0.0.1\nsea9.9.9\n", false)
unfolding program update_file
torn_text = refl

update_file-IsTorn_example :
    IsTorn
      (update_resolv_conf (lit "nameserver 127.0.0.1\n") text)
      text
      (update_file faults (lit "nameserver 127.0.0.1\n") text)
update_file-IsTorn_example = update_file-IsTorn faults (lit "nameserver 127.0.0.1\n") text
