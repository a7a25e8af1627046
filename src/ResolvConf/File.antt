-- ===== src/ResolvConf/File.antt =====
-- resolvconf/resolvconf.go: the writing of the file in place, with the errors of the file system.
use go_dnsmasq.Base.{
  ℕ, ◌+◌, ◌≡◌, refl, ap, sym, ◌∙◌, ◌⊎◌, inl, inr, Bool, true, false, ◌||◌, List, [], ◌∷◌, ◌++◌,
  Option, none, some, if◌then◌else◌, map, take, drop, length, append_assoc, take-append,
  take-append-drop, Bool-cases, Option-cases,
}
use go_dnsmasq.Base.Text.{Bytes, split_after, concat}
use go_dnsmasq.ResolvConf.{
  remove_added, uncomment, comment, update_resolv_conf, entry, store_address, clean,
}
use go_dnsmasq.Server.Config.{is_nil}

-- Which calls fail: the opening, the reading, the seek to the start, the write of this number, after it has written so
-- many bytes, and the seek or the truncation at the end.
pub record Faults : Type 0 where
  pub opening : Bool
  pub reading : Bool
  pub seeking : Bool
  pub writing : ℕ → Option ℕ
  pub truncating : Bool

-- The file once `written` stands at its start, before it is truncated.
abbrev over : Bytes → Bytes → Bytes
over written old = written ++ drop (length written) old

-- The writes from the `n`-th on, and the truncation; whether all went well.
unfoldable pub write_all : Faults → ℕ → List Bytes → Bytes → Bytes → Bytes × Bool
write_all f n [] written old = if f.truncating then (over written old, false) else (written, true)
write_all f n (text ∷ texts) written old =
    let later = write_all f (n + 1) texts (written ++ text) old in
    elim (f.writing n) [ some k ↦ (over (written ++ take k text) old, false) | none ↦ later ]

-- `updateResolvConf` on the content of the file, which is empty where the file was missing: the content after it, and
-- whether it returned nil.
unfoldable pub update_file : Faults → Bytes → Bytes → Bytes × Bool
unfolding write_all
update_file f insert old =
    if f.opening || (f.reading || f.seeking)
    then (old, false)
    else write_all f 0
        (insert
          ∷ map (if is_nil insert then uncomment else comment)
              (split_after b'\n' (remove_added old)))
        [] old

-- `StoreAddress`: the content of the file after it, and whether it returned nil.
unfoldable pub store_file : Faults → Bytes → Bytes → Bytes × Bool
unfolding update_file entry
store_file f address old = update_file f (entry address) old

-- `Clean`, and whether `updateResolvConf` returned nil in it; an error is only logged.
unfoldable pub clean_file : Faults → Bytes → Bytes × Bool
unfolding update_file
clean_file f old = update_file f [] old

-- Either the new text stands in the file, or an error is returned and the file has the beginning of the new text
-- over that of the old one.
abbrev pub IsTorn : Bytes → Bytes → Bytes × Bool → Type 0
IsTorn new old r = (r ≡ (new, true)) ⊎ ((r.1 ≡ false) × (n : ℕ) × (r.0 ≡ take n new ++ drop n old))

append_nil : (s : Bytes) → s ++ [] ≡ s
append_nil [] = refl
append_nil (x ∷ s) = ap (◌∷◌ x) (append_nil s)

-- The file is torn behind the text written, the start of the new text.
over-IsTorn :
    (written rest new old : Bytes)
    → written ++ rest ≡ new
    → IsTorn new old (over written old, false)
over-IsTorn written rest new old e =
    inr (refl, length written, rw⁻¹ e (rw (take-append written rest) refl))

write_all-IsTorn :
    (f : Faults) (n : ℕ) (texts : List Bytes) (written new old : Bytes)
    → written ++ concat texts ≡ new
    → IsTorn new old (write_all f n texts written old)
unfolding write_all concat
write_all-IsTorn f n [] written new old e = elim (Bool-cases f.truncating) [
  | inl fails ↦ rw (fails, write_all) (over-IsTorn written [] new old e)
  | inr works ↦
      rw (works, write_all) (inl (ap (λ (s : Bytes). (s, true)) (sym (append_nil written) ∙ e)))
]
write_all-IsTorn f n (text ∷ texts) written new old e = elim (Option-cases (f.writing n)) [
  | inl works ↦
      rw (works, write_all)
        (write_all-IsTorn f (n + 1) texts (written ++ text) new old
          (append_assoc written text (concat texts) ∙ e))
  | inr (k, fails) ↦
      rw (fails, write_all)
        (over-IsTorn (written ++ take k text) (drop k text ++ concat texts) new old (split k ∙ e))
]
  where
    split :
        (k : ℕ)
        → (written ++ take k text) ++ (drop k text ++ concat texts)
          ≡ written ++ (text ++ concat texts)
    split k =
        append_assoc written (take k text) (drop k text ++ concat texts)
        ∙ ap (λ (s : Bytes). written ++ s)
            (sym (append_assoc (take k text) (drop k text) (concat texts))
              ∙ ap (λ (s : Bytes). s ++ concat texts) (take-append-drop k text))

-- Whatever calls fail, `updateResolvConf` either puts the whole new text into the file and returns nil, or it returns an
-- error and the file has the first bytes of the new text, as many as were written, in the place of as many of
-- the old one.
pub update_file-IsTorn :
    (f : Faults) (insert old : Bytes)
    → IsTorn (update_resolv_conf insert old) old (update_file f insert old)
unfolding update_file update_resolv_conf
update_file-IsTorn f insert old = elim (Bool-cases (f.opening || (f.reading || f.seeking))) [
  | inl fails ↦ rw fails (inr (refl, 0, refl))
  | inr works ↦ rw works (
      write_all-IsTorn f 0
        (insert
          ∷ map (if is_nil insert then uncomment else comment)
              (split_after b'\n' (remove_added old)))
        [] _ old refl)
]

pub store_file-IsTorn :
    (f : Faults) (address old : Bytes)
    → IsTorn (store_address address old) old (store_file f address old)
unfolding store_file store_address
store_file-IsTorn f address old = update_file-IsTorn f (entry address) old

pub clean_file-IsTorn : (f : Faults) (old : Bytes) → IsTorn (clean old) old (clean_file f old)
unfolding clean_file clean
clean_file-IsTorn f old = update_file-IsTorn f [] old

-- The text is the new one, or the call returned an error.
pub IsTorn-cases :
    (new old : Bytes) (r : Bytes × Bool) → IsTorn new old r → (r.0 ≡ new) ⊎ (r.1 ≡ false)
IsTorn-cases new old r (inl e) = inl (ap (λ (p : Bytes × Bool). p.0) e)
IsTorn-cases new old r (inr torn) = inr torn.0
