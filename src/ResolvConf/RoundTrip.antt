-- ===== src/ResolvConf/RoundTrip.antt =====
-- resolvconf/resolvconf.go: `Clean` undoes `StoreAddress`.
use go_dnsmasq.Base.{
  ◌≡◌, refl, ap, append_assoc, sym, ◌∙◌, inl, inr, true, false, List, [], ◌∷◌, ◌++◌, arith,
  Bool-cases, ◌==◌, All, map,
}
use go_dnsmasq.Base.Text.{
  Bytes, lit, contains, contains_byte, replace_all, split_after, trim_left, concat,
}
use go_dnsmasq.Base.Text.Laws.{has_suffix-append, contains_byte-append}
use go_dnsmasq.Base.Text.Lines.{
  IsLine, IsLines, IsLines-cons, IsLines-split_after, concat-split_after, split_after-concat,
}
use go_dnsmasq.Base.Text.Replace.{contains-append, replace_all-append, replace_all_absent}
use go_dnsmasq.ResolvConf.{
  comment_add, comment_out, is_added, drop_added, remove_added, is_nameserver, uncomment, comment,
  entry, store_address, clean,
}

-- A line that the rewriting can restore: neither it nor its commented form ends in the comment of an added
-- line, it has no comment of a disabled line in it, and a nameserver line starts with no space.
pub record IsPlain (line : Bytes) : Type 0 where
  pub kept : is_added line ≡ false
  pub kept_commented : is_added (comment line) ≡ false
  pub fresh : contains (b' ' ∷ line) comment_out ≡ false
  pub flush : is_nameserver line ≡ true → trim_left (λ c. c == b' ') line ≡ line

contains-tail : (x : _) (s p : Bytes) → contains (x ∷ s) p ≡ false → contains s p ≡ false
unfolding contains
contains-tail x s p h = ground arith

uncomment-comment : (l : Bytes) → IsPlain l → uncomment (comment l) ≡ l
unfolding comment uncomment trim_left
uncomment-comment l p = elim (Bool-cases (is_nameserver l)) [
  | inl server ↦
      let r : replace_all (comment_out ++ b' ' ∷ l) comment_out [] ≡ b' ' ∷ l =
        replace_all-append _ _ (b' ' ∷ l) ∙ replace_all_absent comment_out [] (b' ' ∷ l) p.fresh in
      rw (server, contains-append b'#' _ (b' ' ∷ l), r) (p.flush server)
  | inr other ↦ rw (other, contains-tail b' ' l comment_out p.fresh) refl
]

no_newline-append :
    (p s : Bytes)
    → contains_byte b'\n' p ≡ false
    → contains_byte b'\n' s ≡ false
    → contains_byte b'\n' (p ++ s) ≡ false
no_newline-append p s h k = ground (arith, contains_byte-append b'\n' p s)

abbrev mark : Bytes
mark = comment_out ++ b' ' ∷ []

comment_plain :
    (l : Bytes) → contains_byte b'\n' l ≡ false → contains_byte b'\n' (comment l) ≡ false
unfolding comment contains_byte
comment_plain l h = elim (Bool-cases (is_nameserver l)) [
  | inl server ↦ rw server (no_newline-append mark l refl h)
  | inr other ↦ rw other h
]

comment-IsLine : (l : Bytes) → IsLine l → IsLine (comment l)
unfolding comment contains_byte
comment-IsLine l (b, e, n) = elim (Bool-cases (is_nameserver l)) [
  | inl server ↦ rw server (
    mark ++ b,
    ap (λ (t : Bytes). mark ++ t) e ∙ sym (append_assoc mark b (b'\n' ∷ [])),
    no_newline-append mark b refl n,
  )
  | inr other ↦ rw other (b, e, n)
]

comment-IsLines : (ls : List Bytes) → IsLines ls → IsLines (map comment ls)
comment-IsLines [] is = absurd is
comment-IsLines (l ∷ []) is = comment_plain l is
comment-IsLines (l ∷ m ∷ ls) (i, is) = (comment-IsLine l i, comment-IsLines (m ∷ ls) is)

drop_added_plain : (ls : List Bytes) → All IsPlain ls → drop_added ls ≡ ls
unfolding drop_added
drop_added_plain [] a = refl
drop_added_plain (l ∷ ls) (p, a) = rw p.kept (ap (◌∷◌ l) (drop_added_plain ls a))

drop_added-comment :
    (ls : List Bytes) → All IsPlain ls → drop_added (map comment ls) ≡ map comment ls
unfolding drop_added
drop_added-comment [] a = refl
drop_added-comment (l ∷ ls) (p, a) =
    rw p.kept_commented (ap (◌∷◌ (comment l)) (drop_added-comment ls a))

map-uncomment-comment : (ls : List Bytes) → All IsPlain ls → map uncomment (map comment ls) ≡ ls
map-uncomment-comment [] a = refl
map-uncomment-comment (l ∷ ls) (p, a) =
    rw (uncomment-comment l p) (ap (◌∷◌ l) (map-uncomment-comment ls a))

pub remove_added_plain :
    (orig : Bytes) → All IsPlain (split_after b'\n' orig) → remove_added orig ≡ orig
unfolding remove_added
remove_added_plain orig a =
    ap concat (drop_added_plain (split_after b'\n' orig) a) ∙ concat-split_after orig

entry-IsLine : (address : Bytes) → contains_byte b'\n' address ≡ false → IsLine (entry address)
unfolding entry contains_byte
entry-IsLine address h = (
  lit "nameserver " ++ address ++ b' ' ∷ comment_add,
  refl,
  no_newline-append (lit "nameserver ") (address ++ b' ' ∷ comment_add) refl
      (no_newline-append address (b' ' ∷ comment_add) h refl),
)

is_added-entry : (address : Bytes) → is_added (entry address) ≡ true
unfolding is_added entry
is_added-entry address =
    let e : entry address
        ≡ (lit "nameserver " ++ address ++ b' ' ∷ []) ++ (comment_add ++ b'\n' ∷ []) =
      ap (λ (t : Bytes). lit "nameserver " ++ t) (shift address (comment_add) (b'\n' ∷ [])) in
    rw e (
      ground (
        arith,
        has_suffix-append (lit "nameserver " ++ address ++ b' ' ∷ []) (comment_add ++ b'\n' ∷ []),
      ))
  where
    shift : (a c n : Bytes) → (a ++ b' ' ∷ c) ++ n ≡ (a ++ b' ' ∷ []) ++ (c ++ n)
    shift [] c n = refl
    shift (x ∷ a) c n = ap (◌∷◌ x) (shift a c n)

-- The text after `StoreAddress`.
stored :
    (address orig : Bytes)
    → All IsPlain (split_after b'\n' orig)
    → store_address address orig ≡ concat (entry address ∷ map comment (split_after b'\n' orig))
unfolding store_address entry concat
stored address orig a = rw (remove_added_plain orig a) refl

removed :
    (address orig : Bytes)
    → contains_byte b'\n' address ≡ false
    → All IsPlain (split_after b'\n' orig)
    → remove_added (store_address address orig) ≡ concat (map comment (split_after b'\n' orig))
unfolding remove_added drop_added
removed address orig n a =
    let ls = split_after b'\n' orig in
    let lines =
      IsLines-cons (entry address) (map comment ls) (entry-IsLine address n)
        (comment-IsLines ls (IsLines-split_after orig)) in
    let e : split_after b'\n' (store_address address orig) ≡ entry address ∷ map comment ls =
      ap (split_after b'\n') (stored address orig a) ∙ split_after-concat _ lines in
    let d : drop_added (entry address ∷ map comment ls) ≡ map comment ls =
      rw (is_added-entry address) (drop_added-comment ls a) in
    ap (λ t. concat (drop_added t)) e ∙ ap concat d

-- `Clean` restores the text that `StoreAddress` changed, if the address has no newline in it and every line
-- of the text is plain: neither it nor its commented form ends in the comment of an added line, it has no comment
-- of a disabled line in it, and a nameserver line starts with no space.
pub clean-store_address :
    (address orig : Bytes)
    → contains_byte b'\n' address ≡ false
    → All IsPlain (split_after b'\n' orig)
    → clean (store_address address orig) ≡ orig
unfolding clean
clean-store_address address orig n a =
    let ls = split_after b'\n' orig in
    let c : split_after b'\n' (concat (map comment ls)) ≡ map comment ls =
      split_after-concat _ (comment-IsLines ls (IsLines-split_after orig)) in
    ap (λ t. concat (map uncomment (split_after b'\n' t))) (removed address orig n a)
    ∙ ap (λ t. concat (map uncomment t)) c
    ∙ ap concat (map-uncomment-comment ls a)
    ∙ concat-split_after orig
