-- ===== src/ResolvConf.antt =====
-- resolvconf/resolvconf.go: the rewriting of the host's list of nameservers: the text that is read, and what is
-- written. ResolvConf.File has the errors of the file system.
pub mod RoundTrip
pub mod File
use go_dnsmasq.Base.{ℕ, Bool, true, false, not, ◌||◌, List, [], ◌∷◌, ◌++◌, if◌then◌else◌, ◌==◌, map}
use go_dnsmasq.Base.Text.{
  Bytes, lit, has_prefix, has_suffix, contains, replace_all, split_after, trim_left, trim_space,
  to_lower, concat,
}
use go_dnsmasq.Server.Config.{is_nil}

abbrev pub comment_add : Bytes
comment_add = lit "# added by go-dnsmasq"

abbrev pub comment_out : Bytes
comment_out = lit "# disabled by go-dnsmasq #"

-- A line, with the newline behind it if there is one, that the pattern `resolvConfPattern` matches: it ends
-- in the comment.
unfoldable pub is_added : Bytes → Bool
is_added line = has_suffix line comment_add || has_suffix line (comment_add ++ b'\n' ∷ [])

unfoldable pub drop_added : List Bytes → List Bytes
unfolding is_added
drop_added [] = []
drop_added (l ∷ ls) = let others = drop_added ls in if is_added l then others else l ∷ others

-- `resolvConfPattern.ReplaceAllLiteral(orig, []byte{})`.
unfoldable pub remove_added : Bytes → Bytes
unfolding concat drop_added
remove_added orig = concat (drop_added (split_after b'\n' orig))

-- A nameserver line.
unfoldable pub is_nameserver : Bytes → Bool
is_nameserver line = has_prefix (to_lower (trim_space line)) (lit "nameserver")

-- The two cases of the switch, for one line.
unfoldable pub uncomment : Bytes → Bytes
uncomment line =
    if contains line comment_out
    then trim_left (λ c. c == b' ') (replace_all line comment_out [])
    else line

unfoldable pub comment : Bytes → Bytes
unfolding is_nameserver
comment line = if is_nameserver line then comment_out ++ b' ' ∷ line else line

-- The text that `updateResolvConf` leaves in the file.
unfoldable pub update_resolv_conf : Bytes → Bytes → Bytes
unfolding concat remove_added uncomment comment
update_resolv_conf insert orig =
    insert
    ++ concat
        (map (if is_nil insert then uncomment else comment) (split_after b'\n' (remove_added orig)))

-- The line that `StoreAddress` inserts.
unfoldable pub entry : Bytes → Bytes
entry address = (lit "nameserver " ++ address ++ b' ' ∷ comment_add) ++ b'\n' ∷ []

-- `StoreAddress` and `Clean`.
unfoldable pub store_address : Bytes → Bytes → Bytes
unfolding update_resolv_conf entry
store_address address orig = update_resolv_conf (entry address) orig

unfoldable pub clean : Bytes → Bytes
unfolding update_resolv_conf
clean orig = update_resolv_conf [] orig
