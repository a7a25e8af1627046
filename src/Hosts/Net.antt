-- ===== src/Hosts/Net.antt =====
-- The addresses of Go's package `net`, as byte strings of length 4 or 16 (`nil` is the empty one), and the
-- methods of theirs that hostsfile/utils.go calls.
use go_dnsmasq.Base.{
  ℕ, Bool, true, false, not, ◌&&◌, ◌||◌, [], ◌∷◌, ◌++◌, if◌then◌else◌, ltb, leb, ◌==◌, length, drop,
  take,
}
use go_dnsmasq.Base.Text.{Bytes, equal, has_prefix}

abbrev pub Ip : Type 0
Ip = Bytes

abbrev pub is_nil : Ip → Bool
is_nil [] = true
is_nil (b ∷ ip) = false

-- The prefix of an IPv4 address in 16 bytes.
abbrev pub v4_in_v6 : Bytes
v4_in_v6 = 0 ∷ 0 ∷ 0 ∷ 0 ∷ 0 ∷ 0 ∷ 0 ∷ 0 ∷ 0 ∷ 0 ∷ 255 ∷ 255 ∷ []

-- `To4`.
unfoldable pub to4 : Ip → Ip
to4 ip =
    if length ip == 4
    then ip
    else if length ip == 16 && has_prefix ip v4_in_v6
    then drop 12 ip
    else []

-- `To16`.
unfoldable pub to16 : Ip → Ip
to16 ip = if length ip == 4 then v4_in_v6 ++ ip else if length ip == 16 then ip else []

-- `Equal`.
unfoldable pub ip_equal : Ip → Ip → Bool
ip_equal ip x =
    if length ip == length x
    then equal ip x
    else if length ip == 4 && length x == 16
    then equal (take 12 x) v4_in_v6 && equal ip (drop 12 x)
    else if length ip == 16 && length x == 4
    then equal (take 12 ip) v4_in_v6 && equal (drop 12 ip) x
    else false

-- The two leading bytes, 0 where there are none.
abbrev byte0 : Ip → ℕ
byte0 [] = 0
byte0 (b ∷ ip) = b

abbrev byte1 : Ip → ℕ
byte1 [] = 0
byte1 (b ∷ ip) = byte0 ip

abbrev zeros : Bytes
zeros = 0 ∷ 0 ∷ 0 ∷ 0 ∷ 0 ∷ 0 ∷ 0 ∷ 0 ∷ 0 ∷ 0 ∷ 0 ∷ 0 ∷ []

-- `IsLoopback`: 127.0.0.0/8 and ::1.
unfoldable pub is_loopback : Ip → Bool
unfolding to4 ip_equal
is_loopback ip =
    if not (is_nil (to4 ip))
    then byte0 (to4 ip) == 127
    else ip_equal ip (zeros ++ 0 ∷ 0 ∷ 0 ∷ 1 ∷ [])

-- `IsUnspecified`.
is_unspecified : Ip → Bool
unfolding ip_equal
is_unspecified ip =
    ip_equal ip (v4_in_v6 ++ 0 ∷ 0 ∷ 0 ∷ 0 ∷ []) || ip_equal ip (zeros ++ 0 ∷ 0 ∷ 0 ∷ 0 ∷ [])

-- `IsMulticast`: 224.0.0.0/4 and ff00::/8.
is_multicast : Ip → Bool
unfolding to4
is_multicast ip =
    if not (is_nil (to4 ip))
    then leb 224 (byte0 (to4 ip)) && ltb (byte0 (to4 ip)) 240
    else length ip == 16 && byte0 ip == 255

-- `IsLinkLocalUnicast`: 169.254.0.0/16 and fe80::/10.
is_link_local_unicast : Ip → Bool
unfolding to4
is_link_local_unicast ip =
    if not (is_nil (to4 ip))
    then byte0 (to4 ip) == 169 && byte1 (to4 ip) == 254
    else length ip == 16 && (byte0 ip == 254 && (leb 128 (byte1 ip) && ltb (byte1 ip) 192))

-- `IsGlobalUnicast`.
unfoldable pub is_global_unicast : Ip → Bool
unfolding ip_equal is_loopback is_unspecified is_multicast is_link_local_unicast
is_global_unicast ip =
    (length ip == 4 || length ip == 16)
    && (not (ip_equal ip (v4_in_v6 ++ 255 ∷ 255 ∷ 255 ∷ 255 ∷ []))
        && (not (is_unspecified ip)
            && (not (is_loopback ip) && (not (is_multicast ip) && not (is_link_local_unicast ip)))))
