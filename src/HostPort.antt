-- ===== src/HostPort.antt =====
-- What the program uses of Go's packages net and strconv on addresses with a port: `net.SplitHostPort`,
-- `net.JoinHostPort` and `strconv.Atoi`.
pub mod Laws
pub mod Decimal
use go_dnsmasq.Base.{
  ℕ, zero, suc, ◌+◌, ◌-◌, ◌*◌, ◌^◌, Bool, true, false, not, ◌&&◌, ◌||◌, List, [], ◌∷◌, ◌++◌, Option,
  none, some, if◌then◌else◌, leb, ◌==◌, min,
}
use go_dnsmasq.Base.Int.{ℤ, pos, negsuc}
use go_dnsmasq.Base.Text.{Bytes, contains_byte}

-- The text before and behind the first byte `b`.
unfoldable pub cut_first : ℕ → Bytes → Option (Bytes × Bytes)
cut_first b [] = none
cut_first b (x ∷ s) = elim (x == b) [
  | true ↦ some ([], s)
  | false ↦ elim (cut_first b s) [ none ↦ none | some (before, after) ↦ some (x ∷ before, after) ]
]

-- The text before and behind the last byte `b`.
unfoldable pub cut_last : ℕ → Bytes → Option (Bytes × Bytes)
cut_last b [] = none
cut_last b (x ∷ s) = elim (cut_last b s) [
  | some (before, after) ↦ some (x ∷ before, after)
  | none ↦ if x == b then some ([], s) else none
]

-- `SplitHostPort` behind a `[`: the host ends at the first `]`, and the last colon stands behind it.
unfoldable pub split_bracketed : Bytes → Option (Bytes × Bytes)
unfolding cut_first
split_bracketed s = elim (cut_first b']' s) [
  | none ↦ none
  | some (host, after) ↦ elim after [
    | [] ↦ none
    | y ∷ port ↦
        if y == b':'
          && not (contains_byte b':' port || (contains_byte b'[' s || contains_byte b']' port))
        then some (host, port)
        else none
  ]
]

-- `SplitHostPort` with no `[` in front.
unfoldable pub split_plain : Bytes → Option (Bytes × Bytes)
unfolding cut_last
split_plain s = elim (cut_last b':' s) [
  | none ↦ none
  | some (host, port) ↦
      if contains_byte b':' host || (contains_byte b'[' s || contains_byte b']' s)
      then none
      else some (host, port)
]

-- `net.SplitHostPort`; `none` is an error.
unfoldable pub split_host_port : Bytes → Option (Bytes × Bytes)
unfolding split_bracketed split_plain
split_host_port [] = none
split_host_port (x ∷ s) = if x == b'[' then split_bracketed s else split_plain (x ∷ s)

-- `net.JoinHostPort`.
unfoldable pub join_host_port : Bytes → Bytes → Bytes
join_host_port host port =
    if contains_byte b':' host then b'[' ∷ host ++ b']' ∷ b':' ∷ port else host ++ b':' ∷ port

-- The number that decimal digits stand for, `none` on any other byte.
unfoldable pub digits : ℕ → Bytes → Option ℕ
digits n [] = some n
digits n (x ∷ s) =
    let rest = digits (10 * n + (x - b'0')) s in if leb b'0' x && leb x b'9' then rest else none

abbrev to_minus : ℕ → ℤ
to_minus zero = pos 0
to_minus (suc n) = negsuc n

-- The value that `strconv.Atoi` returns: 0 on a text that is no number, and the nearest 64-bit integer on a
-- number out of range. The error is not read.
unfoldable pub atoi : Bytes → ℤ
unfolding digits
atoi [] = pos 0
atoi (x ∷ []) = elim (digits 0 (x ∷ [])) [ none ↦ pos 0 | some n ↦ pos n ]
atoi (x ∷ y ∷ s) =
    if x == b'-'
    then elim (digits 0 (y ∷ s)) [ none ↦ pos 0 | some n ↦ to_minus (min n (2 ^ 63)) ]
    else elim (digits 0 (if x == b'+' then y ∷ s else x ∷ y ∷ s)) [
      | none ↦ pos 0
      | some n ↦ pos (min n (2 ^ 63 - 1))
    ]
