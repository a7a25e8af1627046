-- ===== src/Fit.antt =====
-- server/msg.go: `Fit`, which makes a message fit a size.
pub mod Narrow
pub mod Laws
use go_dnsmasq.Base.{
  ℕ, zero, suc, ◌+◌, ◌-◌, ◌/◌, Bool, true, false, List, [], ◌∷◌, Option, none, some, if◌then◌else◌,
  ltb, ◌==◌, length, take,
}
use go_dnsmasq.Dns.{Msg, DnsLib}

-- The search loop, on fuel: `p mid` is `m.Len() < size` for the message with `original[:mid]` as its
-- answer, and the result is the last value of `max`.
unfoldable pub narrow : (ℕ → Bool) → ℕ → ℕ → ℕ → Option ℕ
narrow p zero min max = none
narrow p (suc fuel) min max =
    let mid = (min + max) / 2 in
    let up = narrow p fuel (min + 1) max in
    let down = narrow p fuel min mid in
    if min == max then some max else (if p mid then up else down)

-- `m.Len() < size` with the first `mid` answers.
abbrev pub fits_with : DnsLib → Msg → ℕ → ℕ → Bool
fits_with dns m size mid = ltb (dns.len (record m { answer = take mid m.answer })) size

-- The message after the additional section is dropped, where it was too long.
unfoldable pub drop_extra : DnsLib → Msg → ℕ → Msg
drop_extra dns m size = if ltb size (dns.len m) then record m { extra = [] } else m

-- `m.Truncated = true`, unless the transport is TCP.
abbrev pub mark : Bool → Msg → Msg
mark tcp m = if tcp then m else record m { truncated = true }

-- `if max > 1 { max-- }`.
abbrev pub back_off : ℕ → ℕ
back_off max = if ltb 1 max then max - 1 else max

-- What `Fit` does with a message that is too long without its additional section.
unfoldable pub shorten : DnsLib → Msg → ℕ → Option (Msg × Bool)
shorten dns m size =
    elim (narrow (fits_with dns m size) (suc (length m.answer)) 0 (length m.answer)) [
      | none ↦ none
      | some max ↦ some (record m { answer = take (back_off max) m.answer }, true)
    ]

-- `Fit`. `none` would mean that the fuel of the loop ran out.
unfoldable pub fit : DnsLib → Msg → ℕ → Bool → Option (Msg × Bool)
unfolding drop_extra shorten
fit dns m size tcp =
    let m' = drop_extra dns m size in
    if ltb (dns.len m') size then some (m', false) else shorten dns (mark tcp m') size
