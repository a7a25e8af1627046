-- ===== src/Fit/Laws.antt =====
-- server/msg.go: what `Fit` returns.
use go_dnsmasq.Base.{
  ℕ, zero, suc, ◌≤◌, ◌<◌, ◌≡◌, ap, sym, ◌∙◌, ◌⊎◌, inl, inr, Bool, true, false, not, ◌&&◌, List, [],
  some, arith, if◌then◌else◌, ltb, length, take, take-length, Bool-cases,
}
use go_dnsmasq.Dns.{Msg, Rr, DnsLib, LenWell}
use go_dnsmasq.Fit.{narrow, fits_with, drop_extra, mark, back_off, shorten, fit}
use go_dnsmasq.Fit.Narrow.{Downward, Threshold, narrow-Threshold}

-- What `Fit` promises of its result for the message `m`. `kept` is the number of answers kept.
pub record Fitted (dns : DnsLib) (m : Msg) (size : ℕ) (tcp : Bool) (r : Msg × Bool) : Type 0 where
  pub same_id : r.0.id ≡ m.id
  pub kept : ℕ
  pub answer : r.0.answer ≡ take kept m.answer
  pub marked : r.0.truncated ≡ (if r.1 && not tcp then true else m.truncated)
  pub extra : (r.0.extra ≡ []) ⊎ ((r.0.extra ≡ m.extra) × (dns.len m ≤ size))
  pub whole : r.1 ≡ false → (dns.len r.0 < size) × (r.0.answer ≡ m.answer)
  pub cut :
      r.1 ≡ true
      → ((dns.len r.0 < size) × (size ≤ dns.len (record r.0 { answer = take (suc kept) m.answer })))
        ⊎ ((size ≤ dns.len r.0) × (kept ≤ 1))

module _ (dns : DnsLib) (well : LenWell dns) where
  fits_with-Downward : (m : Msg) (size : ℕ) → Downward (fits_with dns m size)
  fits_with-Downward m size i j le h = ground (arith, well.len_prefix m i j le)

  not_fits-length :
      (m : Msg) (size : ℕ) → size ≤ dns.len m → fits_with dns m size (length m.answer) ≡ false
  not_fits-length m size h =
      let e : dns.len (record m { answer = take (length m.answer) m.answer }) ≡ dns.len m =
        ap (λ (a : List Rr). dns.len (record m { answer = a })) (take-length m.answer) in
      ground (arith, e)

  -- The part of `Fitted` that the loop is about.
  abbrev Cut : Msg → ℕ → ℕ → Type 0
  Cut m size kept =
      ((dns.len (record m { answer = take kept m.answer }) < size)
        × (size ≤ dns.len (record m { answer = take (suc kept) m.answer })))
      ⊎ ((size ≤ dns.len (record m { answer = take kept m.answer })) × (kept ≤ 1))

  Threshold-Cut :
      (m : Msg) (size : ℕ) {max : ℕ} (k : ℕ)
      → Threshold (fits_with dns m size) (fits_with-Downward m size) max k
      → Cut m size (back_off k)
  Threshold-Cut m size zero t = inr (ground (arith, t.over), omega arith)
  Threshold-Cut m size (suc zero) t = inr (ground (arith, t.over), omega arith)
  Threshold-Cut m size (suc (suc k)) t =
      let e : back_off (suc (suc k)) ≡ suc k = ground arith in
      let fits = t.below (suc k) (omega arith) in
      inl (rw e (ground (arith, fits)), rw e (ground (arith, t.over)))

  shorten_of_narrow :
      (m : Msg) (size k : ℕ)
      → narrow (fits_with dns m size) (suc (length m.answer)) 0 (length m.answer) ≡ some k
      → shorten dns m size ≡ some (record m { answer = take (back_off k) m.answer }, true)
  unfolding shorten
  shorten_of_narrow m size k e = rw (e, shorten)

  shorten-Cut :
      (m : Msg) (size : ℕ)
      → size ≤ dns.len m
      → (kept : ℕ) × (shorten dns m size ≡ some (record m { answer = take kept m.answer }, true))
        × Cut m size kept
  shorten-Cut m size h =
      let (k, e, t) =
        narrow-Threshold (fits_with dns m size) (fits_with-Downward m size) (suc (length m.answer))
          0 (length m.answer) (omega arith) (omega arith) (λ i l. absurd (omega arith))
          (not_fits-length m size h) in
      (back_off k, shorten_of_narrow m size k e, Threshold-Cut m size k t)

  shorten-Fitted :
      (m₀ m : Msg) (size : ℕ) (tcp : Bool)
      → size ≤ dns.len m
      → m.answer ≡ m₀.answer
      → m.id ≡ m₀.id
      → m.truncated ≡ m₀.truncated
      → (m.extra ≡ []) ⊎ ((m.extra ≡ m₀.extra) × (dns.len m₀ ≤ size))
      → (r : Msg × Bool) × (shorten dns (mark tcp m) size ≡ some r) × Fitted dns m₀ size tcp r
  shorten-Fitted m₀ m size tcp h same id_same mark_same extra_same =
      let e : dns.len (mark tcp m) ≡ dns.len m = ground (arith, well.len_truncated m true) in
      let (kept, run, parts) = shorten-Cut (mark tcp m) size (omega (arith, e)) in
      let a : (mark tcp m).answer ≡ m₀.answer = ground arith in
      (
        (record (mark tcp m) { answer = take kept (mark tcp m).answer }, true),
        run,
        record {
          same_id = ground arith;
          kept = kept;
          answer = ap (take kept) a;
          marked = ground arith;
          extra = ground arith;
          whole = λ c. absurd (cc);
          cut = λ _. rw (← a) parts;
        },
      )

  -- Where the library measures messages as documented, `Fit` always returns. Unless it reports an
  -- overflow, the message keeps its id and its answers, and is shorter than the size. If it does,
  -- the message keeps a prefix of its answers and is marked as truncated unless the transport is
  -- TCP; it is then shorter than the size, and with one more answer it would not be; or it has at
  -- most one answer left, and is not shorter than the size. The additional section is kept whole or
  -- dropped whole, and dropped if the message is longer than the size.
  pub fit-Fitted :
      (m : Msg) (size : ℕ) (tcp : Bool)
      → (r : Msg × Bool) × (fit dns m size tcp ≡ some r) × Fitted dns m size tcp r
  unfolding fit
  fit-Fitted m size tcp =
      let a : (drop_extra dns m size).answer ≡ m.answer = unfold drop_extra in ground arith in
      let b : (drop_extra dns m size).truncated ≡ m.truncated = unfold drop_extra in ground arith in
      let i : (drop_extra dns m size).id ≡ m.id = unfold drop_extra in ground arith in
      let x : ((drop_extra dns m size).extra ≡ [])
          ⊎ (((drop_extra dns m size).extra ≡ m.extra) × (dns.len m ≤ size)) =
        unfold drop_extra in ground arith in
      elim (Bool-cases (ltb (dns.len (drop_extra dns m size)) size)) [
        | inl fits ↦ (
          (drop_extra dns m size, false),
          rw fits,
          record {
            same_id = i;
            kept = length m.answer;
            answer = a ∙ sym (take-length m.answer);
            marked = b;
            extra = x;
            whole = λ _. (ground arith, a);
            cut = λ c. absurd (cc);
          },
        )
        | inr over ↦
            rw over (shorten-Fitted m (drop_extra dns m size) size tcp (ground arith) a i b x)
      ]
