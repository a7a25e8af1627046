-- ===== src/Cache/Store/Calls.antt =====
-- cache/cache.go and cache/hit.go: a single call does what the store promises of it.
use go_dnsmasq.Base.{
  ℕ, ◌≡◌, ◌≢◌, refl, ap, ◌∙◌, sym, ◌⊎◌, inl, inr, Bool, false, not, ◌&&◌, List, Option, none, some,
  arith, if◌then◌else◌, Bool-cases, Option-cases, leb→le,
}
use go_dnsmasq.Base.Int.{ℤ, pos, ◌≤ℤ◌, leb_ℤ}
use go_dnsmasq.Base.Text.{Bytes, equal}
use go_dnsmasq.Base.Text.Laws.{equal_iff, equal_refl}
use go_dnsmasq.Base.Map.{lookup, delete, Distinct}
use go_dnsmasq.Base.Map.Laws.{lookup-delete, delete-Distinct}
use go_dnsmasq.Dns.{Question, Msg}
use go_dnsmasq.Cache.{Elem, Cache, Clock, new_elem, stores, remove, insert_message}
use go_dnsmasq.Cache.Hit.{hit, count_hit}
use go_dnsmasq.Cache.Hit.Laws.{hit-Answers, hit_miss, left_by_hit, result, hit-result}
use go_dnsmasq.Cache.Hit.Life.{result-Distinct}
use go_dnsmasq.Cache.Insert.{
  lookup-insert_message, insert_message-Distinct, insert_message-capacity,
}
use go_dnsmasq.Cache.Key.{key}
use go_dnsmasq.Cache.Store.{
  Call, put, get, drop, call, note, note_of, view, replaceable, Permits, is_enabled, life_of,
}
use go_dnsmasq.Cache.Store.View.{
  settings, settings-insert_message, hit-settings, view-on, view-off, replaceable-note_of,
  note_of-if,
}

-- What one call does: it returns, does what the store promises, and keeps what the next call needs.
pub record Does (x : Call) (c : Cache) : Type 0 where
  pub reply : Option Msg
  pub after : Cache
  pub runs : call x c ≡ some (reply, after)
  pub permitted : Permits (is_enabled c) (life_of c) (view c) x reply (view after)
  pub same : settings after ≡ settings c
  pub distinct : Distinct after.m

module _ (c : Cache) (d : Distinct c.m) where
  put-Does :
      (k : Bytes) (m : Msg) (t : Clock) (order₁ order₂ : List Bytes)
      → Does (put k m t order₁ order₂) c
  unfolding call Permits
  put-Does k m t order₁ order₂ =
      let c' = insert_message c k m t order₁ order₂ in
      let cap = insert_message-capacity c k m t order₁ order₂ in
      record {
        reply = none;
        after = c';
        runs = refl;
        permitted = (
          refl,
          λ j. elim (Bool-cases (leb_ℤ c.capacity (pos 0))) [
            | inl off ↦ inl (view-off c' j (rw cap off))
            | inr on ↦ elim (lookup-insert_message c k m t order₁ order₂ d j) [
              | inl gone ↦ inl (view-on c' j (rw cap on) ∙ ap note_of gone)
              | inr meant ↦ inr (view-on c' j (rw cap on) ∙ ap note_of meant ∙ means k m t j on)
            ]
          ],
        );
        same = settings-insert_message c k m t order₁ order₂;
        distinct = insert_message-Distinct c k m t order₁ order₂ d;
      }
    where
      means :
          (k : Bytes) (m : Msg) (t : Clock) (j : Bytes)
          → leb_ℤ c.capacity (pos 0) ≡ false
          → note_of (
              if not (leb_ℤ c.capacity (pos 0)) && (stores (lookup k c.m) t && equal k j)
              then some (new_elem c m t)
              else lookup j c.m)
            ≡ (if is_enabled c && (replaceable (view c k) t && equal k j)
                then some (life_of c m t)
                else view c j)
      means k m t j on =
          rw (view-on c k on, view-on c j on, replaceable-note_of (lookup k c.m) t, on)
            (note_of-if (stores (lookup k c.m) t && equal k j) (new_elem c m t) (lookup j c.m))

  drop-Does : (k : Bytes) → Does (drop k) c
  unfolding call Permits remove
  drop-Does k = record {
    reply = none;
    after = remove c k;
    runs = refl;
    permitted = (refl, gone, others);
    same = refl;
    distinct = delete-Distinct k c.m d;
  }
    where
      gone : view (remove c k) k ≡ none
      gone = elim (Bool-cases (leb_ℤ c.capacity (pos 0))) [
        | inl off ↦ view-off (remove c k) k off
        | inr on ↦
            let e : lookup k (delete k c.m) ≡ none =
              ground (arith, lookup-delete k k c.m d, equal_refl k) in
            view-on (remove c k) k on ∙ ap note_of e
      ]

      others : (j : Bytes) → j ≢ k → view (remove c k) j ≡ view c j
      others j ne = elim (Bool-cases (leb_ℤ c.capacity (pos 0))) [
        | inl off ↦ view-off (remove c k) j off ∙ sym (view-off c j off)
        | inr on ↦
            let e : lookup j (delete k c.m) ≡ lookup j c.m =
              ground (arith, lookup-delete k j c.m d, equal_iff k j, ne) in
            view-on (remove c k) j on ∙ ap note_of e ∙ sym (view-on c j on)
      ]

  module _ (q : Question) (dnssec tcp : Bool) (msgid : ℕ) (keep_stale return_stale : Bool)
      (now₁ now₂ : ℤ) where
    abbrev this : Call
    this = get q dnssec tcp msgid keep_stale return_stale now₁ now₂

    get_nothing :
        view c (key q dnssec tcp) ≡ none
        → (c.capacity ≤ℤ pos 0) ⊎ (lookup (key q dnssec tcp) c.m ≡ none)
        → Does this c
    unfolding call Permits
    get_nothing empty h = record {
      reply = none;
      after = c;
      runs = hit_miss q dnssec tcp msgid keep_stale return_stale now₁ now₂ c h;
      permitted = (rw empty refl, inr refl, λ j ne. refl);
      same = refl;
      distinct = d;
    }

    left-note :
        (e : Elem)
        → (note_of (left_by_hit e keep_stale return_stale now₁ now₂) ≡ none)
          ⊎ (note_of (left_by_hit e keep_stale return_stale now₁ now₂) ≡ some (note e))
    unfolding count_hit
    left-note e = ground arith

    get_entry :
        (e : Elem)
        → leb_ℤ c.capacity (pos 0) ≡ false
        → lookup (key q dnssec tcp) c.m ≡ some e
        → Does this c
    unfolding call Permits
    get_entry e on found =
        let k = key q dnssec tcp in
        let (r, h) =
          hit-Answers q dnssec tcp msgid keep_stale return_stale now₁ now₂ c e (ground arith) d
            found in
        let it = result q dnssec tcp msgid keep_stale return_stale now₁ now₂ c e in
        let same : r ≡ it = is_result r h.runs in
        let on' : leb_ℤ r.1.capacity (pos 0) ≡ false = rw h.capacity on in
        let here : view c k ≡ some (note e) = view-on c k on ∙ ap note_of found in
        record {
          reply = r.0;
          after = r.1;
          runs = h.runs;
          permitted = (
            rw h.reply (rw here refl),
            elim (left-note e) [
              | inl gone ↦ inl (view-on r.1 k on' ∙ ap note_of h.entry ∙ gone)
              | inr left ↦ inr (view-on r.1 k on' ∙ ap note_of h.entry ∙ left ∙ sym here)
            ],
            λ j ne. view-on r.1 j on' ∙ ap note_of (h.others j ne) ∙ sym (view-on c j on),
          );
          same = rw same (hit-settings q dnssec tcp msgid keep_stale return_stale now₁ now₂ c e);
          distinct =
              rw same (result-Distinct q dnssec tcp msgid keep_stale return_stale now₁ now₂ c e d);
        }
      where
        is_result :
            (r : Option Msg × Cache)
            → hit q dnssec tcp msgid keep_stale return_stale now₁ now₂ c ≡ some r
            → r ≡ result q dnssec tcp msgid keep_stale return_stale now₁ now₂ c e
        is_result r runs =
            let h =
              hit-result q dnssec tcp msgid keep_stale return_stale now₁ now₂ c e (ground arith)
                found in
            cc (h, runs)

    get-Does : Does this c
    get-Does = elim (Bool-cases (leb_ℤ c.capacity (pos 0))) [
      | inl off ↦ get_nothing (view-off c (key q dnssec tcp) off) (inl (leb→le _ _ off))
      | inr on ↦ elim (Option-cases (lookup (key q dnssec tcp) c.m)) [
        | inl absent ↦
            get_nothing (view-on c (key q dnssec tcp) on ∙ ap note_of absent) (inr absent)
        | inr (e, found) ↦ get_entry e on found
      ]
    ]

pub call-Does : (x : Call) (c : Cache) → Distinct c.m → Does x c
call-Does (put k m t order₁ order₂) c d = put-Does c d k m t order₁ order₂
call-Does (get q dnssec tcp msgid keep_stale return_stale now₁ now₂) c d =
    get-Does c d q dnssec tcp msgid keep_stale return_stale now₁ now₂
call-Does (drop k) c d = drop-Does c d k
