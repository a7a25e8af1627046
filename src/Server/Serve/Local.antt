-- ===== src/Server/Serve/Local.antt =====
-- server/server.go: what `ServeDNS` answers from the hosts file.
use mathlib.Core.List.Perm
use mathlib.Core.List.{Perm}
use go_dnsmasq.Server.Rotate.{round_robin}
use go_dnsmasq.Server.Rotate.Laws.{round_robin-perm}
use go_dnsmasq.Base.{
  ℕ, ◌≡◌, refl, ap, ◌∙◌, Bool, true, false, ◌||◌, List, [], ◌∷◌, ◌++◌, none, some, arith,
  if◌then◌else◌, ◌==◌,
}
use go_dnsmasq.Base.Int.{pos, ltb_ℤ}
use go_dnsmasq.Base.Text.{Bytes, to_lower}
use go_dnsmasq.Cache.{Cache, store, evict_random_internal, insert_message}
use go_dnsmasq.Cache.Hit.{hit}
use go_dnsmasq.Cache.Key.{key}
use go_dnsmasq.Dns.{
  DnsLib, RepliesWell, LenWell, Question, Rr, Msg, empty_msg, rcode_server_failure, type_a,
  type_aaaa,
}
use go_dnsmasq.Fit.{fit}
use go_dnsmasq.Fit.Laws.{Fitted, fit-Fitted}
use go_dnsmasq.Server.Config.{Config}
use go_dnsmasq.Server.Forward.{question0, lift}
use go_dnsmasq.Server.Serve.{
  Moment, look_up, insert, requested, fresh_reply, fitted, finish_local, serve_cached, host_records,
  serve_uncached, serve_dns,
}
use go_dnsmasq.Server.World.{
  World, Env, M, ◌>>=◌, request_count, dnssec_ok_count, cache_miss, cache_hit,
}

-- The handler returns, after sending no query and writing one message: the reply to the request with these
-- records as its answer, fitted to the size.
pub record AnswersWith (dns : DnsLib) (reply : Msg) (size : ℕ) (m : M (Unit {0})) (w : World)
    : Type 0 where
  pub after : World
  pub sent : Msg × Bool
  pub runs : m w ≡ some (tt, after)
  pub asked : after.asked ≡ w.asked
  pub written : after.written ≡ w.written ++ sent.0 ∷ []
  pub fits : Fitted dns reply size false sent

-- The handler returns, after sending no query and writing one message: the message given, fitted to the size,
-- with its records in any order.
pub record AnswersFrom (dns : DnsLib) (m1 : Msg) (size : ℕ) (m : M (Unit {0})) (w : World)
    : Type 0 where
  pub after : World
  pub sent : Msg × Bool
  pub answer : List Rr
  pub runs : m w ≡ some (tt, after)
  pub asked : after.asked ≡ w.asked
  pub written : after.written ≡ w.written ++ record sent.0 { answer = answer } ∷ []
  pub fits : Fitted dns m1 size false sent
  pub same_records : Perm answer sent.0.answer

-- The world after an insertion.
abbrev pub inserted : Moment → Bytes → Msg → World → World
inserted now k m w =
    let stored = store w.cache k m now.clock in
    let order₁ = now.order₁ stored.m in
    let order₂ = now.order₂ (evict_random_internal true now.clock.evicting order₁ stored).m in
    record w { cache = insert_message w.cache k m now.clock order₁ order₂ }

-- The world after the count of a request with the DNSSEC flag.
abbrev pub counted_dnssec : Bool → World → World
counted_dnssec b w = if b then record w { counted = w.counted ++ dnssec_ok_count ∷ [] } else w

pub counted_same :
    (b : Bool) (w : World)
    → ((counted_dnssec b w).cache ≡ w.cache)
      × ((counted_dnssec b w).asked ≡ w.asked)
      × ((counted_dnssec b w).written ≡ w.written)
counted_same true w = (refl, refl, refl)
counted_same false w = (refl, refl, refl)

pub bind_runs :
    {A B : Type 0} {a : A} {w' : World} (m : M A) (f : A → M B) (w : World)
    → m w ≡ some (a, w')
    → (m >>= f) w ≡ f a w'
bind_runs m f w e = rw (e, ◌>>=◌) refl

module _ (dns : DnsLib) (replies : RepliesWell dns) (lens : LenWell dns) (env : Env) (cfg : Config)
    (version : Bytes) (now : Moment) where
  -- The reply to the request with the records of the hosts file.
  abbrev pub with_records : Msg → List Rr → Msg
  with_records req rs = record (fresh_reply dns env cfg version now false req) {
    answer = (fresh_reply dns env cfg version now false req).answer ++ rs;
  }

  finish_local-Answers :
      (q : Question) (dnssec : Bool) (size : ℕ) (req m : Msg) (w : World)
      → (m.rcode == rcode_server_failure) ≡ false
      → AnswersWith dns m size (finish_local dns env cfg version now false q dnssec size req m) w
  unfolding finish_local fitted insert
  finish_local-Answers q dnssec size req m w e =
      let (sent, runs, fits) = fit-Fitted dns lens m size false in
      record {
        after = record (inserted now (key q dnssec false) sent.0 w) {
          written = w.written ++ sent.0 ∷ [];
        };
        sent = sent;
        runs = rw (e, finish_local, fitted, runs) refl;
        asked = refl;
        written = refl;
        fits = fits;
      }

  with_records-rcode :
      (req : Msg) (rs : List Rr) → ((with_records req rs).rcode == rcode_server_failure) ≡ false
  unfolding fresh_reply
  with_records-rcode req rs = ground (arith, replies.set_reply_rcode empty_msg req)

  -- Over UDP a request for a name of the hosts file, for which the cache has no answer, is answered from the hosts
  -- file: no query is sent, and one message is written, the reply to the request with the records of the hosts file
  -- as its answer, fitted to the size that the client takes. The hypotheses on the DNS library: it builds replies
  -- and measures messages as documented.
  pub serve_dns-AnswersWith :
      (req : Msg) (q : Question) (c : Cache) (r : Rr) (rs : List Rr) (w : World)
      → question0 req ≡ some q
      → hit q
          (requested dns req).1
          false
          (fresh_reply dns env cfg version now false req).id
          (ltb_ℤ (pos 0) cfg.rstale_ttl)
          false
          now.hit₁
          now.hit₂
          w.cache
        ≡ some (none, c)
      → host_records dns env cfg version now false q (to_lower q.name) ≡ r ∷ rs
      → AnswersWith dns
          (with_records req (r ∷ rs))
          (requested dns req).0
          (serve_dns dns env cfg version now false req)
          w
  unfolding serve_dns serve_uncached look_up
  serve_dns-AnswersWith req q c r rs w asks misses found =
      let dnssec = (requested dns req).1 in
      let size = (requested dns req).0 in
      let w' = counted_dnssec dnssec (record w { counted = w.counted ++ request_count ∷ [] }) in
      let (cache, asked, written) =
        counted_same dnssec (record w { counted = w.counted ++ request_count ∷ [] }) in
      let w₁ : World = record w' { counted = w'.counted ++ cache_miss ∷ []; cache = c } in
      let a =
        finish_local-Answers q dnssec size req (with_records req (r ∷ rs)) w₁
          (with_records-rcode req (r ∷ rs)) in
      record {
        after = a.after;
        sent = a.sent;
        runs =
            bind_runs {a = q} {w' = w} (lift (question0 req)) _ w (rw asks refl)
            ∙ bind_runs {a = none} {w' = record w' { cache = c }}
                (look_up q dnssec false (fresh_reply dns env cfg version now false req).id
                  (ltb_ℤ (pos 0) cfg.rstale_ttl) false now.hit₁ now.hit₂)
                _ w' (rw (look_up, cache, misses) refl)
            ∙ rw (serve_uncached, found) a.runs;
        asked = a.asked ∙ asked;
        written = a.written ∙ ap (λ (l : List Msg). l ++ a.sent.0 ∷ []) written;
        fits = a.fits;
      }

  -- The answer in the order in which it is sent.
  rotated :
      (b : Bool) (xs : List Rr)
      → (ys : List Rr) × (elim b [ true ↦ round_robin cfg.round_robin now.ids xs | false ↦ some xs ]
          ≡ some ys)
        × Perm ys xs
  rotated true xs = let (ys, e, p, _) = round_robin-perm cfg.round_robin now.ids xs in (ys, e, p)
  rotated false xs = (xs, refl, Perm.refl xs)

  serve_cached-Answers :
      (q : Question) (size : ℕ) (req m : Msg) (w : World)
      → AnswersFrom dns m size (serve_cached dns env cfg version now false q size req m) w
  unfolding serve_cached fitted
  serve_cached-Answers q size req m w =
      let (sent, runs, fits) = fit-Fitted dns lens m size false in
      let (ys, e, p) = rotated (q.qtype == type_a || q.qtype == type_aaaa) sent.0.answer in
      record {
        after = record w {
          written = w.written ++ record sent.0 { answer = ys } ∷ [];
          counted = w.counted ++ cache_hit ∷ [];
        };
        sent = sent;
        answer = ys;
        runs =
            bind_runs {a = sent} {w' = w} (lift (fit dns m size false)) _ w (rw runs refl)
            ∙ bind_runs {a = ys} {w' = w}
                (lift (elim (q.qtype == type_a || q.qtype == type_aaaa) [
                  | true ↦ round_robin cfg.round_robin now.ids sent.0.answer
                  | false ↦ some sent.0.answer
                ]))
                _ w (rw e refl);
        asked = refl;
        written = refl;
        fits = fits;
        same_records = p;
      }

  -- Over UDP a request for which the cache has an answer is answered from the cache: no query is sent, and one
  -- message is written, the one from the cache, fitted to the size that the client takes and with its records in
  -- any order. The hypotheses on the DNS library: it builds replies and measures messages as documented.
  pub serve_dns-AnswersFrom :
      (req : Msg) (q : Question) (c : Cache) (m1 : Msg) (w : World)
      → question0 req ≡ some q
      → hit q
          (requested dns req).1
          false
          (fresh_reply dns env cfg version now false req).id
          (ltb_ℤ (pos 0) cfg.rstale_ttl)
          false
          now.hit₁
          now.hit₂
          w.cache
        ≡ some (some m1, c)
      → AnswersFrom dns m1 (requested dns req).0 (serve_dns dns env cfg version now false req) w
  unfolding serve_dns look_up
  serve_dns-AnswersFrom req q c m1 w asks hits =
      let dnssec = (requested dns req).1 in
      let size = (requested dns req).0 in
      let w' = counted_dnssec dnssec (record w { counted = w.counted ++ request_count ∷ [] }) in
      let (cache, asked, written) =
        counted_same dnssec (record w { counted = w.counted ++ request_count ∷ [] }) in
      let a = serve_cached-Answers q size req m1 (record w' { cache = c }) in
      record {
        after = a.after;
        sent = a.sent;
        answer = a.answer;
        runs =
            bind_runs {a = q} {w' = w} (lift (question0 req)) _ w (rw asks refl)
            ∙ bind_runs {a = some m1} {w' = record w' { cache = c }}
                (look_up q dnssec false (fresh_reply dns env cfg version now false req).id
                  (ltb_ℤ (pos 0) cfg.rstale_ttl) false now.hit₁ now.hit₂)
                _ w' (rw (look_up, cache, hits) refl)
            ∙ a.runs;
        asked = a.asked ∙ asked;
        written =
            a.written
            ∙ ap (λ (l : List Msg). l ++ record a.sent.0 { answer = a.answer } ∷ []) written;
        fits = a.fits;
        same_records = a.same_records;
      }
