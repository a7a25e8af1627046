-- ===== src/Server/Tally/Requests.antt =====
-- server/server.go: what `ServeDNS` counts of its requests and of the lookups in its cache.
use go_dnsmasq.Base.{
  ℕ, ◌+◌, ◌≡◌, refl, Bool, true, false, ◌&&◌, ◌||◌, List, Option, none, some, arith, Holds,
  if◌then◌else◌, ◌==◌,
}
use go_dnsmasq.Base.Int.{pos, ltb_ℤ}
use go_dnsmasq.Base.Text.{Bytes}
use go_dnsmasq.Dns.{Rr, DnsLib, Question, Msg, max_msg_size, type_a, type_aaaa}
use go_dnsmasq.Fit.{fit}
use go_dnsmasq.Server.Config.{Config}
use go_dnsmasq.Server.Forward.{question0, lift}
use go_dnsmasq.Server.Rotate.{round_robin}
use go_dnsmasq.Server.Serve.{
  Moment, look_up, requested, fresh_reply, write_failure, fitted, serve_cached, serve_uncached,
  serve_dns,
}
use go_dnsmasq.Server.Tally.{
  count, hit_and_miss, Tallies, Tallies-trans, Tallies-silent, Tallies-counts, Tallies-Tracks,
}
use go_dnsmasq.Server.Tracks.Forward.{VisitsAll}
use go_dnsmasq.Server.Tracks.Serve.{look_up-Moves, serve_uncached-Moves}
use go_dnsmasq.Server.World.{
  World, Env, M, ◌>>=◌, ◌>>◌, write_msg, inc, inc_if, request_count, dnssec_ok_count, cache_hit,
  cache_miss,
}

-- Where the computation returns, it has counted so much.
abbrev pub Counted : ℕ → ℕ → ℕ → {A : Type 0} → M A → World → Type 0
Counted n low high m w = Holds (λ p. Tallies n low high w p.1) (m w)

pub Counted-bind :
    (n low high n' low' high' : ℕ) {a b c : ℕ} {A B : Type 0} (m : M A) (f : A → M B) (w : World)
    → a ≡ n + n'
    → b ≡ low + low'
    → c ≡ high + high'
    → Counted n low high m w
    → ((x : A) (w' : World) → Counted n' low' high' (f x) w')
    → Counted a b c (m >>= f) w
Counted-bind n low high n' low' high' {a} {b} {c} {A} {B} m f w e e' e'' h k = of_first (m w) h
  where
    of_second :
        (w' : World) (o : Option (B × World))
        → Tallies n low high w w'
        → Holds (λ p. Tallies n' low' high' w' p.1) o
        → Holds (λ p. Tallies a b c w p.1) o
    of_second w' none s t = tt
    of_second w' (some (y, w'')) s t = Tallies-trans w w' w'' e e' e'' s t

    of_first :
        (o : Option (A × World))
        → Holds (λ p. Tallies n low high w p.1) o
        → Holds (λ p. Tallies a b c w p.1) (elim o [ none ↦ none | some (x, w') ↦ f x w' ])
    of_first none s = tt
    of_first (some (x, w')) s = of_second w' (f x w') s (k x w')

-- What a step that counts nothing of this leaves to the steps behind it.
Counted-behind :
    (n low high : ℕ) {A B : Type 0} (m : M A) (f : A → M B) (w : World)
    → Counted 0 0 0 m w
    → ((x : A) (w' : World) → Counted n low high (f x) w')
    → Counted n low high (m >>= f) w
Counted-behind n low high m f w h k =
    Counted-bind 0 0 0 n low high m f w (omega arith) (omega arith) (omega arith) h k

Counted-lift : {A : Type 0} (o : Option A) (w : World) → Counted 0 0 0 (lift o) w
Counted-lift none w = tt
Counted-lift (some a) w = Tallies-silent w w refl

Counted-inc_if : (b : Bool) (w : World) → Counted 0 0 0 (inc_if b dnssec_ok_count) w
unfolding count hit_and_miss
Counted-inc_if true w = Tallies-counts dnssec_ok_count w 0 0 refl refl
Counted-inc_if false w = Tallies-silent w w refl

-- How many lookups a request counts at least.
abbrev pub least : Bool → ℕ
least tcp = if tcp then 0 else 1

module _ (dns : DnsLib) (env : Env) (visits : VisitsAll env) (cfg : Config) (version : Bytes)
    (now : Moment) (tcp : Bool) where
  fitted-Counted :
      (req m : Msg) (size : ℕ) (go_on : Msg → M (Unit {0})) (w : World)
      → ((m' : Msg) (w' : World) → Counted 0 1 1 (go_on m') w')
      → Counted 0 (least tcp) 1 (fitted dns env cfg version now tcp req size m go_on) w
  unfolding fitted write_failure
  fitted-Counted req m size go_on w k =
      Counted-behind 0 (least tcp) 1 (lift (fit dns m (if tcp then max_msg_size else size) tcp)) _ w
        (Counted-lift (fit dns m (if tcp then max_msg_size else size) tcp) w)
        (λ r w₁. chosen tcp r.1 (go_on r.0) w₁ (k r.0 w₁))
    where
      weaker :
          (o : Option (Unit {0} × World)) (w : World)
          → Holds (λ p. Tallies 0 1 1 w p.1) o
          → Holds (λ p. Tallies 0 0 1 w p.1) o
      weaker none w h = tt
      weaker (some (u, w')) w h = record {
        requests = h.requests;
        at_least = omega (arith, h.at_least);
        at_most = h.at_most;
      }

      chosen :
          (b over : Bool) (n : M (Unit {0})) (w : World)
          → Counted 0 1 1 n w
          → Counted 0
              (least b)
              1
              (elim (b && over) [
                | true ↦ write_failure dns env cfg version now tcp req
                | false ↦ n
              ])
              w
      chosen true true n w h = record {
        requests = omega arith;
        at_least = omega arith;
        at_most = omega arith;
      }
      chosen true false n w h = weaker (n w) w h
      chosen false over n w h = h

  serve_cached-Counted :
      (q : Question) (size : ℕ) (req m : Msg) (w : World)
      → Counted 0 (least tcp) 1 (serve_cached dns env cfg version now tcp q size req m) w
  unfolding serve_cached count hit_and_miss
  serve_cached-Counted q size req m w = fitted-Counted req m size _ w (λ m' w₁.
      let rotated : Option (List Rr) = elim (q.qtype == type_a || q.qtype == type_aaaa) [
        | true ↦ round_robin cfg.round_robin now.ids m'.answer
        | false ↦ some m'.answer
      ] in
      Counted-behind 0 1 1 (lift rotated) _ w₁ (Counted-lift rotated w₁) (λ answer w₂.
        Counted-behind 0 1 1 (write_msg (record m' { answer = answer })) (λ _. inc cache_hit) w₂
          (Tallies-silent w₂ _ refl) (λ _ w₃. Tallies-counts cache_hit w₃ 0 1 refl refl)))

  by_cache-Counted :
      (q : Question) (dnssec : Bool) (size : ℕ) (req : Msg) (found : Option Msg) (w : World)
      → Counted 0
          (least tcp)
          1
          {A = Unit {0}}
          (elim found [
            | some m1 ↦ serve_cached dns env cfg version now tcp q size req m1
            | none ↦ do inc cache_miss; serve_uncached dns env cfg version now tcp q dnssec size req
          ])
          w
  unfolding count hit_and_miss
  by_cache-Counted q dnssec size req (some m1) w = serve_cached-Counted q size req m1 w
  by_cache-Counted q dnssec size req none w =
      low tcp ((inc cache_miss >> serve_uncached dns env cfg version now tcp q dnssec size req) w) (
        Counted-bind 0 1 1 0 0 0 (inc cache_miss)
          (λ _. serve_uncached dns env cfg version now tcp q dnssec size req) w refl refl refl
          (Tallies-counts cache_miss w 0 1 refl refl)
          (λ _ w₁.
            (serve_uncached-Moves dns env visits (Tallies 0 0 0) (Tallies-Tracks cfg tcp) version
              now q dnssec size req w₁).holds))
    where
      low :
          (b : Bool) (o : Option (Unit {0} × World))
          → Holds (λ p. Tallies 0 1 1 w p.1) o
          → Holds (λ p. Tallies 0 (least b) 1 w p.1) o
      low false o h = h
      low true none h = tt
      low true (some (u, w')) h = record {
        requests = h.requests;
        at_least = omega (arith, h.at_least);
        at_most = h.at_most;
      }

  pub serve_dns-Counted :
      (req : Msg) (w : World)
      → Counted 1 (least tcp) 1 (serve_dns dns env cfg version now tcp req) w
  unfolding serve_dns count hit_and_miss
  serve_dns-Counted req w =
      let size = (requested dns req).0 in
      let dnssec = (requested dns req).1 in
      let msgid = (fresh_reply dns env cfg version now tcp req).id in
      let low = least tcp in
      Counted-behind 1 low 1 (lift (question0 req)) _ w (Counted-lift (question0 req) w) (λ q w₁.
        let search =
          look_up q dnssec tcp msgid (ltb_ℤ (pos 0) cfg.rstale_ttl) false now.hit₁ now.hit₂ in
        Counted-bind 1 0 0 0 low 1 (inc request_count) _ w₁ refl (omega arith) refl
          (Tallies-counts request_count w₁ 1 0 refl refl)
          (λ _ w₂.
            Counted-behind 0 low 1 (inc_if dnssec dnssec_ok_count) _ w₂ (Counted-inc_if dnssec w₂)
              (λ _ w₃.
                Counted-behind 0 low 1 search _ w₃
                  (look_up-Moves dns env visits (Tallies 0 0 0) (Tallies-Tracks cfg tcp) q dnssec
                    tcp msgid (ltb_ℤ (pos 0) cfg.rstale_ttl) false now.hit₁ now.hit₂ w₃).holds
                  (λ found w₄. by_cache-Counted q dnssec size req found w₄))))
