-- ===== src/Server/Threads/Alone.antt =====
-- cache/hit.go: the steps of `Hit`, taken with no other goroutine in between.
use go_dnsmasq.Base.{ℕ, ◌≡◌, refl, ◌∙◌, Bool, Option, none, some, arith}
use go_dnsmasq.Base.Int.{ℤ}
use go_dnsmasq.Base.Text.{Bytes}
use go_dnsmasq.Cache.{Cache, Elem, search_key}
use go_dnsmasq.Cache.Hit.{hit_found, hit}
use go_dnsmasq.Cache.Key.{key}
use go_dnsmasq.Dns.{Question, Msg}
use go_dnsmasq.Server.Forward.{lift}
use go_dnsmasq.Server.Serve.{look_up}
use go_dnsmasq.Server.Threads.{Prog, or_panic, hit_found_steps, hit_steps, solo}
use go_dnsmasq.Server.World.{World, M, ◌>>=◌}

hit_found-solo :
    (e : Elem) (k : Bytes) (msgid : ℕ) (keep_stale return_stale : Bool) (now₁ now₂ : ℤ)
    (go_on : Option Msg → Prog) (w : World)
    → solo (hit_found_steps e k msgid keep_stale return_stale now₁ now₂ go_on) w
      ≡ elim (hit_found e k msgid keep_stale return_stale now₁ now₂ w.cache) [
        | none ↦ none
        | some (m, c) ↦ solo (go_on m) (record w { cache = c })
      ]
unfolding solo hit_found
hit_found-solo e k msgid keep_stale return_stale now₁ now₂ go_on w = ground arith

pub hit-solo :
    (q : Question) (dnssec tcp : Bool) (msgid : ℕ) (keep_stale return_stale : Bool) (now₁ now₂ : ℤ)
    (go_on : Option Msg → Prog) (w : World)
    → solo (hit_steps (key q dnssec tcp) msgid keep_stale return_stale now₁ now₂ go_on) w
      ≡ (look_up q dnssec tcp msgid keep_stale return_stale now₁ now₂ >>= λ m. solo (go_on m)) w
unfolding solo hit_steps look_up hit
hit-solo q dnssec tcp msgid keep_stale return_stale now₁ now₂ go_on w =
    by_search (search_key w.cache k)
  where
    k : Bytes
    k = key q dnssec tcp

    by_found :
        (r : Option (Option Msg × Cache))
        → elim r [ none ↦ none | some (m, c) ↦ solo (go_on m) (record w { cache = c }) ]
          ≡ ((λ (v : World). elim r [
            | none ↦ none
            | some (m, c) ↦ some (m, record v { cache = c })
          ])
                >>= λ m. solo (go_on m))
              w
    by_found none = refl
    by_found (some (m, c)) = refl

    by_search :
        (o : Option Elem)
        → solo
            (elim o [
              | none ↦ go_on none
              | some e ↦ hit_found_steps e k msgid keep_stale return_stale now₁ now₂ go_on
            ])
            w
          ≡ ((λ (v : World).
                  elim (elim o as (λ _. Option (Option Msg × Cache)) [
                    | none ↦ some (none, w.cache)
                    | some e ↦ hit_found e k msgid keep_stale return_stale now₁ now₂ w.cache
                  ]) [ none ↦ none | some (m, c) ↦ some (m, record v { cache = c }) ])
                >>= λ m. solo (go_on m))
              w
    by_search none = refl
    by_search (some e) =
        hit_found-solo e k msgid keep_stale return_stale now₁ now₂ go_on w
        ∙ by_found (hit_found e k msgid keep_stale return_stale now₁ now₂ w.cache)

-- Two ways on that agree everywhere.
pub bind_same :
    {A : Type 0} (m : M A) (f g : A → M (Unit {0})) (w : World)
    → ((a : A) (w' : World) → f a w' ≡ g a w')
    → (m >>= f) w ≡ (m >>= g) w
bind_same {A} m f g w h = of (m w)
  where
    of :
        (o : Option (A × World))
        → elim o as (λ _. Option (Unit {0} × World)) [ none ↦ none | some (a, w') ↦ f a w' ]
          ≡ elim o as (λ _. Option (Unit {0} × World)) [ none ↦ none | some (a, w') ↦ g a w' ]
    of none = refl
    of (some (a, w')) = h a w'

pub or_panic-solo :
    {A : Type 0} (o : Option A) (go_on : A → Prog) (w : World)
    → solo (or_panic o go_on) w ≡ (lift o >>= λ a. solo (go_on a)) w
unfolding solo
or_panic-solo none go_on w = refl
or_panic-solo (some a) go_on w = refl
