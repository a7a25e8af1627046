-- ===== src/Server/Tracks.antt =====
-- server/: relations between the world before and after a part of the handler. `Tracks` is what a relation needs
-- for the forwarding and the serving of requests to keep it; its fields are the primitive steps of these.
pub mod Forward
pub mod Reply
pub mod Serve
use go_dnsmasq.Base.{
  ◌≡◌, refl, ◌⊎◌, inl, inr, Bool, true, false, ◌||◌, List, [], ◌∷◌, ◌++◌, Option, none, some, Holds,
  if◌then◌else◌, Bool-cases, Occurs,
}
use go_dnsmasq.Base.Text.{Bytes, has_suffix}
use go_dnsmasq.Cache.{Cache}
use go_dnsmasq.Dns.{Question, Msg}
use go_dnsmasq.Server.Config.{Config}
use go_dnsmasq.Server.Forward.{question0, lift}
use go_dnsmasq.Server.World.{
  World, Counter, Query, Env, M, pure, fault, ◌>>=◌, ◌>>◌, write_msg, inc, inc_if, ask,
  forward_count, stub_forward_count, name_error_count, no_data_count, stale_cache_hit, request_fail,
  lookup_count, request_count, dnssec_ok_count, refused_count, dnssec_cache_miss, cache_miss,
  cache_hit,
}

-- The counters that forwarding increments.
abbrev pub is_forwarding : Counter → Bool
is_forwarding forward_count = true
is_forwarding stub_forward_count = true
is_forwarding name_error_count = true
is_forwarding no_data_count = true
is_forwarding stale_cache_hit = true
is_forwarding request_fail = true
is_forwarding lookup_count = false
is_forwarding request_count = false
is_forwarding dnssec_ok_count = false
is_forwarding refused_count = false
is_forwarding dnssec_cache_miss = false
is_forwarding cache_miss = false
is_forwarding cache_hit = false

-- Where a query for a name may go: to a server of a stub zone that the name ends in, or to one of the nameservers,
-- if the name ends in no stub zone.
pub data MayAsk (cfg : Config) (name server : Bytes) : Type 0 where
  of_zone :
      (z : Bytes × List Bytes)
      → Occurs z cfg.stub
      → has_suffix name z.0 ≡ true
      → Occurs server z.1
      → MayAsk cfg name server
  of_default :
      Occurs server cfg.nameservers
      → ((z : Bytes × List Bytes) → Occurs z cfg.stub → has_suffix name z.0 ≡ false)
      → MayAsk cfg name server

-- A query over the transport of the client, to a server that may be asked for the name in its question.
pub record IsAllowed (cfg : Config) (tcp : Bool) (q : Query) : Type 0 where
  pub transport : q.tcp ≡ tcp
  pub asked : Question
  pub is_asked : question0 q.msg ≡ some asked
  pub may : MayAsk cfg asked.name q.server

-- A relation that the steps of forwarding keep, and changes of the cache.
pub record Tracks (cfg : Config) (tcp : Bool) (R : World → World → Type 0) : Type 0 where
  pub same : (w : World) → R w w
  pub trans : (u v w : World) → R u v → R v w → R u w
  pub counts :
      (c : Counter) (w : World)
      → is_forwarding c ≡ true
      → R w (record w { counted = w.counted ++ c ∷ [] })
  pub writes : (m : Msg) (w : World) → R w (record w { written = w.written ++ m ∷ [] })
  pub asks :
      (q : Query) (w : World) → IsAllowed cfg tcp q → R w (record w { asked = w.asked ++ q ∷ [] })
  pub caches : (c : Cache) (w : World) → R w (record w { cache = c })

-- Where the computation returns, the world after it is related to the world before.
pub record Moves {A : Type 0} (R : World → World → Type 0) (m : M A) (w : World) : Type 0 where
  pub holds : Holds (λ p. R w p.1) (m w)

module _ {cfg : Config} {tcp : Bool} (R : World → World → Type 0) (t : Tracks cfg tcp R) where
  bind_step :
      {A B : Type 0} (o : Option (A × World)) (f : A → M B) (w : World)
      → Holds (λ p. R w p.1) o
      → ((a : A) (w' : World) → Moves R (f a) w')
      → Holds (λ p. R w p.1) (elim o [ none ↦ none | some (a, w') ↦ f a w' ])
  bind_step none f w h k = tt
  bind_step {B = B} (some (a, w')) f w h k = later (f a w') (k a w').holds
    where
      later : (o : Option (B × World)) → Holds (λ p. R w' p.1) o → Holds (λ p. R w p.1) o
      later none l = tt
      later (some (b, w'')) l = t.trans w w' w'' h l

  pub Moves-bind :
      {A B : Type 0} (m : M A) (f : A → M B) (w : World)
      → Moves R m w
      → ((a : A) (w' : World) → Moves R (f a) w')
      → Moves R (m >>= f) w
  Moves-bind m f w h k = record { holds = bind_step (m w) f w h.holds k }

  pub Moves-then :
      {B : Type 0} (m : M (Unit {0})) (n : M B) (w : World)
      → Moves R m w
      → ((w' : World) → Moves R n w')
      → Moves R (m >> n) w
  Moves-then m n w h k = Moves-bind m (λ _. n) w h (λ _ w'. k w')

  -- A choice between two ways on.
  pub Moves-choice :
      {A : Type 0} (b : Bool) (m n : M A) (w : World)
      → Moves R m w
      → Moves R n w
      → Moves R (elim b [ true ↦ m | false ↦ n ]) w
  Moves-choice true m n w p q = p
  Moves-choice false m n w p q = q

  pub Moves-pure : {A : Type 0} (a : A) (w : World) → Moves R (pure a) w
  Moves-pure a w = record { holds = t.same w }

  pub Moves-fault : {A : Type 0} (w : World) → Moves {A = A} R fault w
  Moves-fault w = record { holds = tt }

  pub Moves-inc_if :
      (b : Bool) (c : Counter) (w : World) → is_forwarding c ≡ true → Moves R (inc_if b c) w
  Moves-inc_if true c w e = record { holds = t.counts c w e }
  Moves-inc_if false c w e = record { holds = t.same w }

  pub Moves-inc : (c : Counter) (w : World) → is_forwarding c ≡ true → Moves R (inc c) w
  Moves-inc c w e = record { holds = t.counts c w e }

  pub Moves-write_msg : (m : Msg) (w : World) → Moves R (write_msg m) w
  Moves-write_msg m w = record { holds = t.writes m w }

  pub Moves-ask : (env : Env) (q : Query) (w : World) → IsAllowed cfg tcp q → Moves R (ask env q) w
  Moves-ask env q w a = record { holds = t.asks q w a }

  pub Moves-lift : {A : Type 0} (o : Option A) (w : World) → Moves R (lift o) w
  Moves-lift none w = record { holds = tt }
  Moves-lift (some a) w = record { holds = t.same w }

  -- The value of `lift` is the value lifted.
  pub Moves-with :
      {A B : Type 0} (o : Option A) (f : A → M B) (w : World)
      → ((a : A) → o ≡ some a → Moves R (f a) w)
      → Moves R (lift o >>= f) w
  Moves-with none f w k = record { holds = tt }
  Moves-with (some a) f w k = record { holds = (k a refl).holds }
