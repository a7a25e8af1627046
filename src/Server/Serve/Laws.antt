-- ===== src/Server/Serve/Laws.antt =====
-- server/server.go: rules for what a part of the handler does: it writes nothing, or one response.
use go_dnsmasq.Base.{
  ℕ, ◌≡◌, refl, ap, ◌∙◌, inl, inr, Bool, true, List, [], ◌∷◌, ◌++◌, Option, some, arith,
  if◌then◌else◌, Bool-cases,
}
use go_dnsmasq.Base.Int.{ℤ}
use go_dnsmasq.Base.Text.{Bytes}
use go_dnsmasq.Base.Map.{Map}
use go_dnsmasq.Cache.{Elem}
use go_dnsmasq.Cache.Evict.{Ranges, IsBounded}
use go_dnsmasq.Cache.Insert.{insert_message-IsBounded}
use go_dnsmasq.Cache.Hit.Life.{HasId, hit-returns}
use go_dnsmasq.Dns.{Question, Msg}
use go_dnsmasq.Server.Forward.{lift}
use go_dnsmasq.Server.Forward.Reply.{Replies}
use go_dnsmasq.Server.World.{World, Counter, M, ◌>>=◌, write_msg, inc, inc_if}
use go_dnsmasq.Server.Serve.{Moment, look_up, insert}

-- A computation that returns and writes nothing to the client; it keeps a cache within its bound.
pub record Silent {A : Type 0} (P : A → Type 0) (m : M A) (w : World) : Type 0 where
  pub result : A
  pub after : World
  pub runs : m w ≡ some (result, after)
  pub written : after.written ≡ w.written
  pub bounded : IsBounded w.cache → IsBounded after.cache
  pub holds : P result

-- A computation that returns, after writing exactly one message to the client, which has the id of the
-- request; it keeps a cache within its bound.
pub record Serves {A : Type 0} (req : Msg) (m : M A) (w : World) : Type 0 where
  pub message : Msg
  pub result : A
  pub after : World
  pub runs : m w ≡ some (result, after)
  pub written : after.written ≡ w.written ++ message ∷ []
  pub same_id : message.id ≡ req.id
  pub bounded : IsBounded w.cache → IsBounded after.cache

pub Silent-lift :
    {A : Type 0} (P : A → Type 0) (o : Option A) (a : A) (w : World)
    → o ≡ some a
    → P a
    → Silent P (lift o) w
Silent-lift P o a w e p = record {
  result = a;
  after = w;
  runs = rw e refl;
  written = refl;
  bounded = λ b. b;
  holds = p;
}

pub Silent-Serves :
    {A B : Type 0} (P : A → Type 0) (req : Msg) (m : M A) (f : A → M B) (w : World)
    → Silent P m w
    → ((a : A) (w' : World) → P a → Serves req (f a) w')
    → Serves req (m >>= f) w
Silent-Serves P req m f w e k =
    let r = k e.result e.after e.holds in
    record {
      message = r.message;
      result = r.result;
      after = r.after;
      runs = rw (e.runs, ◌>>=◌) r.runs;
      written = r.written ∙ ap (λ (l : List Msg). l ++ r.message ∷ []) e.written;
      same_id = r.same_id;
      bounded = λ b. r.bounded (e.bounded b);
    }

pub Serves-Silent :
    {A B : Type 0} (P : B → Type 0) (req : Msg) (m : M A) (f : A → M B) (w : World)
    → Serves req m w
    → ((a : A) (w' : World) → Silent P (f a) w')
    → Serves req (m >>= f) w
Serves-Silent P req m f w e k =
    let r = k e.result e.after in
    record {
      message = e.message;
      result = r.result;
      after = r.after;
      runs = rw (e.runs, ◌>>=◌) r.runs;
      written = r.written ∙ e.written;
      same_id = e.same_id;
      bounded = λ b. r.bounded (e.bounded b);
    }

abbrev pub Done : {A : Type 0} → A → Type 0
Done a = Unit {0}

pub Silent-inc_if : (b : Bool) (c : Counter) (w : World) → Silent Done (inc_if b c) w
Silent-inc_if b c w = record {
  result = tt;
  after = if b then record w { counted = w.counted ++ c ∷ [] } else w;
  runs = refl;
  written = ground arith;
  bounded = elim (Bool-cases b) [ inl e ↦ rw e (λ x. x) | inr e ↦ rw e (λ x. x) ];
  holds = tt;
}

pub Silent-inc : (c : Counter) (w : World) → Silent Done (inc c) w
Silent-inc c w = Silent-inc_if true c w

pub Serves-write : (req m : Msg) (w : World) → m.id ≡ req.id → Serves req (write_msg m) w
Serves-write req m w e = record {
  message = m;
  result = tt;
  after = record w { written = w.written ++ m ∷ [] };
  runs = refl;
  written = refl;
  same_id = e;
  bounded = λ b. b;
}

pub Serves-Replies : (req : Msg) (m : M (Msg × Bool)) (w : World) → Replies req m w → Serves req m w
Serves-Replies req m w r = record {
  message = r.result.0;
  result = r.result;
  after = r.after;
  runs = r.runs;
  written = r.written;
  same_id = r.same_id;
  bounded = λ b. rw r.cache b;
}

pub Silent-look_up :
    (q : Question) (dnssec tcp : Bool) (msgid : ℕ) (keep_stale return_stale : Bool) (now₁ now₂ : ℤ)
    (w : World)
    → Silent (HasId msgid) (look_up q dnssec tcp msgid keep_stale return_stale now₁ now₂) w
unfolding look_up
Silent-look_up q dnssec tcp msgid keep_stale return_stale now₁ now₂ w =
    let (r, runs, ids, bounded) =
      hit-returns q dnssec tcp msgid keep_stale return_stale now₁ now₂ w.cache in
    record {
      result = r.0;
      after = record w { cache = r.1 };
      runs = rw (runs, look_up) refl;
      written = refl;
      bounded = bounded;
      holds = ids;
    }

-- The order in which the last eviction pass visits a map lists its keys.
abbrev pub OrdersFair : Moment → Type 0
OrdersFair now = (m : Map Elem) → Ranges (now.order₂ m) m

pub Silent-insert :
    (now : Moment)
    → OrdersFair now
    → (k : Bytes) (m : Msg) (w : World) → Silent Done (insert now k m) w
unfolding insert
Silent-insert now fair k m w = record {
  result = tt;
  after = _;
  runs = refl;
  written = refl;
  bounded = λ b. insert_message-IsBounded w.cache k m now.clock _ _ b (fair _);
  holds = tt;
}
