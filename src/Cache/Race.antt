-- ===== src/Cache/Race.antt =====
-- cache/hit.go among other goroutines. `Hit` gives the cache's lock back between its search and the
-- section that counts the hit, and any other call may run in between.
use go_dnsmasq.Base.{
  ◌≡◌, refl, Bool, true, false, none, some, arith, is_some, List, ◌||◌, if◌then◌else◌,
}
use go_dnsmasq.Base.Int.{ℤ, pos, ◌<ℤ◌}
use go_dnsmasq.Base.Text.{Bytes}
use go_dnsmasq.Base.Text.Laws.{equal_refl}
use go_dnsmasq.Base.Map.{lookup, Distinct}
use go_dnsmasq.Base.Map.Laws.{lookup-delete}
use go_dnsmasq.Dns.{Msg}
use go_dnsmasq.Cache.{Elem, Cache, Clock, is_ahead, is_past, remove, search_key, insert_message}
use go_dnsmasq.Cache.Hit.{bump}

-- Where one goroutine stands in its call of `Hit`.
pub data Phase : Type 0 where
  looking answered faulted : Phase
  found counted : Elem → Phase

pub data State : Type 0 where
  at : Cache → Phase → State

-- How `Hit` is called, and the readings of the clock for `valid` and for the stale expiration.
pub record Call : Type 0 where
  pub k : Bytes
  pub keep_stale : Bool
  pub return_stale : Bool
  pub now₁ : ℤ
  pub now₂ : ℤ

-- `valid`, for the entry found.
abbrev pub valid : Call → Elem → Bool
valid h e = is_ahead h.now₁ e.expiration

-- `valid || returnStale`.
abbrev pub answers : Call → Elem → Bool
answers h e = valid h e || h.return_stale

-- One step: of the goroutine in this call of `Hit`, or, if `shared`, of another one, which removes an entry or
-- inserts a message.
pub data Step (shared : Bool) (h : Call) : State → State → Type 0 where
  miss : {c : Cache} → search_key c h.k ≡ none → Step shared h (at c looking) (at c answered)
  find :
      {c : Cache} {e : Elem}
      → search_key c h.k ≡ some e
      → Step shared h (at c looking) (at c (found e))
  count :
      {c c' : Cache} {e : Elem}
      → answers h e ≡ true
      → bump (valid h e) h.k c ≡ some c'
      → Step shared h (at c (found e)) (at c' (counted e))
  fault :
      {c : Cache} {e : Elem}
      → answers h e ≡ true
      → bump (valid h e) h.k c ≡ none
      → Step shared h (at c (found e)) (at c faulted)
  settle :
      {c : Cache} {e : Elem}
      → Step shared h
          (at c (counted e))
          (at (if is_past h.now₂ e.stale_expiration then remove c h.k else c) answered)
  expire :
      {c : Cache} {e : Elem}
      → answers h e ≡ false
      → Step shared h (at c (found e)) (at (if h.keep_stale then c else remove c h.k) answered)
  other_remove :
      {c : Cache} {p : Phase} (j : Bytes)
      → shared ≡ true
      → Step shared h (at c p) (at (remove c j) p)
  other_insert :
      {c : Cache} {p : Phase} (j : Bytes) (msg : Msg) (t : Clock) (order₁ order₂ : List Bytes)
      → shared ≡ true
      → Step shared h (at c p) (at (insert_message c j msg t order₁ order₂) p)

pub data Reach (shared : Bool) (h : Call) (s : State) : State → Type 0 where
  here : Reach shared h s s
  next : {t u : State} → Reach shared h s t → Step shared h t u → Reach shared h s u

-- The entry that the goroutine found is still in the cache, and it has not faulted.
abbrev pub Held : Bytes → State → Type 0
Held k (at c looking) = Unit {0}
Held k (at c (found e)) = is_some (lookup k c.m) ≡ true
Held k (at c (counted e)) = Unit {0}
Held k (at c answered) = Unit {0}
Held k (at c faulted) = ⊥

Step-Held : {h : Call} {s t : State} → Step false h s t → Held h.k s → Held h.k t
unfolding search_key bump
Step-Held (miss e) held = tt
Step-Held (find e) held = ground arith
Step-Held (count a e) held = tt
Step-Held (fault a e) held = ground arith
Step-Held settle held = tt
Step-Held (expire a) held = tt
Step-Held (other_remove j e) held = absurd (cc)
Step-Held (other_insert j msg t order₁ order₂ e) held = absurd (cc)

-- With no other goroutine at work, a call of `Hit` never reaches a fault.
pub Reach-Held : {h : Call} {c : Cache} {s : State} → Reach false h (at c looking) s → Held h.k s
Reach-Held here = tt
Reach-Held (next r step) = Step-Held step (Reach-Held r)

-- With others at work, a call of `Hit` can fault: from a cache with a positive capacity and distinct keys, in which it
-- finds an entry that has not expired or that it takes expired, it reaches a fault if another goroutine removes that
-- entry before the hit is counted.
pub Reach-faulted :
    (h : Call) (c : Cache) (e : Elem)
    → pos 0 <ℤ c.capacity
    → Distinct c.m
    → lookup h.k c.m ≡ some e
    → answers h e ≡ true
    → Reach true h (at c looking) (at (remove c h.k) faulted)
unfolding search_key bump remove
Reach-faulted h c e p d found_ guard =
    next (next (next here (find {e = e} (ground arith))) (other_remove h.k refl))
      (fault guard (ground (arith, lookup-delete h.k h.k c.m d, equal_refl h.k)))
