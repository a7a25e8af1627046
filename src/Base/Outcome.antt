-- ===== src/Base/Outcome.antt =====
-- Properties of a result that may be missing, and chains of such results.
use mathlib.Core.Option.{Option, none, some}
use mathlib.Core.Path.{◌≡◌, refl, subst}

-- The predicate holds of the result, if there is one.
abbrev pub Holds : {A : Type 0} → (A → Type 0) → Option A → Type 0
Holds P none = Unit {0}
Holds P (some a) = P a

pub Holds-bind :
    {A B : Type 0} (P : B → Type 0) (o : Option A) (f : A → Option B)
    → ((a : A) → o ≡ some a → Holds P (f a))
    → Holds P (elim o [ none ↦ none | some a ↦ f a ])
Holds-bind P none f k = tt
Holds-bind P (some a) f k = k a refl

pub Holds-each :
    {A : Type 0} {P : A → Type 0} {o : Option A} → ((a : A) → o ≡ some a → P a) → Holds P o
Holds-each {o = none} k = tt
Holds-each {o = some a} k = k a refl

pub Holds-checked :
    {E A : Type 0} (P : A → Type 0) (o : Option E) (x : Option A)
    → (o ≡ none → Holds P x)
    → Holds P (elim o [ some e ↦ none | none ↦ x ])
Holds-checked P none x k = k refl
Holds-checked P (some e) x k = tt

pub checked_none :
    {E A : Type 0} (o : Option E) (x : Option A)
    → o ≡ none
    → elim o [ some e ↦ none | none ↦ x ] ≡ x
checked_none o x e = rw e refl

pub bind_some :
    {A B : Type 0} (o : Option A) (a : A) (f : A → Option B) (b : B)
    → o ≡ some a
    → f a ≡ some b
    → elim o [ none ↦ none | some a ↦ f a ] ≡ some b
bind_some o a f b e h = rw e h

pub of_Holds : {A : Type 0} (P : A → Type 0) (o : Option A) (a : A) → Holds P o → o ≡ some a → P a
of_Holds P o a h e = subst (Holds P) e h
