-- ===== src/Base/Io/Spec.antt =====
-- Assertions about runs: what holds when a run ends, and what a run that leaves an object means.
use mathlib.Core.Path.{◌≡◌, ◌∙◌, refl, subst}
use mathlib.Core.Bool.{Bool, true, false}
use trusty_platform_sand.Base.Tests.{if◌then◌else◌}
use trusty_platform_sand.Base.Io.{Trace, Outcome, done, fault, stuck, Io, ◌>>=◌}

-- `P` holds of the value and the history when the run ends; `F` holds if it leaves an object.
abbrev pub Spec : {A : Type 0} → Type 0 → (A → Trace → Type 0) → Outcome A → Type 0
Spec F P (done a t) = P a t
Spec F P fault = F
Spec F P stuck = Unit {0}

-- What holds when a run ends, whatever it accesses.
abbrev pub Ensures : {A : Type 0} → (A → Trace → Type 0) → Outcome A → Type 0
Ensures P = Spec (Unit {0}) P

-- The run accesses no memory outside its objects, and `P` holds when it ends.
abbrev pub IsSafe : {A : Type 0} → (A → Trace → Type 0) → Outcome A → Type 0
IsSafe P = Spec ⊥ P

pub Spec-bind :
    {A B : Type 0} (F : Type 0) (Q : A → Trace → Type 0) (P : B → Trace → Type 0) (m : Io A)
    (f : A → Io B) (t : Trace)
    → Spec F Q (m t)
    → ((a : A) (u : Trace) → Q a u → Spec F P (f a u))
    → Spec F P ((m >>= f) t)
Spec-bind {A} F Q P m f t first then_ = go (m t) first
  where
    go :
        (o : Outcome A)
        → Spec F Q o
        → Spec F P (elim o [ done a u ↦ f a u | fault ↦ fault | stuck ↦ stuck ])
    go (done a u) q = then_ a u q
    go fault q = q
    go stuck q = tt

pub Spec-if :
    {A : Type 0} (F : Type 0) (P : A → Trace → Type 0) (b : Bool) (m n : Io A) (t : Trace)
    → (b ≡ true → Spec F P (m t))
    → (b ≡ false → Spec F P (n t))
    → Spec F P ((if b then m else n) t)
Spec-if F P true m n t km kn = km refl
Spec-if F P false m n t km kn = kn refl

pub Spec-weaken :
    {A : Type 0} (F : Type 0) (Q P : A → Trace → Type 0) (o : Outcome A)
    → Spec F Q o
    → ((a : A) (u : Trace) → Q a u → P a u)
    → Spec F P o
Spec-weaken F Q P (done a u) q k = k a u q
Spec-weaken F Q P fault q k = q
Spec-weaken F Q P stuck q k = tt

-- To use what a run ensures, once it is known to end.
pub Spec-done :
    {A : Type 0} (F : Type 0) (P : A → Trace → Type 0) (o : Outcome A) (a : A) (u : Trace)
    → Spec F P o
    → o ≡ done a u
    → P a u
Spec-done F P o a u s e = subst (Spec F P) e s

pub Spec_by_done :
    {A : Type 0} (P : A → Trace → Type 0) (o : Outcome A)
    → ((a : A) (u : Trace) → o ≡ done a u → P a u)
    → Ensures P o
Spec_by_done P (done a u) k = k a u refl
Spec_by_done P fault k = tt
Spec_by_done P stuck k = tt

-- A bind after a run that ends.
pub bind-done :
    {A B : Type 0} (m : Io A) (f : A → Io B) (t u : Trace) (a : A)
    → m t ≡ done a u
    → (m >>= f) t ≡ f a u
bind-done m f t u a e = rw (e, ◌>>=◌)

-- The run ends with the value.
abbrev pub Ends : {A : Type 0} → A → Outcome A → Type 0
Ends a o = (u : Trace) × (o ≡ done a u)

pub Ends-bind :
    {A B : Type 0} (m : Io A) (f : A → Io B) (t : Trace) (a : A) (b : B)
    → Ends a (m t)
    → ((u : Trace) → Ends b (f a u))
    → Ends b ((m >>= f) t)
Ends-bind m f t a b (u, e) next = let (v, p) = next u in (v, bind-done m f t u a e ∙ p)

pub Ends-if :
    {A : Type 0} (c : Bool) (m n : Io A) (t : Trace) (a : A)
    → c ≡ false
    → Ends a (n t)
    → Ends a ((if c then m else n) t)
Ends-if c m n t a e h = rw e h

pub fault-bind :
    {A B : Type 0} (m : Io A) (f : A → Io B) (t : Trace) (a : A)
    → Ends a (m t)
    → ((u : Trace) → f a u ≡ fault)
    → (m >>= f) t ≡ fault
fault-bind m f t a (u, e) next = bind-done m f t u a e ∙ next u

pub bind-fault :
    {A B : Type 0} (m : Io A) (f : A → Io B) (t : Trace) → m t ≡ fault → (m >>= f) t ≡ fault
bind-fault m f t e = rw (e, ◌>>=◌)

pub fault-if :
    {A : Type 0} (c : Bool) (m n : Io A) (t : Trace)
    → c ≡ false
    → n t ≡ fault
    → (if c then m else n) t ≡ fault
fault-if c m n t e h = rw e h

-- The run ends with the value, and with a history of the property.
abbrev pub EndsIn : {A : Type 0} → (Trace → Type 0) → A → Outcome A → Type 0
EndsIn P a o = (u : Trace) × (o ≡ done a u) × P u

pub EndsIn-bind :
    {A B : Type 0} (Q P : Trace → Type 0) (m : Io A) (f : A → Io B) (t : Trace) (a : A) (b : B)
    → EndsIn Q a (m t)
    → ((u : Trace) → Q u → EndsIn P b (f a u))
    → EndsIn P b ((m >>= f) t)
EndsIn-bind Q P m f t a b (u, e, q) next =
    let (v, d, p) = next u q in (v, bind-done m f t u a e ∙ d, p)

pub EndsIn-if :
    {A : Type 0} (P : Trace → Type 0) (c : Bool) (m n : Io A) (t : Trace) (a : A)
    → c ≡ false
    → EndsIn P a (n t)
    → EndsIn P a ((if c then m else n) t)
EndsIn-if P c m n t a e h = rw e h

pub EndsIn-then :
    {A : Type 0} (P : Trace → Type 0) (c : Bool) (m n : Io A) (t : Trace) (a : A)
    → c ≡ true
    → EndsIn P a (m t)
    → EndsIn P a ((if c then m else n) t)
EndsIn-then P c m n t a e h = rw e h
