-- ===== src/Base/Options.antt =====
-- Chains of computations that may fail.
use mathlib.Core.Path.{◌≡◌, refl, subst, sym}
use mathlib.Core.Bool.{Bool, true, false}
use mathlib.Core.Option.{Option, none, some}
use sonic_host_services.Base.Tests.{if◌then◌else◌}

infixl 5 ◌>>=◌
abbrev pub ◌>>=◌ {ℓ κ} : {A : Type ℓ} {B : Type κ} → Option A → (A → Option B) → Option B
none >>= f = none
some a >>= f = f a

-- The result, if there is one, satisfies `Q`.
abbrev pub Yields {ℓ κ} : {A : Type ℓ} → Option A → (A → Type κ) → Type κ
Yields none Q = Unit
Yields (some a) Q = Q a

pub Yields-refl {ℓ} : {A : Type ℓ} (o : Option A) → Yields o (λ a. o ≡ some a)
Yields-refl none = tt
Yields-refl (some a) = refl

pub Yields-elim {ℓ κ} :
    {A : Type ℓ} (Q : A → Type κ) (o : Option A) (a : A) → Yields o Q → o ≡ some a → Q a
Yields-elim Q none a y e = cc
Yields-elim Q (some b) a y e = subst (λ o. Yields o Q) e y

pub Yields-map {ℓ κ μ} :
    {A : Type ℓ} {Q : A → Type κ} (R : A → Type μ) (o : Option A)
    → ((a : A) → Q a → R a)
    → Yields o Q
    → Yields o R
Yields-map R none f y = tt
Yields-map R (some a) f y = f a y

pub Yields-bind {ℓ κ μ ν} :
    {A : Type ℓ} {B : Type κ} {Q : A → Type μ} (R : B → Type ν) (o : Option A) (f : A → Option B)
    → Yields o Q
    → ((a : A) → Q a → Yields (f a) R)
    → Yields (o >>= f) R
Yields-bind R none f y k = tt
Yields-bind R (some a) f y k = k a y

pub Yields-if {ℓ κ} :
    {A : Type ℓ} (Q : A → Type κ) (b : Bool) (o : Option A) (a : A)
    → (b ≡ true → Yields o Q)
    → Q a
    → Yields (if b then o else some a) Q
Yields-if Q true o a y h = y refl
Yields-if Q false o a y h = h

pub Yields-both {ℓ κ μ} :
    {A : Type ℓ} (Q : A → Type κ) (R : A → Type μ) (o : Option A)
    → Yields o Q
    → Yields o R
    → Yields o (λ a. Q a × R a)
Yields-both Q R none y z = tt
Yields-both Q R (some a) y z = (y, z)

-- There is a result.
abbrev pub Succeeds {ℓ} : {A : Type ℓ} → Option A → Type ℓ
Succeeds {A = A} o = (a : A) × (o ≡ some a)

pub Succeeds-bind {ℓ κ} :
    {A : Type ℓ} {B : Type κ} (o : Option A) (f : A → Option B)
    → Succeeds o
    → ((a : A) → o ≡ some a → Succeeds (f a))
    → Succeeds (o >>= f)
Succeeds-bind o f h k = subst (λ x. Succeeds (x >>= f)) (sym h.1) (k h.0 h.1)
