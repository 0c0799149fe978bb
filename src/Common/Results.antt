-- ===== src/Common/Results.antt =====
-- Rust's `Result`, and `Option` as the type of a run that may need more fuel.
use mathlib.Core.Path.{◌≡◌, refl, subst}
use mathlib.Core.Option.{Option, none, some}
use mathlib.Core.Bool.{Bool, true, false}
use essenty.Common.Tests.{if◌then◌else◌}

pub data Result {ℓ} (E A : Type ℓ) : Type ℓ where
  ok : A → Result E A
  err : E → Result E A

infixl 5 ◌>>=◌
abbrev pub ◌>>=◌ {ℓ κ} : {A : Type ℓ} {B : Type κ} → Option A → (A → Option B) → Option B
none >>= f = none
some a >>= f = f a

-- Whatever comes out of the run has the property.
abbrev pub Holds {ℓ κ} : {A : Type ℓ} → (A → Type κ) → Option A → Type κ
Holds P none = Unit
Holds P (some a) = P a

pub Holds-bind {ℓ κ ι} :
    {A : Type ℓ} {B : Type κ} (P : A → Type ι) (Q : B → Type ι) (m : Option A) (f : A → Option B)
    → Holds P m
    → ((a : A) → P a → Holds Q (f a))
    → Holds Q (m >>= f)
Holds-bind P Q none f h k = tt
Holds-bind P Q (some a) f h k = k a h

pub Holds-eq {ℓ κ} :
    {A : Type ℓ} (P : A → Type κ) (m : Option A) {a : A} → Holds P m → m ≡ some a → P a
Holds-eq P m h e = subst (Holds P) e h

pub Holds-if {ℓ κ} :
    {A : Type ℓ} (P : A → Type κ) (b : Bool) (x y : Option A)
    → (b ≡ true → Holds P x)
    → (b ≡ false → Holds P y)
    → Holds P (if b then x else y)
Holds-if P true x y f g = f refl
Holds-if P false x y f g = g refl

pub Holds-weaken {ℓ κ} :
    {A : Type ℓ} (P Q : A → Type κ) (m : Option A) → ((a : A) → P a → Q a) → Holds P m → Holds Q m
Holds-weaken P Q none f h = tt
Holds-weaken P Q (some a) f h = f a h

-- The run comes to an end, and what comes out has the property.
abbrev pub Ends {ℓ} : {A : Type ℓ} → (A → Type 0) → Option A → Type 0
Ends P none = ⊥
Ends P (some a) = P a

pub Ends-bind {ℓ κ} :
    {A : Type ℓ} {B : Type κ} (P : A → Type 0) (Q : B → Type 0) (m : Option A) (f : A → Option B)
    → Ends P m
    → ((a : A) → P a → Ends Q (f a))
    → Ends Q (m >>= f)
Ends-bind P Q none f h k = absurd h
Ends-bind P Q (some a) f h k = k a h

pub Ends-if {ℓ} :
    {A : Type ℓ} (P : A → Type 0) (b : Bool) (x y : Option A)
    → (b ≡ true → Ends P x)
    → (b ≡ false → Ends P y)
    → Ends P (if b then x else y)
Ends-if P true x y f g = f refl
Ends-if P false x y f g = g refl

pub Ends-weaken {ℓ} :
    {A : Type ℓ} (P Q : A → Type 0) (m : Option A) → ((a : A) → P a → Q a) → Ends P m → Ends Q m
Ends-weaken P Q none f h = h
Ends-weaken P Q (some a) f h = f a h

-- A property of whatever comes out, of a run that ends.
pub Ends-Holds {ℓ} :
    {A : Type ℓ} (P Q : A → Type 0) (m : Option A) → Holds P m → Ends Q m → Ends (λ a. P a × Q a) m
Ends-Holds P Q none h e = e
Ends-Holds P Q (some a) h e = (h, e)
