-- ===== src/Base/Partial.antt =====
-- What a chain of steps ensures of its result, when there is one.
use mathlib.Core.Path.{◌≡◌, refl}
use mathlib.Core.Bool.{Bool, true, false}
use mathlib.Core.Option.{Option, none, some}
use cg2111a_b.Base.Do.{◌>>=◌}
use cg2111a_b.Base.Tests.{if◌then◌else◌}

abbrev pub Ensures {ℓ κ} : {A : Type ℓ} → (A → Type κ) → Option A → Type κ
Ensures P none = Unit
Ensures P (some a) = P a

pub Ensures-if {ℓ κ} :
    {A : Type ℓ} (P : A → Type κ) (b : Bool) (x y : Option A)
    → Ensures P x
    → Ensures P y
    → Ensures P (if b then x else y)
Ensures-if P true x y h k = h
Ensures-if P false x y h k = k

pub Ensures->>= {ℓ κ μ} :
    {A : Type ℓ} {B : Type μ} (Q : A → Type κ) (P : B → Type κ) (m : Option A) (f : A → Option B)
    → Ensures Q m
    → ((a : A) → Q a → Ensures P (f a))
    → Ensures P (m >>= f)
Ensures->>= Q P none f h k = tt
Ensures->>= Q P (some a) f h k = k a h

-- The same as a statement about each result.
pub Ensures-of {ℓ κ} :
    {A : Type ℓ} (P : A → Type κ) (m : Option A) → ((a : A) → m ≡ some a → P a) → Ensures P m
Ensures-of P none h = tt
Ensures-of P (some a) h = h a refl

pub Ensures-at {ℓ κ} :
    {A : Type ℓ} (P : A → Type κ) (m : Option A) (a : A) → m ≡ some a → Ensures P m → P a
Ensures-at P m a e h = rw e at h

-- That there is a result, and what holds of it.
abbrev pub Gives {ℓ} : {A : Type ℓ} → (A → Type 0) → Option A → Type 0
Gives P none = ⊥
Gives P (some a) = P a

pub Gives-if {ℓ} :
    {A : Type ℓ} (P : A → Type 0) (b : Bool) (x y : Option A)
    → Gives P x
    → Gives P y
    → Gives P (if b then x else y)
Gives-if P true x y h k = h
Gives-if P false x y h k = k

pub Gives->>= {ℓ μ} :
    {A : Type ℓ} {B : Type μ} (Q : A → Type 0) (P : B → Type 0) (m : Option A) (f : A → Option B)
    → Gives Q m
    → ((a : A) → Q a → Gives P (f a))
    → Gives P (m >>= f)
Gives->>= Q P none f h k = absurd h
Gives->>= Q P (some a) f h k = k a h

pub Gives-of {ℓ} :
    {A : Type ℓ} (P : A → Type 0) (m : Option A) (a : A) → m ≡ some a → P a → Gives P m
Gives-of P m a e h = rw e h

pub Gives-result {ℓ} :
    {A : Type ℓ} (P : A → Type 0) (m : Option A) → Gives P m → (a : A) × (m ≡ some a) × P a
Gives-result P none h = absurd h
Gives-result P (some a) h = (a, refl, h)
