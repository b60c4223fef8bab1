-- ===== src/Base/Do.antt =====
-- Chains of steps that may fault: `none` is undefined behaviour of the C++ code.
use mathlib.Core.Path.{◌≡◌, refl}
use mathlib.Core.Logic.{◌≢◌}
use native.Mathlib.Omega.{arith}
use mathlib.Core.Option.{Option, none, some}

infixl 5 ◌>>=◌
abbrev pub ◌>>=◌ {ℓ κ} : {A : Type ℓ} {B : Type κ} → Option A → (A → Option B) → Option B
none >>= f = none
some x >>= f = f x

-- Handlers of a state, one that may fault and one that may not, over a run that may have faulted.
abbrev pub partly : {A S : Type 0} → (A → S → Option S) → A → Option S → Option S
partly f a m = m >>= f a

abbrev pub wholly : {A S : Type 0} → (A → S → S) → A → Option S → Option S
wholly f a m = m >>= λ s. some (f a s)

-- The value that a chain got from its first step, when the whole chain succeeds.
pub >>=-eq-some {ℓ κ} :
    {A : Type ℓ} {B : Type κ} (m : Option A) (f : A → Option B) {b : B}
    → (m >>= f) ≡ some b
    → (a : A) × (m ≡ some a) × (f a ≡ some b)
>>=-eq-some (some a) f h = (a, refl, h)
>>=-eq-some none f h = cc

pub none≢some {ℓ} : {A : Type ℓ} {a : A} → none ≢ some a
none≢some h = ground arith
