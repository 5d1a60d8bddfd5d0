-- ===== src/Common/Monads.antt =====
-- Chains of computations that may fail. `none` stands for a panic or an early exit.
use mathlib.Core.Option.{Option, none, some}
use mathlib.Core.Path.{◌≡◌, refl, ap, ◌∙◌}

infixl 5 ◌>>=◌
abbrev pub ◌>>=◌ {ℓ κ} : {A : Type ℓ} {B : Type κ} → Option A → (A → Option B) → Option B
none >>= f = none
some a >>= f = f a

-- Inversion of a chain that succeeds.
pub >>=-eq-some {ℓ κ} :
    {A : Type ℓ} {B : Type κ} (m : Option A) (f : A → Option B) {b : B}
    → (m >>= f) ≡ some b
    → (a : A) × (m ≡ some a) × (f a ≡ some b)
>>=-eq-some none f h = cc
>>=-eq-some (some a) f h = (a, refl, h)

pub some_injective {ℓ} : {A : Type ℓ} {a b : A} → some a ≡ some b → a ≡ b
some_injective h = cc

pub >>=_assoc {ℓ κ μ} :
    {A : Type ℓ} {B : Type κ} {C : Type μ} (m : Option A) (f : A → Option B) (g : B → Option C)
    → (m >>= (λ a. f a >>= g)) ≡ ((m >>= f) >>= g)
>>=_assoc none f g = refl
>>=_assoc (some a) f g = refl

-- A computation that returns, with a result of which P holds.
abbrev pub Returns : {A : Type 0} → Option A → (A → Type 0) → Type 0
Returns {A = A} o P = (a : A) × (o ≡ some a) × P a

pub Returns-bind :
    {A B : Type 0} {o : Option A} {f : A → Option B} {P : A → Type 0} {Q : B → Type 0}
    → Returns o P
    → ((a : A) → P a → Returns (f a) Q)
    → Returns (o >>= f) Q
Returns-bind {o = o} {f = f} (a, made, p) next =
    let (b, made', q) = next a p in (b, ap (λ r. r >>= f) made ∙ made', q)
