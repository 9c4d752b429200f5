-- ===== src/Common/Fallible.antt =====
-- Calls that may fault, abort or never return, as options.
use mathlib.Core.Path.{◌≡◌, refl, sym, subst}
use mathlib.Core.Bool.{Bool, true, false}
use mathlib.Core.Option.{Option, none, some}
use native.Mathlib.Omega.{arith}
use uchi_networks.Common.Tests.{if◌then◌else◌}

-- What holds of the result, if there is one.
abbrev pub Ensures {ℓ κ} : {A : Type ℓ} → (A → Type κ) → Option A → Type κ
Ensures P none = Unit
Ensures P (some a) = P a

-- `none` is a call that faults or never returns.
infixl 5 ◌>>=◌
abbrev pub ◌>>=◌ {ℓ κ} : {A : Type ℓ} {B : Type κ} → Option A → (A → Option B) → Option B
none >>= f = none
some a >>= f = f a

pub bind-Ensures {ℓ κ μ ν} :
    {A : Type ℓ} {B : Type κ} (Q : A → Type μ) (P : B → Type ν) (m : Option A) (f : A → Option B)
    → Ensures Q m
    → ((a : A) → Q a → Ensures P (f a))
    → Ensures P (m >>= f)
bind-Ensures Q P none f h k = tt
bind-Ensures Q P (some a) f h k = k a h

pub bind-none {ℓ κ} :
    {A : Type ℓ} {B : Type κ} (m : Option A) (f : A → Option B)
    → ((a : A) → f a ≡ none)
    → (m >>= f) ≡ none
bind-none none f h = refl
bind-none (some a) f h = h a

-- With nothing known of the first part.
pub then-Ensures {ℓ κ ν} :
    {A : Type ℓ} {B : Type κ} (P : B → Type ν) (m : Option A) (f : A → Option B)
    → ((a : A) → Ensures P (f a))
    → Ensures P (m >>= f)
then-Ensures P none f k = tt
then-Ensures P (some a) f k = k a

pub if-Ensures {ℓ ν} :
    {B : Type ℓ} (P : B → Type ν) (b : Bool) (x y : Option B)
    → Ensures P x
    → Ensures P y
    → Ensures P (if b then x else y)
if-Ensures P true x y h k = h
if-Ensures P false x y h k = k

pub self-Ensures {ℓ} : {A : Type ℓ} (m : Option A) → Ensures (λ a. m ≡ some a) m
self-Ensures none = tt
self-Ensures (some a) = refl

-- There is a result, and this holds of it.
abbrev pub Returns {ℓ} : {A : Type ℓ} → (A → Type 0) → Option A → Type 0
Returns P none = ⊥
Returns P (some a) = P a

pub bind-Returns {ℓ κ} :
    {A : Type ℓ} {B : Type κ} (Q : A → Type 0) (P : B → Type 0) (m : Option A) (f : A → Option B)
    → Returns Q m
    → ((a : A) → Q a → Returns P (f a))
    → Returns P (m >>= f)
bind-Returns Q P none f h k = absurd h
bind-Returns Q P (some a) f h k = k a h

-- What is ensured holds of the result.
pub Returns-Ensures {ℓ} :
    {A : Type ℓ} (Q P : A → Type 0) (m : Option A)
    → Returns Q m
    → Ensures P m
    → Returns (λ a. Q a × P a) m
Returns-Ensures Q P none h k = absurd h
Returns-Ensures Q P (some a) h k = (h, k)

pub map-Returns {ℓ} :
    {A : Type ℓ} (Q P : A → Type 0) (m : Option A)
    → ((a : A) → Q a → P a)
    → Returns Q m
    → Returns P m
map-Returns Q P none f h = absurd h
map-Returns Q P (some a) f h = f a h

pub map-Ensures {ℓ κ μ} :
    {A : Type ℓ} (Q : A → Type κ) (P : A → Type μ) (m : Option A)
    → ((a : A) → Q a → P a)
    → Ensures Q m
    → Ensures P m
map-Ensures Q P none f h = tt
map-Ensures Q P (some a) f h = f a h

-- Two calls that give a result, and a third with it.
pub chain-Returns {ℓ κ μ} :
    {A : Type ℓ} {B : Type κ} {C : Type μ} (Q : B → Type 0) (P : C → Type 0) (m : Option A)
    (f : A → Option B) (g : B → Option C)
    → Returns Q (m >>= f)
    → ((b : B) → Q b → Returns P (g b))
    → Returns P (m >>= λ a. f a >>= g)
chain-Returns Q P none f g h k = absurd h
chain-Returns Q P (some a) f g h k = bind-Returns Q P (f a) g h k

-- A call of which the result is known.
pub got-Returns {ℓ κ} :
    {A : Type ℓ} {B : Type κ} (P : B → Type 0) (m : Option A) (a : A) (f : A → Option B)
    → m ≡ some a
    → Returns P (f a)
    → Returns P (m >>= f)
got-Returns P m a f e h = subst (λ o. Returns P (o >>= f)) (sym e) h

pub got-Ensures {ℓ κ} :
    {A : Type ℓ} {B : Type κ} (P : B → Type 0) (m : Option A) (f : A → Option B)
    → ((a : A) → m ≡ some a → Ensures P (f a))
    → Ensures P (m >>= f)
got-Ensures P none f k = tt
got-Ensures P (some a) f k = k a refl

pub if-known {ℓ} :
    {B : Type ℓ} (P : B → Type 0) (b : Bool) (x y : Option B)
    → (b ≡ true → Ensures P x)
    → (b ≡ false → Ensures P y)
    → Ensures P (if b then x else y)
if-known P true x y h k = h refl
if-known P false x y h k = k refl

pub Returns→Ensures {ℓ} : {A : Type ℓ} (P : A → Type 0) (m : Option A) → Returns P m → Ensures P m
Returns→Ensures P none h = tt
Returns→Ensures P (some a) h = h

pub all-Ensures {ℓ} : {A : Type ℓ} (P : A → Type 0) (m : Option A) → ((a : A) → P a) → Ensures P m
all-Ensures P none h = tt
all-Ensures P (some a) h = h a

pub both-Ensures {ℓ} :
    {A : Type ℓ} (Q P : A → Type 0) (m : Option A)
    → Ensures Q m
    → Ensures P m
    → Ensures (λ a. Q a × P a) m
both-Ensures Q P none h k = tt
both-Ensures Q P (some a) h k = (h, k)

-- The result.
pub Returns-got {ℓ} :
    {A : Type ℓ} {P : A → Type 0} (m : Option A) → Returns P m → (a : A) × (m ≡ some a) × P a
Returns-got none h = absurd h
Returns-got (some a) h = (a, refl, h)

pub known-Ensures {ℓ κ} :
    {A : Type ℓ} {B : Type κ} (P : B → Type 0) (m : Option A) (a : A) (f : A → Option B)
    → m ≡ some a
    → Ensures P (f a)
    → Ensures P (m >>= f)
known-Ensures P m a f e h = subst (λ o. Ensures P (o >>= f)) (sym e) h

pub none-bind {ℓ κ} :
    {A : Type ℓ} {B : Type κ} (m : Option A) (f : A → Option B) → m ≡ none → (m >>= f) ≡ none
none-bind none f e = refl
none-bind (some a) f e = absurd (ground (arith, e))
