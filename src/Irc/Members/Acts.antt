-- ===== src/Irc/Members/Acts.antt =====
-- src: JOIN, PART and QUIT against what each user has.
pub mod Join
pub mod Part
pub mod Quit
use uchi_networks.Common.{
  ℕ, suc, ◌≡◌, refl, sym, ap, ◌∙◌, subst, false, List, [], ◌∷◌, Option, some, arith,
}
use uchi_networks.Irc.Types.{Person, Server, at, update_at}

-- The iterator over the channels of this user was stopped.
abbrev pub IsIdle : ℕ → Server → Type 0
IsIdle u s = (p : Person) → at s.userlist u ≡ some p → p.iterating ≡ false

pub at-update_at {ℓ} :
    {A : Type ℓ} (f : A → A) (xs : List A) (i : ℕ) (x : A)
    → at xs i ≡ some x
    → at (update_at i f xs) i ≡ some (f x)
at-update_at f [] i x e = ground (arith, e)
at-update_at f (y ∷ ys) ℕ.zero x e = cc e
at-update_at f (y ∷ ys) (suc i) x e = at-update_at f ys i x e

pub update_at-known {ℓ} :
    {A : Type ℓ} (f : A → A) (xs : List A) (i : ℕ) (x y : A)
    → at xs i ≡ some x
    → f x ≡ y
    → (g : A → A) → g x ≡ y
    → update_at i f xs ≡ update_at i g xs
update_at-known f [] i x y e k g l = refl
update_at-known f (z ∷ zs) (suc i) x y e k g l = ap (◌∷◌ z) (update_at-known f zs i x y e k g l)
update_at-known f (z ∷ zs) ℕ.zero x y e k g l =
    let same : z ≡ x = ground (arith, e) in
    ap (λ w. w ∷ zs) (subst (λ w. f w ≡ g w) (sym same) (k ∙ sym l))

pub update_at-id {ℓ} : {A : Type ℓ} (xs : List A) (i : ℕ) → update_at i (λ x. x) xs ≡ xs
update_at-id [] i = refl
update_at-id (x ∷ xs) ℕ.zero = refl
update_at-id (x ∷ xs) (suc i) = ap (◌∷◌ x) (update_at-id xs i)
