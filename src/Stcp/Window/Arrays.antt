-- ===== src/Stcp/Window/Arrays.antt =====
-- The window's arrays: copies, fills, slides and the first gap.
use uchi_networks.Common.{
  ℕ, zero, suc, ◌+◌, ◌-◌, ◌≤◌, ◌<◌, ◌≡◌, ◌⊎◌, inl, inr, refl, ap, ◌∙◌, arith, Bool, true, false,
  List, [], ◌∷◌, ◌++◌, some, length, get_or, set, take, drop, length-set, get_or-set_self,
  get_or-set_ne, length-append, Option-cases,
}
use uchi_networks.Stcp.Window.{write_at, replicate, first_gap}

module _ {ℓ} {A : Type ℓ} where
  pub length-write_at : (xs : List A) (i : ℕ) (vs : List A) → length (write_at xs i vs) ≡ length xs
  unfolding write_at
  length-write_at xs i [] = refl
  length-write_at xs i (v ∷ vs) = length-write_at (set xs i v) (i + 1) vs ∙ length-set xs i v

  pub get_or-write_at_outside :
      (xs : List A) (i : ℕ) (vs : List A) (j : ℕ) (d : A)
      → (j < i) ⊎ (i + length vs ≤ j)
      → get_or (write_at xs i vs) j d ≡ get_or xs j d
  unfolding write_at
  get_or-write_at_outside xs i [] j d h = refl
  get_or-write_at_outside xs i (v ∷ vs) j d h =
      get_or-write_at_outside (set xs i v) (i + 1) vs j d (omega arith)
      ∙ get_or-set_ne xs i j v d (omega arith)

  pub get_or-write_at_inside :
      (xs : List A) (i : ℕ) (vs : List A) (k : ℕ) (d : A)
      → i + length vs ≤ length xs
      → k < length vs
      → get_or (write_at xs i vs) (i + k) d ≡ get_or vs k d
  unfolding write_at
  get_or-write_at_inside xs i [] k d h l = absurd (omega arith)
  get_or-write_at_inside xs i (v ∷ vs) zero d h l =
      ap (λ t. get_or (write_at (set xs i v) (i + 1) vs) t d) (omega arith)
      ∙ get_or-write_at_outside (set xs i v) (i + 1) vs i d (omega arith)
      ∙ get_or-set_self xs i v d (omega arith)
  get_or-write_at_inside xs i (v ∷ vs) (suc k) d h l =
      ap (λ t. get_or (write_at (set xs i v) (i + 1) vs) t d) (omega arith)
      ∙ get_or-write_at_inside (set xs i v) (i + 1) vs k d (omega (arith, length-set xs i v))
          (omega arith)

  pub length-replicate : (n : ℕ) (v : A) → length (replicate n v) ≡ n
  unfolding replicate
  length-replicate zero v = refl
  length-replicate (suc n) v = ap suc (length-replicate n v)

  pub get_or-replicate : (n : ℕ) (v : A) (j : ℕ) → get_or (replicate n v) j v ≡ v
  unfolding replicate
  get_or-replicate zero v j = refl
  get_or-replicate (suc n) v zero = refl
  get_or-replicate (suc n) v (suc j) = get_or-replicate n v j

  pub get_or-replicate_inside : (n : ℕ) (v d : A) (j : ℕ) → j < n → get_or (replicate n v) j d ≡ v
  unfolding replicate
  get_or-replicate_inside zero v d j h = absurd (omega arith)
  get_or-replicate_inside (suc n) v d zero h = refl
  get_or-replicate_inside (suc n) v d (suc j) h = get_or-replicate_inside n v d j (omega arith)

  pub length-take : (n : ℕ) (xs : List A) → n ≤ length xs → length (take n xs) ≡ n
  length-take zero xs h = refl
  length-take (suc n) [] h = absurd (omega arith)
  length-take (suc n) (x ∷ xs) h = ap suc (length-take n xs (omega arith))

  pub length-take_le : (n : ℕ) (xs : List A) → length (take n xs) ≤ n
  length-take_le zero xs = omega arith
  length-take_le (suc n) [] = omega arith
  length-take_le (suc n) (x ∷ xs) = omega (arith, length-take_le n xs)

  pub take_short : (n : ℕ) (xs : List A) → length xs ≤ n → take n xs ≡ xs
  take_short zero [] h = refl
  take_short zero (x ∷ xs) h = absurd (omega arith)
  take_short (suc n) [] h = refl
  take_short (suc n) (x ∷ xs) h = ap (◌∷◌ x) (take_short n xs (omega arith))

  pub get_or-take :
      (n : ℕ) (xs : List A) (j : ℕ) (d : A) → j < n → get_or (take n xs) j d ≡ get_or xs j d
  get_or-take zero xs j d h = absurd (omega arith)
  get_or-take (suc n) [] j d h = refl
  get_or-take (suc n) (x ∷ xs) zero d h = refl
  get_or-take (suc n) (x ∷ xs) (suc j) d h = get_or-take n xs j d (omega arith)

  pub length-drop : (n : ℕ) (xs : List A) → length (drop n xs) ≡ length xs - n
  length-drop zero xs = omega arith
  length-drop (suc n) [] = omega arith
  length-drop (suc n) (x ∷ xs) = omega (arith, length-drop n xs)

  pub get_or-drop :
      (n : ℕ) (xs : List A) (j : ℕ) (d : A) → get_or (drop n xs) j d ≡ get_or xs (n + j) d
  get_or-drop zero xs j d = ap (λ t. get_or xs t d) (omega arith)
  get_or-drop (suc n) [] j d = refl
  get_or-drop (suc n) (x ∷ xs) j d = get_or-drop n xs j d ∙ ap (λ t. get_or (x ∷ xs) t d) suc-out
    where
      suc-out : suc (n + j) ≡ suc n + j
      suc-out = omega arith

  pub get_or-append_left :
      (xs ys : List A) (j : ℕ) (d : A) → j < length xs → get_or (xs ++ ys) j d ≡ get_or xs j d
  get_or-append_left [] ys j d h = absurd (omega arith)
  get_or-append_left (x ∷ xs) ys zero d h = refl
  get_or-append_left (x ∷ xs) ys (suc j) d h = get_or-append_left xs ys j d (omega arith)

  pub get_or-append_right :
      (xs ys : List A) (j : ℕ) (d : A)
      → length xs ≤ j
      → get_or (xs ++ ys) j d ≡ get_or ys (j - length xs) d
  get_or-append_right [] ys j d h = ap (λ t. get_or ys t d) (omega arith)
  get_or-append_right (x ∷ xs) ys zero d h = absurd (omega arith)
  get_or-append_right (x ∷ xs) ys (suc j) d h =
      get_or-append_right xs ys j d (omega arith) ∙ ap (λ t. get_or ys t d) (omega arith)

  -- A slide keeps the length.
  pub length-slide :
      (n : ℕ) (xs : List A) (v : A)
      → n ≤ length xs
      → length (drop n xs ++ replicate n v) ≡ length xs
  length-slide n xs v h =
      omega
        (arith, length-append (drop n xs) (replicate n v), length-drop n xs, length-replicate n v)

-- What the search for the first gap finds.
pub record IsGap (bs : List Bool) (g : ℕ) : Type 0 where
  pub inside : g < length bs
  pub here : get_or bs g false ≡ false
  pub before : (i : ℕ) → i < g → get_or bs i false ≡ true

pub first_gap-IsGap : (bs : List Bool) (g : ℕ) → first_gap bs ≡ some g → IsGap bs g
unfolding first_gap
first_gap-IsGap [] g e = ground arith
first_gap-IsGap (false ∷ bs) zero e = record {
  inside = omega arith;
  here = refl;
  before = λ i h. absurd (omega arith);
}
first_gap-IsGap (false ∷ bs) (suc g) e = ground arith
first_gap-IsGap (true ∷ bs) zero e = elim (Option-cases (first_gap bs)) [
  | inl n ↦ absurd (ground arith)
  | inr (k, p) ↦ absurd (ground arith)
]
first_gap-IsGap (true ∷ bs) (suc g) e = elim (Option-cases (first_gap bs)) [
  | inl n ↦ absurd (ground arith)
  | inr (k, p) ↦ later (first_gap-IsGap bs g (ground arith))
]
  where
    later : IsGap bs g → IsGap (true ∷ bs) (suc g)
    later r = record { inside = omega (arith, r.inside); here = r.here; before = steps r.before }
      where
        steps :
            ((i : ℕ) → i < g → get_or bs i false ≡ true)
            → (i : ℕ) → i < suc g
            → get_or (true ∷ bs) i false ≡ true
        steps b zero h = refl
        steps b (suc i) h = b i (omega arith)

pub first_gap_found :
    (bs : List Bool) (i : ℕ)
    → i < length bs
    → get_or bs i false ≡ false
    → (g : ℕ) × (first_gap bs ≡ some g) × (g ≤ i)
unfolding first_gap
first_gap_found [] i h e = absurd (omega arith)
first_gap_found (false ∷ bs) i h e = (0, refl, omega arith)
first_gap_found (true ∷ bs) zero h e = absurd (ground arith)
first_gap_found (true ∷ bs) (suc i) h e =
    let (g, p, q) = first_gap_found bs i (omega arith) e in (suc g, rw p refl, omega arith)
