-- ===== src/Router/Routing/Longest.antt =====
-- stub_sr/sr_router.c: rt_match finds the longest matching mask.
use uchi_networks.Common.{
  ℕ, ◌≤◌, ◌<◌, ◌≡◌, ◌⊎◌, inl, inr, ◌↔◌, refl, ap, sym, subst, take, ltb, ◌==◌, bit_and,
  if◌then◌else◌, ◌∙◌, ◌&&◌, true, false, List, [], ◌∷◌, ◌++◌, Option, none, some, All, arith,
  Bool-cases,
}
use uchi_networks.Router.Types.{Route}
use uchi_networks.Router.Routing.{route_matches, consider, rt_walk, rt_match, sr_add_rt_entry}

-- `r` stands in the table and matches; the entries before it that match have a smaller mask, and
-- those behind it no larger one.
pub record IsLongest (addr : ℕ) (table : List Route) (r : Route) : Type 0 where
  pub before : List Route
  pub after : List Route
  pub split : table ≡ before ++ (r ∷ after)
  pub hit : route_matches addr r ≡ true
  pub shorter : All (λ x. route_matches addr x ≡ true → x.mask < r.mask) before
  pub no_longer : All (λ x. route_matches addr x ≡ true → x.mask ≤ r.mask) after

-- What the rest of the walk makes of a best entry so far.
record IsKept (addr : ℕ) (rest : List Route) (best r : Route) : Type 0 where
  same : r ≡ best
  no_longer : All (λ x. route_matches addr x ≡ true → x.mask ≤ best.mask) rest

record IsBeaten (addr : ℕ) (rest : List Route) (best r : Route) : Type 0 where
  longer : best.mask < r.mask
  found : IsLongest addr rest r

extend :
    (addr : ℕ) (x : Route) (rest : List Route) (r : Route)
    → (route_matches addr x ≡ true → x.mask < r.mask)
    → IsLongest addr rest r
    → IsLongest addr (x ∷ rest) r
extend addr x rest r h l = record {
  before = x ∷ l.before;
  after = l.after;
  split = ap (◌∷◌ x) l.split;
  hit = l.hit;
  shorter = (h, l.shorter);
  no_longer = l.no_longer;
}

kept_found :
    (addr : ℕ) (x : Route) (rest : List Route) (r : Route)
    → route_matches addr x ≡ true
    → IsKept addr rest x r
    → IsLongest addr (x ∷ rest) r
kept_found addr x rest r m k = subst (IsLongest addr (x ∷ rest)) (sym k.same) (record {
  before = [];
  after = rest;
  split = refl;
  hit = m;
  shorter = tt;
  no_longer = k.no_longer;
})

first_found :
    (addr : ℕ) (x : Route) (rest : List Route) (r : Route)
    → route_matches addr x ≡ true
    → IsKept addr rest x r ⊎ IsBeaten addr rest x r
    → IsLongest addr (x ∷ rest) r
first_found addr x rest r m (inl k) = kept_found addr x rest r m k
first_found addr x rest r m (inr b) = extend addr x rest r (λ _. b.longer) b.found

replaced :
    (addr : ℕ) (x : Route) (rest : List Route) (best r : Route)
    → route_matches addr x ≡ true
    → best.mask < x.mask
    → IsKept addr rest x r ⊎ IsBeaten addr rest x r
    → IsBeaten addr (x ∷ rest) best r
replaced addr x rest best r m h (inl k) = record {
  longer = subst (λ (t : Route). best.mask < t.mask) (sym k.same) h;
  found = kept_found addr x rest r m k;
}
replaced addr x rest best r m h (inr b) = record {
  longer = omega (arith, b.longer);
  found = extend addr x rest r (λ _. b.longer) b.found;
}

passed :
    (addr : ℕ) (x : Route) (rest : List Route) (best r : Route)
    → (route_matches addr x ≡ true → x.mask ≤ best.mask)
    → IsKept addr rest best r ⊎ IsBeaten addr rest best r
    → IsKept addr (x ∷ rest) best r ⊎ IsBeaten addr (x ∷ rest) best r
passed addr x rest best r h (inl k) = inl (record { same = k.same; no_longer = (h, k.no_longer) })
passed addr x rest best r h (inr b) = inr (record {
  longer = b.longer;
  found = extend addr x rest r (λ m. omega (arith, h m, b.longer)) b.found;
})

walk_some :
    (addr : ℕ) (rest : List Route) (best r : Route)
    → rt_walk addr rest (some best) ≡ some r
    → IsKept addr rest best r ⊎ IsBeaten addr rest best r
unfolding rt_walk consider
walk_some addr [] best r e = inl (record { same = ground arith; no_longer = tt })
walk_some addr (x ∷ rest) best r e =
    elim (Bool-cases (route_matches addr x && ltb best.mask x.mask)) [
      | inl t ↦ inr (
          replaced addr x rest best r (ground arith) (ground arith)
            (walk_some addr rest x r (rw t at e)))
      | inr f ↦
          passed addr x rest best r (λ m. ground arith) (walk_some addr rest best r (rw f at e))
    ]

walk_none :
    (addr : ℕ) (table : List Route) (r : Route)
    → rt_walk addr table none ≡ some r
    → IsLongest addr table r
unfolding rt_walk consider
walk_none addr [] r e = ground arith
walk_none addr (x ∷ rest) r e = elim (Bool-cases (route_matches addr x)) [
  | inl t ↦ first_found addr x rest r t (walk_some addr rest x r (rw t at e))
  | inr f ↦ extend addr x rest r (λ m. absurd (ground arith)) (walk_none addr rest r (rw f at e))
]

-- The entry that is returned matches the address, has the largest mask among those that match, and
-- is the first of them with that mask.
pub rt_match-IsLongest :
    (table : List Route) (addr : ℕ) (r : Route)
    → rt_match table addr ≡ some r
    → IsLongest addr table r
unfolding rt_match
rt_match-IsLongest table addr r e = walk_none addr table r e

walk_some_ne :
    (addr : ℕ) (rest : List Route) (best : Route)
    → (r : Route) × (rt_walk addr rest (some best) ≡ some r)
unfolding rt_walk consider
walk_some_ne addr [] best = (best, refl)
walk_some_ne addr (x ∷ rest) best =
    elim (Bool-cases (route_matches addr x && ltb best.mask x.mask)) [
      | inl t ↦ rw t (walk_some_ne addr rest x)
      | inr f ↦ rw f (walk_some_ne addr rest best)
    ]

-- There is no result exactly when no entry matches.
pub rt_match-none_iff :
    (table : List Route) (addr : ℕ)
    → (rt_match table addr ≡ none) ↔ All (λ x. route_matches addr x ≡ false) table
unfolding rt_match rt_walk consider
rt_match-none_iff [] addr = (λ _. tt, λ _. refl)
rt_match-none_iff (x ∷ rest) addr = elim (Bool-cases (route_matches addr x)) [
  | inl t ↦
      let (r, e) = walk_some_ne addr rest x in
      (λ h. absurd (ground arith), λ h. absurd (ground arith))
  | inr f ↦
      rw f
        (λ h. (refl, (rt_match-none_iff rest addr).0 h), λ h. (rt_match-none_iff rest addr).1 h.1)
]

add-append :
    (table : List Route) (r : Route)
    → take 32 r.interface ≡ r.interface
    → sr_add_rt_entry table r.dest r.gw r.mask r.interface ≡ table ++ (r ∷ [])
unfolding sr_add_rt_entry
add-append [] r h = ap (λ t. record r { interface = t } ∷ []) h
add-append (x ∷ xs) r h = ap (◌∷◌ x) (add-append xs r h)

walk-append :
    (addr : ℕ) (table : List Route) (best : Option Route) (r : Route)
    → rt_walk addr (table ++ (r ∷ [])) best ≡ consider addr r (rt_walk addr table best)
unfolding rt_walk
walk-append addr [] best r = refl
walk-append addr (x ∷ rest) best r = walk-append addr rest (consider addr x best) r

-- The better of a route and the best one so far, for an address: a route that matches it is better
-- than none, and than one with a smaller mask.
abbrev pub better : ℕ → Route → Option Route → Option Route
better addr r best =
    if bit_and r.dest r.mask == bit_and addr r.mask
    then (elim best [ none ↦ some r | some b ↦ if ltb b.mask r.mask then some r else some b ])
    else best

consider-better :
    (addr : ℕ) (r : Route) (best : Option Route) → consider addr r best ≡ better addr r best
unfolding consider route_matches
consider-better addr r none = ground arith
consider-better addr r (some b) = ground arith

-- A route that is added becomes the result for an address exactly if `dest` and the address agree
-- under its mask, and there was no result or one with a smaller mask. Otherwise the result is what
-- it was. The name of its interface has at most 32 characters, the length of its field.
pub rt_match-sr_add_rt_entry :
    (table : List Route) (r : Route) (addr : ℕ)
    → take 32 r.interface ≡ r.interface
    → rt_match (sr_add_rt_entry table r.dest r.gw r.mask r.interface) addr
      ≡ better addr r (rt_match table addr)
unfolding rt_match
rt_match-sr_add_rt_entry table r addr h =
    rw (add-append table r h)
      (walk-append addr table none r ∙ consider-better addr r (rt_walk addr table none))
