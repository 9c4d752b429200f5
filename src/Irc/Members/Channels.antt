-- ===== src/Irc/Members/Channels.antt =====
-- src: the numbers of the channels, under the updates of the channel list.
use uchi_networks.Common.{
  ℕ, zero, suc, ◌<◌, ◌≡◌, refl, true, false, not, ◌&&◌, if◌then◌else◌, List, [], ◌∷◌, ◌++◌, Option,
  none, some, text_eq, text_eq→eq, text_eq_refl, All-append, Option-cases, inl, inr, arith,
}
use uchi_networks.Irc.Parse.{Text}
use uchi_networks.Irc.Strings.{is_empty}
use uchi_networks.Irc.Types.{at, update_at, remove_at, find_at}
use uchi_networks.Irc.Members.{users_of, IsNew, IsListed}

-- What seek_channel finds.
abbrev pub seek : Text → List (Text × ℕ) → Option ℕ
seek c ks = find_at (λ k. not (is_empty c) && text_eq (k.0) c) ks

-- A change of a channel's number.
abbrev pub recount : (ℕ → ℕ) → Text × ℕ → Text × ℕ
recount f k = (k.0, f k.1)

module _ (c : Text) (k : Text × ℕ) (ks : List (Text × ℕ)) where
  pub seek-head :
      seek c (k ∷ ks) ≡ some 0 → (is_empty c ≡ false) × (k.0 ≡ c) × (text_eq k.0 c ≡ true)
  unfolding find_at
  seek-head e = ground (arith, text_eq→eq k.0 c)

  pub seek-tail :
      (i : ℕ)
      → seek c (k ∷ ks) ≡ some (suc i)
      → (not (is_empty c) && text_eq k.0 c ≡ false) × (seek c ks ≡ some i)
  unfolding find_at
  seek-tail i e = ground arith

pub seek-named : (c : Text) (ks : List (Text × ℕ)) (i : ℕ) → seek c ks ≡ some i → is_empty c ≡ false
unfolding find_at
seek-named c [] i e = ground arith
seek-named c (k ∷ ks) zero e = (seek-head c k ks e).0
seek-named c (k ∷ ks) (suc i) e = seek-named c ks i (seek-tail c k ks i e).1

pub seek-other :
    (c : Text) (k : Text × ℕ) (ks : List (Text × ℕ)) (i : ℕ)
    → seek c (k ∷ ks) ≡ some (suc i)
    → text_eq k.0 c ≡ false
seek-other c k ks i e =
    ground (arith, seek-named c ks i (seek-tail c k ks i e).1, (seek-tail c k ks i e).0)

-- What stands at a place that seek finds.
pub seek-at :
    (c : Text) (ks : List (Text × ℕ)) (i : ℕ)
    → seek c ks ≡ some i
    → at ks i ≡ some (c, users_of c ks)
unfolding find_at users_of
seek-at c [] i e = ground arith
seek-at c (k ∷ ks) zero e = ground (arith, seek-head c k ks e)
seek-at c (k ∷ ks) (suc i) e =
    ground (arith, seek-other c k ks i e, seek-at c ks i (seek-tail c k ks i e).1)

pub seek_misses :
    (c : Text) (ks : List (Text × ℕ)) → is_empty c ≡ false → seek c ks ≡ none → IsNew c ks
unfolding find_at
seek_misses c [] h e = tt
seek_misses c (k ∷ ks) h e = ground (arith, seek_misses c ks h)

pub users_of-new : (c : Text) (ks : List (Text × ℕ)) → IsNew c ks → users_of c ks ≡ 0
unfolding users_of
users_of-new c [] h = refl
users_of-new c (k ∷ ks) h = ground (arith, users_of-new c ks h.1, h.0)

users_of-named :
    (c : Text) (ks : List (Text × ℕ)) → IsListed ks → 0 < users_of c ks → is_empty c ≡ false
unfolding users_of
users_of-named c [] l h = absurd (omega arith)
users_of-named c (k ∷ ks) l h = ground (arith, users_of-named c ks l.1, l.0, text_eq→eq k.0 c)

pub seek-users :
    (c : Text) (ks : List (Text × ℕ))
    → IsListed ks
    → 0 < users_of c ks
    → (i : ℕ) × (seek c ks ≡ some i)
seek-users c ks l h = elim (Option-cases (seek c ks)) [
  | inl e ↦
      absurd (ground (arith, users_of-new c ks (seek_misses c ks (users_of-named c ks l h) e)))
  | inr r ↦ r
]

pub users_of-recount :
    (f : ℕ → ℕ) (c d : Text) (ks : List (Text × ℕ)) (i : ℕ)
    → seek c ks ≡ some i
    → users_of d (update_at i (recount f) ks)
      ≡ (if text_eq c d then f (users_of d ks) else users_of d ks)
unfolding find_at users_of
users_of-recount f c d [] i e = ground arith
users_of-recount f c d (k ∷ ks) zero e = ground (arith, text_eq→eq k.0 c)
users_of-recount f c d (k ∷ ks) (suc i) e = ground (
  arith,
  seek-other c k ks i e,
  text_eq→eq c d,
  users_of-recount f c d ks i (seek-tail c k ks i e).1,
  text_eq→eq k.0 d,
  text_eq_refl d,
)

pub users_of-append :
    (c d : Text) (n : ℕ) (ks : List (Text × ℕ))
    → IsNew c ks
    → users_of d (ks ++ ((c, n) ∷ [])) ≡ (if text_eq c d then n else users_of d ks)
unfolding users_of
users_of-append c d n [] h = ground arith
users_of-append c d n (k ∷ ks) h =
    ground
      (arith, users_of-append c d n ks h.1, h.0, text_eq→eq k.0 d, text_eq→eq c d, text_eq_refl d)

pub users_of-remove :
    (c d : Text) (ks : List (Text × ℕ)) (i : ℕ)
    → IsListed ks
    → seek c ks ≡ some i
    → users_of d (remove_at i ks) ≡ (if text_eq c d then 0 else users_of d ks)
unfolding find_at users_of
users_of-remove c d [] i l e = ground arith
users_of-remove c d (k ∷ ks) zero l e =
    ground (arith, seek-head c k ks e, users_of-new c ks, l.0, text_eq→eq c d)
users_of-remove c d (k ∷ ks) (suc i) l e = ground (
  arith,
  seek-other c k ks i e,
  users_of-remove c d ks i l.1 (seek-tail c k ks i e).1,
  text_eq→eq c d,
  text_eq→eq k.0 d,
  text_eq_refl d,
)

pub IsNew-recount :
    (f : ℕ → ℕ) (c : Text) (ks : List (Text × ℕ)) (i : ℕ)
    → IsNew c ks
    → IsNew c (update_at i (recount f) ks)
IsNew-recount f c [] i h = tt
IsNew-recount f c (k ∷ ks) zero h = h
IsNew-recount f c (k ∷ ks) (suc i) h = (h.0, IsNew-recount f c ks i h.1)

pub IsListed-recount :
    (f : ℕ → ℕ) (ks : List (Text × ℕ)) (i : ℕ) (k : Text × ℕ)
    → at ks i ≡ some k
    → 0 < f k.1
    → IsListed ks
    → IsListed (update_at i (recount f) ks)
IsListed-recount f [] i k e p l = tt
IsListed-recount f (j ∷ ks) zero k e p l = ((ground (arith, e), l.0.1, l.0.2), l.1)
IsListed-recount f (j ∷ ks) (suc i) k e p l =
    ((l.0.0, l.0.1, IsNew-recount f j.0 ks i l.0.2), IsListed-recount f ks i k e p l.1)

pub IsNew-remove : (c : Text) (ks : List (Text × ℕ)) (i : ℕ) → IsNew c ks → IsNew c (remove_at i ks)
IsNew-remove c [] i h = tt
IsNew-remove c (k ∷ ks) zero h = h.1
IsNew-remove c (k ∷ ks) (suc i) h = (h.0, IsNew-remove c ks i h.1)

pub IsListed-remove : (ks : List (Text × ℕ)) (i : ℕ) → IsListed ks → IsListed (remove_at i ks)
IsListed-remove [] i l = tt
IsListed-remove (k ∷ ks) zero l = l.1
IsListed-remove (k ∷ ks) (suc i) l =
    ((l.0.0, l.0.1, IsNew-remove k.0 ks i l.0.2), IsListed-remove ks i l.1)

pub IsListed-append :
    (c : Text) (n : ℕ) (ks : List (Text × ℕ))
    → is_empty c ≡ false
    → 0 < n
    → IsNew c ks
    → IsListed ks
    → IsListed (ks ++ ((c, n) ∷ []))
IsListed-append c n [] h p e l = ((p, h, tt), tt)
IsListed-append c n (k ∷ ks) h p e l = (
  (
    l.0.0,
    l.0.1,
    All-append (λ j. text_eq j.0 k.0 ≡ false) ks ((c, n) ∷ []) l.0.2
        (ground (arith, e.0, text_eq→eq c k.0, text_eq_refl c), tt),
  ),
  IsListed-append c n ks h p e.1 l.1,
)
