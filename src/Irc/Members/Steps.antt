-- ===== src/Irc/Members/Steps.antt =====
-- src: the invariant of the channels, when a user comes onto one, leaves one, or goes.
use uchi_networks.Common.{
  ℕ, zero, suc, ◌<◌, ◌≤◌, ◌≡◌, refl, ap, ◌∙◌, subst, true, false, List, [], ◌∷◌, ◌++◌, none, some,
  text_eq→eq, text_eq_refl, All, length, arith,
}
use uchi_networks.Irc.Parse.{Text}
use uchi_networks.Irc.Strings.{is_empty}
use uchi_networks.Irc.Types.{at, update_at, remove_at}
use uchi_networks.Irc.Members.{has, without, users_of, IsOnce, IsCounted}
use uchi_networks.Irc.Members.Counts.{
  add_to, IsOnce-add_to, IsOnce-without, members-enter, members-leave, members-remove, members-le,
}
use uchi_networks.Irc.Members.Channels.{
  seek, recount, seek-at, seek_misses, users_of-new, users_of-recount, users_of-append,
  IsListed-recount, IsListed-append,
}
use uchi_networks.Irc.Members.Views.{one_more}
use uchi_networks.Irc.Members.Leaving.{IsLeaving}

pub length-update_at {ℓ} :
    {A : Type ℓ} (f : A → A) (xs : List A) (i : ℕ) → length (update_at i f xs) ≡ length xs
length-update_at f [] i = refl
length-update_at f (x ∷ xs) zero = refl
length-update_at f (x ∷ xs) (suc i) = ap suc (length-update_at f xs i)

pub length-remove_at {ℓ} : {A : Type ℓ} (xs : List A) (i : ℕ) → length (remove_at i xs) ≤ length xs
length-remove_at [] i = omega arith
length-remove_at (x ∷ xs) zero = omega arith
length-remove_at (x ∷ xs) (suc i) = omega (arith, length-remove_at xs i)

All-update_at {ℓ κ} :
    {A : Type ℓ} (P : A → Type κ) (f : A → A) (xs : List A) (i : ℕ)
    → ((x : A) → at xs i ≡ some x → P x → P (f x))
    → All P xs
    → All P (update_at i f xs)
All-update_at P f [] i k h = tt
All-update_at P f (x ∷ xs) zero k h = (k x refl h.0, h.1)
All-update_at P f (x ∷ xs) (suc i) k h = (h.0, All-update_at P f xs i k h.1)

All-remove_at {ℓ κ} :
    {A : Type ℓ} (P : A → Type κ) (xs : List A) (i : ℕ) → All P xs → All P (remove_at i xs)
All-remove_at P [] i h = tt
All-remove_at P (x ∷ xs) zero h = h.1
All-remove_at P (x ∷ xs) (suc i) h = (h.0, All-remove_at P xs i h.1)

pub All-at {ℓ κ} :
    {A : Type ℓ} (P : A → Type κ) (xs : List A) (i : ℕ) (x : A) → All P xs → at xs i ≡ some x → P x
All-at P [] i x h e = ground arith
All-at P (y ∷ ys) zero x h e = subst P (ground (arith, e)) h.0
All-at P (y ∷ ys) (suc i) x h e = All-at P ys i x h.1 e

module _ (rs : List (List Text)) (ks : List (Text × ℕ)) (u : ℕ) (ns : List Text) (c : Text) where
  enter-IsOnce :
      IsCounted rs ks
      → at rs u ≡ some ns
      → has ns c ≡ false
      → All IsOnce (update_at u (add_to c) rs)
  enter-IsOnce h e k =
      All-update_at IsOnce (add_to c) rs u
        (λ x ex o. IsOnce-add_to x c o (ground (arith, ex, e, k))) h.once

  -- The user is not counted yet.
  enter-bounded :
      IsCounted rs ks → at rs u ≡ some ns → has ns c ≡ false → suc (users_of c ks) < 4294967296
  enter-bounded h e k = ground (
    arith,
    h.counted c,
    h.bounded,
    members-enter rs u ns c c e k,
    text_eq_refl c,
    members-le c (update_at u (add_to c) rs),
    length-update_at (add_to c) rs u,
  )

  -- A user comes onto a channel that there is.
  pub enter-IsCounted :
      (i : ℕ)
      → IsCounted rs ks
      → at rs u ≡ some ns
      → has ns c ≡ false
      → seek c ks ≡ some i
      → IsCounted (update_at u (add_to c) rs) (update_at i (recount one_more) ks)
  enter-IsCounted i h e k f = record {
    counted = λ d. ground (
      arith,
      users_of-recount one_more c d ks i f,
      members-enter rs u ns c d e k,
      h.counted d,
      text_eq→eq c d,
      enter-bounded h e k,
    );
    listed =
        IsListed-recount one_more ks i _ (seek-at c ks i f) (omega (arith, enter-bounded h e k))
          h.listed;
    once = enter-IsOnce h e k;
    bounded = omega (arith, h.bounded, length-update_at (add_to c) rs u);
  }

  -- A user comes onto a new channel.
  pub found-IsCounted :
      IsCounted rs ks
      → at rs u ≡ some ns
      → has ns c ≡ false
      → is_empty c ≡ false
      → seek c ks ≡ none
      → IsCounted (update_at u (add_to c) rs) (ks ++ ((c, 1) ∷ []))
  found-IsCounted h e k n f = record {
    counted = λ d. ground (
      arith,
      users_of-append c d 1 ks (seek_misses c ks n f),
      users_of-new c ks (seek_misses c ks n f),
      members-enter rs u ns c d e k,
      h.counted d,
      text_eq→eq c d,
    );
    listed = IsListed-append c 1 ks n (omega arith) (seek_misses c ks n f) h.listed;
    once = enter-IsOnce h e k;
    bounded = omega (arith, h.bounded, length-update_at (add_to c) rs u);
  }

  -- A user is about to leave a channel.
  pub part-IsLeaving :
      IsCounted rs ks
      → at rs u ≡ some ns
      → has ns c ≡ true
      → IsLeaving (c ∷ []) (update_at u (without c) rs) ks
  unfolding has
  part-IsLeaving h e k = record {
    left = λ d.
        ground (arith, members-leave rs u ns c d e (All-at IsOnce rs u ns h.once e) k, h.counted d);
    listed = h.listed;
    once = (refl, tt);
    bounded = λ d. omega (arith, h.counted d, members-le d rs, h.bounded);
  }

  pub leave-IsCounted :
      IsCounted rs ks
      → (less : List (Text × ℕ)) → IsLeaving [] (update_at u (without c) rs) less
      → IsCounted (update_at u (without c) rs) less
  unfolding has
  leave-IsCounted h less l = record {
    counted = l.left;
    listed = l.listed;
    once = All-update_at IsOnce (without c) rs u (λ x ex o. IsOnce-without x c o) h.once;
    bounded = omega (arith, h.bounded, length-update_at (without c) rs u);
  }

module _ (rs : List (List Text)) (ks : List (Text × ℕ)) (u : ℕ) (ns : List Text) where
  -- A user is about to leave all channels.
  pub exit-IsLeaving : IsCounted rs ks → at rs u ≡ some ns → IsLeaving ns (remove_at u rs) ks
  exit-IsLeaving h e = record {
    left = λ d. (h.counted d) ∙ members-remove rs u ns d e;
    listed = h.listed;
    once = All-at IsOnce rs u ns h.once e;
    bounded = λ d. omega (arith, h.counted d, members-le d rs, h.bounded);
  }

  pub gone-IsCounted :
      IsCounted rs ks
      → (less : List (Text × ℕ)) → IsLeaving [] (remove_at u rs) less
      → IsCounted (remove_at u rs) less
  unfolding has
  gone-IsCounted h less l = record {
    counted = l.left;
    listed = l.listed;
    once = All-remove_at IsOnce rs u h.once;
    bounded = omega (arith, h.bounded, length-remove_at rs u);
  }
