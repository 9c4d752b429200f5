-- ===== src/Irc/Members/Leaving.antt =====
-- src: what user_exit and PART do to the channels of the user who leaves them.
use uchi_networks.Common.{
  ℕ, zero, suc, ◌-◌, ◌<◌, ◌≡◌, refl, sym, ap, ◌∙◌, subst, Bool, true, false, ◌==◌, if◌then◌else◌,
  List, [], ◌∷◌, map, some, text_eq, text_eq→eq, text_eq_refl, Bool-cases, inl, inr, arith, ◌>>=◌,
  Returns, map-Returns, chain-Returns,
}
use uchi_networks.Irc.Parse.{Text}
use uchi_networks.Irc.Types.{MyChan, Channel, at, update_at, remove_at, seek_channel}
use uchi_networks.Irc.Utils.{decrement, channel_destroy, leave_channel, leave_each}
use uchi_networks.Irc.Members.{my_name, named_count, has, members, users_of, IsListed, IsOnce}
use uchi_networks.Irc.Members.Channels.{
  seek, recount, seek-at, seek-users, users_of-recount, users_of-remove, IsListed-recount,
  IsListed-remove,
}
use uchi_networks.Irc.Members.Views.{
  at-of_map, map-remove_at, seek_channel-seek, counts-decrement, one_less,
}

-- The users `rs` that stay, and the numbers, which count one more for each of the channels that are
-- still to be left.
pub record IsLeaving (ms : List Text) (rs : List (List Text)) (ks : List (Text × ℕ)) : Type 0 where
  pub left : (c : Text) → users_of c ks ≡ (if has ms c then suc (members c rs) else members c rs)
  pub listed : IsListed ks
  pub once : IsOnce ms
  pub bounded : (c : Text) → users_of c ks < 4294967296

-- The numbers when one user of `n` leaves.
abbrev pub fewer : ℕ → ℕ → List (Text × ℕ) → List (Text × ℕ)
fewer i n ks = if one_less n == 0 then remove_at i ks else update_at i (recount one_less) ks

at-update_at {ℓ} :
    {A : Type ℓ} (f : A → A) (xs : List A) (i : ℕ) (x : A)
    → at xs i ≡ some x
    → at (update_at i f xs) i ≡ some (f x)
at-update_at f [] i x e = ground arith
at-update_at f (y ∷ ys) zero x e = cc e
at-update_at f (y ∷ ys) (suc i) x e = at-update_at f ys i x e

remove_at-update_at {ℓ} :
    {A : Type ℓ} (f : A → A) (xs : List A) (i : ℕ) → remove_at i (update_at i f xs) ≡ remove_at i xs
remove_at-update_at f [] i = refl
remove_at-update_at f (y ∷ ys) zero = refl
remove_at-update_at f (y ∷ ys) (suc i) = ap (◌∷◌ y) (remove_at-update_at f ys i)

leave_channel-result :
    (c : ℕ) (cs : List Channel) (chan : Channel)
    → at cs c ≡ some chan
    → leave_channel c cs
      ≡ some (if one_less chan.numusers == 0 then remove_at c cs else update_at c decrement cs)
unfolding leave_channel channel_destroy decrement
leave_channel-result c cs chan e =
    ground (arith, at-update_at decrement cs c chan e, remove_at-update_at decrement cs c)

map-if_left :
    (b : Bool) (c : ℕ) (cs : List Channel)
    → map named_count (if b then remove_at c cs else update_at c decrement cs) ≡ (
        if b
        then remove_at c (map named_count cs)
        else update_at c (recount one_less) (map named_count cs))
map-if_left true c cs = map-remove_at named_count cs c
map-if_left false c cs = counts-decrement c cs

pub leave_channel-fewer :
    (name : Text) (n : ℕ) (c : ℕ) (cs : List Channel)
    → at (map named_count cs) c ≡ some (name, n)
    → Returns (λ less. map named_count less ≡ fewer c n (map named_count cs)) (leave_channel c cs)
leave_channel-fewer name n c cs e =
    let found = at-of_map named_count cs c (name, n) e in
    subst (Returns (λ less. map named_count less ≡ fewer c n (map named_count cs)))
      (sym (leave_channel-result c cs found.0 found.1))
      (map-if_left (one_less (found.0).numusers == 0) c cs
        ∙ ap (λ k. fewer c (k.1) (map named_count cs)) found.2)

module _ (m : Text) (ks : List (Text × ℕ)) (i : ℕ) (e : seek m ks ≡ some i) where
  users_of-fewer :
      (d : Text)
      → IsListed ks
      → 0 < users_of m ks
      → users_of m ks < 4294967296
      → users_of d (fewer i (users_of m ks) ks)
        ≡ (if text_eq m d then users_of m ks - 1 else users_of d ks)
  users_of-fewer d l p b =
      ground
        (arith, users_of-recount one_less m d ks i e, users_of-remove m d ks i l e, text_eq→eq m d)

  fewer-IsListed : (n : ℕ) → at ks i ≡ some (m, n) → IsListed ks → IsListed (fewer i n ks)
  fewer-IsListed n a l = elim (Bool-cases (one_less n == 0)) [
    | inl t ↦ ground (arith, IsListed-remove ks i l, t)
    | inr t ↦ ground (arith, IsListed-recount one_less ks i (m, n) a (ground (arith, t)) l, t)
  ]

  pub fewer-IsLeaving :
      (ms : List Text) (rs : List (List Text))
      → IsLeaving (m ∷ ms) rs ks
      → IsLeaving ms rs (fewer i (users_of m ks) ks)
  unfolding has
  fewer-IsLeaving ms rs h =
      let p : 0 < users_of m ks = ground (arith, h.left m, text_eq_refl m) in
      let u : (d : Text)
          → users_of d (fewer i (users_of m ks) ks)
            ≡ (if text_eq m d then users_of m ks - 1 else users_of d ks) =
        λ d. users_of-fewer d h.listed p (h.bounded m) in
      record {
        left =
            λ d. ground (arith, u d, h.left d, h.left m, text_eq_refl m, text_eq→eq m d, h.once.0);
        listed = fewer-IsListed (users_of m ks) (seek-at m ks i e) h.listed;
        once = h.once.1;
        bounded = λ d. ground (arith, u d, h.bounded d, h.bounded m);
      }

-- Leaving the first of the channels succeeds.
pub leave_first :
    (m : Text) (ms : List Text) (rs : List (List Text)) (cs : List Channel)
    → IsLeaving (m ∷ ms) rs (map named_count cs)
    → Returns
        (λ less. IsLeaving ms rs (map named_count less))
        (seek_channel m cs >>= λ c. leave_channel c cs)
unfolding has
leave_first m ms rs cs h =
    let found =
      seek-users m (map named_count cs) h.listed (ground (arith, h.left m, text_eq_refl m)) in
    subst
      (λ o.
        Returns (λ less. IsLeaving ms rs (map named_count less)) (o >>= λ c. leave_channel c cs))
      (sym (seek_channel-seek m cs ∙ found.1))
      (map-Returns _ (λ less. IsLeaving ms rs (map named_count less)) (leave_channel found.0 cs)
        (λ less e.
          subst (IsLeaving ms rs) (sym e)
            (fewer-IsLeaving m (map named_count cs) found.0 found.1 ms rs h))
        (leave_channel-fewer m _ found.0 cs (seek-at m (map named_count cs) found.0 found.1)))

-- The loop of user_exit.
pub leave_each-IsLeaving :
    (ms : List MyChan) (rs : List (List Text)) (cs : List Channel)
    → IsLeaving (map my_name ms) rs (map named_count cs)
    → Returns (λ less. IsLeaving [] rs (map named_count less)) (leave_each ms cs)
unfolding leave_each
leave_each-IsLeaving [] rs cs h = h
leave_each-IsLeaving (m ∷ ms) rs cs h =
    chain-Returns (λ less. IsLeaving (map my_name ms) rs (map named_count less))
      (λ less. IsLeaving [] rs (map named_count less)) (seek_channel m.name cs)
      (λ c. leave_channel c cs) (leave_each ms) (leave_first m.name (map my_name ms) rs cs h)
      (leave_each-IsLeaving ms rs)
