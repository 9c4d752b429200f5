-- ===== src/Irc/Members/Counts.antt =====
-- src: how a change of one user's channels, or of one channel's number, changes the counts.
use uchi_networks.Common.{
  ℕ, zero, suc, ◌≤◌, ◌≡◌, refl, true, false, if◌then◌else◌, List, [], ◌∷◌, ◌++◌, some, text_eq,
  text_eq→eq, text_eq_refl, length, arith,
}
use uchi_networks.Irc.Parse.{Text}
use uchi_networks.Irc.Types.{at, update_at, remove_at}
use uchi_networks.Irc.Members.{has, without, members, IsOnce}

abbrev pub add_to : Text → List Text → List Text
add_to c ns = ns ++ (c ∷ [])

pub has-add_to :
    (ns : List Text) (c d : Text) → has (add_to c ns) d ≡ (if has ns d then true else text_eq c d)
unfolding has
has-add_to [] c d = ground arith
has-add_to (n ∷ ns) c d = ground (arith, has-add_to ns c d)

pub has-without :
    (ns : List Text) (c d : Text)
    → IsOnce ns
    → has (without c ns) d ≡ (if text_eq c d then false else has ns d)
unfolding has without
has-without [] c d h = ground arith
has-without (n ∷ ns) c d h = ground (
  arith,
  has-without ns c d h.1,
  h.0,
  text_eq→eq n c,
  text_eq→eq n d,
  text_eq→eq c d,
  text_eq_refl n,
  text_eq_refl c,
  text_eq_refl d,
)

pub IsOnce-add_to :
    (ns : List Text) (c : Text) → IsOnce ns → has ns c ≡ false → IsOnce (add_to c ns)
unfolding has
IsOnce-add_to [] c h k = (refl, tt)
IsOnce-add_to (n ∷ ns) c h k = (
  ground (arith, has-add_to ns c n, h.0, k, text_eq→eq c n, text_eq_refl n),
  IsOnce-add_to ns c h.1 (ground (arith, k)),
)

pub IsOnce-without : (ns : List Text) (c : Text) → IsOnce ns → IsOnce (without c ns)
unfolding has without
IsOnce-without [] c h = tt
IsOnce-without (n ∷ ns) c h =
    ground (arith, IsOnce-without ns c h.1, has-without ns c n h.1, h.0, h.1)

pub members-enter :
    (rs : List (List Text)) (u : ℕ) (ns : List Text) (c d : Text)
    → at rs u ≡ some ns
    → has ns c ≡ false
    → members d (update_at u (add_to c) rs)
      ≡ (if text_eq c d then suc (members d rs) else members d rs)
unfolding members
members-enter [] u ns c d e h = ground arith
members-enter (r ∷ rs) zero ns c d e h = ground (arith, has-add_to r c d, text_eq→eq c d)
members-enter (r ∷ rs) (suc u) ns c d e h = ground (arith, members-enter rs u ns c d e h)

pub members-leave :
    (rs : List (List Text)) (u : ℕ) (ns : List Text) (c d : Text)
    → at rs u ≡ some ns
    → IsOnce ns
    → has ns c ≡ true
    → members d rs ≡ (
        if text_eq c d
        then suc (members d (update_at u (without c) rs))
        else members d (update_at u (without c) rs))
unfolding members
members-leave [] u ns c d e o h = ground arith
members-leave (r ∷ rs) zero ns c d e o h = ground (arith, has-without r c d, text_eq→eq c d)
members-leave (r ∷ rs) (suc u) ns c d e o h = ground (arith, members-leave rs u ns c d e o h)

pub members-remove :
    (rs : List (List Text)) (u : ℕ) (ns : List Text) (d : Text)
    → at rs u ≡ some ns
    → members d rs
      ≡ (if has ns d then suc (members d (remove_at u rs)) else members d (remove_at u rs))
unfolding members
members-remove [] u ns d e = ground arith
members-remove (r ∷ rs) zero ns d e = ground arith
members-remove (r ∷ rs) (suc u) ns d e = ground (arith, members-remove rs u ns d e)

pub members-le : (c : Text) (rs : List (List Text)) → members c rs ≤ length rs
unfolding members
members-le c [] = omega arith
members-le c (ns ∷ rs) = ground (arith, members-le c rs)
