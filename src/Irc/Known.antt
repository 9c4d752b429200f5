-- ===== src/Irc/Known.antt =====
-- src: the names of the users, and how many of them the server counts as registered.
pub mod Names
pub mod Messages
pub mod Unique
pub mod Tally
use uchi_networks.Common.{
  ℕ, ◌+◌, ◌%◌, ◌≡◌, refl, ap, ap₂, Bool, true, false, not, ◌&&◌, if◌then◌else◌, List, [], ◌∷◌, map,
  Option, none, some, text_eq,
}
use uchi_networks.Irc.Parse.{Text}
use uchi_networks.Irc.Strings.{codes, is_empty}
use uchi_networks.Irc.Types.{
  Person, Server, at, update_at, remove_at, param, set_user, set_channel, set_iterating,
}
use uchi_networks.Irc.Members.Views.{update_at-same, one_more, one_less}
use uchi_networks.Irc.Members.Kept.{IsView, IsUnwalked}

-- The nick and the username.
abbrev pub both_names : Person → Text × Text
both_names p = (p.nick, p.user)

abbrev pub Roll : Type 0
Roll = List (Text × Text) × ℕ

abbrev pub roll : Server → Roll
roll s = (map both_names s.userlist, s.numregistered)

pub roll-IsView : IsView roll
unfolding set_user set_channel
roll-IsView = record {
  sends = λ s l. refl;
  user = λ u f s h.
      ap (λ ns. (ns, s.numregistered))
        (update_at-same both_names f s.userlist u (λ p. ap₂ (λ a b. (a, b)) (h p).1 (h p).2));
  channel = λ c f s h. refl;
}

pub roll-IsUnwalked : IsUnwalked roll
unfolding set_user set_iterating
roll-IsUnwalked u b s =
    ap (λ ns. (ns, s.numregistered))
      (update_at-same both_names (set_iterating b) s.userlist u (λ p. refl))

-- Whether a user has this nick. Nobody has the empty one.
unfoldable pub taken : Text → List (Text × Text) → Bool
taken n [] = false
taken n (k ∷ ks) = if not (is_empty n) && text_eq (k.0) n then true else taken n ks

abbrev pub is_full : Text × Text → Bool
is_full k = not (is_empty k.0) && not (is_empty k.1)

unfoldable pub count_if : Bool → ℕ → ℕ
count_if true n = one_more n
count_if false n = n

-- NICK with a name that is free.
unfoldable pub renamed : ℕ → Text → Roll → Option (Text × Text) → Roll
renamed u nick k none = k
renamed u nick k (some x) =
    (update_at u (λ y. (nick, y.1)) k.0, count_if (is_empty x.0 && not (is_empty x.1)) k.1)

-- USER.
unfoldable pub introduced : ℕ → Text → Roll → Option (Text × Text) → Roll
introduced u user k none = k
introduced u user k (some x) =
    if is_full x then k else (update_at u (λ y. (y.0, user)) k.0, count_if (not (is_empty x.0)) k.1)

-- What a message does to the names and the number.
unfoldable pub enroll : ℕ → (command name : Text) → Roll → Roll
enroll u command name k =
    if text_eq command (codes "NICK")
    then (if taken name k.0 then k else renamed u name k (at k.0 u))
    else if text_eq command (codes "USER")
    then introduced u name k (at k.0 u)
    else if text_eq command (codes "QUIT")
    then (remove_at u k.0, one_less k.1)
    else k
