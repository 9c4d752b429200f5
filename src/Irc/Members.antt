-- ===== src/Irc/Members.antt =====
-- src: who is on which channel, and the numbers of users that the channels keep.
pub mod Counts
pub mod Channels
pub mod Views
pub mod Leaving
pub mod Steps
pub mod Kept
pub mod Handlers
pub mod Acts
pub mod Messages
pub mod Nameless
use uchi_networks.Common.{
  ℕ, zero, suc, ◌+◌, ◌<◌, ◌≡◌, ◌≢◌, Bool, true, false, not, ◌&&◌, if◌then◌else◌, List, [], ◌∷◌, map,
  Option, text_eq, All, length,
}
use uchi_networks.Irc.Parse.{Text}
use uchi_networks.Irc.Strings.{is_empty}
use uchi_networks.Irc.Types.{MyChan, Channel, Person, Server, find_at}

abbrev pub my_name : MyChan → Text
my_name m = m.name

-- The names of the channels in a user's list.
abbrev pub names_in : Person → List Text
names_in p = map my_name (p.my_chans)

abbrev pub named_count : Channel → Text × ℕ
named_count c = (c.name, c.numusers)

-- The server's channels as each user has them, and as the server counts them.
abbrev pub rooms : Server → List (List Text)
rooms s = map names_in (s.userlist)

abbrev pub counts : Server → List (Text × ℕ)
counts s = map named_count (s.chanlist)

unfoldable pub has : List Text → Text → Bool
has [] c = false
has (n ∷ ns) c = if text_eq n c then true else has ns c

unfoldable pub without : Text → List Text → List Text
without c [] = []
without c (n ∷ ns) = if text_eq n c then ns else n ∷ without c ns

-- How many users have the channel.
unfoldable pub members : Text → List (List Text) → ℕ
members c [] = 0
members c (ns ∷ rs) = let n = members c rs in if has ns c then suc n else n

-- The number that the server keeps for the channel, 0 without the channel.
unfoldable pub users_of : Text → List (Text × ℕ) → ℕ
users_of c [] = 0
users_of c (k ∷ ks) = if text_eq (k.0) c then k.1 else users_of c ks

abbrev pub IsNew : Text → List (Text × ℕ) → Type 0
IsNew c ks = All (λ k. text_eq (k.0) c ≡ false) ks

-- Channels with names, all different, and with users.
abbrev pub IsListed : List (Text × ℕ) → Type 0
IsListed [] = Unit
IsListed (k ∷ ks) = ((0 < k.1) × (is_empty k.0 ≡ false) × IsNew k.0 ks) × IsListed ks

-- No channel twice.
abbrev pub IsOnce : List Text → Type 0
IsOnce [] = Unit
IsOnce (n ∷ ns) = (has ns n ≡ false) × IsOnce ns

-- Every channel that a user has is one of the server's, and the server counts its users.
pub record IsCounted (rs : List (List Text)) (ks : List (Text × ℕ)) : Type 0 where
  pub counted : (c : Text) → users_of c ks ≡ members c rs
  pub listed : IsListed ks
  pub once : All IsOnce rs
  pub bounded : length rs < 4294967296

abbrev pub IsConsistent : Server → Type 0
IsConsistent s = IsCounted (rooms s) (counts s)
