-- ===== src/Irc/Members/Kept/Modes.antt =====
-- src: MODE and OPER leave the channels with their users.
use uchi_networks.Common.{ℕ, List, ◌≡◌, Option, none, some, refl, text_eq}
use uchi_networks.Irc.Parse.{Text}
use uchi_networks.Irc.Types.{Channel, Person, Server, param}
use uchi_networks.Irc.Handlers.Modes.{
  set_status, with_status, apply_status, not_in_channel, status_of, member_mode, set_channel_mode,
  change_channel, drop_oper, user_mode, apply_channel_mode, change_mode, channel_mode,
  chirc_handle_mode, make_oper, chirc_handle_oper,
}
use uchi_networks.Irc.Members.{my_name, named_count}
use uchi_networks.Irc.Members.Views.{update_at-same}
use uchi_networks.Irc.Members.Kept.{
  IsView, SamePerson, Keeps, call-Keeps, if-Keeps, some-Keeps, reply_to-Keeps, set_channel-Same,
  set_user-Same, relay-Same, post-Same, kept,
}
use uchi_networks.Irc.Members.Kept.Register.{set_user-Keeps}

module _ {X : Type 0} {V : Server → X} (v : IsView V) where
  with_status-SamePerson : (i : ℕ) (mode : Text) (p : Person) → SamePerson p (with_status i mode p)
  unfolding with_status set_status
  with_status-SamePerson i mode p =
      (update_at-same my_name (set_status mode) p.my_chans i (λ m. refl), refl, refl, refl)

  apply_status-Keeps :
      (params : List Text) (p : Person) (t : ℕ) (target : Person) (chan : Channel) (s : Server)
      → Keeps V s (apply_status params p t target chan s)
  unfolding apply_status
  apply_status-Keeps params p t target chan s =
      search (call-Keeps, some-Keeps, relay-Same, set_user-Same, with_status-SamePerson) depth 8

  not_in_channel-Keeps :
      (u : ℕ) (params : List Text) (s : Server) → Keeps V s (not_in_channel u params s)
  unfolding not_in_channel
  not_in_channel-Keeps u params s = search (kept)

  status_of-Keeps :
      (u : ℕ) (params : List Text) (p : Person) (chan : Channel) (t : Option ℕ) (s : Server)
      → Keeps V s (status_of u params p chan t s)
  unfolding status_of
  status_of-Keeps u params p chan none s = search (not_in_channel-Keeps)
  status_of-Keeps u params p chan (some t) s =
      search (kept, not_in_channel-Keeps, apply_status-Keeps)

  member_mode-Keeps :
      (u : ℕ) (params : List Text) (p : Person) (c : Option ℕ) (s : Server)
      → Keeps V s (member_mode u params p c s)
  unfolding member_mode
  member_mode-Keeps u params p none s = search (kept)
  member_mode-Keeps u params p (some c) s = search (kept, status_of-Keeps)

  set_channel_mode-count :
      (mode : Text) (x : Channel) → named_count (set_channel_mode mode x) ≡ named_count x
  unfolding set_channel_mode
  set_channel_mode-count mode x = refl

  change_channel-Keeps :
      (params : List Text) (p : Person) (c : ℕ) (chan : Channel) (mode : Text) (s : Server)
      → Keeps V s (change_channel params p c chan mode s)
  unfolding change_channel
  change_channel-Keeps params p c chan mode s =
      search (call-Keeps, some-Keeps, relay-Same, set_channel-Same, set_channel_mode-count)

  drop_oper-SamePerson : (p : Person) → SamePerson p (drop_oper p)
  unfolding drop_oper
  drop_oper-SamePerson p = (refl, refl, refl, refl)

  user_mode-Keeps :
      (u : ℕ) (params : List Text) (p : Person) (s : Server) → Keeps V s (user_mode u params p s)
  unfolding user_mode
  user_mode-Keeps u params p s =
      search (kept, some-Keeps, post-Same, set_user-Same, drop_oper-SamePerson) depth 8

  apply_channel_mode-Keeps :
      (u : ℕ) (params : List Text) (p : Person) (c : ℕ) (chan : Channel) (s : Server)
      → Keeps V s (apply_channel_mode u params p c chan s)
  unfolding apply_channel_mode
  apply_channel_mode-Keeps u params p c chan s =
      search (kept, change_channel-Keeps, user_mode-Keeps)

  change_mode-Keeps :
      (u : ℕ) (params : List Text) (p : Person) (c : ℕ) (chan : Channel) (s : Server)
      → Keeps V s (change_mode u params p c chan s)
  unfolding change_mode
  change_mode-Keeps u params p c chan s = search (kept, apply_channel_mode-Keeps)

  channel_mode-Keeps :
      (u : ℕ) (params : List Text) (p : Person) (c : Option ℕ) (s : Server)
      → Keeps V s (channel_mode u params p c s)
  unfolding channel_mode
  channel_mode-Keeps u params p none s = search (kept)
  channel_mode-Keeps u params p (some c) s = search (kept, change_mode-Keeps)

  pub chirc_handle_mode-Keeps :
      (u : ℕ) (params : List Text) (s : Server) → Keeps V s (chirc_handle_mode u params s)
  unfolding chirc_handle_mode
  chirc_handle_mode-Keeps u params s =
      search (kept, member_mode-Keeps, channel_mode-Keeps, user_mode-Keeps)

  pub chirc_handle_oper-Keeps :
      (u : ℕ) (params : List Text) (s : Server) → Keeps V s (chirc_handle_oper u params s)
  unfolding chirc_handle_oper make_oper
  chirc_handle_oper-Keeps u params s =
      if-Keeps V s (text_eq (param params 2) s.pw) _ _
        (set_user-Keeps v u make_oper s _ (λ q. (refl, refl, refl, refl)) (search (reply_to-Keeps)))
        (search (reply_to-Keeps))
