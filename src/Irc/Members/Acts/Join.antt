-- ===== src/Irc/Members/Acts/Join.antt =====
-- src/channel.c: channel_join against what each user has.
use uchi_networks.Common.{
  ℕ, ◌≡◌, refl, sym, ◌∙◌, subst, Bool, true, false, if◌then◌else◌, List, Option, none, some,
  Ensures, then-Ensures, got-Ensures, if-known, arith,
}
use uchi_networks.Irc.Parse.{Text}
use uchi_networks.Irc.Strings.{is_empty}
use uchi_networks.Irc.Types.{Person, Server, at, update_at, seek_channel, list_contains}
use uchi_networks.Irc.Channel.{Opened, open_channel, enter, announce, channel_join}
use uchi_networks.Irc.Members.{names_in, rooms, counts, has, IsConsistent}
use uchi_networks.Irc.Members.Counts.{add_to, members-remove}
use uchi_networks.Irc.Members.Channels.{seek, seek_misses, users_of-new}
use uchi_networks.Irc.Members.Views.{at-map, seek_channel-seek, list_contains-has}
use uchi_networks.Irc.Members.Kept.Names.{places-IsView}
use uchi_networks.Irc.Members.Kept.Talk.{announce-Keeps}
use uchi_networks.Irc.Members.Handlers.{Meets, Keeps-Meets, enter-Meets}
use uchi_networks.Irc.Members.Acts.{IsIdle, update_at-known, update_at-id}

-- What JOIN does to a user's channels.
unfoldable pub joined : Text → List Text → List Text
joined c ns = if has ns c then ns else add_to c ns

module _ (rs : List (List Text)) (u : ℕ) (ns : List Text) (c : Text) (e : at rs u ≡ some ns) where
  joined-member : has ns c ≡ true → update_at u (joined c) rs ≡ rs
  unfolding joined
  joined-member k =
      update_at-known (joined c) rs u ns ns e (rw k refl) (λ x. x) refl ∙ update_at-id rs u

  joined-guest : has ns c ≡ false → update_at u (joined c) rs ≡ update_at u (add_to c) rs
  unfolding joined
  joined-guest k = update_at-known (joined c) rs u ns (add_to c ns) e (rw k refl) (add_to c) refl

-- A channel that a user has is found.
member_found :
    (u : ℕ) (c : Text) (ns : List Text) (s : Server) (o : Option ℕ)
    → IsConsistent s
    → at (rooms s) u ≡ some ns
    → has ns c ≡ true
    → is_empty c ≡ false
    → seek c (counts s) ≡ o
    → Meets (rooms s) (record s { chanlist = (open_channel c s.chanlist o).channels })
unfolding open_channel
member_found u c ns s (some i) h e k n f = (h, refl)
member_found u c ns s none h e k n f = absurd (
    ground (
      arith,
      h.counted c,
      users_of-new c (counts s) (seek_misses c (counts s) n f),
      members-remove (rooms s) u ns c e,
      k,
    ))

module _ (u : ℕ) (c : Text) (s : Server) (h : IsConsistent s) (n : is_empty c ≡ false)
    (i : IsIdle u s) where
  abbrev opened : Opened
  opened = open_channel c s.chanlist (seek_channel c s.chanlist)

  -- The server of a user who was on the channel already.
  abbrev seen : Server
  seen = record s { chanlist = opened.channels }

  module _ (p : Person) (e : at s.userlist u ≡ some p) where
    its_rooms : at (rooms s) u ≡ some (names_in p)
    its_rooms = at-map names_in s.userlist u p e

    its_names : (b : Bool) → list_contains p.my_chans c ≡ b → has (names_in p) c ≡ b
    its_names b t = sym (list_contains-has p.my_chans c) ∙ t

    join_again : list_contains p.my_chans c ≡ true → Meets (update_at u (joined c) (rooms s)) seen
    join_again t =
        subst (λ rs. Meets rs seen)
          (sym (joined-member (rooms s) u (names_in p) c its_rooms (its_names true t)))
          (member_found u c (names_in p) s (seek_channel c s.chanlist) h its_rooms
            (its_names true t) n (sym (seek_channel-seek c s.chanlist)))

    join_first :
        list_contains p.my_chans c ≡ false
        → Meets (update_at u (joined c) (rooms s)) (enter u c opened s)
    join_first t =
        subst (λ rs. Meets rs (enter u c opened s))
          (sym (joined-guest (rooms s) u (names_in p) c its_rooms (its_names false t)))
          (enter-Meets u c p s (seek_channel c s.chanlist) (sym (seek_channel-seek c s.chanlist)) e
            (i p e) (its_names false t) n h)

  pub channel_join-Meets : Ensures (Meets (update_at u (joined c) (rooms s))) (channel_join u c s)
  unfolding channel_join
  channel_join-Meets =
      let P = Meets (update_at u (joined c) (rooms s)) in
      got-Ensures P (at s.userlist u) _ (λ p e.
        then-Ensures P (at opened.channels opened.position) _ (λ chan.
          if-known P (list_contains p.my_chans c) (some seen)
            (announce u c chan p (enter u c opened s)) (join_again p e)
            (λ t.
              Keeps-Meets _ (enter u c opened s) _ (join_first p e t)
                (announce-Keeps places-IsView u c chan p _))))
