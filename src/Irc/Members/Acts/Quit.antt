-- ===== src/Irc/Members/Acts/Quit.antt =====
-- src/handlers.c: QUIT against what each user has.
use uchi_networks.Common.{
  ℕ, ◌<◌, ◌≡◌, refl, ap, ap₂, ◌∙◌, subst, true, false, Bool-cases, inl, inr, List, [], ◌∷◌, map,
  some, Returns, bind-Returns, got-Returns, arith, text_eq_refl,
}
use uchi_networks.Irc.Parse.{Text}
use uchi_networks.Irc.Types.{
  MyChan, Person, Server, at, remove_at, update_at, seek_channel, set_user, send_text, iterated,
  set_iterating,
}
use uchi_networks.Irc.Utils.{user_exit, sendtochannel, send_each, sendtoallchans}
use uchi_networks.Irc.Handlers.Register.{chirc_handle_quit}
use uchi_networks.Irc.Members.{
  my_name, names_in, named_count, rooms, counts, has, users_of, IsConsistent,
}
use uchi_networks.Irc.Members.Counts.{members-remove}
use uchi_networks.Irc.Members.Channels.{seek-at, seek-users}
use uchi_networks.Irc.Members.Views.{at-map, at-of_map, seek_channel-seek}
use uchi_networks.Irc.Members.Kept.Names.{places, places-IsUnwalked}
use uchi_networks.Irc.Members.Kept.{Same}
use uchi_networks.Irc.Members.Handlers.{Meets, Meets-Same, user_exit-Returns}
use uchi_networks.Irc.Members.Acts.{at-update_at}

-- Only `sent` differs.
abbrev SameLists : Server → Server → Type 0
SameLists s t = (t.userlist ≡ s.userlist) × (t.chanlist ≡ s.chanlist)

-- The loop of sendtoallchans, if the server has the channels.
send_each-Returns :
    (msg nick : Text) (ms : List MyChan) (s t : Server)
    → IsConsistent s
    → SameLists s t
    → ((c : Text) → has (map my_name ms) c ≡ true → 0 < users_of c (counts s))
    → Returns (SameLists s) (send_each msg nick ms t)
unfolding send_each sendtochannel has
send_each-Returns msg nick [] s t h l k = l
send_each-Returns msg nick (m ∷ ms) s t h l k =
    let found = seek-users m.name (counts s) h.listed (k m.name (rw (text_eq_refl m.name) refl)) in
    let chan =
      at-of_map named_count s.chanlist found.0 _ (seek-at m.name (counts s) found.0 found.1) in
    got-Returns (SameLists s) (seek_channel m.name t.chanlist) found.0 _
      (ap (seek_channel m.name) l.1 ∙ seek_channel-seek m.name s.chanlist ∙ found.1)
      (got-Returns (SameLists s) (at t.chanlist found.0) chan.0 _
        (ap (λ cs. at cs found.0) l.1 ∙ chan.1)
        (send_each-Returns msg nick ms s (sendtochannel (chan.0).name msg (some nick) t) h l
          (λ c e. k c (ground (arith, e)))))

module _ (u : ℕ) (p : Person) (s : Server) (e : at s.userlist u ≡ some p) (h : IsConsistent s) where
  -- The same lists, with the iterator of the user stopped.
  abbrev stopped : Server
  stopped = set_user u (set_iterating false) s

  sends_each : (msg : Text) → Returns (SameLists s) (send_each msg p.nick (iterated p) s)
  unfolding iterated send_each
  sends_each msg = elim (Bool-cases p.iterating) [
    | inl t ↦ rw t (refl, refl)
    | inr t ↦ rw t (
        send_each-Returns msg p.nick p.my_chans s s h (refl, refl)
          (λ c t. ground (
            arith,
            h.counted c,
            members-remove (rooms s) u (names_in p) c (at-map names_in s.userlist u p e),
            t,
          )))
  ]

  sendtoallchans-Returns : (msg : Text) → Returns (SameLists stopped) (sendtoallchans u msg s)
  unfolding sendtoallchans set_user
  sendtoallchans-Returns msg = got-Returns (SameLists stopped) (at s.userlist u) p _ e (
      bind-Returns (SameLists s) (SameLists stopped) (send_each msg p.nick (iterated p) s) _
        (sends_each msg) (λ t l. (ap (update_at u (set_iterating false)) l.0, l.1)))

  -- The end of a user after some sends.
  exit_after :
      (t : Server) → SameLists stopped t → Returns (Meets (remove_at u (rooms s))) (user_exit u t)
  unfolding set_user set_iterating
  exit_after t l =
      let same : Same places s t =
        ap₂ (λ us cs. (map names_in us, map named_count cs)) l.0 l.1
        ∙ places-IsUnwalked u false s in
      subst (λ rs. Returns (Meets rs) (user_exit u t)) (ap (λ x. remove_at u x.0) same)
        (user_exit-Returns u (set_iterating false p) t
          (ap (λ us. at us u) l.0 ∙ at-update_at (set_iterating false) s.userlist u p e) refl
          (Meets-Same (rooms s) s t (h, refl) same).0)

  -- If every channel that a user has is on the server's list, once, under a name that is not empty
  -- and with the number of its users, no other channel is, and there are fewer than 2^32 users: then
  -- QUIT never faults, also if a WHOIS has left an iterator over the user's channels. The user is gone
  -- afterwards, the others have the channels that they had, and the numbers are right again.
  pub chirc_handle_quit-Returns :
      (msg : List Text) → Returns (Meets (remove_at u (rooms s))) (chirc_handle_quit u msg s)
  unfolding chirc_handle_quit send_text
  chirc_handle_quit-Returns msg =
      got-Returns (Meets (remove_at u (rooms s))) (at s.userlist u) p _ e (
        bind-Returns (SameLists stopped) (Meets (remove_at u (rooms s))) (sendtoallchans u _ s) _
          (sendtoallchans-Returns _) (λ t l. exit_after (send_text p.client_socket _ t) l))
