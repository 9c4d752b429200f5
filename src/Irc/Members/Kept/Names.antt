-- ===== src/Irc/Members/Kept/Names.antt =====
-- src: NICK and USER leave the channels with their users.
use uchi_networks.Common.{ℕ, List, ◌≡◌, ap, Option, none, some, refl, drop}
use uchi_networks.Irc.Parse.{Text}
use uchi_networks.Irc.Types.{Person, Server, param, set_user, set_channel, send_text, set_iterating}
use uchi_networks.Irc.Handlers.Register.{
  count_registered, do_registration, set_nick, change_nick, first_nick, take_nick,
  chirc_handle_nick, set_names, take_names, chirc_handle_user,
}
use uchi_networks.Irc.Members.{names_in, named_count, rooms, counts}
use uchi_networks.Irc.Members.Views.{update_at-same}
use uchi_networks.Irc.Members.Kept.Register.{chirc_handle_lusers-Keeps, chirc_handle_motd-Keeps}
use uchi_networks.Irc.Members.Kept.{
  IsView, IsUnwalked, Same, Keeps, call-Keeps, same-Keeps, from-Keeps, bind-Keeps,
  sendtoallchans-Keeps, send_text-Same, kept,
}

-- Who is on which channel, and the numbers that the channels keep.
abbrev pub places : Server → List (List Text) × List (Text × ℕ)
places s = (rooms s, counts s)

pub places-IsView : IsView places
unfolding set_user set_channel
places-IsView = record {
  sends = λ s l. refl;
  user =
      λ u f s h. ap (λ rs. (rs, counts s)) (update_at-same names_in f s.userlist u (λ p. (h p).0));
  channel = λ c f s h. ap (λ ks. (rooms s, ks)) (update_at-same named_count f s.chanlist c h);
}

pub places-IsUnwalked : IsUnwalked places
unfolding set_user set_iterating
places-IsUnwalked u b s =
    ap (λ rs. (rs, counts s)) (update_at-same names_in (set_iterating b) s.userlist u (λ p. refl))

-- A change of a user, and what follows it.
put-Keeps :
    (u : ℕ) (f : Person → Person) (s : Server) (m : Option Server)
    → ((p : Person) → names_in (f p) ≡ names_in p)
    → Keeps places (set_user u f s) m
    → Keeps places s m
unfolding set_user
put-Keeps u f s m h k =
    from-Keeps places s (set_user u f s) m
      (ap (λ rs. (rs, counts s)) (update_at-same names_in f s.userlist u h)) k

count_registered-Same : (s : Server) → Same places s (count_registered s)
unfolding count_registered
count_registered-Same s = refl

do_registration-Keeps : (u : ℕ) (s : Server) → Keeps places s (do_registration u s)
unfolding do_registration
do_registration-Keeps u s =
    from-Keeps places s (count_registered s) _ (count_registered-Same s)
      (search (kept, chirc_handle_lusers-Keeps, chirc_handle_motd-Keeps, places-IsView) depth 9)

first_nick-Keeps :
    (u : ℕ) (newnick : Text) (p : Person) (s : Server) → Keeps places s (first_nick u newnick p s)
unfolding first_nick set_nick
first_nick-Keeps u newnick p s =
    put-Keeps u (set_nick newnick) s _ (λ q. refl) (search (kept, do_registration-Keeps))

change_nick-Keeps :
    (u : ℕ) (newnick : Text) (p : Person) (s : Server) → Keeps places s (change_nick u newnick p s)
unfolding change_nick set_nick
change_nick-Keeps u newnick p s =
    from-Keeps places s (send_text p.client_socket _ s) _
      (send_text-Same places-IsView p.client_socket _ s)
      (bind-Keeps places _ _ _ (sendtoallchans-Keeps places-IsView places-IsUnwalked u _ _)
        (λ t. put-Keeps u (set_nick newnick) t _ (λ q. refl) (same-Keeps places _)))

take_nick-Keeps :
    (u : ℕ) (newnick : Text) (p : Person) (o : Option ℕ) (s : Server)
    → Keeps places s (take_nick u newnick p o s)
unfolding take_nick
take_nick-Keeps u newnick p none s = search (kept, first_nick-Keeps, change_nick-Keeps)
take_nick-Keeps u newnick p (some i) s = search (kept, places-IsView)

pub chirc_handle_nick-Keeps :
    (u : ℕ) (msg : List Text) (s : Server) → Keeps places s (chirc_handle_nick u msg s)
unfolding chirc_handle_nick
chirc_handle_nick-Keeps u msg s = search (call-Keeps, take_nick-Keeps)

take_names-Keeps :
    (u : ℕ) (msg : List Text) (p : Person) (s : Server) → Keeps places s (take_names u msg p s)
unfolding take_names set_names
take_names-Keeps u msg p s =
    put-Keeps u (set_names (param msg 1) (drop 1 (param msg 4))) s _ (λ q. refl)
      (search (kept, do_registration-Keeps))

pub chirc_handle_user-Keeps :
    (u : ℕ) (msg : List Text) (s : Server) → Keeps places s (chirc_handle_user u msg s)
unfolding chirc_handle_user
chirc_handle_user-Keeps u msg s = search (kept, take_names-Keeps, places-IsView)
