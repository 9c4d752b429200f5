-- ===== src/Irc/Known/Names.antt =====
-- src/handlers.c: NICK, USER and QUIT against the names of the users.
use uchi_networks.Common.{
  ℕ, suc, ◌≡◌, refl, sym, ap, ◌∙◌, subst, Bool, true, false, not, ◌&&◌, if◌then◌else◌, List, [],
  ◌∷◌, map, Option, none, some, ◌>>=◌, drop, Ensures, bind-Ensures, map-Ensures, then-Ensures,
  got-Ensures, text_eq,
}
use uchi_networks.Irc.Parse.{Text}
use uchi_networks.Irc.Strings.{is_empty}
use uchi_networks.Irc.Types.{
  Person, Server, at, update_at, remove_at, find_at, fun_seek, seek_nick, param, set_user,
  send_text, iterated,
}
use uchi_networks.Irc.Reply.{err_nicknameinuse, err_alreadyregistred}
use uchi_networks.Irc.Utils.{reply_to, sendtoallchans, leave_each, user_exit}
use uchi_networks.Irc.Handlers.Info.{is_registered}
use uchi_networks.Irc.Handlers.Register.{
  count_registered, do_registration, set_nick, change_nick, first_nick, take_nick,
  chirc_handle_nick, set_names, take_names, chirc_handle_user, chirc_handle_quit,
}
use uchi_networks.Irc.Members.Views.{at-map, map-update_at, map-remove_at, one_more, one_less}
use uchi_networks.Irc.Members.Kept.{
  Same, Keeps, from-Keeps, reply_to-Keeps, sendtoallchans-Keeps, send_text-Same, kept,
}
use uchi_networks.Irc.Members.Kept.Register.{chirc_handle_lusers-Keeps, chirc_handle_motd-Keeps}
use uchi_networks.Irc.Known.{
  both_names, Roll, roll, roll-IsView, roll-IsUnwalked, taken, count_if, renamed, introduced,
}

-- What is roll is this.
abbrev pub Knows : Roll → Server → Type 0
Knows k t = roll t ≡ k

pub Keeps-Knows :
    (k : Roll) (s : Server) (m : Option Server) → Knows k s → Keeps roll s m → Ensures (Knows k) m
unfolding Keeps
Keeps-Knows k s m h e = map-Ensures (Same roll s) (Knows k) m (λ t q. q ∙ h) e

abbrev is_some : Option ℕ → Bool
is_some none = false
is_some (some i) = true

found_some :
    (b : Bool) (o : Option ℕ)
    → (if b then true else is_some o) ≡ is_some (if b then some 0 else (o >>= λ i. some (suc i)))
found_some true o = refl
found_some false none = refl
found_some false (some i) = refl

seek_nick-taken :
    (n : Text) (us : List Person) → taken n (map both_names us) ≡ is_some (seek_nick n us)
unfolding seek_nick find_at fun_seek taken
seek_nick-taken n [] = refl
seek_nick-taken n (p ∷ ps) =
    ap (λ b. if not (is_empty n) && text_eq p.nick n then true else b) (seek_nick-taken n ps)
    ∙ found_some (not (is_empty n) && text_eq p.nick n) _

-- do_registration counts the user.
do_registration-Knows :
    (u : ℕ) (s : Server)
    → Ensures (Knows (map both_names s.userlist, one_more s.numregistered)) (do_registration u s)
unfolding do_registration count_registered
do_registration-Knows u s =
    Keeps-Knows _ (count_registered s) _ refl
      (search (kept, chirc_handle_lusers-Keeps, chirc_handle_motd-Keeps, roll-IsView) depth 9)

set_nick-names :
    (u : ℕ) (nick : Text) (s : Server)
    → roll (set_user u (set_nick nick) s)
      ≡ (update_at u (λ y. (nick, y.1)) (map both_names s.userlist), s.numregistered)
unfolding set_user set_nick
set_nick-names u nick s =
    ap (λ l. (l, s.numregistered))
      (map-update_at both_names (set_nick nick) (λ y. (nick, y.1)) s.userlist u (λ p. refl))

-- A user who may be registered by a change of the names.
registered_by :
    (b : Bool) (u : ℕ) (k : List (Text × Text)) (n : ℕ) (s : Server)
    → Knows (k, n) s
    → Ensures (Knows (k, count_if (not b) n)) (if b then some s else do_registration u s)
unfolding count_if
registered_by true u k n s h = h
registered_by false u k n s h =
    subst (λ x. Ensures (Knows (x.0, one_more x.1)) (do_registration u s)) h
      (do_registration-Knows u s)

module _ (u : ℕ) (nick : Text) (p : Person) (s : Server) where
  abbrev renamed_list : List (Text × Text)
  renamed_list = update_at u (λ y. (nick, y.1)) (map both_names s.userlist)

  first_nick-Knows :
      Ensures
        (Knows (renamed_list, count_if (not (is_empty p.user)) s.numregistered))
        (first_nick u nick p s)
  unfolding first_nick
  first_nick-Knows =
      registered_by (is_empty p.user) u renamed_list s.numregistered (set_user u (set_nick nick) s)
        (set_nick-names u nick s)

  resent : (line : Text) → Keeps roll s (sendtoallchans u line (send_text p.client_socket line s))
  resent line =
      from-Keeps roll s (send_text p.client_socket line s) _
        (send_text-Same roll-IsView p.client_socket line s)
        (sendtoallchans-Keeps roll-IsView roll-IsUnwalked u line _)

  change_nick-Knows : Ensures (Knows (renamed_list, s.numregistered)) (change_nick u nick p s)
  unfolding change_nick Keeps
  change_nick-Knows =
      bind-Ensures (Same roll s) (Knows (renamed_list, s.numregistered)) _ _ (resent _)
        (λ t e. set_nick-names u nick t ∙ ap (λ x. (update_at u (λ y. (nick, y.1)) x.0, x.1)) e)

  pick_nick :
      (b : Bool)
      → Ensures
          (Knows (renamed_list, count_if (b && not (is_empty p.user)) s.numregistered))
          (if b then first_nick u nick p s else change_nick u nick p s)
  unfolding count_if
  pick_nick true = first_nick-Knows
  pick_nick false = change_nick-Knows

  -- What take_nick makes of the names.
  abbrev retaken : Bool → Roll
  retaken b = if b then roll s else renamed u nick (roll s) (some (both_names p))

  take_nick-Knows :
      (o : Option ℕ)
      → seek_nick nick s.userlist ≡ o
      → Ensures (Knows (retaken (taken nick (map both_names s.userlist)))) (take_nick u nick p o s)
  unfolding take_nick renamed
  take_nick-Knows (some i) e =
      subst (λ b. Ensures (Knows (retaken b)) (reply_to u err_nicknameinuse [] nick s))
        (sym (seek_nick-taken nick s.userlist ∙ ap is_some e))
        (Keeps-Knows (roll s) s _ refl (reply_to-Keeps roll-IsView u _ _ _ s))
  take_nick-Knows none e =
      subst
        (λ b.
          Ensures (Knows (retaken b))
            (if is_empty p.nick then first_nick u nick p s else change_nick u nick p s))
        (sym (seek_nick-taken nick s.userlist ∙ ap is_some e)) (pick_nick (is_empty p.nick))

module _ (u : ℕ) (msg : List Text) (s : Server) where
  pub chirc_handle_nick-Knows :
      Ensures
        (Knows (
          if taken (param msg 1) (roll s).0
          then roll s
          else renamed u (param msg 1) (roll s) (at (roll s).0 u)))
        (chirc_handle_nick u msg s)
  unfolding chirc_handle_nick
  chirc_handle_nick-Knows = got-Ensures _ (at s.userlist u) _ (λ p e.
      subst
        (λ o.
          Ensures
            (Knows (
              if taken (param msg 1) (roll s).0
              then roll s
              else renamed u (param msg 1) (roll s) o))
            (take_nick u (param msg 1) p (seek_nick (param msg 1) s.userlist) s))
        (sym (at-map both_names s.userlist u p e))
        (take_nick-Knows u (param msg 1) p s (seek_nick (param msg 1) s.userlist) refl))

  set_names-names :
      roll (set_user u (set_names (param msg 1) (drop 1 (param msg 4))) s)
      ≡ (update_at u (λ y. (y.0, param msg 1)) (map both_names s.userlist), s.numregistered)
  unfolding set_user set_names
  set_names-names =
      ap (λ l. (l, s.numregistered))
        (map-update_at both_names (set_names (param msg 1) (drop 1 (param msg 4)))
          (λ y. (y.0, param msg 1)) s.userlist u (λ p. refl))

  named_by :
      (p : Person) (b : Bool)
      → Ensures
          (Knows (
            if b then roll s else (
              update_at u (λ y. (y.0, param msg 1)) (map both_names s.userlist),
              count_if (not (is_empty p.nick)) s.numregistered,
            )))
          (if b then reply_to u err_alreadyregistred [] [] s else take_names u msg p s)
  unfolding take_names
  named_by p true = Keeps-Knows (roll s) s _ refl (reply_to-Keeps roll-IsView u _ _ _ s)
  named_by p false = registered_by (is_empty p.nick) u _ s.numregistered _ set_names-names

  pub chirc_handle_user-Knows :
      Ensures
        (Knows (introduced u (param msg 1) (roll s) (at (roll s).0 u)))
        (chirc_handle_user u msg s)
  unfolding chirc_handle_user introduced is_registered
  chirc_handle_user-Knows = got-Ensures _ (at s.userlist u) _ (λ p e.
      subst
        (λ o. Ensures (Knows (introduced u (param msg 1) (roll s) o)) (
          if is_registered p
          then reply_to u err_alreadyregistred [] [] s
          else take_names u msg p s))
        (sym (at-map both_names s.userlist u p e)) (named_by p (is_registered p)))

  user_exit-Knows :
      (t : Server)
      → Same roll s t
      → Ensures (Knows (remove_at u (roll s).0, one_less (roll s).1)) (user_exit u t)
  unfolding user_exit
  user_exit-Knows t e = then-Ensures _ (at t.userlist u) _ (λ p.
      then-Ensures _ (leave_each (iterated p) t.chanlist) _ (λ cs.
        ap (λ l. (l, one_less t.numregistered)) (map-remove_at both_names t.userlist u)
        ∙ ap (λ x. (remove_at u x.0, one_less x.1)) e))

  pub chirc_handle_quit-Knows :
      Ensures (Knows (remove_at u (roll s).0, one_less (roll s).1)) (chirc_handle_quit u msg s)
  unfolding chirc_handle_quit Keeps
  chirc_handle_quit-Knows = then-Ensures _ (at s.userlist u) _ (λ p.
      bind-Ensures (Same roll s) _ (sendtoallchans u _ s) _
        (sendtoallchans-Keeps roll-IsView roll-IsUnwalked u _ s)
        (λ t e. user_exit-Knows _ (send_text-Same roll-IsView p.client_socket _ t ∙ e)))
