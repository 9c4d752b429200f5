-- ===== src/Irc/Members/Kept/Register.antt =====
-- src: the handlers that leave the channels with their users: registration, and what is asked of
-- the server.
use uchi_networks.Common.{ℕ, List, [], ◌∷◌, Option, none, some}
use uchi_networks.Irc.Parse.{Text}
use uchi_networks.Irc.Types.{Person, Server, set_user}
use uchi_networks.Irc.Reply.{Reply}
use uchi_networks.Irc.Handlers.Info.{
  if_registered, tell_number, tell_unknown, chirc_handle_lusers, tell_lines, tell_motd,
  chirc_handle_motd, chirc_handle_ping, chirc_handle_unknown,
}
use uchi_networks.Irc.Members.Kept.{
  IsView, SamePerson, Keeps, same-Keeps, some-Keeps, from-Keeps, reply_to-Keeps, send_text-Same,
  set_user-Same, kept,
}

module _ {X : Type 0} {V : Server → X} (v : IsView V) where
  pub if_registered-Keeps :
      (u : ℕ) (go : Person → Server → Option Server) (s : Server)
      → ((p : Person) (t : Server) → Keeps V t (go p t))
      → Keeps V s (if_registered u go s)
  unfolding if_registered
  if_registered-Keeps u go s h = search (kept)

  tell_number-Keeps :
      (u : ℕ) (code : Reply) (n : ℕ) (s : Server) → Keeps V s (tell_number u code n s)
  unfolding tell_number
  tell_number-Keeps u code n s = search (kept)

  tell_unknown-Keeps : (u userme known : ℕ) (s : Server) → Keeps V s (tell_unknown u userme known s)
  unfolding tell_unknown
  tell_unknown-Keeps u userme known s = search (kept, tell_number-Keeps)

  pub chirc_handle_lusers-Keeps : (u : ℕ) (s : Server) → Keeps V s (chirc_handle_lusers u s)
  unfolding chirc_handle_lusers
  chirc_handle_lusers-Keeps u s =
      search (kept, if_registered-Keeps, tell_number-Keeps, tell_unknown-Keeps) depth 9

  tell_lines-Keeps :
      (u : ℕ) (code : Reply) (ts : List Text) (s : Server) → Keeps V s (tell_lines u code ts s)
  unfolding tell_lines
  tell_lines-Keeps u code [] s = same-Keeps V s
  tell_lines-Keeps u code (t ∷ ts) s = search (kept, tell_lines-Keeps u code ts)

  tell_motd-Keeps : (u : ℕ) (file : Option Text) (s : Server) → Keeps V s (tell_motd u file s)
  unfolding tell_motd
  tell_motd-Keeps u none s = search (kept)
  tell_motd-Keeps u (some file) s = search (kept, tell_lines-Keeps)

  pub chirc_handle_motd-Keeps : (u : ℕ) (s : Server) → Keeps V s (chirc_handle_motd u s)
  unfolding chirc_handle_motd
  chirc_handle_motd-Keeps u s = search (if_registered-Keeps, tell_motd-Keeps)

  pub chirc_handle_ping-Keeps : (u : ℕ) (s : Server) → Keeps V s (chirc_handle_ping u s)
  unfolding chirc_handle_ping
  chirc_handle_ping-Keeps u s = search (if_registered-Keeps, some-Keeps, send_text-Same)

  pub chirc_handle_unknown-Keeps :
      (u : ℕ) (command : Text) (s : Server) → Keeps V s (chirc_handle_unknown u command s)
  unfolding chirc_handle_unknown
  chirc_handle_unknown-Keeps u command s = search (reply_to-Keeps)

  -- A change of a user, and what follows it.
  pub set_user-Keeps :
      (u : ℕ) (f : Person → Person) (s : Server) (m : Option Server)
      → ((p : Person) → SamePerson p (f p))
      → Keeps V (set_user u f s) m
      → Keeps V s m
  set_user-Keeps u f s m h k = from-Keeps V s (set_user u f s) m (set_user-Same v u f s h) k
