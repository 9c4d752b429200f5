-- ===== src/Irc/Handlers/Register.antt =====
-- src/handlers.c: NICK, USER and QUIT; utils.c: do_registration; server.c: the new client.
use Prim.Native.Nat.{◌%◌}
use uchi_networks.Common.{
  ℕ, ◌+◌, if◌then◌else◌, false, List, [], ◌∷◌, ◌++◌, Option, none, some, drop, ◌>>=◌,
}
use uchi_networks.Irc.Parse.{Text}
use uchi_networks.Irc.Strings.{codes, is_empty}
use uchi_networks.Irc.Types.{Person, Server, at, seek_nick, param, set_user, send_text}
use uchi_networks.Irc.Reply.{
  hostmask, rpl_welcome, rpl_yourhost, rpl_created, rpl_myinfo, err_nicknameinuse,
  err_alreadyregistred,
}
use uchi_networks.Irc.Utils.{sendtoallchans, reply_to, user_exit}
use uchi_networks.Irc.Handlers.Info.{
  is_registered, short_line, chirc_handle_lusers, chirc_handle_motd,
}

-- A client that has connected. `away` is not initialised, and not read before AWAY writes it.
unfoldable pub add_client : (socket : ℕ) → (address : Text) → Server → Server
add_client socket address s = record s {
  userlist =
      s.userlist
      ++ (record {
        client_socket = socket;
        nick = [];
        user = [];
        fullname = [];
        address = address;
        mode = [];
        away = [];
        my_chans = [];
        iterating = false;
      }
          ∷ []);
}

unfoldable pub count_registered : Server → Server
count_registered s = record s { numregistered = (s.numregistered + 1) % 4294967296 }

unfoldable pub do_registration : ℕ → Server → Option Server
do_registration u s = reply_to u rpl_welcome [] [] (count_registered s) >>= λ s1.
    reply_to u rpl_yourhost [] [] s1 >>= λ s2. reply_to u rpl_created [] [] s2 >>= λ s3.
    reply_to u rpl_myinfo [] [] s3 >>= λ s4.
    chirc_handle_lusers u s4 >>= λ s5. chirc_handle_motd u s5

unfoldable pub set_nick : Text → Person → Person
set_nick newnick p = record p { nick = newnick }

-- The new name is told under the old one.
unfoldable pub change_nick : ℕ → Text → Person → Server → Option Server
change_nick u newnick p s =
    let line = short_line (codes ":" ++ hostmask (p.nick) p ++ codes " NICK :" ++ newnick) in
    sendtoallchans u line (send_text p.client_socket line s) >>= λ s1.
    some (set_user u (set_nick newnick) s1)

unfoldable pub first_nick : ℕ → Text → Person → Server → Option Server
first_nick u newnick p s =
    let named = set_user u (set_nick newnick) s in
    if is_empty (p.user) then some named else do_registration u named

unfoldable pub take_nick : ℕ → Text → Person → Option ℕ → Server → Option Server
take_nick u newnick p (some other) s = reply_to u err_nicknameinuse [] newnick s
take_nick u newnick p none s =
    if is_empty (p.nick) then first_nick u newnick p s else change_nick u newnick p s

unfoldable pub chirc_handle_nick : ℕ → List Text → Server → Option Server
chirc_handle_nick u msg s =
    at (s.userlist) u >>= λ p. take_nick u (param msg 1) p (seek_nick (param msg 1) (s.userlist)) s

unfoldable pub set_names : (username fullname : Text) → Person → Person
set_names username fullname p = record p { user = username; fullname = fullname }

-- The full name loses its first character.
unfoldable pub take_names : ℕ → List Text → Person → Server → Option Server
take_names u msg p s =
    let named = set_user u (set_names (param msg 1) (drop 1 (param msg 4))) s in
    if is_empty (p.nick) then some named else do_registration u named

unfoldable pub chirc_handle_user : ℕ → List Text → Server → Option Server
chirc_handle_user u msg s = at (s.userlist) u >>= λ p.
    if is_registered p then reply_to u err_alreadyregistred [] [] s else take_names u msg p s

unfoldable pub quit_message : List Text → Text
quit_message msg = if is_empty (param msg 1) then codes ":Client Quit" else param msg 1

unfoldable pub chirc_handle_quit : ℕ → List Text → Server → Option Server
chirc_handle_quit u msg s =
    let quitmsg = quit_message msg in
    at (s.userlist) u >>= λ p.
    sendtoallchans u (short_line (codes ":" ++ hostmask (p.nick) p ++ codes " QUIT " ++ quitmsg)) s
    >>= λ s1.
        let line = short_line (
          codes "ERROR :Closing Link: "
          ++ (p.address)
          ++ codes " ("
          ++ drop 1 quitmsg
          ++ codes ")") in
        user_exit u (send_text p.client_socket line s1)
