-- ===== src/Irc/Handlers/Dispatch.antt =====
-- src/handlers.c: handle_chirc_message; parser.c: the end of parse.
use uchi_networks.Common.{
  ℕ, ◌==◌, if◌then◌else◌, List, Option, none, some, length, text_eq, [], ◌∷◌, ◌>>=◌,
}
use uchi_networks.Irc.Parse.{Text, parse}
use uchi_networks.Irc.Strings.{codes}
use uchi_networks.Irc.Types.{Person, Server, find_at, param}
use uchi_networks.Irc.Handlers.Info.{
  chirc_handle_lusers, chirc_handle_motd, chirc_handle_ping, chirc_handle_unknown,
}
use uchi_networks.Irc.Handlers.Register.{
  add_client, chirc_handle_nick, chirc_handle_user, chirc_handle_quit,
}
use uchi_networks.Irc.Handlers.Talk.{chirc_handle_privmsg, chirc_handle_notice, chirc_handle_away}
use uchi_networks.Irc.Handlers.Rooms.{chirc_handle_join, chirc_handle_part, chirc_handle_topic}
use uchi_networks.Irc.Handlers.Modes.{chirc_handle_mode, chirc_handle_oper}
use uchi_networks.Irc.Handlers.Queries.{
  chirc_handle_whois, chirc_handle_list, chirc_handle_names, chirc_handle_who,
}

unfoldable pub handle_chirc_message : ℕ → List Text → Server → Option Server
handle_chirc_message u params s =
    let command = param params 0 in
    if text_eq command (codes "NICK")
    then chirc_handle_nick u params s
    else if text_eq command (codes "USER")
    then chirc_handle_user u params s
    else if text_eq command (codes "QUIT")
    then chirc_handle_quit u params s
    else if text_eq command (codes "PRIVMSG")
    then chirc_handle_privmsg u params s
    else if text_eq command (codes "NOTICE")
    then chirc_handle_notice u params s
    else if text_eq command (codes "WHOIS")
    then chirc_handle_whois u params s
    else if text_eq command (codes "PING")
    then chirc_handle_ping u s
    else if text_eq command (codes "PONG")
    then some s
    else if text_eq command (codes "LUSERS")
    then chirc_handle_lusers u s
    else if text_eq command (codes "MOTD")
    then chirc_handle_motd u s
    else if text_eq command (codes "JOIN")
    then chirc_handle_join u params s
    else if text_eq command (codes "AWAY")
    then chirc_handle_away u params s
    else if text_eq command (codes "PART")
    then chirc_handle_part u params s
    else if text_eq command (codes "TOPIC")
    then chirc_handle_topic u params s
    else if text_eq command (codes "NAMES")
    then chirc_handle_names u params s
    else if text_eq command (codes "MODE")
    then chirc_handle_mode u params s
    else if text_eq command (codes "OPER")
    then chirc_handle_oper u params s
    else if text_eq command (codes "LIST")
    then chirc_handle_list u params s
    else if text_eq command (codes "WHO")
    then chirc_handle_who u params s
    else chirc_handle_unknown u command s

-- The place of the user whose socket this is, and the place behind the last one for NULL.
unfoldable pub client_of : ℕ → List Person → ℕ
client_of socket us = elim (find_at (λ p. p.client_socket == socket) us) [
  | none ↦ length us
  | some u ↦ u
]

-- A message of the client at this socket.
unfoldable pub receive : (socket : ℕ) → (msg : Text) → Server → Option Server
receive socket msg s =
    parse msg >>= λ params. handle_chirc_message (client_of socket (s.userlist)) params s

-- What happens to the server: a client connects, or the user at a place sends a message.
pub data Event : Type 0 where
  connects : (socket : ℕ) → (address : Text) → Event
  sends : (u : ℕ) → (params : List Text) → Event

unfoldable pub handle : Event → Server → Option Server
handle (connects socket address) s = some (add_client socket address s)
handle (sends u params) s = handle_chirc_message u params s

unfoldable pub handle_all : List Event → Server → Option Server
handle_all [] s = some s
handle_all (e ∷ es) s = handle e s >>= λ t. handle_all es t
