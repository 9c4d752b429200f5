-- ===== src/Irc/ServerTests.antt =====
-- src: the theorems on the server's handlers at concrete inputs.
use uchi_networks.Common.{
  ℕ, ◌≡◌, refl, List, [], ◌∷◌, ◌++◌, map, none, some, Ensures, Returns, arith, text_eq, keep_if,
  false, all-Ensures,
}
use uchi_networks.Irc.Parse.{Text}
use uchi_networks.Irc.Strings.{codes, is_empty, strchr, snprintf, fits}
use uchi_networks.Irc.Types.{
  MyChan, Channel, Person, Server, remove_at, seek_nick, seek_channel, find_at, fun_seek,
  list_contains, same_name, seek_my_chan, set_user, set_channel, send_text,
}
use uchi_networks.Irc.Handlers.Register.{add_client, chirc_handle_quit}
use uchi_networks.Irc.Handlers.Rooms.{chirc_handle_join}
use uchi_networks.Irc.Handlers.Talk.{relayed, chirc_handle_privmsg}
use uchi_networks.Irc.Handlers.Info.{is_registered}
use uchi_networks.Irc.Channel.{
  long_line, channel_join, open_channel, announce, enter, add_my_chan, tell_topic,
}
use uchi_networks.Irc.Utils.{
  increment, sendtochannel, relay, hears, is_sender, send_names, list_names, strncat_nick, add_name,
  status_marks, reply_to,
}
use uchi_networks.Irc.Reply.{constr_reply, reply_message, shown_nick}
use uchi_networks.Irc.Handlers.Modes.{chirc_handle_mode}
use uchi_networks.Irc.Handlers.Dispatch.{
  Event, connects, sends, handle, handle_all, handle_chirc_message,
}
use uchi_networks.Irc.Members.{rooms, has, members, users_of, IsConsistent}
use uchi_networks.Irc.Members.Handlers.{Meets}
use uchi_networks.Irc.Members.Acts.Quit.{chirc_handle_quit-Returns}
use uchi_networks.Irc.Members.Messages.{act_all, IsFreeRun, handle_all-Meets}
use uchi_networks.Irc.Members.Nameless.{join_quit_faults}
use uchi_networks.Irc.Known.{both_names, roll, taken}
use uchi_networks.Irc.Known.Unique.{IsUnique, handle_all-IsUnique}
use uchi_networks.Irc.Known.Tally.{IsTally, registered, handle_chirc_message-IsTally}
use uchi_networks.Irc.Rights.{statuses, IsPlain, chirc_handle_mode-plain}
use uchi_networks.Irc.Relay.{others, to_all, IsSpeaking, chirc_handle_privmsg-others}

abbrev status : Text → MyChan
status mode = record { name = codes "#c"; mode = mode }

abbrev user_of : ℕ → Text → Text → Person
user_of socket nick mode = record {
  client_socket = socket;
  nick = nick;
  user = codes "u";
  fullname = codes "U";
  address = codes "h";
  mode = [];
  away = [];
  my_chans = status mode ∷ [];
  iterating = false;
}

abbrev alice : Person
alice = user_of 4 (codes "alice") (codes "o")

abbrev bob : Person
bob = user_of 5 (codes "bob") []

abbrev hash_c : Channel
hash_c = record { name = codes "#c"; topic = []; mode = []; numusers = 2 }

-- Two users on a channel.
abbrev two_users : Server
two_users = record {
  pw = codes "pw";
  servername = codes "s";
  version = codes "v";
  birthday = codes "b";
  userlist = alice ∷ bob ∷ [];
  chanlist = hash_c ∷ [];
  numregistered = 2;
  sent = [];
  motd = none;
  stale = λ sent. 0;
}

two_users-IsConsistent : IsConsistent two_users
unfolding users_of members has is_empty
two_users-IsConsistent = record {
  counted = λ c. ground arith;
  listed = ((omega arith, refl, tt), tt);
  once = ((refl, tt), ((refl, tt), tt));
  bounded = omega arith;
}

abbrev some_events : List Event
some_events =
    connects 6 (codes "h")
    ∷ sends 2 (codes "JOIN" ∷ codes "#d" ∷ [])
    ∷ sends 0 (codes "QUIT" ∷ [])
    ∷ []

-- The user who joins is the new one.
some_events-IsFree : IsFreeRun some_events two_users
unfolding IsFreeRun handle add_client
some_events-IsFree = (
  tt,
  (
    ((λ e p f. ground (arith, f)), (λ e. absurd (ground (arith, e)))),
    all-Ensures _ (handle_chirc_message _ _ _) (λ t. (
      ((λ e. absurd (ground (arith, e))), (λ e. absurd (ground (arith, e)))),
      all-Ensures _ (handle_chirc_message _ _ t) (λ r. tt),
    )),
  ),
)

handle_all-Meets_example :
    Ensures (Meets (act_all some_events (rooms two_users))) (handle_all some_events two_users)
unfolding is_empty
handle_all-Meets_example =
    handle_all-Meets some_events two_users (omega arith)
      (tt, ((λ e. refl), ((λ e. ground (arith, e)), tt))) some_events-IsFree two_users-IsConsistent

chirc_handle_quit-Returns_example :
    Returns
      (Meets (remove_at 0 (rooms two_users)))
      (chirc_handle_quit 0 (codes "QUIT" ∷ []) two_users)
chirc_handle_quit-Returns_example =
    chirc_handle_quit-Returns 0 alice two_users refl two_users-IsConsistent (codes "QUIT" ∷ [])

two_users-IsUnique : IsUnique (map both_names two_users.userlist)
unfolding taken is_empty text_eq
two_users-IsUnique = (refl, (refl, tt))

handle_all-IsUnique_example :
    Ensures
      (λ t. IsUnique (map both_names t.userlist))
      (handle_all (sends 1 (codes "NICK" ∷ codes "alice" ∷ []) ∷ []) two_users)
handle_all-IsUnique_example =
    handle_all-IsUnique (sends 1 (codes "NICK" ∷ codes "alice" ∷ []) ∷ []) two_users
      two_users-IsUnique

two_users-IsTally : IsTally (roll two_users)
unfolding registered is_empty
two_users-IsTally = (refl, omega arith)

handle_chirc_message-IsTally_example :
    Ensures (λ t. IsTally (roll t)) (handle_chirc_message 1 (codes "QUIT" ∷ []) two_users)
unfolding is_empty
handle_chirc_message-IsTally_example =
    handle_chirc_message-IsTally 1 (codes "QUIT" ∷ []) two_users (λ e. ground (arith, e))
      (λ e. ground (arith, e)) (λ e. refl) two_users-IsTally

bob-IsPlain : IsPlain (codes "#c") bob
unfolding strchr
bob-IsPlain = record { no_oper = refl; no_chanop = ((λ e. refl), tt) }

chirc_handle_mode-plain_example :
    Ensures
      (λ t. statuses t ≡ statuses two_users)
      (chirc_handle_mode 1 (codes "MODE" ∷ codes "#c" ∷ codes "+m" ∷ []) two_users)
chirc_handle_mode-plain_example =
    chirc_handle_mode-plain 1 (codes "MODE" ∷ codes "#c" ∷ codes "+m" ∷ []) bob two_users refl
      bob-IsPlain

abbrev hello : List Text
hello = codes "PRIVMSG" ∷ codes "#c" ∷ codes ":hello" ∷ []

abbrev hello_line : Text
hello_line = codes ":bob!u@h PRIVMSG #c :hello\r\n"

bob-IsSpeaking : IsSpeaking two_users 1 hello bob 0 hash_c hello_line
unfolding is_registered is_empty seek_nick seek_channel find_at fun_seek text_eq has strchr
    long_line relayed snprintf fits
bob-IsSpeaking = record {
  speaker = refl;
  registered = refl;
  no_user = refl;
  found = refl;
  channel = refl;
  member = refl;
  open_mode = refl;
  fitting = refl;
}

chirc_handle_privmsg-others_example :
    chirc_handle_privmsg 1 hello two_users
    ≡ some (record two_users {
      sent =
          two_users.sent
          ++ to_all hello_line (others (codes "#c") (codes "bob") two_users.userlist);
    })
chirc_handle_privmsg-others_example =
    chirc_handle_privmsg-others two_users 1 hello bob 0 hash_c hello_line bob-IsSpeaking

-- The line goes to alice alone.
hello_heard :
    to_all hello_line (others (codes "#c") (codes "bob") two_users.userlist) ≡ (4, hello_line) ∷ []
unfolding keep_if text_eq has
hello_heard = refl

abbrev nameless_join : List Text
nameless_join = codes "JOIN" ∷ [] ∷ []

-- The server after a user has joined a channel without a name.
abbrev after_join : Server
after_join = elim (chirc_handle_join 0 nameless_join two_users) [ some t ↦ t | none ↦ two_users ]

join_quit_faults_example : chirc_handle_quit 0 (codes "QUIT" ∷ []) after_join ≡ none
unfolding chirc_handle_join channel_join open_channel seek_channel find_at fun_seek is_empty
    list_contains same_name text_eq announce enter set_user set_channel add_my_chan increment
    long_line snprintf fits tell_topic sendtochannel relay hears is_sender send_names list_names
    strncat_nick add_name status_marks strchr seek_my_chan reply_to constr_reply reply_message
    shown_nick send_text
join_quit_faults_example =
    join_quit_faults 0 nameless_join (codes "QUIT" ∷ []) two_users after_join
      (λ p e. ground (arith, e)) refl refl
