-- ===== src/Irc/Handlers/Modes.antt =====
-- src/handlers.c: MODE and OPER.
use uchi_networks.Common.{
  ℕ, Bool, true, false, not, ◌&&◌, ◌==◌, if◌then◌else◌, List, [], ◌∷◌, ◌++◌, Option, none, some,
  drop, get_or, text_eq, ◌>>=◌,
}
use uchi_networks.Irc.Parse.{Text}
use uchi_networks.Irc.Strings.{codes, is_empty, fits, strchr, strpbrk, delete_char}
use uchi_networks.Irc.Types.{
  MyChan, Channel, Person, Server, at, update_at, seek_user, seek_channel, seek_my_chan,
  list_contains, param, set_user, set_channel, send_text,
}
use uchi_networks.Irc.Reply.{
  hostmask, rpl_channelmodeis, rpl_youreoper, err_nosuchchannel, err_usernotinchannel,
  err_passwdmismatch, err_unknownmode, err_chanoprivisneeded, err_umodeunknownflag,
  err_usersdontmatch,
}
use uchi_networks.Irc.Utils.{sendtochannel, reply_to}
use uchi_networks.Irc.Handlers.Info.{short_line}

-- `t[i]`, where the text ends with '\0'.
abbrev pub char_at : Text → ℕ → ℕ
char_at t i = get_or t i 0

-- `strchr(mode, c) != NULL` for any c: the '\0' at the end is found, too.
unfoldable pub has_mode : Text → ℕ → Bool
has_mode mode c = if c == 0 then true else strchr mode c

-- `sprintf(reply, "%c", c)`
abbrev pub shown_char : ℕ → Text
shown_char c = if c == 0 then [] else c ∷ []

-- A change of the status of a user on a channel: `mode` has 5 places.
unfoldable pub new_status : (change mode : Text) → Option Text
new_status change mode =
    if char_at change 0 == 43
    then (if has_mode mode (char_at change 1) then some mode else fits 5 (mode ++ drop 1 change))
    else if char_at change 0 == 45
    then some (delete_char mode (char_at change 1))
    else some mode

unfoldable pub set_status : Text → MyChan → MyChan
set_status mode m = record m { mode = mode }

unfoldable pub with_status : ℕ → Text → Person → Person
with_status i mode p = record p { my_chans = update_at i (set_status mode) p.my_chans }

-- `strpbrk(params[2], "ov") != NULL`, and the user `target` is on the channel.
unfoldable pub apply_status : List Text → Person → ℕ → Person → Channel → Server → Option Server
apply_status params p t target chan s = seek_my_chan (param params 1) target.my_chans >>= λ i.
    at (target.my_chans) i >>= λ m. new_status (param params 2) m.mode >>= λ mode. some (
      sendtochannel chan.name
        (short_line (
          codes ":"
          ++ hostmask (p.nick) p
          ++ codes " MODE "
          ++ param params 1
          ++ codes " "
          ++ param params 2
          ++ codes " "
          ++ param params 3))
        none (set_user t (with_status i mode) s))

unfoldable pub not_in_channel : ℕ → List Text → Server → Option Server
not_in_channel u params s = fits 512 (param params 3 ++ codes " " ++ param params 1) >>= λ both.
    reply_to u err_usernotinchannel [] both s

-- The target is looked for by its username.
unfoldable pub status_of : ℕ → List Text → Person → Channel → Option ℕ → Server → Option Server
status_of u params p chan none s = not_in_channel u params s
status_of u params p chan (some t) s = at (s.userlist) t >>= λ target.
    if list_contains target.my_chans (param params 1)
    then (if strpbrk (param params 2) (codes "ov")
        then apply_status params p t target chan s
        else reply_to u err_unknownmode (shown_char (char_at (param params 2) 1)) (param params 1)
            s)
    else not_in_channel u params s

-- An operator of the channel or of the server, who is on the channel.
unfoldable pub may_set_status : Text → Person → Bool
may_set_status name p = elim (seek_my_chan name (p.my_chans) >>= at (p.my_chans)) [
  | none ↦ false
  | some m ↦ not (not (strchr p.mode 111) && not (strchr m.mode 111))
]

unfoldable pub member_mode : ℕ → List Text → Person → Option ℕ → Server → Option Server
member_mode u params p none s = reply_to u err_nosuchchannel [] (param params 1) s
member_mode u params p (some c) s = at (s.chanlist) c >>= λ chan.
    if may_set_status (param params 1) p
    then status_of u params p chan (seek_user (param params 3) (s.userlist)) s
    else reply_to u err_chanoprivisneeded [] (param params 1) s

unfoldable pub set_channel_mode : Text → Channel → Channel
set_channel_mode mode chan = record chan { mode = mode }

-- `sprintf(reply, ...)` and `strcat(reply, "\r\n")`
unfoldable pub change_line : List Text → Person → Channel → Option Text
change_line params p chan = fits 512 (
    codes ":"
    ++ hostmask (p.nick) p
    ++ codes " MODE "
    ++ (chan.name)
    ++ codes " "
    ++ param params 2
    ++ codes "\r\n")

unfoldable pub change_channel : List Text → Person → ℕ → Channel → Text → Server → Option Server
change_channel params p c chan mode s = change_line params p chan >>= λ line.
    some (sendtochannel chan.name line none (set_channel c (set_channel_mode mode) s))

-- `-o`
unfoldable pub drop_oper : Person → Person
drop_oper p = record p { mode = delete_char (p.mode) 64 }

-- What is left of MODE for the user's own modes. An `o` is never taken: it is an '@' that is sought.
unfoldable pub user_mode : ℕ → List Text → Person → Server → Option Server
user_mode u params p s =
    if text_eq (param params 1) p.nick
    then (if strpbrk (param params 2) (codes "ao")
        then (if text_eq (param params 2) (codes "-o")
            then some (
                send_text p.client_socket
                  (short_line (
                    codes ":"
                    ++ param params 1
                    ++ codes " MODE "
                    ++ param params 1
                    ++ codes " :"
                    ++ param params 2))
                  (set_user u drop_oper s))
            else some s)
        else reply_to u err_umodeunknownflag [] [] s)
    else reply_to u err_usersdontmatch [] [] s

-- A valid mode: it is added, or taken off, or the text is read as a user's mode.
unfoldable pub apply_channel_mode : ℕ → List Text → Person → ℕ → Channel → Server → Option Server
apply_channel_mode u params p c chan s =
    if char_at (param params 2) 0 == 43
    then (fits 5 (chan.mode ++ drop 1 (param params 2)) >>= λ mode.
        change_channel params p c chan mode s)
    else if char_at (param params 2) 0 == 45
    then change_channel params p c chan (delete_char (chan.mode) (char_at (param params 2) 1)) s
    else user_mode u params p s

-- Without operator status the user's own status is read: NULL if the user is not on the channel.
unfoldable pub may_change_channel : Text → Person → Option Bool
may_change_channel name p =
    if strchr p.mode 111
    then some true
    else (seek_my_chan name (p.my_chans) >>= λ i.
        at (p.my_chans) i >>= λ m. some (strchr m.mode 111))

unfoldable pub change_mode : ℕ → List Text → Person → ℕ → Channel → Server → Option Server
change_mode u params p c chan s = may_change_channel (param params 1) p >>= λ allowed.
    if allowed
    then (if strpbrk (param params 2) (codes "mt")
        then apply_channel_mode u params p c chan s
        else reply_to u err_unknownmode (shown_char (char_at (param params 2) 1)) chan.name s)
    else reply_to u err_chanoprivisneeded [] chan.name s

unfoldable pub channel_mode : ℕ → List Text → Person → Option ℕ → Server → Option Server
channel_mode u params p none s = reply_to u err_nosuchchannel [] (param params 1) s
channel_mode u params p (some c) s = at (s.chanlist) c >>= λ chan.
    if is_empty (param params 2)
    then (fits 512 (chan.name ++ codes " +" ++ (chan.mode)) >>= λ shown.
        reply_to u rpl_channelmodeis [] shown s)
    else change_mode u params p c chan s

unfoldable pub chirc_handle_mode : ℕ → List Text → Server → Option Server
chirc_handle_mode u params s = at (s.userlist) u >>= λ p.
    if not (is_empty (param params 3))
    then member_mode u params p (seek_channel (param params 1) (s.chanlist)) s
    else if char_at (param params 1) 0 == 35
    then channel_mode u params p (seek_channel (param params 1) (s.chanlist)) s
    else user_mode u params p s

unfoldable pub make_oper : Person → Person
make_oper p = record p { mode = if strchr (p.mode) 111 then p.mode else p.mode ++ codes "o" }

unfoldable pub chirc_handle_oper : ℕ → List Text → Server → Option Server
chirc_handle_oper u params s =
    if text_eq (param params 2) s.pw
    then reply_to u rpl_youreoper [] [] (set_user u make_oper s)
    else reply_to u err_passwdmismatch [] (param params 0) s
