-- ===== src/Irc/Handlers/Talk.antt =====
-- src/handlers.c: PRIVMSG, NOTICE and AWAY.
use uchi_networks.Common.{
  ℕ, Bool, false, not, ◌&&◌, if◌then◌else◌, List, [], ◌++◌, Option, none, some, ◌>>=◌,
}
use uchi_networks.Irc.Parse.{Text}
use uchi_networks.Irc.Strings.{codes, is_empty, snprintf, strchr, delete_char}
use uchi_networks.Irc.Types.{
  Channel, Person, Server, at, seek_nick, seek_channel, seek_my_chan, list_contains, param,
  set_user, send_text,
}
use uchi_networks.Irc.Reply.{
  hostmask, rpl_away, rpl_unaway, rpl_nowaway, err_nosuchnick, err_cannotsendtochan,
}
use uchi_networks.Irc.Utils.{sendtochannel, reply_to}
use uchi_networks.Irc.Channel.{long_line}
use uchi_networks.Irc.Handlers.Info.{if_registered, short_line}

-- Whether a channel's moderation keeps the user from speaking. A status that is looked up and not
-- found is NULL, of which the mode is read.
unfoldable pub is_muted : Channel → Text → Person → Option Bool
is_muted chan name p =
    if strchr chan.mode 109 && not (strchr p.mode 111)
    then (seek_my_chan name (p.my_chans) >>= λ i.
        at (p.my_chans) i >>= λ m. some (not (strchr m.mode 111) && not (strchr m.mode 118)))
    else some false

-- `:nick!user@address command target text`
unfoldable pub relayed : Person → List Text → Text
relayed p params =
    codes ":"
    ++ hostmask (p.nick) p
    ++ codes " "
    ++ param params 0
    ++ codes " "
    ++ param params 1
    ++ codes " "
    ++ param params 2

-- The recipient is a user.
unfoldable pub speak_to : ℕ → (line : Text) → Person → Server → Option Server
speak_to u line recip s =
    let told = send_text recip.client_socket line s in
    if strchr recip.mode 97
    then reply_to u rpl_away [] (snprintf 512 (recip.nick ++ codes " " ++ (recip.away))) told
    else some told

unfoldable pub speak_on : ℕ → (name line : Text) → Person → Channel → Server → Option Server
speak_on u name line p chan s =
    if list_contains p.my_chans name
    then (is_muted chan name p >>= λ muted.
        if muted
        then reply_to u err_cannotsendtochan [] name s
        else some (sendtochannel chan.name line (some p.nick) s))
    else reply_to u err_cannotsendtochan [] name s

-- By the places of the user and the channel that are found: a user goes first.
unfoldable pub speak :
    ℕ → (name : Text) → (line : Option Text) → Person → Option ℕ → Option ℕ → Server → Option Server
speak u name line p none none s = reply_to u err_nosuchnick [] name s
speak u name line p (some i) chan s =
    line >>= λ l. at (s.userlist) i >>= λ recip. speak_to u l recip s
speak u name line p none (some c) s =
    line >>= λ l. at (s.chanlist) c >>= λ chan. speak_on u name l p chan s

unfoldable pub chirc_handle_privmsg : ℕ → List Text → Server → Option Server
chirc_handle_privmsg u params = if_registered u λ p s.
    speak u (param params 1) (long_line (relayed p params)) p
      (seek_nick (param params 1) (s.userlist)) (seek_channel (param params 1) (s.chanlist)) s

unfoldable pub notify_user : (line : Text) → Option ℕ → Server → Option Server
notify_user line none s = some s
notify_user line (some i) s =
    at (s.userlist) i >>= λ recip. some (send_text recip.client_socket line s)

-- `seek_arg`, which is free by then, still holds what is written into it.
unfoldable pub notify_channel : (name line : Text) → Person → Option ℕ → Server → Option Server
notify_channel name line p none s = some s
notify_channel name line p (some c) s = at (s.chanlist) c >>= λ chan.
    is_muted chan name p >>= λ muted.
    if not muted && list_contains p.my_chans name
    then some (sendtochannel chan.name line (some p.nick) s)
    else some s

-- A user and a channel of one name are both told.
unfoldable pub chirc_handle_notice : ℕ → List Text → Server → Option Server
chirc_handle_notice u params = if_registered u λ p s.
    let line = short_line (relayed p params) in
    let name = param params 1 in
    notify_user line (seek_nick name (s.userlist)) s >>= λ s1.
    notify_channel name line p (seek_channel name (s.chanlist)) s1

unfoldable pub back_mode : Person → Person
back_mode p = record p { mode = delete_char (p.mode) 97 }

unfoldable pub away_mode : Text → Person → Person
away_mode message p = record p {
  mode = if strchr (p.mode) 97 then p.mode else p.mode ++ codes "a";
  away = message;
}

unfoldable pub chirc_handle_away : ℕ → List Text → Server → Option Server
chirc_handle_away u params = if_registered u λ p s.
    if is_empty (param params 1)
    then reply_to u rpl_unaway [] [] (set_user u back_mode s)
    else reply_to u rpl_nowaway [] [] (set_user u (away_mode (param params 1)) s)
