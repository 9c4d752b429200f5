-- ===== src/Irc/Reply.antt =====
-- src/reply.h and utils.c: constr_reply.
use Prim.Native.Nat.{◌/◌, ◌%◌}
use uchi_networks.Common.{ℕ, ◌+◌, [], ◌∷◌, ◌++◌, Option, some, if◌then◌else◌, ◌>>=◌}
use uchi_networks.Irc.Parse.{Text}
use uchi_networks.Irc.Strings.{codes, is_empty, fits, snprintf}
use uchi_networks.Irc.Types.{Person, Server}

-- The codes of reply.h that are used.
pub data Reply : Type 0 where
  rpl_welcome : Reply
  rpl_yourhost : Reply
  rpl_created : Reply
  rpl_myinfo : Reply
  rpl_luserclient : Reply
  rpl_luserop : Reply
  rpl_luserunknown : Reply
  rpl_luserchannels : Reply
  rpl_luserme : Reply
  rpl_away : Reply
  rpl_unaway : Reply
  rpl_nowaway : Reply
  rpl_whoisuser : Reply
  rpl_whoisserver : Reply
  rpl_whoisoperator : Reply
  rpl_endofwho : Reply
  rpl_endofwhois : Reply
  rpl_whoischannels : Reply
  rpl_list : Reply
  rpl_listend : Reply
  rpl_notopic : Reply
  rpl_topic : Reply
  rpl_whoreply : Reply
  rpl_namreply : Reply
  rpl_endofnames : Reply
  rpl_motdstart : Reply
  rpl_motd : Reply
  rpl_endofmotd : Reply
  rpl_youreoper : Reply
  rpl_channelmodeis : Reply
  err_nosuchnick : Reply
  err_nosuchchannel : Reply
  err_cannotsendtochan : Reply
  err_unknowncommand : Reply
  err_nomotd : Reply
  err_nicknameinuse : Reply
  err_usernotinchannel : Reply
  err_notonchannel : Reply
  err_notregistered : Reply
  err_alreadyregistred : Reply
  err_passwdmismatch : Reply
  err_unknownmode : Reply
  err_chanoprivisneeded : Reply
  err_umodeunknownflag : Reply
  err_usersdontmatch : Reply

-- The number of the code.
abbrev pub reply_code : Reply → ℕ
reply_code rpl_welcome = 1
reply_code rpl_yourhost = 2
reply_code rpl_created = 3
reply_code rpl_myinfo = 4
reply_code rpl_luserclient = 251
reply_code rpl_luserop = 252
reply_code rpl_luserunknown = 253
reply_code rpl_luserchannels = 254
reply_code rpl_luserme = 255
reply_code rpl_away = 301
reply_code rpl_unaway = 305
reply_code rpl_nowaway = 306
reply_code rpl_whoisuser = 311
reply_code rpl_whoisserver = 312
reply_code rpl_whoisoperator = 313
reply_code rpl_endofwho = 315
reply_code rpl_endofwhois = 318
reply_code rpl_whoischannels = 319
reply_code rpl_list = 322
reply_code rpl_listend = 323
reply_code rpl_notopic = 331
reply_code rpl_topic = 332
reply_code rpl_whoreply = 352
reply_code rpl_namreply = 353
reply_code rpl_endofnames = 366
reply_code rpl_motdstart = 375
reply_code rpl_motd = 372
reply_code rpl_endofmotd = 376
reply_code rpl_youreoper = 381
reply_code rpl_channelmodeis = 324
reply_code err_nosuchnick = 401
reply_code err_nosuchchannel = 403
reply_code err_cannotsendtochan = 404
reply_code err_unknowncommand = 421
reply_code err_nomotd = 422
reply_code err_nicknameinuse = 433
reply_code err_usernotinchannel = 441
reply_code err_notonchannel = 442
reply_code err_notregistered = 451
reply_code err_alreadyregistred = 462
reply_code err_passwdmismatch = 464
reply_code err_unknownmode = 472
reply_code err_chanoprivisneeded = 482
reply_code err_umodeunknownflag = 501
reply_code err_usersdontmatch = 502

-- The three digits.
abbrev pub code_text : ℕ → Text
code_text n = (48 + n / 100) ∷ (48 + n / 10 % 10) ∷ (48 + n % 10) ∷ []

-- nick!user@address
abbrev pub hostmask : Text → Person → Text
hostmask nick client = nick ++ codes "!" ++ (client.user) ++ codes "@" ++ (client.address)

-- The switch: what goes into `replmsg`. NULL for `extra` is the empty text.
unfoldable pub reply_message :
    Reply → (nick : Text) → Person → (reply : Text) → Server → (extra : Text) → Text
reply_message rpl_welcome nick client reply server extra =
    codes ":Welcome to the Internet Relay Network " ++ hostmask nick client
reply_message rpl_yourhost nick client reply server extra =
    codes ":Your host is " ++ (server.servername) ++ codes " running version " ++ (server.version)
reply_message rpl_created nick client reply server extra =
    codes ":This server was created " ++ (server.birthday)
reply_message rpl_myinfo nick client reply server extra =
    (server.servername) ++ codes " " ++ (server.version) ++ codes " ao mtov"
reply_message rpl_luserclient nick client reply server extra =
    codes ":There are " ++ extra ++ codes " users and 0 services on 1 servers"
reply_message rpl_luserop nick client reply server extra = extra ++ codes " :operator(s) online"
reply_message rpl_luserunknown nick client reply server extra =
    extra ++ codes " :unknown connection(s)"
reply_message rpl_luserchannels nick client reply server extra = extra ++ codes " :channels formed"
reply_message rpl_luserme nick client reply server extra =
    codes ":I have " ++ extra ++ codes " clients and 1 servers"
reply_message rpl_away nick client reply server extra = extra
reply_message rpl_unaway nick client reply server extra =
    codes ":You are no longer marked as being away"
reply_message rpl_nowaway nick client reply server extra =
    codes ":You have been marked as being away"
reply_message rpl_whoisuser nick client reply server extra = extra
reply_message rpl_whoisserver nick client reply server extra = extra
reply_message rpl_whoisoperator nick client reply server extra =
    extra ++ codes " :is an IRC operator"
reply_message rpl_endofwho nick client reply server extra = extra ++ codes " :End of WHO list"
reply_message rpl_endofwhois nick client reply server extra = extra ++ codes " :End of WHOIS list"
reply_message rpl_whoischannels nick client reply server extra = extra
reply_message rpl_list nick client reply server extra = extra
reply_message rpl_listend nick client reply server extra = codes ":End of LIST"
reply_message rpl_notopic nick client reply server extra = extra ++ codes " :No topic is set"
reply_message rpl_topic nick client reply server extra = reply
reply_message rpl_whoreply nick client reply server extra = extra
reply_message rpl_namreply nick client reply server extra = extra
reply_message rpl_endofnames nick client reply server extra = extra ++ codes " :End of NAMES list"
reply_message rpl_motdstart nick client reply server extra =
    codes ":- " ++ (server.servername) ++ codes " Message of the day - "
reply_message rpl_motd nick client reply server extra = codes ":- " ++ extra
reply_message rpl_endofmotd nick client reply server extra = codes ":- End of MOTD command"
reply_message rpl_youreoper nick client reply server extra = codes ":You are now an IRC operator"
reply_message rpl_channelmodeis nick client reply server extra = extra
reply_message err_nosuchnick nick client reply server extra =
    extra ++ codes " :No such nick/channel"
reply_message err_nosuchchannel nick client reply server extra = extra ++ codes " :No such channel"
reply_message err_cannotsendtochan nick client reply server extra =
    extra ++ codes " :Cannot send to channel"
reply_message err_unknowncommand nick client reply server extra = extra ++ codes " :Unknown command"
reply_message err_nomotd nick client reply server extra = codes ":MOTD File is missing"
reply_message err_nicknameinuse nick client reply server extra =
    extra ++ codes " :Nickname is already in use"
reply_message err_usernotinchannel nick client reply server extra =
    extra ++ codes " :They aren't on that channel"
reply_message err_notonchannel nick client reply server extra =
    extra ++ codes " :You're not on that channel"
reply_message err_notregistered nick client reply server extra = codes ":You have not registered"
reply_message err_alreadyregistred nick client reply server extra =
    codes ":Unauthorized command (already registered)"
reply_message err_passwdmismatch nick client reply server extra = codes ":Password incorrect"
reply_message err_unknownmode nick client reply server extra =
    reply ++ codes " :is unknown mode char to me for " ++ extra
reply_message err_chanoprivisneeded nick client reply server extra =
    extra ++ codes " :You're not channel operator"
reply_message err_umodeunknownflag nick client reply server extra = codes ":Unknown MODE flag"
reply_message err_usersdontmatch nick client reply server extra =
    codes ":Cannot change mode for other users"

-- An empty nickname is shown as an asterisk.
unfoldable pub shown_nick : Person → Text
shown_nick client = if is_empty (client.nick) then codes "*" else client.nick

-- `reply` is read in two cases before it is written. Its 512 places take what is printed; `prefix`
-- and `replmsg` may be too short.
unfoldable pub constr_reply :
    Reply → Person → (reply : Text) → Server → (extra : Text) → Option Text
constr_reply code client reply server extra =
    fits 512 (codes ":" ++ (server.servername)) >>= λ prefix.
    fits 512 (reply_message code (shown_nick client) client reply server extra) >>= λ replmsg.
    some (
      snprintf 510 (
        prefix
        ++ codes " "
        ++ code_text (reply_code code)
        ++ codes " "
        ++ shown_nick client
        ++ codes " "
        ++ replmsg)
      ++ codes "\r\n")
