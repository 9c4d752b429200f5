-- ===== src/Irc/Handlers/Queries.antt =====
-- src/handlers.c: WHOIS, LIST, NAMES and WHO.
use uchi_networks.Common.{
  ℕ, suc, ◌-◌, Bool, true, false, not, ◌||◌, ◌==◌, ltb, if◌then◌else◌, List, [], ◌∷◌, ◌++◌, Option,
  none, some, length, take, ◌>>=◌,
}
use uchi_networks.Irc.Parse.{Text}
use uchi_networks.Irc.Strings.{codes, is_empty, fits, snprintf, strchr, print_int}
use uchi_networks.Irc.Types.{
  MyChan, Channel, Person, Server, at, seek_nick, seek_channel, seek_my_chan, list_contains, param,
  set_user, iterated, set_iterating,
}
use uchi_networks.Irc.Reply.{
  rpl_away, rpl_whoisuser, rpl_whoisserver, rpl_whoisoperator, rpl_endofwhois, rpl_whoischannels,
  rpl_whoreply, rpl_endofwho, rpl_list, rpl_listend, rpl_namreply, rpl_endofnames, err_nosuchnick,
}
use uchi_networks.Irc.Utils.{reply_to, status_marks, send_names}
use uchi_networks.Irc.Handlers.Info.{if_registered}
use uchi_networks.Irc.Handlers.Modes.{char_at}

-- `strncat` with the place that is left, which has none for the '\0'.
unfoldable pub add_channel : (shown : Text) → MyChan → Option Text
add_channel shown m =
    let marked = shown ++ status_marks m.mode in
    fits 512 (marked ++ take (512 - length marked) m.name ++ codes " ")

unfoldable pub list_channels : (shown : Text) → List MyChan → Option Text
list_channels shown [] = some shown
list_channels shown (m ∷ ms) = add_channel shown m >>= λ longer. list_channels longer ms

unfoldable pub tell_channels : ℕ → (nick : Text) → List MyChan → Server → Option Server
tell_channels u nick [] s = some s
tell_channels u nick (m ∷ ms) s =
    list_channels (snprintf 511 (nick ++ codes " :")) (m ∷ ms) >>= λ shown.
    reply_to u rpl_whoischannels [] shown s

unfoldable pub tell_if : Bool → ℕ → (Server → Option Server) → Server → Option Server
tell_if true u go s = go s
tell_if false u go s = some s

-- The iterator over `my_chans` is not stopped.
unfoldable pub tell_whois : (u i : ℕ) → (nick : Text) → Person → Server → Option Server
tell_whois u i nick p s =
    reply_to u rpl_whoisuser []
      (snprintf 510
        (nick ++ codes " " ++ (p.user) ++ codes " " ++ (p.address) ++ codes " * :" ++ (p.fullname)))
      s
    >>= λ s1. tell_channels u nick (iterated p) (set_user i (set_iterating true) s1) >>= λ s2.
        reply_to u rpl_whoisserver []
          (snprintf 510 (nick ++ codes " " ++ (p.address) ++ codes " :chirc-0.3")) s2
        >>= λ s3.
            tell_if (strchr p.mode 97) u
              (reply_to u rpl_away [] (snprintf 510 (nick ++ codes " " ++ (p.away)))) s3
            >>= λ s4.
                tell_if (strchr p.mode 111) u (reply_to u rpl_whoisoperator [] nick) s4 >>= λ s5.
                reply_to u rpl_endofwhois [] nick s5

unfoldable pub whois : ℕ → (nick : Text) → Option ℕ → Server → Option Server
whois u nick none s = reply_to u err_nosuchnick [] nick s
whois u nick (some i) s = at (s.userlist) i >>= λ p. tell_whois u i nick p s

unfoldable pub chirc_handle_whois : ℕ → List Text → Server → Option Server
chirc_handle_whois u params =
    if_registered u λ p s. whois u (param params 1) (seek_nick (param params 1) (s.userlist)) s

-- `sprintf(extra, ...)`
unfoldable pub list_line : Channel → Option Text
list_line c = fits 512 (
    c.name
    ++ codes " "
    ++ print_int c.numusers
    ++ (if is_empty c.topic then codes " :" else codes " " ++ (c.topic)))

unfoldable pub tell_list : ℕ → List Channel → Server → Option Server
tell_list u [] s = reply_to u rpl_listend [] [] s
tell_list u (c ∷ cs) s =
    list_line c >>= λ line. reply_to u rpl_list [] line s >>= λ s1. tell_list u cs s1

-- A channel that is not found is NULL, and is read.
unfoldable pub chirc_handle_list : ℕ → List Text → Server → Option Server
chirc_handle_list u params s =
    if is_empty (param params 1)
    then tell_list u (s.chanlist) s
    else (seek_channel (param params 1) (s.chanlist) >>= λ c.
        at (s.chanlist) c >>= λ chan. tell_list u (chan ∷ []) s)

unfoldable pub all_names : ℕ → List Channel → Server → Option Server
all_names u [] s = some s
all_names u (c ∷ cs) s = send_names u c.name s >>= λ s1. all_names u cs s1

-- The users that are on no channel.
unfoldable pub antisocial : (first : Bool) → (shown : Text) → List Person → Option Text
antisocial first shown [] = some shown
antisocial first shown (p ∷ ps) = elim (ltb (length shown) 511) [
  | true ↦ elim (p.my_chans) [
    | [] ↦
        let spaced = shown ++ (if first then [] else codes " ") in
        fits 512 (spaced ++ take (512 - length spaced) p.nick) >>= λ longer.
        antisocial false longer ps
    | m ∷ ms ↦ antisocial first shown ps
  ]
  | false ↦ some shown
]

unfoldable pub tell_antisocial : ℕ → Server → Option Server
tell_antisocial u s = antisocial true (codes "* * :") (s.userlist) >>= λ shown.
    tell_if (ltb 5 (length shown)) u (reply_to u rpl_namreply [] shown) s

unfoldable pub names_of : ℕ → Option ℕ → Server → Option Server
names_of u none s = some s
names_of u (some c) s = at (s.chanlist) c >>= λ chan. send_names u chan.name s

unfoldable pub chirc_handle_names : ℕ → List Text → Server → Option Server
chirc_handle_names u params = if_registered u λ p s.
    (if is_empty (param params 1)
      then (all_names u (s.chanlist) s >>= λ s1. tell_antisocial u s1)
      else names_of u (seek_channel (param params 1) (s.chanlist)) s)
    >>= λ s1. reply_to u rpl_endofnames [] (codes "*") s1

unfoldable pub who_flags : Person → Text
who_flags p =
    (if strchr (p.mode) 97 then codes "G" else codes "H")
    ++ (if strchr (p.mode) 111 then codes "*" else [])

unfoldable pub who_line : (name flags : Text) → Person → Server → Text
who_line name flags p s = snprintf 510 (
    name
    ++ codes " "
    ++ (p.user)
    ++ codes " "
    ++ (p.address)
    ++ codes " "
    ++ (s.servername)
    ++ codes " "
    ++ (p.nick)
    ++ codes " "
    ++ flags
    ++ codes " :0 "
    ++ (p.fullname))

unfoldable pub shares_channel : List MyChan → List MyChan → Bool
shares_channel theirs [] = false
shares_channel theirs (m ∷ ms) =
    if list_contains theirs m.name then true else shares_channel theirs ms

-- The iterator over the channels of another user is stopped.
unfoldable pub end_walk : (u i : ℕ) → Server → Server
end_walk u i s = if i == u then s else set_user i (set_iterating false) s

-- The users who share no channel with this one, by their places from i on. The user is left out,
-- if on any channel.
unfoldable pub who_apart : (u i : ℕ) → Person → List Person → Server → Option Server
who_apart u i user [] s = some s
who_apart u i user (p ∷ ps) s =
    tell_if
      (not (
        if i == u
        then not (length user.my_chans == 0)
        else shares_channel user.my_chans (iterated p)))
      u (reply_to u rpl_whoreply [] (who_line (codes "*") (who_flags p) p s)) (end_walk u i s)
    >>= λ s1. who_apart u (suc i) user ps s1

-- The reply on a user, whose status on the channel this is.
unfoldable pub tell_who : ℕ → (name : Text) → Person → Option MyChan → Server → Option Server
tell_who u name p none s = some s
tell_who u name p (some m) s =
    reply_to u rpl_whoreply [] (who_line name (who_flags p ++ status_marks m.mode) p s) s

unfoldable pub who_on : (u : ℕ) → (name : Text) → List Person → Server → Option Server
who_on u name [] s = some s
who_on u name (p ∷ ps) s =
    tell_who u name p (seek_my_chan name (p.my_chans) >>= at (p.my_chans)) s >>= λ s1.
    who_on u name ps s1

-- "" and "*..." ask for all.
unfoldable pub chirc_handle_who : ℕ → List Text → Server → Option Server
chirc_handle_who u params s = at (s.userlist) u >>= λ p.
    if is_empty (param params 1) || char_at (param params 1) 0 == 42
    then (who_apart u 0 p (s.userlist) s >>= λ s1. reply_to u rpl_endofwho [] (codes "*") s1)
    else (who_on u (param params 1) (s.userlist) s >>= λ s1.
        reply_to u rpl_endofwho [] (param params 1) s1)
