-- ===== src/Irc/Channel.antt =====
-- src/channel.c: channel_join.
use uchi_networks.Common.{
  ℕ, Bool, true, false, if◌then◌else◌, List, [], ◌∷◌, ◌++◌, Option, none, some, length, ◌>>=◌,
}
use uchi_networks.Irc.Parse.{Text}
use uchi_networks.Irc.Strings.{codes, is_empty, fits, snprintf}
use uchi_networks.Irc.Types.{
  Channel, Person, Server, at, seek_channel, list_contains, set_user, set_channel,
}
use uchi_networks.Irc.Reply.{hostmask, rpl_topic, rpl_endofnames}
use uchi_networks.Irc.Utils.{sendtochannel, reply_to, increment, send_names}

-- The channel that is found, or a new one, at the end of the list; and whether it is new.
pub record Opened : Type 0 where
  pub channels : List Channel
  pub position : ℕ
  pub is_new : Bool

abbrev pub new_channel : Text → Channel
new_channel cname = record { name = cname; topic = []; mode = []; numusers = 0 }

unfoldable pub open_channel : Text → List Channel → Option ℕ → Opened
open_channel cname cs (some c) = record { channels = cs; position = c; is_new = false }
open_channel cname cs none = record {
  channels = cs ++ (new_channel cname ∷ []);
  position = length cs;
  is_new = true;
}

-- `newchan`, which makes the first user of the channel its operator. list_append fails on a list that
-- is iterated over.
unfoldable pub add_my_chan : Text → Bool → Person → Person
add_my_chan cname oper p = if p.iterating then p else record p {
  my_chans = p.my_chans ++ (record { name = cname; mode = if oper then codes "o" else [] } ∷ []);
}

-- The two lists, once the user is on the channel.
unfoldable pub enter : ℕ → Text → Opened → Server → Server
enter u cname o s =
    set_user u (add_my_chan cname o.is_new)
      (set_channel o.position increment (record s { chanlist = o.channels }))

-- `snprintf(reply, MAXMSG-1, ...)` and `strcat(reply, "\r\n")`, for which `reply` may be too short.
unfoldable pub long_line : Text → Option Text
long_line t = fits 512 (snprintf 511 t ++ codes "\r\n")

-- RPL_TOPIC, if the channel has a topic.
unfoldable pub tell_topic : ℕ → (cname topic : Text) → Server → Option Server
tell_topic u cname topic s =
    if is_empty topic
    then some s
    else reply_to u rpl_topic (snprintf 511 (cname ++ codes " " ++ topic)) [] s

-- The replies: to all on the channel, and the topic and the names to the user.
unfoldable pub announce : ℕ → Text → Channel → Person → Server → Option Server
announce u cname chan p s =
    long_line (codes ":" ++ hostmask (p.nick) p ++ codes " JOIN " ++ cname) >>= λ line.
    tell_topic u cname chan.topic (sendtochannel chan.name line none s) >>= λ s1.
    send_names u chan.name s1 >>= λ s2. reply_to u rpl_endofnames [] cname s2

unfoldable pub channel_join : ℕ → Text → Server → Option Server
channel_join u cname s =
    let o = open_channel cname (s.chanlist) (seek_channel cname (s.chanlist)) in
    at (s.userlist) u >>= λ p. at (o.channels) o.position >>= λ chan.
    if list_contains p.my_chans cname
    then some (record s { chanlist = o.channels })
    else announce u cname chan p (enter u cname o s)
