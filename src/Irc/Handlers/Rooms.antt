-- ===== src/Irc/Handlers/Rooms.antt =====
-- src/handlers.c: JOIN, PART and TOPIC.
use uchi_networks.Common.{
  ℕ, Bool, true, not, ◌&&◌, if◌then◌else◌, List, [], ◌++◌, Option, none, some, ◌>>=◌,
}
use uchi_networks.Irc.Parse.{Text}
use uchi_networks.Irc.Strings.{codes, is_empty, snprintf, strchr}
use uchi_networks.Irc.Types.{
  Channel, Person, Server, at, seek_channel, seek_my_chan, list_contains, list_delete, param,
  set_user, set_channel,
}
use uchi_networks.Irc.Reply.{
  hostmask, rpl_topic, rpl_notopic, err_nosuchchannel, err_notonchannel, err_chanoprivisneeded,
}
use uchi_networks.Irc.Utils.{sendtochannel, reply_to, leave_channel}
use uchi_networks.Irc.Channel.{long_line, channel_join}

unfoldable pub chirc_handle_join : ℕ → List Text → Server → Option Server
chirc_handle_join u params s = channel_join u (param params 1) s

unfoldable pub part_line : Person → List Text → Text
part_line p params =
    codes ":"
    ++ hostmask (p.nick) p
    ++ codes " PART "
    ++ param params 1
    ++ (if is_empty (param params 2) then [] else codes " " ++ param params 2)

-- list_delete fails on a list that is iterated over.
unfoldable pub forget_my_chan : Text → Person → Person
forget_my_chan cname p =
    if p.iterating then p else record p { my_chans = list_delete p.my_chans cname }

-- The channel and the user lose each other.
unfoldable pub leave : ℕ → Text → ℕ → Server → Option Server
leave u cname c s = leave_channel c (s.chanlist) >>= λ cs.
    some (set_user u (forget_my_chan cname) (record s { chanlist = cs }))

unfoldable pub part_from : ℕ → List Text → Person → Option ℕ → Server → Option Server
part_from u params p none s = reply_to u err_nosuchchannel [] (param params 1) s
part_from u params p (some c) s =
    if list_contains p.my_chans (param params 1)
    then (at (s.chanlist) c >>= λ chan. long_line (part_line p params) >>= λ line.
        leave u (param params 1) c (sendtochannel chan.name line none s))
    else reply_to u err_notonchannel [] (param params 1) s

-- The places that malloc gives `dummy` and `cname` take what is copied into them.
unfoldable pub chirc_handle_part : ℕ → List Text → Server → Option Server
chirc_handle_part u params s =
    at (s.userlist) u >>= λ p. part_from u params p (seek_channel (param params 1) (s.chanlist)) s

-- Whether the user may set the topic.
unfoldable pub may_set_topic : Text → Channel → Person → Option Bool
may_set_topic cname chan p =
    if strchr chan.mode 116
    then (seek_my_chan cname (p.my_chans) >>= λ i.
        at (p.my_chans) i >>= λ m. some (not (not (strchr m.mode 111) && not (strchr p.mode 111))))
    else some true

unfoldable pub set_topic : Text → Channel → Channel
set_topic topic chan = record chan { topic = topic }

-- The topic, or that there is none.
unfoldable pub answer_topic : ℕ → (cname topic : Text) → Server → Option Server
answer_topic u cname topic s =
    if is_empty topic
    then reply_to u rpl_notopic [] cname s
    else reply_to u rpl_topic (snprintf 511 (cname ++ codes " " ++ topic)) [] s

unfoldable pub change_topic :
    ℕ → (cname topic : Text) → Person → ℕ → Channel → Server → Option Server
change_topic u cname topic p c chan s = may_set_topic cname chan p >>= λ allowed.
    if allowed
    then (long_line
          (codes ":" ++ hostmask (p.nick) p ++ codes " TOPIC " ++ cname ++ codes " " ++ topic)
        >>= λ line.
            answer_topic u cname topic
              (sendtochannel chan.name line none (set_channel c (set_topic topic) s)))
    else reply_to u err_chanoprivisneeded [] cname s

unfoldable pub topic_of : ℕ → (cname topic : Text) → Person → Server → Option Server
topic_of u cname topic p s = seek_channel cname (s.chanlist) >>= λ c. at (s.chanlist) c >>= λ chan.
    if is_empty topic
    then answer_topic u cname chan.topic s
    else change_topic u cname topic p c chan s

-- A channel that is not found is NULL, and is read if the user has a channel of this name.
unfoldable pub chirc_handle_topic : ℕ → List Text → Server → Option Server
chirc_handle_topic u params s = at (s.userlist) u >>= λ p.
    if list_contains p.my_chans (param params 1)
    then topic_of u (param params 1) (param params 2) p s
    else reply_to u err_notonchannel [] (param params 1) s
