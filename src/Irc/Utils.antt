-- ===== src/Irc/Utils.antt =====
-- src/utils.c: the sends to channels, the lists of names, and the end of a user.
use Prim.Native.Nat.{◌%◌}
use uchi_networks.Common.{
  ℕ, ◌+◌, ◌-◌, Bool, true, false, not, ◌==◌, ◌&&◌, ltb, leb, if◌then◌else◌, List, [], ◌∷◌, ◌++◌,
  Option, none, some, length, take, text_eq, ◌>>=◌,
}
use uchi_networks.Irc.Parse.{Text}
use uchi_networks.Irc.Strings.{codes, fits, strchr}
use uchi_networks.Irc.Types.{
  MyChan, Channel, Person, Server, at, update_at, remove_at, seek_channel, seek_my_chan,
  list_contains, set_user, send_text, iterated, set_iterating,
}
use uchi_networks.Irc.Reply.{Reply, rpl_namreply, constr_reply}

-- Whether the message that `sender` sends to the channel goes to this user. NULL is `none`.
unfoldable pub is_sender : Option Text → Person → Bool
is_sender none p = false
is_sender (some nick) p = text_eq (p.nick) nick

unfoldable pub hears : Text → Option Text → Person → Bool
hears cname sender p = not (is_sender sender p) && list_contains (p.my_chans) cname

-- The walk along the userlist.
unfoldable pub relay : (cname msg : Text) → Option Text → List Person → List (ℕ × Text)
relay cname msg sender [] = []
relay cname msg sender (p ∷ ps) =
    let rest = relay cname msg sender ps in
    if hears cname sender p then (p.client_socket, msg) ∷ rest else rest

-- The channel is read for its name only.
unfoldable pub sendtochannel : (cname msg : Text) → Option Text → Server → Server
sendtochannel cname msg sender s = record s { sent = s.sent ++ relay cname msg sender (s.userlist) }

-- The walk along `my_chans`. A channel that is not found is NULL, of which the name is read.
unfoldable pub send_each : (msg nick : Text) → List MyChan → Server → Option Server
send_each msg nick [] s = some s
send_each msg nick (m ∷ ms) s = seek_channel m.name (s.chanlist) >>= λ c.
    at (s.chanlist) c >>= λ chan. send_each msg nick ms (sendtochannel chan.name msg (some nick) s)

unfoldable pub sendtoallchans : ℕ → Text → Server → Option Server
sendtoallchans u msg s = at (s.userlist) u >>= λ p.
    send_each msg p.nick (iterated p) s >>= λ t. some (set_user u (set_iterating false) t)

-- What is sent to the user in answer: constr_reply and send.
unfoldable pub reply_to : ℕ → Reply → (reply extra : Text) → Server → Option Server
reply_to u code reply extra s = at (s.userlist) u >>= λ p.
    constr_reply code p reply s extra >>= λ r. some (send_text p.client_socket r s)

-- `numusers--` on 32 bits.
unfoldable pub decrement : Channel → Channel
decrement c = record c { numusers = (c.numusers + 4294967295) % 4294967296 }

unfoldable pub increment : Channel → Channel
increment c = record c { numusers = (c.numusers + 1) % 4294967296 }

unfoldable pub channel_destroy : ℕ → List Channel → Option (List Channel)
channel_destroy c cs = at cs c >>= λ chan. some (if chan.numusers == 0 then remove_at c cs else cs)

-- `(chan->numusers)--`, and channel_destroy where that gives 0, as user_exit and PART do it.
unfoldable pub leave_channel : ℕ → List Channel → Option (List Channel)
leave_channel c cs =
    let less = update_at c decrement cs in
    at less c >>= λ chan. if chan.numusers == 0 then channel_destroy c less else some less

-- The loop of user_exit over `my_chans`.
unfoldable pub leave_each : List MyChan → List Channel → Option (List Channel)
leave_each [] cs = some cs
leave_each (m ∷ ms) cs =
    seek_channel m.name cs >>= λ c. leave_channel c cs >>= λ less. leave_each ms less

-- The user's thread ends with it. `numregistered` is unsigned.
unfoldable pub user_exit : ℕ → Server → Option Server
user_exit u s = at (s.userlist) u >>= λ p. leave_each (iterated p) (s.chanlist) >>= λ cs.
    some (record s {
      userlist = remove_at u (s.userlist);
      chanlist = cs;
      numregistered = (s.numregistered + 4294967295) % 4294967296;
    })

-- "@" for an operator of the channel, and "+" for a user who may speak on it.
unfoldable pub status_marks : (mode : Text) → Text
status_marks mode =
    (if strchr mode 111 then codes "@" else []) ++ (if strchr mode 118 then codes "+" else [])

-- `strncat(chanusers, nick, MAXMSG - strlen(reply))`: a negative number is a large one.
unfoldable pub strncat_nick : (stale : ℕ) → Text → Text
strncat_nick stale nick = if leb stale 512 then take (512 - stale) nick else nick

unfoldable pub add_name : (stale : ℕ) → Bool → (shown : Text) → Person → MyChan → Option Text
add_name stale first shown p m = fits 512 (
    shown
    ++ (if first then [] else codes " ")
    ++ status_marks (m.mode)
    ++ strncat_nick stale (p.nick))

-- The loop of send_names over the userlist.
unfoldable pub list_names :
    (stale : ℕ) → (cname : Text) → Bool → (shown : Text) → List Person → Option Text
list_names stale cname first shown [] = some shown
list_names stale cname first shown (p ∷ ps) = elim (ltb (length shown) 509) [
  | true ↦ elim (seek_my_chan cname (p.my_chans) >>= at (p.my_chans)) [
    | none ↦ list_names stale cname first shown ps
    | some m ↦ add_name stale first shown p m >>= λ longer. list_names stale cname false longer ps
  ]
  | false ↦ some shown
]

unfoldable pub send_names : ℕ → (cname : Text) → Server → Option Server
send_names u cname s = fits 512 (codes "= " ++ cname ++ codes " :") >>= λ begun.
    list_names (s.stale s.sent) cname true begun (s.userlist) >>= λ chanusers.
    reply_to u rpl_namreply [] chanusers s
