-- ===== src/Irc/Relay.antt =====
-- src/handlers.c: to whom a PRIVMSG to a channel goes.
use uchi_networks.Common.{
  ℕ, ◌≡◌, refl, sym, ap, ◌∙◌, true, false, not, ◌&&◌, List, [], ◌∷◌, ◌++◌, map, none, some, keep_if,
  text_eq, arith,
}
use uchi_networks.Irc.Parse.{Text}
use uchi_networks.Irc.Strings.{strchr}
use uchi_networks.Irc.Types.{Channel, Person, Server, at, param, seek_nick, seek_channel}
use uchi_networks.Irc.Utils.{is_sender, hears, relay, sendtochannel}
use uchi_networks.Irc.Channel.{long_line}
use uchi_networks.Irc.Handlers.Info.{is_registered, if_registered}
use uchi_networks.Irc.Handlers.Talk.{is_muted, relayed, speak, speak_on, chirc_handle_privmsg}
use uchi_networks.Irc.Members.{named_count, names_in, has, counts}
use uchi_networks.Irc.Members.Channels.{seek-at}
use uchi_networks.Irc.Members.Views.{at-map, seek_channel-seek, list_contains-has}

-- The users who are on the channel, without the one of this nick.
abbrev pub others : (name nick : Text) → List Person → List Person
others name nick us = keep_if (λ q. not (text_eq q.nick nick) && has (names_in q) name) us

abbrev pub to_all : (line : Text) → List Person → List (ℕ × Text)
to_all line us = map (λ (q : Person). (q.client_socket, line)) us

relay-others :
    (name line nick : Text) (us : List Person)
    → relay name line (some nick) us ≡ to_all line (others name nick us)
unfolding relay hears is_sender keep_if
relay-others name line nick [] = refl
relay-others name line nick (q ∷ us) =
    ground (arith, relay-others name line nick us, list_contains-has q.my_chans name)

-- What is found has the name.
found_name :
    (name : Text) (c : ℕ) (chan : Channel) (s : Server)
    → seek_channel name s.chanlist ≡ some c
    → at s.chanlist c ≡ some chan
    → chan.name ≡ name
found_name name c chan s f e =
    let one = at-map named_count s.chanlist c chan e in
    let two = seek-at name (counts s) c (sym (seek_channel-seek name s.chanlist) ∙ f) in
    ground (arith, sym one ∙ two)

-- A registered user who speaks on a channel where this is allowed.
pub record IsSpeaking (s : Server) (u : ℕ) (params : List Text) (p : Person) (c : ℕ)
    (chan : Channel) (line : Text) : Type 0 where
  pub speaker : at s.userlist u ≡ some p
  pub registered : is_registered p ≡ true
  pub no_user : seek_nick (param params 1) s.userlist ≡ none
  pub found : seek_channel (param params 1) s.chanlist ≡ some c
  pub channel : at s.chanlist c ≡ some chan
  pub member : has (names_in p) (param params 1) ≡ true
  pub open_mode : strchr chan.mode 109 ≡ false
  pub fitting : long_line (relayed p params) ≡ some line

module _ (s : Server) (u : ℕ) (params : List Text) (p : Person) (c : ℕ) (chan : Channel)
    (line : Text) (h : IsSpeaking s u params p c chan line) where
  speak_on-sends :
      speak_on u (param params 1) line p chan s
      ≡ some (sendtochannel (param params 1) line (some p.nick) s)
  unfolding speak_on is_muted
  speak_on-sends =
      rw (list_contains-has p.my_chans (param params 1) ∙ h.member, h.open_mode)
        (ap (λ n. some (sendtochannel n line (some p.nick) s))
          (found_name (param params 1) c chan s h.found h.channel))

  -- A PRIVMSG that a registered user sends to a channel which the user is on, which is not moderated
  -- and has not the name of a user: the line, if it fits into its buffer, is sent to every user on
  -- the channel but those of the sender's nick, in the order of the list, and nothing else changes.
  pub chirc_handle_privmsg-others :
      chirc_handle_privmsg u params s
      ≡ some (record s { sent = s.sent ++ to_all line (others (param params 1) p.nick s.userlist) })
  unfolding chirc_handle_privmsg if_registered speak sendtochannel
  chirc_handle_privmsg-others =
      rw (h.speaker, h.registered, h.no_user, h.found, h.fitting, h.channel)
        (speak_on-sends
          ∙ ap (λ l. some (record s { sent = s.sent ++ l }))
              (relay-others (param params 1) line p.nick s.userlist))
