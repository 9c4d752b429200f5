-- ===== src/Irc/Members/Kept/Talk.antt =====
-- src: PRIVMSG, NOTICE, AWAY and TOPIC leave the channels with their users.
use uchi_networks.Common.{ℕ, List, Option, none, some, refl}
use uchi_networks.Irc.Parse.{Text}
use uchi_networks.Irc.Strings.{is_empty}
use uchi_networks.Irc.Types.{Channel, Person, Server, param, set_channel, send_text}
use uchi_networks.Irc.Utils.{sendtochannel}
use uchi_networks.Irc.Channel.{long_line, tell_topic, announce}
use uchi_networks.Irc.Handlers.Talk.{
  speak_to, speak_on, speak, chirc_handle_privmsg, notify_user, notify_channel, chirc_handle_notice,
  back_mode, away_mode, chirc_handle_away,
}
use uchi_networks.Irc.Handlers.Rooms.{
  may_set_topic, set_topic, answer_topic, change_topic, topic_of, chirc_handle_topic,
}
use uchi_networks.Irc.Members.Kept.{
  IsView, Keeps, call-Keeps, if-Keeps, same-Keeps, some-Keeps, from-Keeps, bind-Keeps,
  reply_to-Keeps, send_text-Same, sendtochannel-Same, set_channel-Same, relay-Same, kept,
}
use uchi_networks.Irc.Members.Kept.Register.{if_registered-Keeps, set_user-Keeps}

module _ {X : Type 0} {V : Server → X} (v : IsView V) where
  sendtochannel-Keeps :
      (cname msg : Text) (o : Option Text) (s : Server)
      → Keeps V s (some (sendtochannel cname msg o s))
  sendtochannel-Keeps cname msg o s = some-Keeps V s _ (sendtochannel-Same v cname msg o s)

  send_text-Keeps : (socket : ℕ) (t : Text) (s : Server) → Keeps V s (some (send_text socket t s))
  send_text-Keeps socket t s = some-Keeps V s _ (send_text-Same v socket t s)

  speak_to-Keeps :
      (u : ℕ) (line : Text) (recip : Person) (s : Server) → Keeps V s (speak_to u line recip s)
  unfolding speak_to
  speak_to-Keeps u line recip s =
      from-Keeps V s (send_text recip.client_socket line s) _
        (send_text-Same v recip.client_socket line s) (search (kept))

  speak_on-Keeps :
      (u : ℕ) (name line : Text) (p : Person) (chan : Channel) (s : Server)
      → Keeps V s (speak_on u name line p chan s)
  unfolding speak_on
  speak_on-Keeps u name line p chan s = search (kept, sendtochannel-Keeps)

  speak-Keeps :
      (u : ℕ) (name : Text) (line : Option Text) (p : Person) (i c : Option ℕ) (s : Server)
      → Keeps V s (speak u name line p i c s)
  unfolding speak
  speak-Keeps u name line p none none s = search (kept)
  speak-Keeps u name line p (some i) c s = search (kept, speak_to-Keeps)
  speak-Keeps u name line p none (some c) s = search (kept, speak_on-Keeps)

  pub chirc_handle_privmsg-Keeps :
      (u : ℕ) (params : List Text) (s : Server) → Keeps V s (chirc_handle_privmsg u params s)
  unfolding chirc_handle_privmsg
  chirc_handle_privmsg-Keeps u params s = search (if_registered-Keeps, speak-Keeps)

  notify_user-Keeps : (line : Text) (i : Option ℕ) (s : Server) → Keeps V s (notify_user line i s)
  unfolding notify_user
  notify_user-Keeps line none s = same-Keeps V s
  notify_user-Keeps line (some i) s = search (call-Keeps, send_text-Keeps)

  notify_channel-Keeps :
      (name line : Text) (p : Person) (c : Option ℕ) (s : Server)
      → Keeps V s (notify_channel name line p c s)
  unfolding notify_channel
  notify_channel-Keeps name line p none s = same-Keeps V s
  notify_channel-Keeps name line p (some c) s = search (kept, sendtochannel-Keeps)

  pub chirc_handle_notice-Keeps :
      (u : ℕ) (params : List Text) (s : Server) → Keeps V s (chirc_handle_notice u params s)
  unfolding chirc_handle_notice
  chirc_handle_notice-Keeps u params s =
      search (if_registered-Keeps, bind-Keeps, notify_user-Keeps, notify_channel-Keeps)

  pub chirc_handle_away-Keeps :
      (u : ℕ) (params : List Text) (s : Server) → Keeps V s (chirc_handle_away u params s)
  unfolding chirc_handle_away back_mode away_mode
  chirc_handle_away-Keeps u params s = if_registered-Keeps v u _ s (λ p t.
      if-Keeps V t (is_empty (param params 1)) _ _
        (set_user-Keeps v u back_mode t _ (λ q. (refl, refl, refl, refl)) (search (reply_to-Keeps)))
        (set_user-Keeps v u (away_mode (param params 1)) t _ (λ q. (refl, refl, refl, refl))
          (search (reply_to-Keeps))))

  pub answer_topic-Keeps :
      (u : ℕ) (cname topic : Text) (s : Server) → Keeps V s (answer_topic u cname topic s)
  unfolding answer_topic
  answer_topic-Keeps u cname topic s = search (kept)

  change_topic-Keeps :
      (u : ℕ) (cname topic : Text) (p : Person) (c : ℕ) (chan : Channel) (s : Server)
      → Keeps V s (change_topic u cname topic p c chan s)
  unfolding change_topic set_topic
  change_topic-Keeps u cname topic p c chan s =
      call-Keeps V s (may_set_topic cname chan p) _ (λ allowed.
        if-Keeps V s allowed _ _
          (call-Keeps V s (long_line _) _ (λ line.
            from-Keeps V s (sendtochannel chan.name line none (set_channel c (set_topic topic) s)) _
              (relay-Same v chan.name line none s (set_channel c (set_topic topic) s)
                (set_channel-Same v c (set_topic topic) s (λ x. refl)))
              (answer_topic-Keeps u cname topic _)))
          (search (reply_to-Keeps)))

  topic_of-Keeps :
      (u : ℕ) (cname topic : Text) (p : Person) (s : Server)
      → Keeps V s (topic_of u cname topic p s)
  unfolding topic_of
  topic_of-Keeps u cname topic p s = search (kept, answer_topic-Keeps, change_topic-Keeps)

  pub chirc_handle_topic-Keeps :
      (u : ℕ) (params : List Text) (s : Server) → Keeps V s (chirc_handle_topic u params s)
  unfolding chirc_handle_topic
  chirc_handle_topic-Keeps u params s = search (kept, topic_of-Keeps)

  pub tell_topic-Keeps :
      (u : ℕ) (cname topic : Text) (s : Server) → Keeps V s (tell_topic u cname topic s)
  unfolding tell_topic
  tell_topic-Keeps u cname topic s = search (kept)

  pub announce-Keeps :
      (u : ℕ) (c : Text) (chan : Channel) (p : Person) (s : Server)
      → Keeps V s (announce u c chan p s)
  unfolding announce
  announce-Keeps u c chan p s = call-Keeps V s (long_line _) _ (λ line.
      bind-Keeps V s _ _
        (from-Keeps V s (sendtochannel chan.name line none s) _
          (sendtochannel-Same v chan.name line none s) (tell_topic-Keeps u c chan.topic _))
        (search (kept)))
