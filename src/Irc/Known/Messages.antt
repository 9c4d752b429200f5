-- ===== src/Irc/Known/Messages.antt =====
-- src/handlers.c: handle_chirc_message against the names of the users.
use uchi_networks.Common.{
  ℕ, ◌≡◌, refl, sym, ap, true, Bool, Bool-cases, inl, inr, List, Option, none, some, Ensures,
  text_eq, arith,
}
use uchi_networks.Irc.Parse.{Text}
use uchi_networks.Irc.Strings.{codes}
use uchi_networks.Irc.Types.{
  Person, Server, at, param, set_user, set_channel, seek_channel, list_contains,
}
use uchi_networks.Irc.Utils.{sendtochannel, leave_channel}
use uchi_networks.Irc.Channel.{Opened, open_channel, add_my_chan, enter, channel_join, long_line}
use uchi_networks.Irc.Handlers.Rooms.{
  chirc_handle_join, forget_my_chan, leave, part_from, part_line, chirc_handle_part,
}
use uchi_networks.Irc.Handlers.Dispatch.{handle_chirc_message}
use uchi_networks.Irc.Members.Views.{update_at-same}
use uchi_networks.Irc.Members.Kept.{
  Same, Keeps, call-Keeps, if-Keeps, some-Keeps, from-Keeps, reply_to-Keeps, sendtochannel-Same,
  kept,
}
use uchi_networks.Irc.Members.Kept.Talk.{announce-Keeps}
use uchi_networks.Irc.Members.Kept.Dispatch.{is_other, IsHandled, handle_chirc_message-Ensures}
use uchi_networks.Irc.Known.{both_names, Roll, roll, roll-IsView, roll-IsUnwalked, enroll}
use uchi_networks.Irc.Known.Names.{
  Knows, Keeps-Knows, chirc_handle_nick-Knows, chirc_handle_user-Knows, chirc_handle_quit-Knows,
}

add_my_chan-names :
    (c : Text) (b : Bool) (p : Person) → both_names (add_my_chan c b p) ≡ both_names p
unfolding add_my_chan
add_my_chan-names c b p = elim (Bool-cases p.iterating) [ inl e ↦ rw e refl | inr e ↦ rw e refl ]

forget_my_chan-names : (c : Text) (p : Person) → both_names (forget_my_chan c p) ≡ both_names p
unfolding forget_my_chan
forget_my_chan-names c p = elim (Bool-cases p.iterating) [ inl e ↦ rw e refl | inr e ↦ rw e refl ]

enter-Same : (u : ℕ) (c : Text) (o : Opened) (s : Server) → Same roll s (enter u c o s)
unfolding enter set_user set_channel
enter-Same u c o s =
    ap (λ l. (l, s.numregistered))
      (update_at-same both_names (add_my_chan c o.is_new) s.userlist u
        (add_my_chan-names c o.is_new))

channel_join-Keeps : (u : ℕ) (c : Text) (s : Server) → Keeps roll s (channel_join u c s)
unfolding channel_join
channel_join-Keeps u c s =
    let o = open_channel c s.chanlist (seek_channel c s.chanlist) in
    call-Keeps roll s (at s.userlist u) _ (λ p.
      call-Keeps roll s (at o.channels o.position) _ (λ chan.
        if-Keeps roll s (list_contains p.my_chans c) _ _ (some-Keeps roll s _ refl) (
          from-Keeps roll s (enter u c o s) _ (enter-Same u c o s)
            (announce-Keeps roll-IsView u c chan p (enter u c o s)))))

leave-Keeps : (u : ℕ) (c : Text) (i : ℕ) (s : Server) → Keeps roll s (leave u c i s)
unfolding leave set_user
leave-Keeps u c i s = call-Keeps roll s (leave_channel i s.chanlist) _ (λ cs. some-Keeps roll s _ (
    ap (λ l. (l, s.numregistered))
      (update_at-same both_names (forget_my_chan c) s.userlist u (forget_my_chan-names c))))

part_from-Keeps :
    (u : ℕ) (params : List Text) (p : Person) (o : Option ℕ) (s : Server)
    → Keeps roll s (part_from u params p o s)
unfolding part_from
part_from-Keeps u params p none s = search (kept, roll-IsView)
part_from-Keeps u params p (some i) s =
    if-Keeps roll s (list_contains p.my_chans (param params 1)) _ _
      (call-Keeps roll s (at s.chanlist i) _ (λ chan.
        call-Keeps roll s (long_line (part_line p params)) _ (λ line.
          from-Keeps roll s (sendtochannel chan.name line none s) _
            (sendtochannel-Same roll-IsView chan.name line none s)
            (leave-Keeps u (param params 1) i _))))
      (reply_to-Keeps roll-IsView u _ _ _ s)

chirc_handle_part-Keeps :
    (u : ℕ) (params : List Text) (s : Server) → Keeps roll s (chirc_handle_part u params s)
unfolding chirc_handle_part
chirc_handle_part-Keeps u params s = search (call-Keeps, part_from-Keeps)

enroll_other :
    (u : ℕ) (command name : Text) (k : Roll) → is_other command ≡ true → enroll u command name k ≡ k
unfolding enroll is_other
enroll_other u command name k o = ground (arith, o)

module _ (u : ℕ) (params : List Text) (s : Server) where
  abbrev Learnt : Text → Server → Type 0
  Learnt command t = Knows (enroll u command (param params 1) (roll s)) t

  Learnt-Keeps :
      (command : Text) (m : Option Server)
      → enroll u command (param params 1) (roll s) ≡ roll s
      → Keeps roll s m
      → Ensures (Learnt command) m
  Learnt-Keeps command m e k = Keeps-Knows _ s m (sym e) k

  message-IsHandled : IsHandled roll u params s Learnt
  unfolding enroll is_other text_eq chirc_handle_join
  message-IsHandled = record {
    on_nick = chirc_handle_nick-Knows u params s;
    on_user = chirc_handle_user-Knows u params s;
    on_quit = chirc_handle_quit-Knows u params s;
    on_join = λ e. Learnt-Keeps (codes "JOIN") _ refl (channel_join-Keeps u (param params 1) s);
    on_part = λ e. Learnt-Keeps (codes "PART") _ refl (chirc_handle_part-Keeps u params s);
    on_other = λ command m o k.
        Learnt-Keeps command m (enroll_other u command (param params 1) (roll s) o) k;
  }

  -- Who has which names, and how many users count as registered.
  pub handle_chirc_message-Knows :
      Ensures (Learnt (param params 0)) (handle_chirc_message u params s)
  handle_chirc_message-Knows =
      handle_chirc_message-Ensures roll-IsView roll-IsUnwalked u params s Learnt message-IsHandled
