-- ===== src/Irc/Members/Kept/Dispatch.antt =====
-- src/handlers.c: handle_chirc_message, of which only five commands need a proof of their own.
use uchi_networks.Common.{
  ℕ, ◌≡◌, refl, sym, subst, Bool, true, false, not, ◌&&◌, if◌then◌else◌, List, Option, Ensures,
  if-known, text_eq, text_eq→eq,
}
use uchi_networks.Irc.Parse.{Text}
use uchi_networks.Irc.Strings.{codes}
use uchi_networks.Irc.Types.{Server, param}
use uchi_networks.Irc.Handlers.Register.{chirc_handle_nick, chirc_handle_user, chirc_handle_quit}
use uchi_networks.Irc.Handlers.Rooms.{chirc_handle_join, chirc_handle_part}
use uchi_networks.Irc.Handlers.Dispatch.{handle_chirc_message}
use uchi_networks.Irc.Members.Kept.{IsView, IsUnwalked, Keeps, same-Keeps}
use uchi_networks.Irc.Members.Kept.Register.{
  chirc_handle_lusers-Keeps, chirc_handle_motd-Keeps, chirc_handle_ping-Keeps,
  chirc_handle_unknown-Keeps,
}
use uchi_networks.Irc.Members.Kept.Talk.{
  chirc_handle_privmsg-Keeps, chirc_handle_notice-Keeps, chirc_handle_away-Keeps,
  chirc_handle_topic-Keeps,
}
use uchi_networks.Irc.Members.Kept.Modes.{chirc_handle_mode-Keeps, chirc_handle_oper-Keeps}
use uchi_networks.Irc.Members.Kept.Queries.{
  chirc_handle_whois-Keeps, chirc_handle_list-Keeps, chirc_handle_names-Keeps,
  chirc_handle_who-Keeps,
}

-- The commands that change neither names nor channels.
unfoldable pub is_other : Text → Bool
is_other c =
    not (text_eq c (codes "NICK"))
    && not (text_eq c (codes "USER"))
    && not (text_eq c (codes "QUIT"))
    && not (text_eq c (codes "JOIN"))
    && not (text_eq c (codes "PART"))

-- What a message does, from what it does under each of the five commands and what holds of the rest.
pub record IsHandled {X : Type 0} (V : Server → X) (u : ℕ) (params : List Text) (s : Server)
    (P : Text → Server → Type 0) : Type 0 where
  pub on_nick : Ensures (P (codes "NICK")) (chirc_handle_nick u params s)
  pub on_user : Ensures (P (codes "USER")) (chirc_handle_user u params s)
  pub on_quit : Ensures (P (codes "QUIT")) (chirc_handle_quit u params s)
  pub on_join :
      param params 0 ≡ codes "JOIN" → Ensures (P (codes "JOIN")) (chirc_handle_join u params s)
  pub on_part :
      param params 0 ≡ codes "PART" → Ensures (P (codes "PART")) (chirc_handle_part u params s)
  pub on_other :
      (command : Text) (m : Option Server)
      → is_other command ≡ true
      → Keeps V s m
      → Ensures (P command) m

-- A command that is compared with a name.
on_command :
    (P : Text → Server → Type 0) (command name : Text) (x y : Option Server)
    → (command ≡ name → Ensures (P name) x)
    → (text_eq command name ≡ false → Ensures (P command) y)
    → Ensures (P command) (if text_eq command name then x else y)
on_command P command name x y h k =
    if-known (P command) (text_eq command name) x y
      (λ t.
        let same = text_eq→eq command name t in subst (λ n. Ensures (P n) x) (sym same) (h same))
      k

module _ {X : Type 0} {V : Server → X} (v : IsView V) (w : IsUnwalked V) (u : ℕ)
    (params : List Text) (s : Server) (P : Text → Server → Type 0)
    (h : IsHandled V u params s P) where
  other :
      (command name : Text) (x y : Option Server)
      → is_other name ≡ true
      → Keeps V s x
      → (text_eq command name ≡ false → Ensures (P command) y)
      → Ensures (P command) (if text_eq command name then x else y)
  other command name x y o k r = on_command P command name x y (λ e. h.on_other name x o k) r

  pub handle_chirc_message-Ensures : Ensures (P (param params 0)) (handle_chirc_message u params s)
  unfolding handle_chirc_message is_other text_eq
  handle_chirc_message-Ensures =
      let c = param params 0 in
      on_command P c (codes "NICK") _ _ (λ e. h.on_nick)
        λ n1.
          on_command P c (codes "USER") _ _ (λ e. h.on_user)
            λ n2.
              on_command P c (codes "QUIT") _ _ (λ e. h.on_quit)
                λ n3.
                  other c (codes "PRIVMSG") _ _ refl (chirc_handle_privmsg-Keeps v u params s) λ _.
                    other c (codes "NOTICE") _ _ refl (chirc_handle_notice-Keeps v u params s) λ _.
                      other c (codes "WHOIS") _ _ refl (chirc_handle_whois-Keeps v w u params s)
                        λ _. other c (codes "PING") _ _ refl (chirc_handle_ping-Keeps v u s) λ _.
                          other c (codes "PONG") _ _ refl (same-Keeps V s) λ _.
                            other c (codes "LUSERS") _ _ refl (chirc_handle_lusers-Keeps v u s) λ _.
                              other c (codes "MOTD") _ _ refl (chirc_handle_motd-Keeps v u s) λ _.
                                on_command P c (codes "JOIN") _ _ h.on_join λ n4.
                                  other c (codes "AWAY") _ _ refl
                                    (chirc_handle_away-Keeps v u params s)
                                    λ _. on_command P c (codes "PART") _ _ h.on_part λ n5.
                                      other c (codes "TOPIC") _ _ refl
                                        (chirc_handle_topic-Keeps v u params s)
                                        λ _.
                                          other c (codes "NAMES") _ _ refl
                                            (chirc_handle_names-Keeps v u params s)
                                            λ _.
                                              other c (codes "MODE") _ _ refl
                                                (chirc_handle_mode-Keeps v u params s)
                                                λ _.
                                                  other c (codes "OPER") _ _ refl
                                                    (chirc_handle_oper-Keeps v u params s)
                                                    λ _.
                                                      other c (codes "LIST") _ _ refl
                                                        (chirc_handle_list-Keeps v u params s)
                                                        λ _.
                                                          other c (codes "WHO") _ _ refl
                                                            (chirc_handle_who-Keeps v w u params s)
                                                            λ _.
                                                            h.on_other c _
                                                            (rw (n1, n2, n3, n4, n5) refl)
                                                            (chirc_handle_unknown-Keeps v u c s)
