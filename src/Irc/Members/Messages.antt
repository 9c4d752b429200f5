-- ===== src/Irc/Members/Messages.antt =====
-- src/handlers.c: handle_chirc_message against who is on which channel.
use uchi_networks.Common.{
  ℕ, ◌+◌, ◌<◌, ◌≤◌, ◌≡◌, refl, sym, ap, subst, true, false, if◌then◌else◌, List, [], ◌∷◌, ◌++◌,
  Option, All, All-append, length, length-append, ◌∙◌, Ensures, bind-Ensures, got-Ensures,
  both-Ensures, Option-cases, inl, inr, Returns→Ensures, text_eq, arith,
}
use uchi_networks.Irc.Parse.{Text}
use uchi_networks.Irc.Strings.{codes, is_empty}
use uchi_networks.Irc.Types.{Server, at, update_at, remove_at, param}
use uchi_networks.Irc.Handlers.Register.{add_client, chirc_handle_quit}
use uchi_networks.Irc.Handlers.Rooms.{chirc_handle_join}
use uchi_networks.Irc.Handlers.Dispatch.{
  handle_chirc_message, Event, connects, sends, handle, handle_all,
}
use uchi_networks.Irc.Members.{
  names_in, rooms, counts, has, without, members, IsCounted, IsOnce, IsConsistent,
}
use uchi_networks.Irc.Members.Views.{map-snoc}
use uchi_networks.Irc.Members.Steps.{length-update_at, length-remove_at}
use uchi_networks.Irc.Members.Kept.Names.{
  places, places-IsView, places-IsUnwalked, chirc_handle_nick-Keeps, chirc_handle_user-Keeps,
}
use uchi_networks.Irc.Members.Kept.{Keeps}
use uchi_networks.Irc.Members.Kept.Dispatch.{is_other, IsHandled, handle_chirc_message-Ensures}
use uchi_networks.Irc.Members.Handlers.{Meets, Keeps-Meets}
use uchi_networks.Irc.Members.Acts.{IsIdle}
use uchi_networks.Irc.Members.Acts.Join.{joined, channel_join-Meets}
use uchi_networks.Irc.Members.Acts.Part.{chirc_handle_part-Meets}
use uchi_networks.Irc.Members.Acts.Quit.{chirc_handle_quit-Returns}

-- What a message does to the users' channels: only three commands change them.
unfoldable pub act : ℕ → (command name : Text) → List (List Text) → List (List Text)
act u command name rs =
    if text_eq command (codes "JOIN")
    then update_at u (joined name) rs
    else if text_eq command (codes "PART")
    then update_at u (without name) rs
    else if text_eq command (codes "QUIT")
    then remove_at u rs
    else rs

act_other :
    (u : ℕ) (command name : Text) (rs : List (List Text))
    → is_other command ≡ true
    → act u command name rs ≡ rs
unfolding act is_other
act_other u command name rs o = ground (arith, o)

chirc_handle_quit-Meets :
    (u : ℕ) (msg : List Text) (s : Server)
    → IsConsistent s
    → Ensures (Meets (remove_at u (rooms s))) (chirc_handle_quit u msg s)
unfolding chirc_handle_quit
chirc_handle_quit-Meets u msg s h = elim (Option-cases (at s.userlist u)) [
  | inl n ↦
      got-Ensures (Meets (remove_at u (rooms s))) (at s.userlist u) _
        (λ p e. absurd (ground (arith, n, e)))
  | inr r ↦
      Returns→Ensures (Meets (remove_at u (rooms s))) (chirc_handle_quit u msg s)
        (chirc_handle_quit-Returns u r.0 s r.1 h msg)
]

-- No JOIN without a name.
abbrev pub IsNamed : List Text → Type 0
IsNamed params = param params 0 ≡ codes "JOIN" → is_empty (param params 1) ≡ false

-- No JOIN and no PART by a user over whose channels an iterator was left.
abbrev pub IsFree : ℕ → List Text → Server → Type 0
IsFree u params s =
    (param params 0 ≡ codes "JOIN" → IsIdle u s) × (param params 0 ≡ codes "PART" → IsIdle u s)

module _ (u : ℕ) (params : List Text) (s : Server) (h : IsConsistent s) (n : IsNamed params)
    (w : IsFree u params s) where
  -- What the message makes of the users' channels.
  abbrev Acted : Text → Server → Type 0
  Acted command t = Meets (act u command (param params 1) (rooms s)) t

  Acted-Keeps :
      (command : Text) (m : Option Server)
      → act u command (param params 1) (rooms s) ≡ rooms s
      → Keeps places s m
      → Ensures (Acted command) m
  Acted-Keeps command m e k = Keeps-Meets _ s m (subst (λ rs. Meets rs s) (sym e) (h, refl)) k

  message-IsHandled : IsHandled places u params s Acted
  unfolding act is_other text_eq chirc_handle_join
  message-IsHandled = record {
    on_nick = Acted-Keeps (codes "NICK") _ refl (chirc_handle_nick-Keeps u params s);
    on_user = Acted-Keeps (codes "USER") _ refl (chirc_handle_user-Keeps u params s);
    on_quit = chirc_handle_quit-Meets u params s h;
    on_join = λ e. channel_join-Meets u (param params 1) s h (n e) (w.0 e);
    on_part = λ e. chirc_handle_part-Meets u params s h (w.1 e);
    on_other =
        λ command m o k. Acted-Keeps command m (act_other u command (param params 1) (rooms s) o) k;
  }

  pub handle_chirc_message-Meets :
      Ensures (Acted (param params 0)) (handle_chirc_message u params s)
  handle_chirc_message-Meets =
      handle_chirc_message-Ensures places-IsView places-IsUnwalked u params s Acted
        message-IsHandled

-- The same events on the users' channels alone.
unfoldable pub act_on : Event → List (List Text) → List (List Text)
act_on (connects socket address) rs = rs ++ ([] ∷ [])
act_on (sends u params) rs = act u (param params 0) (param params 1) rs

unfoldable pub act_all : List Event → List (List Text) → List (List Text)
act_all [] rs = rs
act_all (e ∷ es) rs = act_all es (act_on e rs)

abbrev pub IsNamedEvent : Event → Type 0
IsNamedEvent (connects socket address) = Unit
IsNamedEvent (sends u params) = IsNamed params

abbrev pub IsFreeEvent : Event → Server → Type 0
IsFreeEvent (connects socket address) s = Unit
IsFreeEvent (sends u params) s = IsFree u params s

-- This holds of each event in the state that the events before it lead to.
unfoldable pub IsFreeRun : List Event → Server → Type 0
IsFreeRun [] s = Unit
IsFreeRun (e ∷ es) s = IsFreeEvent e s × Ensures (IsFreeRun es) (handle e s)

members-client : (c : Text) (rs : List (List Text)) → members c (rs ++ ([] ∷ [])) ≡ members c rs
unfolding members has
members-client c [] = refl
members-client c (ns ∷ rs) = ground (arith, members-client c rs)

length-act_on : (e : Event) (rs : List (List Text)) → length (act_on e rs) ≤ length rs + 1
unfolding act_on act
length-act_on (connects socket address) rs = omega (arith, length-append rs ([] ∷ []))
length-act_on (sends u params) rs = ground (
  arith,
  length-update_at (joined (param params 1)) rs u,
  length-update_at (without (param params 1)) rs u,
  length-remove_at rs u,
)

add_client-Meets :
    (socket : ℕ) (address : Text) (s : Server)
    → length (rooms s) + 1 < 4294967296
    → IsConsistent s
    → Meets (rooms s ++ ([] ∷ [])) (add_client socket address s)
unfolding add_client
add_client-Meets socket address s b h =
    let grown = map-snoc names_in s.userlist _ in
    (
      subst (λ rs. IsCounted rs (counts s)) (sym grown)
          (record {
            counted = λ c. h.counted c ∙ sym (members-client c (rooms s));
            listed = h.listed;
            once = All-append IsOnce (rooms s) ([] ∷ []) h.once (tt, tt);
            bounded = omega (arith, b, length-append (rooms s) ([] ∷ []));
          }),
      grown,
    )

handle-Meets :
    (e : Event) (s : Server)
    → length (rooms s) + 1 < 4294967296
    → IsNamedEvent e
    → IsFreeEvent e s
    → IsConsistent s
    → Ensures (Meets (act_on e (rooms s))) (handle e s)
unfolding handle act_on
handle-Meets (connects socket address) s b n w h = add_client-Meets socket address s b h
handle-Meets (sends u params) s b n w h = handle_chirc_message-Meets u params s h n w

-- Whatever clients connect and send, if no JOIN is without a name, no JOIN or PART comes from a user
-- over whose channels a WHOIS has left an iterator, there are fewer than 2^32 users, and all is
-- handled without a fault: every channel that a user has is on the server's list, once, under a name
-- that is not empty and with the number of its users, no channel is without users, and who is on
-- which channel is what the JOINs, PARTs and QUITs alone make of it, if this was so before.
pub handle_all-Meets :
    (es : List Event) (s : Server)
    → length (rooms s) + length es < 4294967296
    → All IsNamedEvent es
    → IsFreeRun es s
    → IsConsistent s
    → Ensures (Meets (act_all es (rooms s))) (handle_all es s)
unfolding handle_all act_all IsFreeRun
handle_all-Meets [] s b n w h = (h, refl)
handle_all-Meets (e ∷ es) s b n w h =
    bind-Ensures (λ t. IsFreeRun es t × Meets (act_on e (rooms s)) t)
      (Meets (act_all es (act_on e (rooms s)))) (handle e s) _
      (both-Ensures (IsFreeRun es) (Meets (act_on e (rooms s))) (handle e s) w.1
        (handle-Meets e s (omega (arith, b)) n.0 w.0 h))
      (λ t m.
        subst (λ rs. Ensures (Meets (act_all es rs)) (handle_all es t)) m.1.1
          (handle_all-Meets es t (omega (arith, b, length-act_on e (rooms s), ap length m.1.1)) n.1
            m.0 m.1.0))
