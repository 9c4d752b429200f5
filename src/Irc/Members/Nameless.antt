-- ===== src/Irc/Members/Nameless.antt =====
-- src/channel.c and utils.c: the end of a user who has joined a channel without a name.
use uchi_networks.Common.{
  ℕ, ◌≡◌, refl, sym, ap, ap₂, Bool, false, ◌∙◌, subst, true, List, [], ◌∷◌, map, none, some, ◌>>=◌,
  none-bind, Bool-cases, Option, Option-cases, inl, inr, text_eq_refl, bind-none, Ensures,
  then-Ensures, got-Ensures, if-known, map-Ensures, text_eq, text_eq→eq, arith,
}
use uchi_networks.Irc.Parse.{Text}
use uchi_networks.Irc.Strings.{is_empty}
use uchi_networks.Irc.Types.{
  MyChan, Channel, Person, Server, at, set_user, set_channel, iterated, set_iterating, update_at,
  param, find_at, fun_seek, seek_channel, list_contains,
}
use uchi_networks.Irc.Utils.{send_each, sendtoallchans, sendtochannel}
use uchi_networks.Irc.Channel.{Opened, open_channel, add_my_chan, enter, channel_join}
use uchi_networks.Irc.Handlers.Register.{chirc_handle_quit}
use uchi_networks.Irc.Handlers.Rooms.{chirc_handle_join}
use uchi_networks.Irc.Members.{my_name, names_in, has}
use uchi_networks.Irc.Members.Counts.{has-add_to}
use uchi_networks.Irc.Members.Views.{
  at-map, list_contains-has, update_at-same, names_in-add_my_chan,
}
use uchi_networks.Irc.Members.Kept.{IsView, Same, Keeps}
use uchi_networks.Irc.Members.Kept.Talk.{announce-Keeps}
use uchi_networks.Irc.Members.Acts.{IsIdle, at-update_at}

nameless_lost : (cs : List Channel) → seek_channel [] cs ≡ none
unfolding seek_channel find_at fun_seek is_empty
nameless_lost [] = refl
nameless_lost (c ∷ cs) = rw (nameless_lost cs) refl

nameless_faults :
    (msg nick : Text) (ms : List MyChan) (s : Server)
    → has (map my_name ms) [] ≡ true
    → send_each msg nick ms s ≡ none
unfolding send_each has
nameless_faults msg nick [] s h = ground (arith, h)
nameless_faults msg nick (m ∷ ms) s h = elim (Bool-cases (text_eq m.name [])) [
  | inl t ↦
      ap
        (λ o. o >>= λ c. at s.chanlist c >>= λ chan.
          send_each msg nick ms (sendtochannel chan.name msg (some nick) s))
        (ap (λ n. seek_channel n s.chanlist) (text_eq→eq m.name [] t) ∙ nameless_lost s.chanlist)
  | inr t ↦ bind-none (seek_channel m.name s.chanlist) _ (λ c.
      bind-none (at s.chanlist c) _ (λ chan. nameless_faults msg nick ms _ (ground (arith, h, t))))
]

-- What a user's list has, and whether it is iterated over.
abbrev spot : Person → List Text × Bool
spot p = (names_in p, p.iterating)

abbrev spots : Server → List (List Text × Bool)
spots s = map spot s.userlist

spots-IsView : IsView spots
unfolding set_user set_channel
spots-IsView = record {
  sends = λ s l. refl;
  user = λ u f s h. update_at-same spot f s.userlist u (λ p. ap₂ (λ a b. (a, b)) (h p).0 (h p).3);
  channel = λ c f s h. refl;
}

-- A list that is not iterated over, and has a channel without a name.
abbrev IsNameless : List Text × Bool → Type 0
IsNameless x = (has x.0 [] ≡ true) × (x.1 ≡ false)

abbrev HasNameless : ℕ → Server → Type 0
HasNameless u t = Ensures IsNameless (at (spots t) u)

added_idle : (b : Bool) (p : Person) → p.iterating ≡ false → (add_my_chan [] b p).iterating ≡ false
unfolding add_my_chan
added_idle b p i = simp (i)

added-IsNameless :
    (b : Bool) (p : Person) → p.iterating ≡ false → IsNameless (spot (add_my_chan [] b p))
added-IsNameless b p i = (
  subst (λ ns. has ns [] ≡ true) (sym (names_in-add_my_chan [] b p i))
      (ground (arith, has-add_to (names_in p) [] [], text_eq_refl [])),
  added_idle b p i,
)

enter-HasNameless :
    (u : ℕ) (o : Opened) (p : Person) (s : Server)
    → at s.userlist u ≡ some p
    → p.iterating ≡ false
    → HasNameless u (enter u [] o s)
unfolding enter set_user set_channel
enter-HasNameless u o p s e i =
    subst (Ensures IsNameless)
      (sym (
        at-map spot (update_at u (add_my_chan [] o.is_new) s.userlist) u _
          (at-update_at (add_my_chan [] o.is_new) s.userlist u p e)))
      (added-IsNameless o.is_new p i)

join-HasNameless : (u : ℕ) (s : Server) → IsIdle u s → Ensures (HasNameless u) (channel_join u [] s)
unfolding channel_join Keeps
join-HasNameless u s i =
    let o = open_channel [] s.chanlist (seek_channel [] s.chanlist) in
    got-Ensures (HasNameless u) (at s.userlist u) _ (λ p e.
      then-Ensures (HasNameless u) (at o.channels o.position) _ (λ chan.
        if-known (HasNameless u) (list_contains p.my_chans []) _ _
          (λ t.
            subst (Ensures IsNameless) (sym (at-map spot s.userlist u p e))
              (sym (list_contains-has p.my_chans []) ∙ t, i p e))
          (λ t.
            map-Ensures (Same spots (enter u [] o s)) (HasNameless u) _
              (λ r k.
                subst (λ x. Ensures IsNameless (at x u)) (sym k)
                  (enter-HasNameless u o p s e (i p e)))
              (announce-Keeps spots-IsView u [] chan p (enter u [] o s)))))

walk_faults :
    (msg : Text) (p : Person) (t : Server)
    → IsNameless (spot p)
    → send_each msg p.nick (iterated p) t ≡ none
unfolding iterated
walk_faults msg p t k = rw k.1 (nameless_faults msg p.nick p.my_chans t k.0)

sendtoallchans-nameless :
    (u : ℕ) (msg : Text) (t : Server) → HasNameless u t → sendtoallchans u msg t ≡ none
unfolding sendtoallchans
sendtoallchans-nameless u msg t h = elim (Option-cases (at t.userlist u)) [
  | inl e ↦ ap (λ o. o >>= sends) e
  | inr r ↦
      ap (λ o. o >>= sends) r.1
      ∙ none-bind _ _
          (walk_faults msg r.0 t (subst (Ensures IsNameless) (at-map spot t.userlist u r.0 r.1) h))
]
  where
    sends : Person → Option Server
    sends p = send_each msg p.nick (iterated p) t >>= λ r. some (set_user u (set_iterating false) r)

-- After a JOIN with an empty name, by a user over whose channels no iterator was left, the QUIT of
-- that user faults.
pub join_quit_faults :
    (u : ℕ) (params msg : List Text) (s t : Server)
    → IsIdle u s
    → param params 1 ≡ []
    → chirc_handle_join u params s ≡ some t
    → chirc_handle_quit u msg t ≡ none
unfolding chirc_handle_join chirc_handle_quit
join_quit_faults u params msg s t i n e =
    let left : HasNameless u t =
      subst (Ensures (HasNameless u)) (sym (ap (λ c. channel_join u c s) n) ∙ e)
        (join-HasNameless u s i) in
    bind-none (at t.userlist u) _
      (λ p. none-bind (sendtoallchans u _ t) _ (sendtoallchans-nameless u _ t left))
