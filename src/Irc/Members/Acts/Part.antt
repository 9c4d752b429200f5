-- ===== src/Irc/Members/Acts/Part.antt =====
-- src/handlers.c: PART against what each user has.
use uchi_networks.Common.{
  ℕ, ◌<◌, ◌≡◌, refl, sym, ◌∙◌, subst, true, false, Bool-cases, inl, inr, List, [], ◌∷◌, map, Option,
  none, some, ◌>>=◌, Ensures, then-Ensures, Returns, Returns→Ensures, bind-Returns, got-Ensures,
  if-known, arith,
}
use uchi_networks.Irc.Parse.{Text}
use uchi_networks.Irc.Types.{
  Channel, Person, Server, at, update_at, param, seek_channel, set_user, list_contains,
}
use uchi_networks.Irc.Utils.{leave_channel, sendtochannel}
use uchi_networks.Irc.Channel.{long_line}
use uchi_networks.Irc.Handlers.Rooms.{
  forget_my_chan, leave, part_from, part_line, chirc_handle_part,
}
use uchi_networks.Irc.Members.{
  names_in, named_count, rooms, counts, has, without, users_of, IsCounted, IsConsistent,
}
use uchi_networks.Irc.Members.Counts.{members-remove}
use uchi_networks.Irc.Members.Channels.{seek-users}
use uchi_networks.Irc.Members.Views.{
  at-map, seek_channel-seek, list_contains-has, names_in-forget_my_chan, map-update_known,
}
use uchi_networks.Irc.Members.Leaving.{IsLeaving, leave_first}
use uchi_networks.Irc.Members.Steps.{part-IsLeaving, leave-IsCounted}
use uchi_networks.Irc.Members.Kept.Names.{places, places-IsView}
use uchi_networks.Irc.Members.Kept.{Keeps, reply_to-Keeps}
use uchi_networks.Irc.Members.Handlers.{Meets, Keeps-Meets}
use uchi_networks.Irc.Members.Acts.{IsIdle, update_at-known, update_at-id}

-- A user without the channel.
without-guest : (ns : List Text) (c : Text) → has ns c ≡ false → without c ns ≡ ns
unfolding has without
without-guest [] c h = refl
without-guest (n ∷ ns) c h = ground (arith, without-guest ns c)

parted-guest :
    (rs : List (List Text)) (u : ℕ) (ns : List Text) (c : Text)
    → at rs u ≡ some ns
    → has ns c ≡ false
    → update_at u (without c) rs ≡ rs
parted-guest rs u ns c e k =
    update_at-known (without c) rs u ns ns e (without-guest ns c k) (λ x. x) refl
    ∙ update_at-id rs u

forget-rooms :
    (u : ℕ) (c : Text) (p : Person) (cs : List Channel) (s : Server)
    → at s.userlist u ≡ some p
    → p.iterating ≡ false
    → rooms (set_user u (forget_my_chan c) (record s { chanlist = cs }))
      ≡ update_at u (without c) (rooms s)
unfolding set_user
forget-rooms u c p cs s e w =
    map-update_known names_in (forget_my_chan c) (without c) s.userlist u p e
      (names_in-forget_my_chan c p w)

-- A user with the channel leaves it.
leave-Returns :
    (u : ℕ) (c : Text) (p : Person) (i : ℕ) (s : Server)
    → IsConsistent s
    → at s.userlist u ≡ some p
    → p.iterating ≡ false
    → has (names_in p) c ≡ true
    → seek_channel c s.chanlist ≡ some i
    → Returns (Meets (update_at u (without c) (rooms s))) (leave u c i s)
unfolding leave set_user
leave-Returns u c p i s h e w k f =
    bind-Returns (λ cs. IsLeaving [] (update_at u (without c) (rooms s)) (map named_count cs))
      (Meets (update_at u (without c) (rooms s))) (leave_channel i s.chanlist) _
      (subst
        (λ o.
          Returns (λ cs. IsLeaving [] (update_at u (without c) (rooms s)) (map named_count cs))
            (o >>= λ j. leave_channel j s.chanlist))
        f
        (leave_first c [] (update_at u (without c) (rooms s)) s.chanlist (
          part-IsLeaving (rooms s) (counts s) u (names_in p) c h (at-map names_in s.userlist u p e)
            k)))
      (λ cs l. (
        subst (λ rs. IsCounted rs (map named_count cs)) (sym (forget-rooms u c p cs s e w))
            (leave-IsCounted (rooms s) (counts s) u (names_in p) c h (map named_count cs) l),
        forget-rooms u c p cs s e w,
      ))

-- A channel that is not found is nobody's.
lost-guest :
    (u : ℕ) (c : Text) (ns : List Text) (s : Server)
    → IsConsistent s
    → at (rooms s) u ≡ some ns
    → seek_channel c s.chanlist ≡ none
    → has ns c ≡ false
lost-guest u c ns s h e f = elim (Bool-cases (has ns c)) [
  | inl t ↦
      let users : 0 < users_of c (counts s) =
        ground (arith, h.counted c, members-remove (rooms s) u ns c e, t) in
      absurd (
        ground (
          arith,
          seek-users c (counts s) h.listed users,
          (sym (seek_channel-seek c s.chanlist) ∙ f),
        ))
  | inr t ↦ t
]

module _ (u : ℕ) (params : List Text) (s : Server) (h : IsConsistent s) (w : IsIdle u s) where
  module _ (p : Person) (e : at s.userlist u ≡ some p) where
    -- Nothing but an answer.
    answer-Meets :
        (m : Option Server)
        → has (names_in p) (param params 1) ≡ false
        → Keeps places s m
        → Ensures (Meets (update_at u (without (param params 1)) (rooms s))) m
    answer-Meets m t k =
        Keeps-Meets _ s m
          (subst (λ rs. Meets rs s)
            (sym (
              parted-guest (rooms s) u (names_in p) (param params 1)
                (at-map names_in s.userlist u p e) t))
            (h, refl))
          k

    part_from-Meets :
        (o : Option ℕ)
        → seek_channel (param params 1) s.chanlist ≡ o
        → Ensures
            (Meets (update_at u (without (param params 1)) (rooms s)))
            (part_from u params p o s)
    unfolding part_from sendtochannel
    part_from-Meets none f =
        answer-Meets _
          (lost-guest u (param params 1) (names_in p) s h (at-map names_in s.userlist u p e) f)
          (reply_to-Keeps places-IsView u _ _ _ s)
    part_from-Meets (some i) f =
        let P = Meets (update_at u (without (param params 1)) (rooms s)) in
        if-known P (list_contains p.my_chans (param params 1)) _ _
          (λ t. then-Ensures P (at s.chanlist i) _ (λ chan.
            then-Ensures P (long_line (part_line p params)) _ (λ line. Returns→Ensures P _ (
              leave-Returns u (param params 1) p i (sendtochannel chan.name line none s) h e (w p e)
                (sym (list_contains-has p.my_chans (param params 1)) ∙ t) f))))
          (λ t.
            answer-Meets _ (sym (list_contains-has p.my_chans (param params 1)) ∙ t)
              (reply_to-Keeps places-IsView u _ _ _ s))

  pub chirc_handle_part-Meets :
      Ensures
        (Meets (update_at u (without (param params 1)) (rooms s)))
        (chirc_handle_part u params s)
  unfolding chirc_handle_part
  chirc_handle_part-Meets =
      got-Ensures (Meets (update_at u (without (param params 1)) (rooms s))) (at s.userlist u) _
        (λ p e. part_from-Meets p e (seek_channel (param params 1) s.chanlist) refl)
