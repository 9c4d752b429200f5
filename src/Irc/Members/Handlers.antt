-- ===== src/Irc/Members/Handlers.antt =====
-- src/handlers.c: what each message does to who is on which channel.
use uchi_networks.Common.{
  ℕ, ◌≡◌, refl, sym, ap, ◌∙◌, subst, false, List, [], ◌∷◌, ◌++◌, map, Option, none, some, length,
  Ensures, Returns, map-Ensures, got-Returns, bind-Returns,
}
use uchi_networks.Irc.Parse.{Text}
use uchi_networks.Irc.Strings.{is_empty}
use uchi_networks.Irc.Types.{
  Channel, Person, Server, at, update_at, iterated, remove_at, set_user, set_channel,
}
use uchi_networks.Irc.Utils.{increment, leave_each, user_exit}
use uchi_networks.Irc.Channel.{Opened, open_channel, new_channel, add_my_chan, enter}
use uchi_networks.Irc.Members.{names_in, named_count, rooms, counts, has, IsCounted, IsConsistent}
use uchi_networks.Irc.Members.Counts.{add_to}
use uchi_networks.Irc.Members.Kept.Names.{places}
use uchi_networks.Irc.Members.Kept.{Same, Keeps}
use uchi_networks.Irc.Members.Channels.{seek, recount}
use uchi_networks.Irc.Members.Views.{
  at-map, map-update_known, map-remove_at, map-snoc, names_in-add_my_chan, counts-increment,
  one_more,
}
use uchi_networks.Irc.Members.Leaving.{IsLeaving, leave_each-IsLeaving}
use uchi_networks.Irc.Members.Steps.{
  enter-IsCounted, found-IsCounted, exit-IsLeaving, gone-IsCounted,
}

-- Consistent, and each user has these channels.
abbrev pub Meets : List (List Text) → Server → Type 0
Meets rs t = IsConsistent t × (rooms t ≡ rs)

pub Meets-Same : (rs : List (List Text)) (s t : Server) → Meets rs s → Same places s t → Meets rs t
Meets-Same rs s t h k = (subst (λ x. IsCounted x.0 x.1) (sym k) h.0, ap (λ x. x.0) k ∙ h.1)

pub Keeps-Meets :
    (rs : List (List Text)) (s : Server) (m : Option Server)
    → Meets rs s
    → Keeps places s m
    → Ensures (Meets rs) m
unfolding Keeps
Keeps-Meets rs s m h k = map-Ensures (Same places s) (Meets rs) m (λ t. Meets-Same rs s t h) k

-- user_exit finds each channel of the user, and takes the user off it.
pub user_exit-Returns :
    (u : ℕ) (p : Person) (s : Server)
    → at s.userlist u ≡ some p
    → p.iterating ≡ false
    → IsConsistent s
    → Returns (Meets (remove_at u (rooms s))) (user_exit u s)
unfolding user_exit iterated
user_exit-Returns u p s e i h =
    got-Returns (Meets (remove_at u (rooms s))) (at s.userlist u) p _ e (
      bind-Returns (λ cs. IsLeaving [] (remove_at u (rooms s)) (map named_count cs))
        (Meets (remove_at u (rooms s))) (leave_each (iterated p) s.chanlist) _
        (rw i (
          leave_each-IsLeaving p.my_chans (remove_at u (rooms s)) s.chanlist (
            exit-IsLeaving (rooms s) (counts s) u (names_in p) h
              (at-map names_in s.userlist u p e))))
        (λ cs l. (
          subst (λ rs. IsCounted rs (map named_count cs))
              (sym (map-remove_at names_in s.userlist u))
              (gone-IsCounted (rooms s) (counts s) u (names_in p) h (map named_count cs) l),
          map-remove_at names_in s.userlist u,
        )))

update_at-last {ℓ} :
    {A : Type ℓ} (f : A → A) (xs : List A) (x : A)
    → update_at (length xs) f (xs ++ (x ∷ [])) ≡ xs ++ (f x ∷ [])
update_at-last f [] x = refl
update_at-last f (y ∷ ys) x = ap (◌∷◌ y) (update_at-last f ys x)

-- The numbers after `enter`.
enter-counts :
    (u : ℕ) (c : Text) (o : Opened) (s : Server)
    → counts (enter u c o s) ≡ map named_count (update_at o.position increment o.channels)
unfolding enter set_user set_channel
enter-counts u c o s = refl

new-counts :
    (c : Text) (cs : List Channel)
    → map named_count (update_at (length cs) increment (cs ++ (new_channel c ∷ [])))
      ≡ map named_count cs ++ ((c, 1) ∷ [])
unfolding increment
new-counts c cs =
    ap (map named_count) (update_at-last increment cs (new_channel c))
    ∙ map-snoc named_count cs (increment (new_channel c))

pub enter-rooms :
    (u : ℕ) (c : Text) (o : Opened) (p : Person) (s : Server)
    → at s.userlist u ≡ some p
    → p.iterating ≡ false
    → rooms (enter u c o s) ≡ update_at u (add_to c) (rooms s)
unfolding enter set_user set_channel
enter-rooms u c o p s e i =
    map-update_known names_in (add_my_chan c o.is_new) (add_to c) s.userlist u p e
      (names_in-add_my_chan c o.is_new p i)

entered-Meets :
    (u : ℕ) (c : Text) (o : Opened) (s : Server) (ks : List (Text × ℕ))
    → rooms (enter u c o s) ≡ update_at u (add_to c) (rooms s)
    → counts (enter u c o s) ≡ ks
    → IsCounted (update_at u (add_to c) (rooms s)) ks
    → Meets (update_at u (add_to c) (rooms s)) (enter u c o s)
entered-Meets u c o s ks r e h = (
  subst (λ r. IsCounted r (counts (enter u c o s))) (sym r)
      (subst (IsCounted (update_at u (add_to c) (rooms s))) (sym e) h),
  r,
)

-- A user who is not on the channel comes onto it.
pub enter-Meets :
    (u : ℕ) (c : Text) (p : Person) (s : Server) (o : Option ℕ)
    → seek c (counts s) ≡ o
    → at s.userlist u ≡ some p
    → p.iterating ≡ false
    → has (names_in p) c ≡ false
    → is_empty c ≡ false
    → IsConsistent s
    → Meets (update_at u (add_to c) (rooms s)) (enter u c (open_channel c s.chanlist o) s)
unfolding open_channel
enter-Meets u c p s none f e w k n h =
    entered-Meets u c (open_channel c s.chanlist none) s (counts s ++ ((c, 1) ∷ []))
      (enter-rooms u c (open_channel c s.chanlist none) p s e w)
      (enter-counts u c (open_channel c s.chanlist none) s ∙ new-counts c s.chanlist)
      (found-IsCounted (rooms s) (counts s) u (names_in p) c h (at-map names_in s.userlist u p e) k
        n f)
enter-Meets u c p s (some i) f e w k n h =
    entered-Meets u c (open_channel c s.chanlist (some i)) s
      (update_at i (recount one_more) (counts s))
      (enter-rooms u c (open_channel c s.chanlist (some i)) p s e w)
      (enter-counts u c (open_channel c s.chanlist (some i)) s ∙ counts-increment i s.chanlist)
      (enter-IsCounted (rooms s) (counts s) u (names_in p) c i h (at-map names_in s.userlist u p e)
        k f)
