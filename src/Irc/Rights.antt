-- ===== src/Irc/Rights.antt =====
-- src/handlers.c: who may change modes with MODE.
use uchi_networks.Common.{
  ℕ, ◌≡◌, refl, Bool, true, false, not, ◌&&◌, ◌==◌, if◌then◌else◌, List, [], ◌∷◌, map, Option, none,
  some, All, All-weaken, ap, Ensures, bind-Ensures, known-Ensures, if-known, text_eq, arith,
}
use uchi_networks.Irc.Parse.{Text}
use uchi_networks.Irc.Strings.{is_empty, strchr}
use uchi_networks.Irc.Types.{
  MyChan, Channel, Person, Server, at, param, find_at, fun_seek, seek_channel, seek_my_chan,
  set_user, send_text,
}
use uchi_networks.Irc.Reply.{Reply}
use uchi_networks.Irc.Utils.{reply_to}
use uchi_networks.Irc.Handlers.Modes.{
  char_at, may_set_status, member_mode, drop_oper, user_mode, may_change_channel, change_mode,
  channel_mode, chirc_handle_mode,
}
use uchi_networks.Irc.Members.Views.{update_at-same}
use uchi_networks.Irc.Members.Kept.{Same, Keeps, call-Keeps, if-Keeps, same-Keeps, some-Keeps}

-- The channels, and the users' status on them.
abbrev pub statuses : Server → List (List MyChan) × List Channel
statuses s = (map Person.my_chans s.userlist, s.chanlist)

-- What holds of the elements that pass the test holds of the one that is found.
find_at-Ensures {ℓ} :
    {A : Type ℓ} (p : A → Bool) (Q : A → Type 0) (xs : List A)
    → All (λ x. p x ≡ true → Q x) xs
    → Ensures (λ i. Ensures Q (at xs i)) (find_at p xs)
unfolding find_at
find_at-Ensures p Q [] h = tt
find_at-Ensures p Q (x ∷ xs) h =
    if-known (λ i. Ensures Q (at (x ∷ xs) i)) (p x) _ _ h.0
      (λ _.
        bind-Ensures (λ i. Ensures Q (at xs i)) (λ i. Ensures Q (at (x ∷ xs) i)) (find_at p xs) _
          (find_at-Ensures p Q xs h.1) (λ i k. k))

-- Neither an operator of the server nor of the channel.
pub record IsPlain (name : Text) (p : Person) : Type 0 where
  pub no_oper : strchr p.mode 111 ≡ false
  pub no_chanop : All (λ m. text_eq m.name name ≡ true → strchr m.mode 111 ≡ false) p.my_chans

-- The status of the user on the channel, if any, is not an operator's.
plain_status :
    (name : Text) (p : Person)
    → IsPlain name p
    → Ensures
        (λ i. Ensures (λ m. strchr m.mode 111 ≡ false) (at p.my_chans i))
        (seek_my_chan name p.my_chans)
unfolding seek_my_chan fun_seek
plain_status name p h =
    find_at-Ensures _ (λ m. strchr m.mode 111 ≡ false) p.my_chans
      (All-weaken (λ m. text_eq m.name name ≡ true → strchr m.mode 111 ≡ false) _ p.my_chans
        (λ m k e. k (ground (arith, e))) h.no_chanop)

send_text-statuses :
    (socket : ℕ) (t : Text) (s r : Server)
    → Same statuses s r
    → Same statuses s (send_text socket t r)
unfolding send_text
send_text-statuses socket t s r h = h

reply_to-statuses :
    (u : ℕ) (code : Reply) (reply extra : Text) (s : Server)
    → Keeps statuses s (reply_to u code reply extra s)
unfolding reply_to
reply_to-statuses u code reply extra s =
    let same : Same statuses s s = refl in search (call-Keeps, some-Keeps, send_text-statuses)

drop_oper-statuses : (u : ℕ) (s : Server) → Same statuses s (set_user u drop_oper s)
unfolding set_user drop_oper
drop_oper-statuses u s =
    ap (λ l. (l, s.chanlist)) (update_at-same Person.my_chans drop_oper s.userlist u (λ q. refl))

user_mode-statuses :
    (u : ℕ) (params : List Text) (p : Person) (s : Server)
    → Keeps statuses s (user_mode u params p s)
unfolding user_mode
user_mode-statuses u params p s =
    search
      (if-Keeps, same-Keeps, some-Keeps, send_text-statuses, drop_oper-statuses, reply_to-statuses)
      depth 7

module _ (u : ℕ) (params : List Text) (p : Person) (s : Server)
    (h : IsPlain (param params 1) p) where
  abbrev NoChanop : ℕ → Type 0
  NoChanop i = Ensures (λ (m : MyChan). strchr m.mode 111 ≡ false) (at p.my_chans i)

  plain_set :
      (o : Option MyChan)
      → Ensures (λ m. strchr m.mode 111 ≡ false) o
      → elim o [ none ↦ false | some m ↦ not (not (strchr p.mode 111) && not (strchr m.mode 111)) ]
        ≡ false
  plain_set none k = refl
  plain_set (some m) k = ground (arith, h.no_oper, k)

  plain_denied : may_set_status (param params 1) p ≡ false
  unfolding may_set_status
  plain_denied = plain_set _ (
      bind-Ensures NoChanop (λ (m : MyChan). strchr m.mode 111 ≡ false)
        (seek_my_chan (param params 1) p.my_chans) (at p.my_chans)
        (plain_status (param params 1) p h) (λ i k. k))

  member_mode-statuses : (c : Option ℕ) → Keeps statuses s (member_mode u params p c s)
  unfolding member_mode
  member_mode-statuses none = reply_to-statuses u _ _ _ s
  member_mode-statuses (some c) =
      call-Keeps statuses s (at s.chanlist c) _
        (λ chan. rw plain_denied (reply_to-statuses u _ _ _ s))

  -- The answer, if there is one, is no.
  plain_refused : Ensures (λ b. b ≡ false) (may_change_channel (param params 1) p)
  unfolding may_change_channel
  plain_refused = rw h.no_oper (
      bind-Ensures NoChanop (λ b. b ≡ false) (seek_my_chan (param params 1) p.my_chans) _
        (plain_status (param params 1) p h)
        (λ i k.
          bind-Ensures (λ m. strchr m.mode 111 ≡ false) (λ b. b ≡ false) (at p.my_chans i) _ k
            (λ m q. q)))

  change_mode-statuses :
      (c : ℕ) (chan : Channel) → Keeps statuses s (change_mode u params p c chan s)
  unfolding change_mode Keeps
  change_mode-statuses c chan =
      bind-Ensures (λ b. b ≡ false) (Same statuses s) (may_change_channel (param params 1) p) _
        plain_refused
        (λ b q.
          if-known (Same statuses s) b _ _ (λ t. absurd (ground (arith, q, t)))
            (λ _. reply_to-statuses u _ _ _ s))

  channel_mode-statuses : (c : Option ℕ) → Keeps statuses s (channel_mode u params p c s)
  unfolding channel_mode
  channel_mode-statuses none = reply_to-statuses u _ _ _ s
  channel_mode-statuses (some c) =
      search (call-Keeps, if-Keeps, reply_to-statuses, change_mode-statuses) depth 7

  allowed-statuses : Keeps statuses s (
      if not (is_empty (param params 3))
      then member_mode u params p (seek_channel (param params 1) s.chanlist) s
      else if char_at (param params 1) 0 == 35
      then channel_mode u params p (seek_channel (param params 1) s.chanlist) s
      else user_mode u params p s)
  allowed-statuses =
      if-Keeps statuses s _ _ _ (member_mode-statuses (seek_channel (param params 1) s.chanlist)) (
        if-Keeps statuses s _ _ _ (channel_mode-statuses (seek_channel (param params 1) s.chanlist))
          (user_mode-statuses u params p s))

-- MODE of a user who is neither an operator of the server nor of the channel that is named, if it is
-- handled without a fault, changes no channel, and nobody's status on any.
pub chirc_handle_mode-plain :
    (u : ℕ) (params : List Text) (p : Person) (s : Server)
    → at s.userlist u ≡ some p
    → IsPlain (param params 1) p
    → Ensures (λ t. statuses t ≡ statuses s) (chirc_handle_mode u params s)
unfolding chirc_handle_mode Keeps
chirc_handle_mode-plain u params p s e h =
    known-Ensures (Same statuses s) (at s.userlist u) p _ e (allowed-statuses u params p s h)
