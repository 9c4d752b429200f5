-- ===== src/Irc/Members/Kept.antt =====
-- src: the calls that leave a part of the server's state as it is.
pub mod Register
pub mod Talk
pub mod Modes
pub mod Queries
pub mod Names
pub mod Dispatch
use uchi_networks.Common.{
  ℕ, ◌≡◌, refl, sym, ap, ◌∙◌, Bool, true, false, if◌then◌else◌, List, [], ◌∷◌, ◌++◌, map, Option,
  none, some, ◌>>=◌, Ensures, bind-Ensures, if-Ensures, then-Ensures,
}
use uchi_networks.Irc.Parse.{Text}
use uchi_networks.Irc.Types.{
  MyChan, Channel, Person, Server, at, update_at, seek_channel, set_user, set_channel, send_text,
  iterated, set_iterating,
}
use uchi_networks.Irc.Reply.{Reply, constr_reply}
use uchi_networks.Irc.Strings.{fits}
use uchi_networks.Irc.Utils.{
  sendtochannel, send_each, sendtoallchans, reply_to, list_names, send_names,
}
use uchi_networks.Irc.Members.{rooms, counts, names_in, named_count}
use uchi_networks.Irc.Members.Views.{update_at-same}

-- The same nick, the same username, the same channels, and the same of the iterator over them.
abbrev pub SamePerson : Person → Person → Type 0
SamePerson p q =
    (names_in q ≡ names_in p) × (q.nick ≡ p.nick) × (q.user ≡ p.user) × (q.iterating ≡ p.iterating)

-- What a part of the server's state looks like.
module _ {X : Type 0} (V : Server → X) where
  -- It looks the same.
  abbrev pub Same : Server → Server → Type 0
  Same s t = V t ≡ V s

  -- A call that, if it returns, leaves it as it is.
  unfoldable pub Keeps : Server → Option Server → Type 0
  Keeps s m = Ensures (Same s) m

  -- It does not show what was sent, nor the parts of a user or a channel that are not named here.
  pub record IsView : Type 0 where
    pub sends : (s : Server) (l : List (ℕ × Text)) → V (record s { sent = l }) ≡ V s
    pub user :
        (u : ℕ) (f : Person → Person) (s : Server)
        → ((p : Person) → SamePerson p (f p))
        → V (set_user u f s) ≡ V s
    pub channel :
        (c : ℕ) (f : Channel → Channel) (s : Server)
        → ((x : Channel) → named_count (f x) ≡ named_count x)
        → V (set_channel c f s) ≡ V s

  -- Nor whether the iterators of the users were stopped.
  abbrev pub IsUnwalked : Type 0
  IsUnwalked = (u : ℕ) (b : Bool) (s : Server) → V (set_user u (set_iterating b) s) ≡ V s

module _ {X : Type 0} (V : Server → X) where
  module _ {ℓ} {A : Type ℓ} where
    pub call-Keeps :
        (s : Server) (m : Option A) (f : A → Option Server)
        → ((a : A) → Keeps V s (f a))
        → Keeps V s (m >>= f)
    unfolding Keeps
    call-Keeps s m f k = then-Ensures (Same V s) m f k

  pub if-Keeps :
      (s : Server) (b : Bool) (x y : Option Server)
      → Keeps V s x
      → Keeps V s y
      → Keeps V s (if b then x else y)
  unfolding Keeps
  if-Keeps s b x y h k = if-Ensures (Same V s) b x y h k

  pub same-Keeps : (s : Server) → Keeps V s (some s)
  unfolding Keeps
  same-Keeps s = refl

  pub some-Keeps : (s t : Server) → Same V s t → Keeps V s (some t)
  unfolding Keeps
  some-Keeps s t h = h

  -- A call on a state that is the same in this.
  pub from-Keeps : (s t : Server) (m : Option Server) → Same V s t → Keeps V t m → Keeps V s m
  unfolding Keeps
  from-Keeps s t none h k = tt
  from-Keeps s t (some r) h k = (k ∙ h)

  -- A call, and what follows it.
  pub bind-Keeps :
      (s : Server) (m : Option Server) (f : Server → Option Server)
      → Keeps V s m
      → ((t : Server) → Keeps V t (f t))
      → Keeps V s (m >>= f)
  unfolding Keeps
  bind-Keeps s none f h k = tt
  bind-Keeps s (some t) f h k = from-Keeps s t (f t) h (k t)

module _ {X : Type 0} {V : Server → X} (v : IsView V) where
  pub send_text-Same : (socket : ℕ) (t : Text) (s : Server) → Same V s (send_text socket t s)
  unfolding send_text
  send_text-Same socket t s = v.sends s _

  pub sendtochannel-Same :
      (cname msg : Text) (o : Option Text) (s : Server) → Same V s (sendtochannel cname msg o s)
  unfolding sendtochannel
  sendtochannel-Same cname msg o s = v.sends s _

  -- After a change that keeps them.
  pub post-Same :
      (socket : ℕ) (line : Text) (s t : Server) → Same V s t → Same V s (send_text socket line t)
  unfolding send_text
  post-Same socket line s t h = v.sends t _ ∙ h

  pub relay-Same :
      (cname msg : Text) (o : Option Text) (s t : Server)
      → Same V s t
      → Same V s (sendtochannel cname msg o t)
  unfolding sendtochannel
  relay-Same cname msg o s t h = v.sends t _ ∙ h

  pub set_user-Same :
      (u : ℕ) (f : Person → Person) (s : Server)
      → ((p : Person) → SamePerson p (f p))
      → Same V s (set_user u f s)
  set_user-Same u f s h = v.user u f s h

  pub set_channel-Same :
      (c : ℕ) (f : Channel → Channel) (s : Server)
      → ((x : Channel) → named_count (f x) ≡ named_count x)
      → Same V s (set_channel c f s)
  set_channel-Same c f s h = v.channel c f s h

  pub reply_to-Keeps :
      (u : ℕ) (code : Reply) (reply extra : Text) (s : Server)
      → Keeps V s (reply_to u code reply extra s)
  unfolding reply_to
  reply_to-Keeps u code reply extra s = search (call-Keeps, some-Keeps, send_text-Same)

  pub send_each-Keeps :
      (msg nick : Text) (ms : List MyChan) (s : Server) → Keeps V s (send_each msg nick ms s)
  unfolding send_each
  send_each-Keeps msg nick [] s = same-Keeps V s
  send_each-Keeps msg nick (m ∷ ms) s = call-Keeps V s (seek_channel m.name (s.chanlist)) _ (λ c.
      call-Keeps V s (at (s.chanlist) c) _ (λ chan.
        from-Keeps V s (sendtochannel chan.name msg (some nick) s) _
          (sendtochannel-Same chan.name msg (some nick) s) (send_each-Keeps msg nick ms _)))

  -- A loop over the channels of a user, and its end.
  pub sendtoallchans-Keeps :
      IsUnwalked V → (u : ℕ) (msg : Text) (s : Server) → Keeps V s (sendtoallchans u msg s)
  unfolding sendtoallchans
  sendtoallchans-Keeps w u msg s = call-Keeps V s (at s.userlist u) _ (λ p.
      bind-Keeps V s (send_each msg p.nick (iterated p) s) _
        (send_each-Keeps msg p.nick (iterated p) s) (λ t. some-Keeps V t _ (w u false t)))

  pub send_names-Keeps : (u : ℕ) (cname : Text) (s : Server) → Keeps V s (send_names u cname s)
  unfolding send_names
  send_names-Keeps u cname s = search (call-Keeps, reply_to-Keeps)

pub ruleset kept = (
  call-Keeps, if-Keeps, same-Keeps, bind-Keeps, reply_to-Keeps, sendtoallchans-Keeps,
  send_names-Keeps,
)
