-- ===== src/Irc/Known/Tally.antt =====
-- src/handlers.c: the number of registered users.
use uchi_networks.Common.{
  ℕ, zero, suc, ◌+◌, ◌<◌, ◌≤◌, ◌≡◌, refl, sym, subst, Bool, true, false, not, ◌&&◌, if◌then◌else◌,
  List, [], ◌∷◌, length, map, Option, none, some, Returns, Returns-got, Ensures, map-Ensures,
  text_eq, text_eq→eq, arith,
}
use uchi_networks.Irc.Parse.{Text}
use uchi_networks.Irc.Strings.{codes, is_empty}
use uchi_networks.Irc.Types.{Server, at, update_at, remove_at, param}
use uchi_networks.Irc.Handlers.Dispatch.{handle_chirc_message}
use uchi_networks.Irc.Members.Views.{one_less}
use uchi_networks.Irc.Members.Steps.{length-update_at, length-remove_at}
use uchi_networks.Irc.Known.{
  both_names, Roll, roll, taken, is_full, count_if, renamed, introduced, enroll,
}
use uchi_networks.Irc.Known.Names.{Knows}
use uchi_networks.Irc.Known.Messages.{handle_chirc_message-Knows}
use uchi_networks.Irc.Known.Unique.{if-either}

-- How many users have both names.
unfoldable pub registered : List (Text × Text) → ℕ
registered [] = 0
registered (k ∷ ks) = let n = registered ks in if is_full k then suc n else n

registered-le : (ks : List (Text × Text)) → registered ks ≤ length ks
unfolding registered
registered-le [] = omega arith
registered-le (k ∷ ks) = ground (arith, registered-le ks)

abbrev weight : Text × Text → ℕ
weight x = if is_full x then 1 else 0

registered-update_at :
    (f : Text × Text → Text × Text) (u : ℕ) (ks : List (Text × Text)) (x : Text × Text)
    → at ks u ≡ some x
    → registered (update_at u f ks) + weight x ≡ registered ks + weight (f x)
unfolding registered
registered-update_at f u [] x e = ground arith
registered-update_at f zero (k ∷ ks) x e =
    let same : k ≡ x = ground (arith, e) in
    subst (λ y. registered (f k ∷ ks) + weight y ≡ registered (k ∷ ks) + weight (f y)) same
      (ground arith)
registered-update_at f (suc u) (k ∷ ks) x e = ground (arith, registered-update_at f u ks x e)

registered-remove_at :
    (u : ℕ) (ks : List (Text × Text)) (x : Text × Text)
    → at ks u ≡ some x
    → registered (remove_at u ks) + weight x ≡ registered ks
unfolding registered
registered-remove_at u [] x e = ground arith
registered-remove_at zero (k ∷ ks) x e =
    let same : k ≡ x = ground (arith, e) in
    subst (λ y. registered ks + weight y ≡ registered (k ∷ ks)) same (ground arith)
registered-remove_at (suc u) (k ∷ ks) x e = ground (arith, registered-remove_at u ks x e)

-- `numregistered` is the number of the registered users, of which there are fewer than 2^32.
abbrev pub IsTally : Roll → Type 0
IsTally k = (k.1 ≡ registered k.0) × (length k.0 < 4294967296)

-- A user whose names change, and who is counted if that is what registers the user.
update-IsTally :
    (f : Text × Text → Text × Text) (b : Bool) (u : ℕ) (k : Roll) (x : Text × Text)
    → at k.0 u ≡ some x
    → weight (f x) ≡ (if b then 1 else 0) + weight x
    → IsTally k
    → IsTally (update_at u f k.0, count_if b k.1)
unfolding count_if
update-IsTally f b u k x e w h = (
  ground (
    arith,
    h.0,
    h.1,
    w,
    registered-update_at f u k.0 x e,
    registered-le (update_at u f k.0),
    length-update_at f k.0 u,
  ),
  omega (arith, h.1, length-update_at f k.0 u),
)

renamed-IsTally :
    (u : ℕ) (n : Text) (k : Roll) (o : Option (Text × Text))
    → at k.0 u ≡ o
    → is_empty n ≡ false
    → IsTally k
    → IsTally (renamed u n k o)
unfolding renamed
renamed-IsTally u n k none e p h = h
renamed-IsTally u n k (some x) e p h =
    update-IsTally (λ y. (n, y.1)) (is_empty x.0 && not (is_empty x.1)) u k x e (ground (arith, p))
      h

introduced-IsTally :
    (u : ℕ) (w : Text) (k : Roll) (o : Option (Text × Text))
    → at k.0 u ≡ o
    → is_empty w ≡ false
    → IsTally k
    → IsTally (introduced u w k o)
unfolding introduced
introduced-IsTally u w k none e p h = h
introduced-IsTally u w k (some x) e p h =
    if-either IsTally (is_full x) _ _ (λ _. h)
      (λ t. update-IsTally (λ y. (y.0, w)) (not (is_empty x.0)) u k x e (ground (arith, p, t)) h)

-- A registered user goes.
removed-IsTally :
    (u : ℕ) (k : Roll)
    → (x : Text × Text) → at k.0 u ≡ some x
    → is_full x ≡ true
    → IsTally k
    → IsTally (remove_at u k.0, one_less k.1)
removed-IsTally u k x e p h = (
  ground (arith, h.0, h.1, p, registered-remove_at u k.0 x e, registered-le k.0),
  omega (arith, h.1, length-remove_at k.0 u),
)

module _ (u : ℕ) (command name : Text) (k : Roll)
    (nick : command ≡ codes "NICK" → is_empty name ≡ false)
    (user : command ≡ codes "USER" → is_empty name ≡ false)
    (quit : command ≡ codes "QUIT" → Returns (λ x. is_full x ≡ true) (at k.0 u)) where
  enroll-IsTally : IsTally k → IsTally (enroll u command name k)
  unfolding enroll
  enroll-IsTally h =
      if-either IsTally (text_eq command (codes "NICK")) _ _
        (λ t.
          if-either IsTally (taken name k.0) _ _ (λ _. h)
            (λ _.
              renamed-IsTally u name k (at k.0 u) refl (nick (text_eq→eq command (codes "NICK") t))
                h))
        (λ _.
          if-either IsTally (text_eq command (codes "USER")) _ _
            (λ t.
              introduced-IsTally u name k (at k.0 u) refl
                (user (text_eq→eq command (codes "USER") t)) h)
            (λ _.
              if-either IsTally (text_eq command (codes "QUIT")) _ _
                (λ t.
                  let r = Returns-got (at k.0 u) (quit (text_eq→eq command (codes "QUIT") t)) in
                  removed-IsTally u k r.0 r.1 r.2 h)
                (λ _. h)))

-- If `numregistered` is the number of the users with a nick and a username, and there are fewer than
-- 2^32 users, then this is so after any message that is handled without a fault, but for a NICK or
-- USER with an empty name and a QUIT of a user who is not registered.
pub handle_chirc_message-IsTally :
    (u : ℕ) (params : List Text) (s : Server)
    → (param params 0 ≡ codes "NICK" → is_empty (param params 1) ≡ false)
    → (param params 0 ≡ codes "USER" → is_empty (param params 1) ≡ false)
    → (param params 0 ≡ codes "QUIT"
        → Returns (λ x. is_full x ≡ true) (at (map both_names s.userlist) u))
    → IsTally (roll s)
    → Ensures (λ t. IsTally (roll t)) (handle_chirc_message u params s)
handle_chirc_message-IsTally u params s nick user quit h =
    map-Ensures (Knows (enroll u (param params 0) (param params 1) (roll s)))
      (λ t. IsTally (roll t)) _
      (λ t e.
        subst IsTally (sym e)
          (enroll-IsTally u (param params 0) (param params 1) (roll s) nick user quit h))
      (handle_chirc_message-Knows u params s)
