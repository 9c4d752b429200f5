-- ===== src/Irc/Known/Unique.antt =====
-- src/handlers.c: no two users have the same nick.
use uchi_networks.Common.{
  ℕ, zero, suc, ◌≡◌, refl, sym, subst, Bool, true, false, not, ◌&&◌, if◌then◌else◌, List, [], ◌∷◌,
  ◌++◌, map, ◌∙◌, Option, none, some, Ensures, bind-Ensures, map-Ensures, text_eq, text_eq→eq,
  text_eq_refl, arith,
}
use uchi_networks.Irc.Parse.{Text}
use uchi_networks.Irc.Strings.{codes, is_empty}
use uchi_networks.Irc.Types.{Server, at, update_at, remove_at, param}
use uchi_networks.Irc.Handlers.Register.{add_client}
use uchi_networks.Irc.Handlers.Dispatch.{Event, connects, sends, handle, handle_all}
use uchi_networks.Irc.Members.Views.{map-snoc}
use uchi_networks.Irc.Known.{both_names, Roll, roll, taken, is_full, renamed, introduced, enroll}
use uchi_networks.Irc.Known.Names.{Knows}
use uchi_networks.Irc.Known.Messages.{handle_chirc_message-Knows}

-- No nick twice, but the empty one of those who have none yet.
abbrev pub IsUnique : List (Text × Text) → Type 0
IsUnique [] = Unit
IsUnique (k ∷ ks) = (taken k.0 ks ≡ false) × IsUnique ks

taken-renamed :
    (n m : Text) (u : ℕ) (ks : List (Text × Text))
    → taken n ks ≡ false
    → not (is_empty n) && text_eq m n ≡ false
    → taken n (update_at u (λ y. (m, y.1)) ks) ≡ false
unfolding taken
taken-renamed n m u [] h k = refl
taken-renamed n m zero (x ∷ ks) h k = ground (arith, h, k)
taken-renamed n m (suc u) (x ∷ ks) h k =
    ground (arith, h, taken-renamed n m u ks (ground (arith, h)) k)

taken-introduced :
    (n w : Text) (u : ℕ) (ks : List (Text × Text))
    → taken n (update_at u (λ y. (y.0, w)) ks) ≡ taken n ks
unfolding taken
taken-introduced n w u [] = refl
taken-introduced n w zero (x ∷ ks) = refl
taken-introduced n w (suc u) (x ∷ ks) = ground (arith, taken-introduced n w u ks)

taken-removed :
    (n : Text) (u : ℕ) (ks : List (Text × Text))
    → taken n ks ≡ false
    → taken n (remove_at u ks) ≡ false
unfolding taken
taken-removed n u [] h = refl
taken-removed n zero (x ∷ ks) h = ground (arith, h)
taken-removed n (suc u) (x ∷ ks) h = ground (arith, h, taken-removed n u ks (ground (arith, h)))

IsUnique-renamed :
    (m : Text) (u : ℕ) (ks : List (Text × Text))
    → taken m ks ≡ false
    → IsUnique ks
    → IsUnique (update_at u (λ y. (m, y.1)) ks)
unfolding taken
IsUnique-renamed m u [] h k = tt
IsUnique-renamed m zero (x ∷ ks) h k = (ground (arith, h), k.1)
IsUnique-renamed m (suc u) (x ∷ ks) h k = (
  taken-renamed x.0 m u ks k.0 (ground (arith, h, text_eq→eq m x.0, text_eq_refl m)),
  IsUnique-renamed m u ks (ground (arith, h)) k.1,
)

IsUnique-introduced :
    (w : Text) (u : ℕ) (ks : List (Text × Text))
    → IsUnique ks
    → IsUnique (update_at u (λ y. (y.0, w)) ks)
IsUnique-introduced w u [] k = tt
IsUnique-introduced w zero (x ∷ ks) k = k
IsUnique-introduced w (suc u) (x ∷ ks) k =
    (taken-introduced x.0 w u ks ∙ k.0, IsUnique-introduced w u ks k.1)

IsUnique-removed : (u : ℕ) (ks : List (Text × Text)) → IsUnique ks → IsUnique (remove_at u ks)
IsUnique-removed u [] k = tt
IsUnique-removed zero (x ∷ ks) k = k.1
IsUnique-removed (suc u) (x ∷ ks) k = (taken-removed x.0 u ks k.0, IsUnique-removed u ks k.1)

pub if-either {ℓ} :
    {A : Type ℓ} (P : A → Type 0) (b : Bool) (x y : A)
    → (b ≡ true → P x)
    → (b ≡ false → P y)
    → P (if b then x else y)
if-either P true x y h k = h refl
if-either P false x y h k = k refl

abbrev HasUnique : Roll → Type 0
HasUnique k = IsUnique k.0

renamed-HasUnique :
    (u : ℕ) (n : Text) (k : Roll) (o : Option (Text × Text))
    → taken n k.0 ≡ false
    → HasUnique k
    → HasUnique (renamed u n k o)
unfolding renamed
renamed-HasUnique u n k none t h = h
renamed-HasUnique u n k (some x) t h = IsUnique-renamed n u k.0 t h

introduced-HasUnique :
    (u : ℕ) (w : Text) (k : Roll) (o : Option (Text × Text))
    → HasUnique k
    → HasUnique (introduced u w k o)
unfolding introduced
introduced-HasUnique u w k none h = h
introduced-HasUnique u w k (some x) h =
    if-either HasUnique (is_full x) _ _ (λ _. h) (λ _. IsUnique-introduced w u k.0 h)

enroll-HasUnique :
    (u : ℕ) (command name : Text) (k : Roll) → HasUnique k → HasUnique (enroll u command name k)
unfolding enroll
enroll-HasUnique u command name k h =
    if-either HasUnique (text_eq command (codes "NICK")) _ _
      (λ _.
        if-either HasUnique (taken name k.0) _ _ (λ _. h)
          (λ t. renamed-HasUnique u name k (at k.0 u) t h))
      (λ _.
        if-either HasUnique (text_eq command (codes "USER")) _ _
          (λ _. introduced-HasUnique u name k (at k.0 u) h)
          (λ _.
            if-either HasUnique (text_eq command (codes "QUIT")) _ _ (λ _. IsUnique-removed u k.0 h)
              (λ _. h)))

taken-client :
    (n : Text) (ks : List (Text × Text))
    → taken n ks ≡ false
    → taken n (ks ++ (([], []) ∷ [])) ≡ false
unfolding taken is_empty text_eq
taken-client [] [] h = refl
taken-client (c ∷ cs) [] h = refl
taken-client n (k ∷ ks) h = ground (arith, h, taken-client n ks)

IsUnique-client : (ks : List (Text × Text)) → IsUnique ks → IsUnique (ks ++ (([], []) ∷ []))
unfolding taken
IsUnique-client [] h = (refl, tt)
IsUnique-client (k ∷ ks) h = (taken-client k.0 ks h.0, IsUnique-client ks h.1)

handle-IsUnique :
    (e : Event) (s : Server) → HasUnique (roll s) → Ensures (λ t. HasUnique (roll t)) (handle e s)
unfolding handle add_client
handle-IsUnique (connects socket address) s h =
    subst IsUnique (sym (map-snoc both_names s.userlist _))
      (IsUnique-client (map both_names s.userlist) h)
handle-IsUnique (sends u params) s h =
    map-Ensures (Knows (enroll u (param params 0) (param params 1) (roll s)))
      (λ t. HasUnique (roll t)) _
      (λ t e.
        subst HasUnique (sym e) (enroll-HasUnique u (param params 0) (param params 1) (roll s) h))
      (handle_chirc_message-Knows u params s)

-- Whatever clients connect and send, if it is handled without a fault: if no two users have the same
-- nick, but for users without one, then this is so afterwards.
pub handle_all-IsUnique :
    (es : List Event) (s : Server)
    → IsUnique (map both_names s.userlist)
    → Ensures (λ t. IsUnique (map both_names t.userlist)) (handle_all es s)
unfolding handle_all
handle_all-IsUnique [] s h = h
handle_all-IsUnique (e ∷ es) s h =
    bind-Ensures (λ t. HasUnique (roll t)) (λ t. HasUnique (roll t)) (handle e s) _
      (handle-IsUnique e s h) (λ t k. handle_all-IsUnique es t k)
