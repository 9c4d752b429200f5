-- ===== src/Irc/Members/Views.antt =====
-- src: the operations on the lists, as changes of what each user has and of the numbers.
use uchi_networks.Common.{
  ℕ, zero, suc, ◌+◌, ◌%◌, ◌≡◌, refl, ap, sym, subst, Bool, true, false, not, ◌&&◌, if◌then◌else◌,
  List, [], ◌∷◌, ◌++◌, map, some, text_eq, arith, ◌>>=◌,
}
use uchi_networks.Irc.Parse.{Text}
use uchi_networks.Irc.Strings.{is_empty}
use uchi_networks.Irc.Types.{
  MyChan, Channel, Person, at, update_at, remove_at, find_at, fun_seek, seek_channel, same_name,
  list_contains, list_delete,
}
use uchi_networks.Irc.Utils.{increment, decrement}
use uchi_networks.Irc.Channel.{add_my_chan}
use uchi_networks.Irc.Handlers.Rooms.{forget_my_chan}
use uchi_networks.Irc.Members.{my_name, names_in, named_count, has, without}
use uchi_networks.Irc.Members.Counts.{add_to}
use uchi_networks.Irc.Members.Channels.{seek, recount}

module _ {ℓ κ} {A : Type ℓ} {B : Type κ} (f : A → B) where
  pub at-map : (xs : List A) (i : ℕ) (x : A) → at xs i ≡ some x → at (map f xs) i ≡ some (f x)
  at-map [] i x e = ground arith
  at-map (y ∷ ys) zero x e = cc e
  at-map (y ∷ ys) (suc i) x e = at-map ys i x e

  pub at-of_map :
      (xs : List A) (i : ℕ) (y : B)
      → at (map f xs) i ≡ some y
      → (x : A) × (at xs i ≡ some x) × (f x ≡ y)
  at-of_map [] i y e = ground arith
  at-of_map (x ∷ xs) zero y e = (x, refl, ground (arith, e))
  at-of_map (x ∷ xs) (suc i) y e = at-of_map xs i y e

  pub map-update_at :
      (g : A → A) (h : B → B) (xs : List A) (i : ℕ)
      → ((x : A) → f (g x) ≡ h (f x))
      → map f (update_at i g xs) ≡ update_at i h (map f xs)
  map-update_at g h [] i k = refl
  map-update_at g h (x ∷ xs) zero k = ap (λ y. y ∷ map f xs) (k x)
  map-update_at g h (x ∷ xs) (suc i) k = ap (◌∷◌ (f x)) (map-update_at g h xs i k)

  pub map-update_known :
      (g : A → A) (h : B → B) (xs : List A) (i : ℕ) (x : A)
      → at xs i ≡ some x
      → f (g x) ≡ h (f x)
      → map f (update_at i g xs) ≡ update_at i h (map f xs)
  map-update_known g h [] i x e k = refl
  map-update_known g h (y ∷ ys) zero x e k =
      let same : y ≡ x = ground (arith, e) in
      ap (λ z. z ∷ map f ys) (subst (λ z. f (g z) ≡ h (f z)) (sym same) k)
  map-update_known g h (y ∷ ys) (suc i) x e k = ap (◌∷◌ (f y)) (map-update_known g h ys i x e k)

  -- A change that the view does not show.
  pub update_at-same :
      (g : A → A) (xs : List A) (i : ℕ)
      → ((x : A) → f (g x) ≡ f x)
      → map f (update_at i g xs) ≡ map f xs
  update_at-same g [] i k = refl
  update_at-same g (x ∷ xs) zero k = ap (λ y. y ∷ map f xs) (k x)
  update_at-same g (x ∷ xs) (suc i) k = ap (◌∷◌ (f x)) (update_at-same g xs i k)

  pub map-remove_at : (xs : List A) (i : ℕ) → map f (remove_at i xs) ≡ remove_at i (map f xs)
  map-remove_at [] i = refl
  map-remove_at (x ∷ xs) zero = refl
  map-remove_at (x ∷ xs) (suc i) = ap (◌∷◌ (f x)) (map-remove_at xs i)

  pub map-snoc : (xs : List A) (x : A) → map f (xs ++ (x ∷ [])) ≡ map f xs ++ (f x ∷ [])
  map-snoc [] x = refl
  map-snoc (y ∷ ys) x = ap (◌∷◌ (f y)) (map-snoc ys x)

pub seek_channel-seek :
    (c : Text) (cs : List Channel) → seek_channel c cs ≡ seek c (map named_count cs)
unfolding seek_channel find_at fun_seek
seek_channel-seek c [] = refl
seek_channel-seek c (x ∷ xs) =
    ap (λ o. if not (is_empty c) && text_eq (x.name) c then some 0 else (o >>= λ i. some (suc i)))
      (seek_channel-seek c xs)

pub list_contains-has : (ms : List MyChan) (c : Text) → list_contains ms c ≡ has (map my_name ms) c
unfolding list_contains same_name has
list_contains-has [] c = refl
list_contains-has (m ∷ ms) c =
    ap (λ b. if text_eq (m.name) c then true else b) (list_contains-has ms c)

list_delete-without :
    (ms : List MyChan) (c : Text) → map my_name (list_delete ms c) ≡ without c (map my_name ms)
unfolding list_delete same_name without
list_delete-without [] c = refl
list_delete-without (m ∷ ms) c = ground (arith, list_delete-without ms c)

-- A list that is not iterated over.
pub names_in-add_my_chan :
    (c : Text) (b : Bool) (p : Person)
    → p.iterating ≡ false
    → names_in (add_my_chan c b p) ≡ add_to c (names_in p)
unfolding add_my_chan
names_in-add_my_chan c b p e = rw e (map-snoc my_name p.my_chans _)

pub names_in-forget_my_chan :
    (c : Text) (p : Person)
    → p.iterating ≡ false
    → names_in (forget_my_chan c p) ≡ without c (names_in p)
unfolding forget_my_chan
names_in-forget_my_chan c p e = rw e (list_delete-without p.my_chans c)

abbrev pub one_more : ℕ → ℕ
one_more n = (n + 1) % 4294967296

abbrev pub one_less : ℕ → ℕ
one_less n = (n + 4294967295) % 4294967296

pub counts-increment :
    (c : ℕ) (cs : List Channel)
    → map named_count (update_at c increment cs)
      ≡ update_at c (recount one_more) (map named_count cs)
unfolding increment
counts-increment c cs = map-update_at named_count increment (recount one_more) cs c (λ x. refl)

pub counts-decrement :
    (c : ℕ) (cs : List Channel)
    → map named_count (update_at c decrement cs)
      ≡ update_at c (recount one_less) (map named_count cs)
unfolding decrement
counts-decrement c cs = map-update_at named_count decrement (recount one_less) cs c (λ x. refl)
