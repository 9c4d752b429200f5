-- ===== src/Irc/Types.antt =====
-- src/ircstructs.h: the server's structures, and the accesses to them through pointers.
use uchi_networks.Common.{
  ℕ, zero, suc, Bool, true, false, not, ◌&&◌, if◌then◌else◌, List, [], ◌∷◌, ◌++◌, Option, none,
  some, get_or, text_eq, ◌>>=◌,
}
use uchi_networks.Irc.Parse.{Text}
use uchi_networks.Irc.Strings.{is_empty}

-- The name of a channel, and the status on it of the user who has this in `my_chans`.
pub record MyChan : Type 0 where
  pub name : Text
  pub mode : Text

-- `numusers` is an int of 32 bits: from 2^31 it is negative.
pub record Channel : Type 0 where
  pub name : Text
  pub topic : Text
  pub mode : Text
  pub numusers : ℕ

-- Without its lock and its thread. `iterating` is the `iter_active` of `my_chans`, between the
-- calls: a list that is iterated over takes and gives no elements.
pub record Person : Type 0 where
  pub client_socket : ℕ
  pub nick : Text
  pub user : Text
  pub fullname : Text
  pub address : Text
  pub mode : Text
  pub away : Text
  pub my_chans : List MyChan
  pub iterating : Bool

-- Beside the fields of `chirc_server`: what was given to send, in order; the text of motd.txt, if it
-- can be opened; and the length of what send_names finds in its `reply`, which nothing has written
-- then, and which depends on what went before.
pub record Server : Type 0 where
  pub pw : Text
  pub servername : Text
  pub version : Text
  pub birthday : Text
  pub userlist : List Person
  pub chanlist : List Channel
  pub numregistered : ℕ
  pub sent : List (ℕ × Text)
  pub motd : Option Text
  pub stale : List (ℕ × Text) → ℕ

-- A list of pointers: a pointer into it is a place in it.
module _ {ℓ} {A : Type ℓ} where
  abbrev pub at : List A → ℕ → Option A
  at [] i = none
  at (x ∷ xs) zero = some x
  at (x ∷ xs) (suc i) = at xs i

  abbrev pub update_at : ℕ → (A → A) → List A → List A
  update_at i f [] = []
  update_at zero f (x ∷ xs) = f x ∷ xs
  update_at (suc i) f (x ∷ xs) = x ∷ update_at i f xs

  abbrev pub remove_at : ℕ → List A → List A
  remove_at i [] = []
  remove_at zero (x ∷ xs) = xs
  remove_at (suc i) (x ∷ xs) = x ∷ remove_at i xs

  -- The place of the first element that passes the test.
  unfoldable pub find_at : (A → Bool) → List A → Option ℕ
  find_at p [] = none
  find_at p (x ∷ xs) = if p x then some 0 else (find_at p xs >>= λ i. some (suc i))

-- fun_seek on an empty value finds nothing.
unfoldable pub fun_seek : {A : Type 0} → (A → Text) → Text → A → Bool
fun_seek field value a = not (is_empty value) && text_eq (field a) value

unfoldable pub seek_nick : Text → List Person → Option ℕ
seek_nick nick us = find_at (fun_seek Person.nick nick) us

unfoldable pub seek_user : Text → List Person → Option ℕ
seek_user user us = find_at (fun_seek Person.user user) us

unfoldable pub seek_channel : Text → List Channel → Option ℕ
seek_channel name cs = find_at (fun_seek Channel.name name) cs

unfoldable pub seek_my_chan : Text → List MyChan → Option ℕ
seek_my_chan name ms = find_at (fun_seek MyChan.name name) ms

-- fun_compare
unfoldable pub same_name : Text → MyChan → Bool
same_name name m = text_eq (m.name) name

-- `list_contains(my_chans, dummy)`
unfoldable pub list_contains : List MyChan → Text → Bool
list_contains [] name = false
list_contains (m ∷ ms) name = if same_name name m then true else list_contains ms name

-- `list_delete(my_chans, dummy)`
unfoldable pub list_delete : List MyChan → Text → List MyChan
list_delete [] name = []
list_delete (m ∷ ms) name = if same_name name m then ms else m ∷ list_delete ms name

-- The elements that a loop with an iterator comes to after list_iterator_start: none, if the
-- iterator was not stopped at the end of the loop before.
unfoldable pub iterated : Person → List MyChan
iterated p = if p.iterating then [] else p.my_chans

unfoldable pub set_iterating : Bool → Person → Person
set_iterating b p = record p { iterating = b }

-- `params[i]`
abbrev pub param : List Text → ℕ → Text
param params i = get_or params i []

unfoldable pub set_user : ℕ → (Person → Person) → Server → Server
set_user u f s = record s { userlist = update_at u f s.userlist }

unfoldable pub set_channel : ℕ → (Channel → Channel) → Server → Server
set_channel c f s = record s { chanlist = update_at c f s.chanlist }

-- `send(socket, text, strlen(text), 0)`, which succeeds.
unfoldable pub send_text : ℕ → Text → Server → Server
send_text socket text s = record s { sent = s.sent ++ ((socket, text) ∷ []) }
