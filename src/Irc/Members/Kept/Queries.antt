-- ===== src/Irc/Members/Kept/Queries.antt =====
-- src: WHOIS, LIST, NAMES and WHO leave the channels with their users.
use uchi_networks.Common.{
  ℕ, suc, refl, Bool, true, false, ◌==◌, Bool-cases, inl, inr, List, [], ◌∷◌, Option, none, some,
}
use uchi_networks.Irc.Parse.{Text}
use uchi_networks.Irc.Types.{MyChan, Channel, Person, Server, set_user, set_iterating}
use uchi_networks.Irc.Handlers.Queries.{
  tell_channels, tell_if, tell_whois, whois, chirc_handle_whois, tell_list, chirc_handle_list,
  all_names, tell_antisocial, names_of, chirc_handle_names, end_walk, who_apart, tell_who, who_on,
  chirc_handle_who,
}
use uchi_networks.Irc.Members.Kept.{
  IsView, IsUnwalked, Same, Keeps, same-Keeps, from-Keeps, bind-Keeps, reply_to-Keeps, kept,
}
use uchi_networks.Irc.Members.Kept.Register.{if_registered-Keeps}

module _ {X : Type 0} {V : Server → X} (v : IsView V) where
  tell_if-Keeps :
      (b : Bool) (u : ℕ) (go : Server → Option Server) (s : Server)
      → Keeps V s (go s)
      → Keeps V s (tell_if b u go s)
  unfolding tell_if
  tell_if-Keeps true u go s h = h
  tell_if-Keeps false u go s h = same-Keeps V s

  tell_channels-Keeps :
      (u : ℕ) (nick : Text) (ms : List MyChan) (s : Server) → Keeps V s (tell_channels u nick ms s)
  unfolding tell_channels
  tell_channels-Keeps u nick [] s = same-Keeps V s
  tell_channels-Keeps u nick (m ∷ ms) s = search (kept)

  -- The channels of a user are told, and their iterator is left where it is.
  walk-Keeps :
      IsUnwalked V
      → (u i : ℕ) (nick : Text) (ms : List MyChan) (s : Server)
      → Keeps V s (tell_channels u nick ms (set_user i (set_iterating true) s))
  walk-Keeps w u i nick ms s =
      from-Keeps V s (set_user i (set_iterating true) s) _ (w i true s)
        (tell_channels-Keeps u nick ms _)

  tell_whois-Keeps :
      IsUnwalked V
      → (u i : ℕ) (nick : Text) (p : Person) (s : Server) → Keeps V s (tell_whois u i nick p s)
  unfolding tell_whois
  tell_whois-Keeps w u i nick p s =
      search (bind-Keeps, reply_to-Keeps, walk-Keeps w, tell_if-Keeps) depth 12

  whois-Keeps :
      IsUnwalked V
      → (u : ℕ) (nick : Text) (i : Option ℕ) (s : Server) → Keeps V s (whois u nick i s)
  unfolding whois
  whois-Keeps w u nick none s = search (kept)
  whois-Keeps w u nick (some i) s = search (kept, tell_whois-Keeps w)

  pub chirc_handle_whois-Keeps :
      IsUnwalked V
      → (u : ℕ) (params : List Text) (s : Server) → Keeps V s (chirc_handle_whois u params s)
  unfolding chirc_handle_whois
  chirc_handle_whois-Keeps w u params s = search (if_registered-Keeps, whois-Keeps w)

  tell_list-Keeps : (u : ℕ) (cs : List Channel) (s : Server) → Keeps V s (tell_list u cs s)
  unfolding tell_list
  tell_list-Keeps u [] s = search (kept)
  tell_list-Keeps u (c ∷ cs) s = search (kept, tell_list-Keeps u cs)

  pub chirc_handle_list-Keeps :
      (u : ℕ) (params : List Text) (s : Server) → Keeps V s (chirc_handle_list u params s)
  unfolding chirc_handle_list
  chirc_handle_list-Keeps u params s = search (kept, tell_list-Keeps)

  all_names-Keeps : (u : ℕ) (cs : List Channel) (s : Server) → Keeps V s (all_names u cs s)
  unfolding all_names
  all_names-Keeps u [] s = same-Keeps V s
  all_names-Keeps u (c ∷ cs) s = search (kept, all_names-Keeps u cs)

  tell_antisocial-Keeps : (u : ℕ) (s : Server) → Keeps V s (tell_antisocial u s)
  unfolding tell_antisocial
  tell_antisocial-Keeps u s = search (kept, tell_if-Keeps)

  names_of-Keeps : (u : ℕ) (c : Option ℕ) (s : Server) → Keeps V s (names_of u c s)
  unfolding names_of
  names_of-Keeps u none s = same-Keeps V s
  names_of-Keeps u (some c) s = search (kept)

  pub chirc_handle_names-Keeps :
      (u : ℕ) (params : List Text) (s : Server) → Keeps V s (chirc_handle_names u params s)
  unfolding chirc_handle_names
  chirc_handle_names-Keeps u params s =
      search (kept, if_registered-Keeps, all_names-Keeps, tell_antisocial-Keeps, names_of-Keeps)
        depth 8

  end_walk-Same : IsUnwalked V → (u i : ℕ) (s : Server) → Same V s (end_walk u i s)
  unfolding end_walk
  end_walk-Same w u i s = elim (Bool-cases (i == u)) [
    | inl e ↦ rw e refl
    | inr e ↦ rw e (w i false s)
  ]

  who_apart-Keeps :
      IsUnwalked V
      → (u i : ℕ) (user : Person) (ps : List Person) (s : Server)
      → Keeps V s (who_apart u i user ps s)
  unfolding who_apart
  who_apart-Keeps w u i user [] s = same-Keeps V s
  who_apart-Keeps w u i user (p ∷ ps) s =
      bind-Keeps V s _ _
        (from-Keeps V s (end_walk u i s) _ (end_walk-Same w u i s)
          (search (reply_to-Keeps, tell_if-Keeps)))
        (λ t. who_apart-Keeps w u (suc i) user ps t)

  tell_who-Keeps :
      (u : ℕ) (name : Text) (p : Person) (m : Option MyChan) (s : Server)
      → Keeps V s (tell_who u name p m s)
  unfolding tell_who
  tell_who-Keeps u name p none s = same-Keeps V s
  tell_who-Keeps u name p (some m) s = search (kept)

  who_on-Keeps :
      (u : ℕ) (name : Text) (ps : List Person) (s : Server) → Keeps V s (who_on u name ps s)
  unfolding who_on
  who_on-Keeps u name [] s = same-Keeps V s
  who_on-Keeps u name (p ∷ ps) s = search (bind-Keeps, tell_who-Keeps, who_on-Keeps u name ps)

  pub chirc_handle_who-Keeps :
      IsUnwalked V
      → (u : ℕ) (params : List Text) (s : Server) → Keeps V s (chirc_handle_who u params s)
  unfolding chirc_handle_who
  chirc_handle_who-Keeps w u params s = search (kept, who_apart-Keeps w, who_on-Keeps)
