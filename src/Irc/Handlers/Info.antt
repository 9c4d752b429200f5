-- ===== src/Irc/Handlers/Info.antt =====
-- src/handlers.c: LUSERS, MOTD, PING, UNKNOWN, and the check that the sender is registered.
use uchi_networks.Common.{
  ℕ, suc, ◌-◌, Bool, true, false, not, ◌&&◌, ◌==◌, ltb, leb, if◌then◌else◌, List, [], ◌∷◌, ◌++◌,
  Option, none, some, length, ◌>>=◌,
}
use uchi_networks.Irc.Parse.{Text}
use uchi_networks.Irc.Strings.{codes, is_empty, fits, snprintf, strchr, print_unsigned}
use uchi_networks.Irc.Types.{Person, Server, at, send_text}
use uchi_networks.Irc.Reply.{
  Reply, rpl_luserclient, rpl_luserop, rpl_luserunknown, rpl_luserchannels, rpl_luserme,
  rpl_motdstart, rpl_motd, rpl_endofmotd, err_nomotd, err_notregistered, err_unknowncommand,
}
use uchi_networks.Irc.Utils.{reply_to}

-- `strlen(user->nick) && strlen(user->user)`
unfoldable pub is_registered : Person → Bool
is_registered p = not (is_empty (p.nick)) && not (is_empty (p.user))

-- The handlers that check it first.
unfoldable pub if_registered : ℕ → (Person → Server → Option Server) → Server → Option Server
if_registered u go s = at (s.userlist) u >>= λ p.
    if is_registered p then go p s else reply_to u err_notregistered [] [] s

-- `snprintf(reply, MAXMSG - 2, ...)` and `strcat(reply, "\r\n")`
unfoldable pub short_line : Text → Text
short_line t = snprintf 510 t ++ codes "\r\n"

unfoldable pub count_opers : List Person → ℕ
count_opers [] = 0
count_opers (p ∷ ps) = let n = count_opers ps in if strchr (p.mode) 111 then suc n else n

-- `sprintf(stats, "%u", n)`, where `stats` has 5 places.
unfoldable pub stats : ℕ → Option Text
stats n = fits 5 (print_unsigned n)

unfoldable pub tell_number : ℕ → Reply → ℕ → Server → Option Server
tell_number u code n s = stats n >>= λ shown. reply_to u code [] shown s

-- RPL_LUSERUNKNOWN, of all users and those that are counted as registered.
unfoldable pub tell_unknown : ℕ → (userme known : ℕ) → Server → Option Server
tell_unknown u userme known s =
    if leb known userme
    then tell_number u rpl_luserunknown (userme - known) s
    else reply_to u rpl_luserunknown [] (codes "err") s

unfoldable pub chirc_handle_lusers : ℕ → Server → Option Server
chirc_handle_lusers u = if_registered u λ p s.
    tell_number u rpl_luserclient (s.numregistered) s >>= λ s1.
    tell_number u rpl_luserop (count_opers (s.userlist)) s1 >>= λ s2.
    tell_unknown u (length (s.userlist)) (s.numregistered) s2 >>= λ s3.
    tell_number u rpl_luserchannels (length (s.chanlist)) s3 >>= λ s4.
    tell_number u rpl_luserme (length (s.userlist)) s4

-- What the calls of fgets give, with `motd` of 80 places, less the '\n' at the end.
unfoldable pub motd_lines : Text → (begun : Text) → List Text
motd_lines [] begun = if is_empty begun then [] else begun ∷ []
motd_lines (c ∷ cs) begun = elim (c == 10) [
  | true ↦ begun ∷ motd_lines cs []
  | false ↦ elim (ltb (length begun) 78) [
    | true ↦ motd_lines cs (begun ++ (c ∷ []))
    | false ↦ (begun ++ (c ∷ [])) ∷ motd_lines cs []
  ]
]

unfoldable pub tell_lines : ℕ → Reply → List Text → Server → Option Server
tell_lines u code [] s = some s
tell_lines u code (t ∷ ts) s = reply_to u code [] t s >>= λ s1. tell_lines u code ts s1

unfoldable pub tell_motd : ℕ → Option Text → Server → Option Server
tell_motd u none s = reply_to u err_nomotd [] [] s
tell_motd u (some file) s = reply_to u rpl_motdstart [] [] s >>= λ s1.
    tell_lines u rpl_motd (motd_lines file []) s1 >>= λ s2. reply_to u rpl_endofmotd [] [] s2

unfoldable pub chirc_handle_motd : ℕ → Server → Option Server
chirc_handle_motd u = if_registered u λ p s. tell_motd u (s.motd) s

unfoldable pub chirc_handle_ping : ℕ → Server → Option Server
chirc_handle_ping u =
    if_registered u
      λ p s. some (send_text p.client_socket (short_line (codes "PONG " ++ (s.servername))) s)

unfoldable pub chirc_handle_unknown : ℕ → (command : Text) → Server → Option Server
chirc_handle_unknown u command s = reply_to u err_unknowncommand [] command s
