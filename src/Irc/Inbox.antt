-- ===== src/Irc/Inbox.antt =====
-- src/parser.c: parse_message, which cuts what recv gives into messages.
pub mod Lines
use uchi_networks.Common.{
  ℕ, zero, suc, ◌+◌, ◌-◌, Bool, true, false, ◌==◌, ◌&&◌, ltb, if◌then◌else◌, List, [], ◌∷◌, ◌++◌,
  Option, none, some, length, take, ◌>>=◌,
}
use uchi_networks.Irc.Parse.{Text}

-- What parse_message keeps from one recv to the next: the begun message, of length `msglength`, and
-- `CRLFsplit`. `truncated` is set only after a text too long for `msg` has been copied into it,
-- past its end, which is `none` here.
pub record Inbox : Type 0 where
  pub msg : Text
  pub crlf_split : Bool

-- `strstr(text, "\r\n")`: what stands before it and what behind it.
unfoldable pub cut_crlf : Text → Option (Text × Text)
cut_crlf [] = none
cut_crlf (c ∷ []) = none
cut_crlf (c ∷ (d ∷ cs)) =
    if c == 13 && d == 10 then some ([], cs) else cut_crlf (d ∷ cs) >>= λ r. some (c ∷ (r.0), r.1)

-- `strcat(msg, text)`, where `msg` has place for 510 characters.
unfoldable pub append_to : Text → Text → Option Text
append_to msg text = if ltb 510 (length msg + length text) then none else some (msg ++ text)

-- The messages that have been given to parse, and what is left: `msg` and the rest of the buffer.
pub record Cut : Type 0 where
  pub parsed : List Text
  pub begun : Text
  pub rest : Text

-- A round of the loop over the buffer's complete messages, where the rest of the loop is `again`. A
-- message that is too long is ended behind the end of `msg`: the copy overruns it.
unfoldable pub after_cut :
    (again : Text → Option Cut) → (msg text : Text) → Option (Text × Text) → Option Cut
after_cut again msg text none = some (record { parsed = []; begun = msg; rest = text })
after_cut again msg text (some r) =
    append_to msg (r.0) >>= λ line. again r.1 >>= λ c. some (record c { parsed = line ∷ c.parsed })

-- The loop over the complete messages of the buffer. Each round takes two characters at least.
unfoldable pub take_lines : (fuel : ℕ) → (msg text : Text) → Option Cut
take_lines zero msg text = none
take_lines (suc fuel) msg text = after_cut (take_lines fuel []) msg text (cut_crlf text)

-- `msg[msglength - 2] = '\0'`, and the message that is parsed then, if one is begun.
unfoldable pub cut_split : Text → Option (List Text)
cut_split [] = some []
cut_split (m ∷ []) = none
cut_split (m ∷ (n ∷ ms)) = some (take (length ms) (m ∷ (n ∷ ms)) ∷ [])

-- The line feed of a CRLF that came in two parts ends the begun message.
unfoldable pub end_split : Text → Text → Option Cut
end_split msg [] = some (record { parsed = []; begun = msg; rest = [] })
end_split msg (c ∷ cs) =
    if c == 10
    then (cut_split msg >>= λ ls. some (record { parsed = ls; begun = []; rest = cs }))
    else some (record { parsed = []; begun = msg; rest = c ∷ cs })

unfoldable pub ends_with_cr : Text → Bool
ends_with_cr [] = false
ends_with_cr (c ∷ []) = c == 13
ends_with_cr (c ∷ (d ∷ cs)) = ends_with_cr (d ∷ cs)

-- A round of parse_message: the messages that it gives to parse, and what it keeps. The buffer has
-- no '\0'.
unfoldable pub parse_message : Inbox → (buf : Text) → Option (List Text × Inbox)
parse_message inbox buf =
    (if inbox.crlf_split
      then end_split inbox.msg buf
      else some (record { parsed = []; begun = inbox.msg; rest = buf }))
    >>= λ s. take_lines (suc (length s.rest)) s.begun s.rest >>= λ c.
        append_to c.begun c.rest >>= λ msg.
        some (s.parsed ++ c.parsed, record { msg = msg; crlf_split = ends_with_cr c.rest })
