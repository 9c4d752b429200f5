-- ===== src/Irc/Parse.antt =====
-- src/parser.c: parse, which splits a message into its command and parameters.
pub mod Words
use uchi_networks.Common.{
  ℕ, ◌+◌, Bool, ◌==◌, ◌&&◌, ◌||◌, ltb, leb, if◌then◌else◌, List, [], ◌∷◌, ◌++◌, Option, none, some,
  length, take, ◌>>=◌,
}

-- MAXPARAMS
abbrev pub max_params : ℕ
max_params = 16

-- The last index of a row of `chirc_message`, MAXMSG - 2.
abbrev pub last_column : ℕ
last_column = 510

-- A text: its characters up to the '\0'.
abbrev pub Text : Type 0
Text = List ℕ

abbrev pub is_colon : ℕ → Text → Bool
is_colon c row = c == 58 && length row == 0

-- The `chirc_message` of which the first rows are these: the others are empty.
unfoldable pub chirc_message : List Text → List Text
chirc_message rows =
    take 16
      (rows ++ ([] ∷ [] ∷ [] ∷ [] ∷ [] ∷ [] ∷ [] ∷ [] ∷ [] ∷ [] ∷ [] ∷ [] ∷ [] ∷ [] ∷ [] ∷ [] ∷ []))

-- A space ends the row, and any other character is appended to it, with a '\0' behind it. A write
-- outside of `params`, or outside of the row, is `none`.
unfoldable pub put_char : List Text → Text → ℕ → Option (List Text × Text)
put_char rows row c =
    if leb max_params (length rows)
    then none
    else if c == 32
    then some (rows ++ (row ∷ []), [])
    else if leb last_column (length row)
    then none
    else some (rows, row ++ (c ∷ []))

-- `strcpy(params[paramnum], &msg[counter])`
unfoldable pub put_rest : List Text → Text → Option (List Text)
put_rest rows text =
    if leb max_params (length rows) || ltb last_column (length text)
    then none
    else some (chirc_message (rows ++ (text ∷ [])))

-- The loop over the message: `rows` are the params before paramnum, `row` is params[paramnum], of
-- length paramcounter.
unfoldable pub parse_chars : List Text → Text → Text → Option (List Text)
parse_chars rows row [] = some (chirc_message (rows ++ (row ∷ [])))
parse_chars rows row (c ∷ cs) =
    if is_colon c row
    then put_rest rows (c ∷ cs)
    else put_char rows row c >>= λ s. parse_chars (s.0) s.1 cs

-- `parse`, up to the call of handle_chirc_message.
unfoldable pub parse : Text → Option (List Text)
parse msg = parse_chars [] [] msg
