-- ===== src/Irc/Tests.antt =====
-- src: the theorems on the IRC server at concrete inputs.
use uchi_networks.Common.{
  true, false, ◌≡◌, refl, arith, List, [], ◌∷◌, ◌++◌, none, some, All, All-append,
}
use uchi_networks.Irc.Parse.{Text, chirc_message, parse}
use uchi_networks.Irc.Inbox.{parse_message}
use uchi_networks.Irc.Inbox.Lines.{framed, parse_message-framed, parse_message-split}
use uchi_networks.Irc.Parse.Words.{
  IsWord, spoken, plain_words, parse-spoken, parse-plain_words, spoken_overruns,
}

-- "JOIN"
abbrev join_word : Text
join_word = 74 ∷ 79 ∷ 73 ∷ 78 ∷ []

-- "#c"
abbrev chan_word : Text
chan_word = 35 ∷ 99 ∷ []

join_word-IsWord : IsWord join_word
join_word-IsWord = record {
  no_space = (refl, (refl, (refl, (refl, tt))));
  no_colon = refl;
  short = omega arith;
}

chan_word-IsWord : IsWord chan_word
chan_word-IsWord = record { no_space = (refl, (refl, tt)); no_colon = refl; short = omega arith }

parse-spoken_example :
    parse (spoken (join_word ∷ (chan_word ∷ [])) (97 ∷ 32 ∷ 98 ∷ []))
    ≡ some (chirc_message (join_word ∷ chan_word ∷ (58 ∷ 97 ∷ 32 ∷ 98 ∷ []) ∷ []))
parse-spoken_example =
    parse-spoken (join_word ∷ (chan_word ∷ [])) (97 ∷ 32 ∷ 98 ∷ []) (omega arith)
      (join_word-IsWord, (chan_word-IsWord, tt)) (omega arith)

parse-plain_words_example :
    parse (plain_words join_word (chan_word ∷ []))
    ≡ some (chirc_message (join_word ∷ chan_word ∷ []))
parse-plain_words_example =
    parse-plain_words join_word (chan_word ∷ []) (omega arith) join_word-IsWord
      (chan_word-IsWord, tt)

abbrev four : List Text
four = chan_word ∷ chan_word ∷ chan_word ∷ chan_word ∷ []

spoken_overruns_example : parse (spoken (four ++ (four ++ (four ++ four))) []) ≡ none
spoken_overruns_example = spoken_overruns (four ++ (four ++ (four ++ four))) [] refl (
    All-append IsWord four (four ++ (four ++ four)) four_words (
      All-append IsWord four (four ++ four) four_words
        (All-append IsWord four four four_words four_words)))
  where
    four_words : All IsWord four
    four_words = (chan_word-IsWord, (chan_word-IsWord, (chan_word-IsWord, (chan_word-IsWord, tt))))

-- "JO" has come, and now "IN", a CRLF, "#c", a CRLF and "J".
parse_message-framed_example :
    parse_message
      (record { msg = 74 ∷ 79 ∷ []; crlf_split = false })
      (framed ((73 ∷ 78 ∷ []) ∷ (chan_word ∷ [])) (74 ∷ []))
    ≡ some (join_word ∷ (chan_word ∷ []), record { msg = 74 ∷ []; crlf_split = false })
parse_message-framed_example =
    parse_message-framed (74 ∷ 79 ∷ []) (73 ∷ 78 ∷ []) (chan_word ∷ []) (74 ∷ []) (refl, (refl, tt))
      (omega arith) (record { plain = (refl, (refl, tt)); short = omega arith }, tt)
      (record { plain = (refl, tt); short = omega arith })

parse_message-split_example :
    parse_message (record { msg = 74 ∷ 79 ∷ 73 ∷ 78 ∷ 13 ∷ []; crlf_split = true }) (10 ∷ [])
    ≡ some ((74 ∷ 79 ∷ 73 ∷ []) ∷ [], record { msg = []; crlf_split = false })
parse_message-split_example = parse_message-split (74 ∷ 79 ∷ 73 ∷ []) 78
