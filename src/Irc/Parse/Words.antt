-- ===== src/Irc/Parse/Words.antt =====
-- src/parser.c: parse on the messages that clients send.
use uchi_networks.Common.{
  ℕ, suc, ◌+◌, ◌≤◌, ◌<◌, ◌≡◌, refl, ap, sym, ◌∙◌, arith, Bool, true, false, ◌==◌, ◌||◌, ltb, leb,
  List, [], ◌∷◌, ◌++◌, append_assoc, append-nil, none, some, length, All, length-append,
}
use uchi_networks.Irc.Parse.{Text, is_colon, chirc_message, put_char, put_rest, parse_chars, parse}

abbrev pub starts_with_colon : Text → Bool
starts_with_colon [] = false
starts_with_colon (c ∷ cs) = c == 58

-- A word of a message: it has no space, does not begin with a colon, and fits.
pub record IsWord (w : Text) : Type 0 where
  pub no_space : All (λ c. (c == 32) ≡ false) w
  pub no_colon : starts_with_colon w ≡ false
  pub short : length w ≤ 510

-- The words, a space behind each, and the last parameter, with its colon.
unfoldable pub spoken : List Text → Text → Text
spoken [] rest = 58 ∷ rest
spoken (w ∷ ws) rest = w ++ (32 ∷ spoken ws rest)

-- A word, and a space before each further one.
unfoldable pub plain_words : Text → List Text → Text
plain_words w [] = w
plain_words w (v ∷ ws) = w ++ (32 ∷ plain_words v ws)

put_letter :
    (rows : List Text) (row : Text) (c : ℕ)
    → length rows < 16
    → (c == 32) ≡ false
    → length row < 510
    → put_char rows row c ≡ some (rows, row ++ (c ∷ []))
unfolding put_char
put_letter rows row c a e b = rw (few, e, short) refl
  where
    few : leb 16 (length rows) ≡ false
    few = ground (arith, a)

    short : leb 510 (length row) ≡ false
    short = ground (arith, b)

put_space :
    (rows : List Text) (row : Text)
    → length rows < 16
    → put_char rows row 32 ≡ some (rows ++ (row ∷ []), [])
unfolding put_char
put_space rows row a = rw few refl
  where
    few : leb 16 (length rows) ≡ false
    few = ground (arith, a)

parse_letter :
    (rows : List Text) (row : Text) (c : ℕ) (cs : Text)
    → length rows < 16
    → (c == 32) ≡ false
    → length row < 510
    → is_colon c row ≡ false
    → parse_chars rows row (c ∷ cs) ≡ parse_chars rows (row ++ (c ∷ [])) cs
unfolding parse_chars
parse_letter rows row c cs a e b k = rw (k, put_letter rows row c a e b) refl

parse_space :
    (rows : List Text) (row : Text) (cs : Text)
    → length rows < 16
    → parse_chars rows row (32 ∷ cs) ≡ parse_chars (rows ++ (row ∷ [])) [] cs
unfolding parse_chars
parse_space rows row cs a = rw (put_space rows row a) refl

-- The letters of a word behind the first.
parse_letters :
    (rows : List Text) (row w cs : Text)
    → length rows < 16
    → All (λ c. (c == 32) ≡ false) w
    → length row + length w ≤ 510
    → 0 < length row
    → parse_chars rows row (w ++ cs) ≡ parse_chars rows (row ++ w) cs
parse_letters rows row [] cs a s b p = ap (λ t. parse_chars rows t cs) (sym (append-nil row))
parse_letters rows row (c ∷ w) cs a s b p =
    parse_letter rows row c (w ++ cs) a s.0 (omega (arith, b)) (behind c row p)
    ∙ parse_letters rows (row ++ (c ∷ [])) w cs a s.1 (omega (arith, b, length-append row (c ∷ [])))
        (omega (arith, length-append row (c ∷ [])))
    ∙ ap (λ t. parse_chars rows t cs) (append_assoc row (c ∷ []) w)
  where
    behind : (c : ℕ) (row : Text) → 0 < length row → is_colon c row ≡ false
    behind c row p = ground (arith, p)

parse_word :
    (rows : List Text) (w cs : Text)
    → length rows < 16
    → IsWord w
    → parse_chars rows [] (w ++ (32 ∷ cs)) ≡ parse_chars (rows ++ (w ∷ [])) [] cs
parse_word rows [] cs a i = parse_space rows [] cs a
parse_word rows (c ∷ w) cs a i =
    parse_letter rows [] c (w ++ (32 ∷ cs)) a i.no_space.0 (omega arith) (plain c i.no_colon)
    ∙ parse_letters rows (c ∷ []) w (32 ∷ cs) a i.no_space.1 (omega (arith, i.short)) (omega arith)
    ∙ parse_space rows (c ∷ w) cs a
  where
    plain : (c : ℕ) → (c == 58) ≡ false → is_colon c [] ≡ false
    plain c e = ground arith

parse_rest :
    (rows : List Text) (rest : Text)
    → length rows < 16
    → length rest < 510
    → parse_chars rows [] (58 ∷ rest) ≡ some (chirc_message (rows ++ ((58 ∷ rest) ∷ [])))
unfolding parse_chars put_rest
parse_rest rows rest a b =
    rw
      (fits (leb 16 (length rows)) (ltb 510 (suc (length rest))) (ground (arith, a))
        (ground (arith, b)))
      refl
  where
    fits : (x y : Bool) → x ≡ false → y ≡ false → (x || y) ≡ false
    fits x y p q = ground arith

parse_words :
    (rows ws : List Text) (rest : Text)
    → length rows + length ws < 16
    → All IsWord ws
    → length rest < 510
    → parse_chars rows [] (spoken ws rest)
      ≡ some (chirc_message (rows ++ (ws ++ ((58 ∷ rest) ∷ []))))
unfolding spoken
parse_words rows [] rest a i b = parse_rest rows rest (omega arith) b
parse_words rows (w ∷ ws) rest a i b =
    parse_word rows w (spoken ws rest) (omega arith) i.0
    ∙ parse_words (rows ++ (w ∷ [])) ws rest (omega (arith, length-append rows (w ∷ []))) i.1 b
    ∙ ap (λ t. some (chirc_message t)) (append_assoc rows (w ∷ []) (ws ++ ((58 ∷ rest) ∷ [])))

-- A message of up to 15 words and a last parameter behind a colon is split into just these, the
-- last one with its colon and its spaces. Words have no space and do not begin with a colon, and
-- each part is at most 510 characters long.
pub parse-spoken :
    (ws : List Text) (rest : Text)
    → length ws < 16
    → All IsWord ws
    → length rest < 510
    → parse (spoken ws rest) ≡ some (chirc_message (ws ++ ((58 ∷ rest) ∷ [])))
unfolding parse
parse-spoken ws rest a i b = parse_words [] ws rest (omega arith) i b

overrun :
    (rows ws : List Text) (rest : Text)
    → length rows + length ws ≡ 16
    → All IsWord ws
    → parse_chars rows [] (spoken ws rest) ≡ none
unfolding spoken parse_chars put_rest
overrun rows [] rest a i =
    rw (full (leb 16 (length rows)) (ltb 510 (suc (length rest))) (ground (arith, a))) refl
  where
    full : (x y : Bool) → x ≡ true → (x || y) ≡ true
    full x y p = ground arith
overrun rows (w ∷ ws) rest a i =
    parse_word rows w (spoken ws rest) (omega arith) i.0
    ∙ overrun (rows ++ (w ∷ [])) ws rest (omega (arith, length-append rows (w ∷ []))) i.1

-- Sixteen words, and a last parameter behind a colon, overrun the params, which have 16 rows: the
-- message is written past their end.
pub spoken_overruns :
    (ws : List Text) (rest : Text) → length ws ≡ 16 → All IsWord ws → parse (spoken ws rest) ≡ none
unfolding parse
spoken_overruns ws rest a i = overrun [] ws rest (omega arith) i

parse_last :
    (rows : List Text) (w : Text)
    → length rows < 16
    → IsWord w
    → parse_chars rows [] w ≡ some (chirc_message (rows ++ (w ∷ [])))
unfolding parse_chars
parse_last rows [] a i = refl
parse_last rows (c ∷ w) a i =
    parse_letter rows [] c w a i.no_space.0 (omega arith) (plain c i.no_colon)
    ∙ ap (λ t. parse_chars rows (c ∷ []) t) (sym (append-nil w))
    ∙ parse_letters rows (c ∷ []) w [] a i.no_space.1 (omega (arith, i.short)) (omega arith)
  where
    plain : (c : ℕ) → (c == 58) ≡ false → is_colon c [] ≡ false
    plain c e = ground arith

parse_plain :
    (rows : List Text) (w : Text) (ws : List Text)
    → length rows + length ws < 16
    → IsWord w
    → All IsWord ws
    → parse_chars rows [] (plain_words w ws) ≡ some (chirc_message (rows ++ (w ∷ ws)))
unfolding plain_words
parse_plain rows w [] a i k = parse_last rows w (omega arith) i
parse_plain rows w (v ∷ ws) a i k =
    parse_word rows w (plain_words v ws) (omega arith) i
    ∙ parse_plain (rows ++ (w ∷ [])) v ws (omega (arith, length-append rows (w ∷ []))) k.0 k.1
    ∙ ap (λ t. some (chirc_message t)) (append_assoc rows (w ∷ []) (v ∷ ws))

-- A message of up to 16 words with one space between any two is split into just these. Words have
-- no space, do not begin with a colon and are at most 510 characters long.
pub parse-plain_words :
    (w : Text) (ws : List Text)
    → length ws < 16
    → IsWord w
    → All IsWord ws
    → parse (plain_words w ws) ≡ some (chirc_message (w ∷ ws))
unfolding parse
parse-plain_words w ws a i k = parse_plain [] w ws (omega arith) i k
