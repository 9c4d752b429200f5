-- ===== src/Irc/Inbox/Lines.antt =====
-- src/parser.c: parse_message on complete messages and parts of them.
use uchi_networks.Common.{
  ℕ, zero, suc, ◌+◌, ◌≤◌, ◌<◌, ◌≡◌, refl, ap, ◌∙◌, arith, true, false, ◌==◌, ltb, List, [], ◌∷◌,
  ◌++◌, Option, none, some, length, take, ◌>>=◌, All, length-append,
}
use uchi_networks.Irc.Parse.{Text}
use uchi_networks.Irc.Inbox.{
  cut_crlf, append_to, after_cut, cut_split, Cut, take_lines, end_split, ends_with_cr,
  parse_message,
}

-- No carriage return.
abbrev pub IsPlain : Text → Type 0
IsPlain w = All (λ c. (c == 13) ≡ false) w

-- Messages, each with its CRLF, and what follows the last.
unfoldable pub framed : List Text → Text → Text
framed [] rest = rest
framed (w ∷ ws) rest = w ++ (13 ∷ 10 ∷ framed ws rest)

cut_crlf-plain : (w t : Text) → IsPlain w → cut_crlf (w ++ (13 ∷ 10 ∷ t)) ≡ some (w, t)
unfolding cut_crlf
cut_crlf-plain [] t p = refl
cut_crlf-plain (c ∷ []) t p = rw p.0 refl
cut_crlf-plain (c ∷ (d ∷ w)) t p = rw (p.0, cut_crlf-plain (d ∷ w) t p.1) refl

cut_crlf-none : (w : Text) → IsPlain w → cut_crlf w ≡ none
unfolding cut_crlf
cut_crlf-none [] p = refl
cut_crlf-none (c ∷ []) p = refl
cut_crlf-none (c ∷ (d ∷ w)) p = rw (p.0, cut_crlf-none (d ∷ w) p.1) refl

plain_end : (w : Text) → IsPlain w → ends_with_cr w ≡ false
unfolding ends_with_cr
plain_end [] p = refl
plain_end (c ∷ []) p = p.0
plain_end (c ∷ (d ∷ w)) p = plain_end (d ∷ w) p.1

append_fits : (m w : Text) → length m + length w ≤ 510 → append_to m w ≡ some (m ++ w)
unfolding append_to
append_fits m w h = rw fits refl
  where
    fits : ltb 510 (length m + length w) ≡ false
    fits = ground (arith, h)

-- A message that is plain and fits.
pub record IsLine (w : Text) : Type 0 where
  pub plain : IsPlain w
  pub short : length w ≤ 510

-- A round of the loop on a complete message.
take_line :
    (fuel : ℕ) (m w t : Text)
    → IsPlain w
    → length m + length w ≤ 510
    → take_lines (suc fuel) m (w ++ (13 ∷ 10 ∷ t))
      ≡ (take_lines fuel [] t >>= λ c. some (record c { parsed = (m ++ w) ∷ c.parsed }))
unfolding take_lines after_cut
take_line fuel m w t p h =
    ap (after_cut (take_lines fuel []) m (w ++ (13 ∷ 10 ∷ t))) (cut_crlf-plain w t p)
    ∙ ap
        (λ o.
          o >>= λ line. take_lines fuel [] t >>= λ c. some (record c { parsed = line ∷ c.parsed }))
        (append_fits m w h)

take_none :
    (fuel : ℕ) (m w : Text)
    → IsPlain w
    → take_lines (suc fuel) m w ≡ some (record { parsed = []; begun = m; rest = w })
unfolding take_lines after_cut
take_none fuel m w p = ap (after_cut (take_lines fuel []) m w) (cut_crlf-none w p)

take_lines-framed :
    (fuel : ℕ) (ws : List Text) (rest : Text)
    → length ws < fuel
    → All IsLine ws
    → IsPlain rest
    → take_lines fuel [] (framed ws rest) ≡ some (record { parsed = ws; begun = []; rest = rest })
unfolding framed
take_lines-framed zero ws rest h i p = absurd (omega arith)
take_lines-framed (suc fuel) [] rest h i p = take_none fuel [] rest p
take_lines-framed (suc fuel) (w ∷ ws) rest h i p =
    take_line fuel [] w (framed ws rest) i.0.plain (omega (arith, i.0.short))
    ∙ ap (λ (o : Option Cut). o >>= λ c. some (record c { parsed = w ∷ c.parsed }))
        (take_lines-framed fuel ws rest (omega arith) i.1 p)

length-framed : (ws : List Text) (rest : Text) → length ws ≤ length (framed ws rest)
unfolding framed
length-framed [] rest = omega arith
length-framed (w ∷ ws) rest =
    omega (arith, length-framed ws rest, length-append w (13 ∷ 10 ∷ framed ws rest))

take_lines-begun :
    (m w : Text) (ws : List Text) (rest : Text)
    → IsPlain w
    → length m + length w ≤ 510
    → All IsLine ws
    → IsPlain rest
    → take_lines (suc (length (framed (w ∷ ws) rest))) m (framed (w ∷ ws) rest)
      ≡ some (record { parsed = (m ++ w) ∷ ws; begun = []; rest = rest })
unfolding framed
take_lines-begun m w ws rest p h i r =
    take_line (length (w ++ (13 ∷ 10 ∷ framed ws rest))) m w (framed ws rest) p h
    ∙ ap (λ (o : Option Cut). o >>= λ c. some (record c { parsed = (m ++ w) ∷ c.parsed }))
        (take_lines-framed (length (w ++ (13 ∷ 10 ∷ framed ws rest))) ws rest
          (omega (arith, length-framed ws rest, length-append w (13 ∷ 10 ∷ framed ws rest))) i r)

take_begin : (m r : Text) → take (length m) (m ++ r) ≡ m
take_begin [] r = refl
take_begin (x ∷ m) r = ap (◌∷◌ x) (take_begin m r)

cut_two : (m : Text) (c : ℕ) → cut_split (m ++ (c ∷ 13 ∷ [])) ≡ some (m ∷ [])
unfolding cut_split
cut_two [] c = refl
cut_two (x ∷ []) c = refl
cut_two (x ∷ (y ∷ m)) c =
    ap (λ n. some (take n (x ∷ (y ∷ (m ++ (c ∷ 13 ∷ [])))) ∷ [])) two_more
    ∙ ap (λ t. some (t ∷ [])) (take_begin (x ∷ (y ∷ m)) (c ∷ 13 ∷ []))
  where
    two_more : length (m ++ (c ∷ 13 ∷ [])) ≡ length (x ∷ (y ∷ m))
    two_more = omega (arith, length-append m (c ∷ 13 ∷ []))

-- A begun message, the rest of it with its CRLF, further messages with theirs, and the beginning of
-- one more: parse gets the first message put together, then the further ones, in order, and the last
-- stays begun. The parts have no carriage return and the messages at most 510 characters, and what
-- came before did not end in the middle of a CRLF.
pub parse_message-framed :
    (m w : Text) (ws : List Text) (rest : Text)
    → IsPlain w
    → length m + length w ≤ 510
    → All IsLine ws
    → IsLine rest
    → parse_message (record { msg = m; crlf_split = false }) (framed (w ∷ ws) rest)
      ≡ some ((m ++ w) ∷ ws, record { msg = rest; crlf_split = false })
unfolding parse_message
parse_message-framed m w ws rest p h i r =
    rw (taken, append_fits [] rest (omega (arith, r.short)), plain_end rest r.plain) refl
  where
    taken :
        take_lines (suc (length (framed (w ∷ ws) rest))) m (framed (w ∷ ws) rest)
        ≡ some (record { parsed = (m ++ w) ∷ ws; begun = []; rest = rest })
    taken = take_lines-begun m w ws rest p h i r.plain

-- A message of at least one character, of which the line feed of its CRLF comes in a recv of its own:
-- what parse gets has lost its last character.
pub parse_message-split :
    (m : Text) (c : ℕ)
    → parse_message (record { msg = m ++ (c ∷ 13 ∷ []); crlf_split = true }) (10 ∷ [])
      ≡ some (m ∷ [], record { msg = []; crlf_split = false })
unfolding parse_message end_split take_lines after_cut cut_crlf append_to ends_with_cr
parse_message-split m c = rw (cut_two m c) refl
