-- ===== src/Router/Checksum/Ones.antt =====
-- The summing loop against the ones' complement sum of the words.
use uchi_networks.Common.{
  ℕ, zero, suc, ◌+◌, ◌-◌, ◌*◌, ◌%◌, ◌<◌, ◌≡◌, refl, ◌∙◌, ap, arith, All, All-get_or, length,
  if◌then◌else◌, ◌==◌,
}
use uchi_networks.Router.Bytes.{Bytes, get16, put16, get8-put16_ne, get16-put16_self}
use uchi_networks.Router.Checksum.{add_word, sum_words}

-- Every element is a byte.
abbrev pub IsBytes : Bytes → Type 0
IsBytes bs = All (λ b. b < 256) bs

-- The plain sum of `count` words from `off` on.
unfoldable pub total : ℕ → ℕ → Bytes → ℕ
total zero off bs = 0
total (suc count) off bs = get16 bs off + total count (off + 2) bs

-- The residue of a sum modulo 65535, with 65535 in place of 0 for a sum that is not 0.
unfoldable pub residue : ℕ → ℕ
residue s = if s == 0 then 0 else (s - 1) % 65535 + 1

pub get16-lt : (bs : Bytes) (i : ℕ) → IsBytes bs → get16 bs i < 65536
get16-lt bs i h = omega (
  arith,
  All-get_or (λ b. b < 256) bs i 0 (omega arith) h,
  All-get_or (λ b. b < 256) bs (i + 1) 0 (omega arith) h,
)

add_word-residue : (s w : ℕ) → w < 65536 → add_word (residue s) w ≡ residue (s + w)
unfolding add_word residue
add_word-residue s w h = ground arith

-- From the residue of any earlier sum the loop ends at the residue of the whole sum.
pub sum_words-residue :
    (count off s : ℕ) (bs : Bytes)
    → IsBytes bs
    → sum_words count off bs (residue s) ≡ residue (s + total count off bs)
unfolding sum_words total
sum_words-residue zero off s bs h = ap residue (omega arith)
sum_words-residue (suc count) off s bs h =
    rw (add_word-residue s (get16 bs off) (get16-lt bs off h))
      (sum_words-residue count (off + 2) (s + get16 bs off) bs h ∙ ap residue (omega arith))

-- The loop that folds each carry at once gives the ones' complement sum of the words, for any
-- bytes and any number of words.
pub sum_words-total :
    (count off : ℕ) (bs : Bytes)
    → IsBytes bs
    → sum_words count off bs 0 ≡ residue (total count off bs)
unfolding residue
sum_words-total count off bs h = sum_words-residue count off 0 bs h ∙ ap residue (omega arith)

total-put16_outside :
    (count off p v : ℕ) (bs : Bytes)
    → p + 1 < off
    → total count off (put16 bs p v) ≡ total count off bs
unfolding total
total-put16_outside zero off p v bs h = refl
total-put16_outside (suc count) off p v bs h = omega (
  arith,
  get8-put16_ne bs p off v (omega arith) (omega arith),
  get8-put16_ne bs p (off + 1) v (omega arith) (omega arith),
  total-put16_outside count (off + 2) p v bs (omega arith),
)

-- Storing a word inside the range exchanges it in the sum.
pub total-put16 :
    (count k off p v : ℕ) (bs : Bytes)
    → p ≡ off + 2 * k
    → k < count
    → p + 1 < length bs
    → v < 65536
    → total count off (put16 bs p v) + get16 bs p ≡ total count off bs + v
unfolding total
total-put16 zero k off p v bs e h l w = absurd (omega arith)
total-put16 (suc count) zero off p v bs e h l w =
    rw (e, add-two)
      (omega (
        arith,
        get16-put16_self bs off v (omega arith) w,
        total-put16_outside count (off + 2) off v bs (omega arith),
      ))
  where
    add-two : off + 2 * 0 ≡ off
    add-two = omega arith
total-put16 (suc count) (suc k) off p v bs e h l w = omega (
  arith,
  get8-put16_ne bs p off v (omega arith) (omega arith),
  get8-put16_ne bs p (off + 1) v (omega arith) (omega arith),
  total-put16 count k (off + 2) p v bs (omega arith) (omega arith) l w,
)
