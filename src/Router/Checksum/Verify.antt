-- ===== src/Router/Checksum/Verify.antt =====
-- stub_sr/sr_router.c: what storing the IP checksum does to a header that is checked by storing it
-- again, as sr_handlepacket does.
use uchi_networks.Common.{
  ℕ, ◌+◌, ◌*◌, ◌/◌, ◌%◌, ◌≤◌, ◌<◌, ◌≡◌, ◌≢◌, ◌↔◌, ◌∙◌, ap, ap₂, sym, arith, length, set, All-get_or,
  All-set, set-set, set_comm, set-get_or,
}
use mathlib.Core.Path.{◌≡⟨◌⟩◌, ◌∎}
use uchi_networks.Router.Bytes.{
  Bytes, get8, get16, put8, put16, length-put16, get8-put16_ne, get16-put16_self,
}
use uchi_networks.Router.Off
use uchi_networks.Router.Checksum.{complement16, header_words, compute_ip_checksum, sum_words}
use uchi_networks.Router.Checksum.Ones.{
  IsBytes, get16-lt, total, residue, sum_words-total, total-put16,
}

-- A frame of bytes that holds a whole IP header of at least 12 bytes.
pub record IsHeader (bs : Bytes) : Type 0 where
  pub bytes : IsBytes bs
  pub long : 26 ≤ length bs
  pub words : 3 ≤ header_words bs

-- The sum of the header's 16-bit words.
abbrev pub header_total : Bytes → ℕ
header_total bs = total (header_words bs * 2) Off.ip_header bs

pub put16-IsBytes : (bs : Bytes) (i v : ℕ) → IsBytes bs → IsBytes (put16 bs i v)
put16-IsBytes bs i v h =
    All-set (λ b. b < 256) (put8 bs i v) (i + 1) (v / 256 % 256) (omega arith)
      (All-set (λ b. b < 256) bs i (v % 256) (omega arith) h)

put16-put16 : (bs : Bytes) (i v w : ℕ) → put16 (put16 bs i v) i w ≡ put16 bs i w
put16-put16 bs i v w =
    ap (λ t. put8 t (i + 1) (w / 256))
      (set_comm (put8 bs i v) (i + 1) i (v / 256 % 256) (w % 256) (omega arith)
        ∙ ap (λ t. set t (i + 1) (v / 256 % 256)) (set-set bs i (v % 256) (w % 256)))
    ∙ set-set (put8 bs i w) (i + 1) (v / 256 % 256) (w / 256 % 256)

put16-get16 : (bs : Bytes) (i : ℕ) → IsBytes bs → put16 bs i (get16 bs i) ≡ bs
put16-get16 bs i h =
    ap₂ (λ a b. set (set bs i a) (i + 1) b) low high
    ∙ ap (λ t. set t (i + 1) (get8 bs (i + 1))) (set-get_or bs i 0)
    ∙ set-get_or bs (i + 1) 0
  where
    lo : get8 bs i < 256
    lo = All-get_or (λ b. b < 256) bs i 0 (omega arith) h

    hi : get8 bs (i + 1) < 256
    hi = All-get_or (λ b. b < 256) bs (i + 1) 0 (omega arith) h

    low : get16 bs i % 256 ≡ get8 bs i
    low = omega (arith, lo, hi)

    high : get16 bs i / 256 % 256 ≡ get8 bs (i + 1)
    high = omega (arith, lo, hi)

pub header_words-compute : (bs : Bytes) → header_words (compute_ip_checksum bs) ≡ header_words bs
unfolding header_words compute_ip_checksum
header_words-compute bs = ap (λ t. t % 16) (get8-put16_ne bs 24 14 _ (omega arith) (omega arith))

pub length-compute : (bs : Bytes) → length (compute_ip_checksum bs) ≡ length bs
unfolding compute_ip_checksum
length-compute bs = length-put16 bs 24 _

pub compute-IsHeader : (bs : Bytes) → IsHeader bs → IsHeader (compute_ip_checksum bs)
unfolding compute_ip_checksum
compute-IsHeader bs h = record {
  bytes = put16-IsBytes bs 24 _ h.bytes;
  long = omega (arith, length-compute bs, h.long);
  words = omega (arith, header_words-compute bs, h.words);
}

complement16-lt : (s : ℕ) → complement16 s < 65536
unfolding complement16
complement16-lt s = omega arith

-- What is stored.
pub ip_sum-compute :
    (bs : Bytes)
    → IsHeader bs
    → get16 (compute_ip_checksum bs) Off.ip_sum ≡ complement16 (residue (header_total bs))
unfolding compute_ip_checksum
ip_sum-compute bs h =
    get16-put16_self bs 24 (complement16 (sum_words (header_words bs * 2) 14 bs 0))
      (omega (arith, h.long)) (complement16-lt _)
    ∙ ap complement16 (sum_words-total (header_words bs * 2) 14 bs h.bytes)

-- The call writes nothing but the checksum field.
pub compute_stored :
    (bs : Bytes)
    → IsHeader bs
    → compute_ip_checksum bs ≡ put16 bs Off.ip_sum (get16 (compute_ip_checksum bs) Off.ip_sum)
unfolding compute_ip_checksum
compute_stored bs h = ap (put16 bs 24) (
    sym (
      get16-put16_self bs 24 (complement16 (sum_words (header_words bs * 2) 14 bs 0))
        (omega (arith, h.long)) (complement16-lt _)))

header_total-compute :
    (bs : Bytes)
    → IsHeader bs
    → header_total (compute_ip_checksum bs) + get16 bs Off.ip_sum
      ≡ header_total bs + get16 (compute_ip_checksum bs) Off.ip_sum
unfolding compute_ip_checksum
header_total-compute bs h = rw header_words-compute (
    omega (
      arith,
      h.words,
      h.long,
      get16-put16_self bs 24 c (omega (arith, h.long)) (complement16-lt _),
      total-put16 (header_words bs * 2) 5 14 24 c bs (omega arith) (omega (arith, h.words))
          (omega (arith, h.long)) (complement16-lt _),
    ))
  where
    c : ℕ
    c = complement16 (sum_words (header_words bs * 2) 14 bs 0)

-- The check of sr_handlepacket passes exactly when the words of the header, the received checksum
-- among them, sum to a multiple of 65535 other than 0.
pub accepts_iff :
    (bs : Bytes)
    → IsHeader bs
    → (get16 (compute_ip_checksum bs) Off.ip_sum ≡ 0)
      ↔ ((header_total bs % 65535 ≡ 0) × (header_total bs ≢ 0))
unfolding complement16 residue
accepts_iff bs h = ground (arith, ip_sum-compute bs h)

-- A header whose checksum was computed over a zeroed checksum field passes the check.
pub compute_accepted :
    (bs : Bytes)
    → IsHeader bs
    → get16 bs Off.ip_sum ≡ 0
    → get16 (compute_ip_checksum (compute_ip_checksum bs)) Off.ip_sum ≡ 0
unfolding complement16 residue
compute_accepted bs h z = ground (
  arith,
  ip_sum-compute bs h,
  ip_sum-compute (compute_ip_checksum bs) (compute-IsHeader bs h),
  header_total-compute bs h,
)

-- After a passed check the second computation puts the received header back, unless the received
-- checksum was 0xffff.
pub compute_restores :
    (bs : Bytes)
    → IsHeader bs
    → get16 (compute_ip_checksum bs) Off.ip_sum ≡ 0
    → get16 bs Off.ip_sum ≢ 65535
    → compute_ip_checksum (compute_ip_checksum bs) ≡ bs
unfolding residue complement16
compute_restores bs h z ne =
    compute_ip_checksum (compute_ip_checksum bs)
    ≡⟨ compute_stored (compute_ip_checksum bs) h' ⟩ put16 (compute_ip_checksum bs) 24 c
    ≡⟨ ap (λ t. put16 t 24 c) (compute_stored bs h) ⟩ put16 (put16 bs 24 _) 24 c
    ≡⟨ put16-put16 bs 24 _ c ⟩ put16 bs 24 c
    ≡⟨ ap (put16 bs 24) back ⟩ put16 bs 24 (get16 bs 24)
    ≡⟨ put16-get16 bs 24 h.bytes ⟩ bs ∎
  where
    h' : IsHeader (compute_ip_checksum bs)
    h' = compute-IsHeader bs h

    c : ℕ
    c = get16 (compute_ip_checksum (compute_ip_checksum bs)) 24

    back : c ≡ get16 bs 24
    back = ground (
      arith,
      ip_sum-compute bs h,
      ip_sum-compute (compute_ip_checksum bs) h',
      header_total-compute bs h,
      get16-lt bs 24 h.bytes,
    )
