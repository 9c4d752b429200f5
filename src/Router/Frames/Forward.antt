-- ===== src/Router/Frames/Forward.antt =====
-- stub_sr/sr_router.c: what update_ip_hdr and encapsulate make of a datagram that is sent on.
use uchi_networks.Common.{
  ℕ, zero, suc, ◌+◌, ◌*◌, ◌/◌, ◌%◌, ◌≤◌, ◌<◌, ◌≡◌, ◌≢◌, inr, refl, ap, sym, ◌∙◌, arith, length,
  All-get_or,
}
use uchi_networks.Router.Bytes.{
  Bytes, get8, get16, put8, put16, put_net16, put_bytes, length-put16, get8-put16_ne,
  get16-put16_self,
}
use uchi_networks.Router.Bytes.Copy.{
  get8-put8_self, get8-put8_ne, length-put8, put8-IsBytes, length-put_bytes, put_bytes-IsBytes,
  get8-put_bytes_outside, get8-put_bytes_inside,
}
use uchi_networks.Router.Off
use uchi_networks.Router.Types.{Frame}
use uchi_networks.Router.Checksum.{compute_ip_checksum, header_words}
use uchi_networks.Router.Checksum.Ones.{IsBytes, total}
use uchi_networks.Router.Checksum.Verify.{
  IsHeader, header_total, put16-IsBytes, length-compute, compute-IsHeader, compute_stored,
  compute_accepted, accepts_iff,
}
use uchi_networks.Router.Frames.{encapsulate, forward_bytes, proto_type}

-- The header before its checksum is computed.
abbrev aged : Bytes → Bytes
aged bs = put16 (put8 bs Off.ip_ttl (get8 bs Off.ip_ttl + 255)) Off.ip_sum 0

get8-aged : (bs : Bytes) (j : ℕ) → j ≢ 22 → j ≢ 24 → j ≢ 25 → get8 (aged bs) j ≡ get8 bs j
get8-aged bs j a b c =
    get8-put16_ne (put8 bs 22 (get8 bs 22 + 255)) 24 j 0 b c
    ∙ get8-put8_ne bs 22 j (get8 bs 22 + 255) a

aged-IsHeader : (bs : Bytes) → IsHeader bs → IsHeader (aged bs)
unfolding header_words
aged-IsHeader bs h = record {
  bytes = put16-IsBytes (put8 bs 22 _) 24 0 (put8-IsBytes bs 22 (get8 bs 22 + 255) h.bytes);
  long = omega (
    arith,
    h.long,
    length-put16 (put8 bs 22 (get8 bs 22 + 255)) 24 0,
    length-put8 bs 22 (get8 bs 22 + 255),
  );
  words = omega (arith, h.words, get8-aged bs 14 (omega arith) (omega arith) (omega arith));
}

forward_bytes_untouched :
    (bs : Bytes) (j : ℕ)
    → IsHeader bs
    → j ≢ 24
    → j ≢ 25
    → get8 (forward_bytes bs) j ≡ get8 (aged bs) j
unfolding forward_bytes
forward_bytes_untouched bs j h b c =
    ap (λ t. get8 t j) (compute_stored (aged bs) (aged-IsHeader bs h))
    ∙ get8-put16_ne (aged bs) 24 j _ b c

pub forward_bytes-IsHeader : (bs : Bytes) → IsHeader bs → IsHeader (forward_bytes bs)
unfolding forward_bytes
forward_bytes-IsHeader bs h = compute-IsHeader (aged bs) (aged-IsHeader bs h)

-- The sum sees the bytes from its first word on only.
total_ext :
    (count off : ℕ) (a b : Bytes)
    → ((j : ℕ) → off ≤ j → get8 a j ≡ get8 b j)
    → total count off a ≡ total count off b
unfolding total
total_ext zero off a b h = refl
total_ext (suc count) off a b h = omega (
  arith,
  h off (omega arith),
  h (off + 1) (omega arith),
  total_ext count (off + 2) a b (λ j l. h j (omega arith)),
)

-- Frames that agree from byte 14 on are both accepted or both not.
accepted_ext :
    (a b : Bytes)
    → IsHeader a
    → IsHeader b
    → ((j : ℕ) → 14 ≤ j → get8 a j ≡ get8 b j)
    → get16 (compute_ip_checksum a) 24 ≡ 0
    → get16 (compute_ip_checksum b) 24 ≡ 0
unfolding header_words
accepted_ext a b ha hb e z =
    let (m, n) = (accepts_iff a ha).0 z in (accepts_iff b hb).1 (rw same at m, rw same at n)
  where
    same : header_total a ≡ header_total b
    same =
        ap (λ w. total (w % 16 * 2) 14 a) (e 14 (omega arith))
        ∙ total_ext (get8 b 14 % 16 * 2) 14 a b e

-- A MAC address.
pub record IsMac (m : Bytes) : Type 0 where
  pub six : length m ≡ 6
  pub bytes : IsBytes m

encapsulate_body :
    (f : Frame) (j : ℕ)
    → IsMac f.from_mac
    → IsMac f.to_mac
    → 14 ≤ j
    → get8 (encapsulate f).bytes j ≡ get8 f.bytes j
unfolding encapsulate
encapsulate_body f j s d h =
    get8-put8_ne (put8 b2 12 t1) 13 j t (omega arith)
    ∙ get8-put8_ne b2 12 j t1 (omega arith)
    ∙ get8-put_bytes_outside b1 0 f.to_mac j (inr (omega (arith, d.six)))
    ∙ get8-put_bytes_outside f.bytes 6 f.from_mac j (inr (omega (arith, s.six)))
  where
    t : ℕ
    t = proto_type f.proto

    t1 : ℕ
    t1 = t / 256

    b1 : Bytes
    b1 = put_bytes f.bytes 6 f.from_mac

    b2 : Bytes
    b2 = put_bytes b1 0 f.to_mac

length-encapsulate : (f : Frame) → length (encapsulate f).bytes ≡ length f.bytes
unfolding encapsulate
length-encapsulate f = omega (
  arith,
  length-put8
      (put8 (put_bytes (put_bytes f.bytes 6 f.from_mac) 0 f.to_mac) 12 (proto_type f.proto / 256))
      13 (proto_type f.proto),
  length-put8 (put_bytes (put_bytes f.bytes 6 f.from_mac) 0 f.to_mac) 12 (proto_type f.proto / 256),
  length-put_bytes (put_bytes f.bytes 6 f.from_mac) 0 f.to_mac,
  length-put_bytes f.bytes 6 f.from_mac,
)

pub encapsulate-IsHeader :
    (f : Frame)
    → IsMac f.from_mac
    → IsMac f.to_mac
    → IsHeader f.bytes
    → IsHeader (encapsulate f).bytes
unfolding encapsulate header_words
encapsulate-IsHeader f s d h = record {
  bytes = put8-IsBytes _ 13 _ (
      put8-IsBytes _ 12 _
        (put_bytes-IsBytes _ 0 f.to_mac (put_bytes-IsBytes _ 6 f.from_mac h.bytes)));
  long = omega (arith, h.long, length-encapsulate f);
  words = omega (arith, h.words, encapsulate_body f 14 s d (omega arith));
}

-- The Ethernet header gets the two addresses.
encapsulate_macs :
    (f : Frame) (k : ℕ)
    → IsMac f.from_mac
    → IsMac f.to_mac
    → 26 ≤ length f.bytes
    → k < 6
    → (get8 (encapsulate f).bytes k ≡ get8 f.to_mac k)
      × (get8 (encapsulate f).bytes (6 + k) ≡ get8 f.from_mac k)
unfolding encapsulate
encapsulate_macs f k s d h l = (
  typed k (omega arith)
      ∙ ap (get8 b2) (omega arith)
      ∙ get8-put_bytes_inside b1 0 f.to_mac k d.bytes
          (omega (arith, h, d.six, length-put_bytes f.bytes 6 f.from_mac)) (omega (arith, d.six)),
  typed (6 + k) (omega arith)
      ∙ get8-put_bytes_outside b1 0 f.to_mac (6 + k) (inr (omega (arith, d.six)))
      ∙ get8-put_bytes_inside f.bytes 6 f.from_mac k s.bytes (omega (arith, h, s.six))
          (omega (arith, s.six)),
)
  where
    b1 : Bytes
    b1 = put_bytes f.bytes 6 f.from_mac

    b2 : Bytes
    b2 = put_bytes b1 0 f.to_mac

    typed : (j : ℕ) → j < 12 → get8 (put_net16 b2 12 (proto_type f.proto)) j ≡ get8 b2 j
    typed j l =
        get8-put8_ne (put8 b2 12 (proto_type f.proto / 256)) 13 j (proto_type f.proto) (omega arith)
        ∙ get8-put8_ne b2 12 j (proto_type f.proto / 256) (omega arith)

-- What leaves the router in place of a received datagram: everything behind the Ethernet header is
-- as received, but for the time to live, which is one less, and the checksum, which is valid
-- again; and the Ethernet header has the new source and destination.
pub record IsForwarded (bs from to out : Bytes) : Type 0 where
  pub ttl : get8 out Off.ip_ttl + 1 ≡ get8 bs Off.ip_ttl
  pub valid : get16 (compute_ip_checksum out) Off.ip_sum ≡ 0
  pub kept :
      (j : ℕ)
      → 14 ≤ j
      → j ≢ Off.ip_ttl
      → j ≢ Off.ip_sum
      → j ≢ Off.ip_sum + 1
      → get8 out j ≡ get8 bs j
  pub dhost : (k : ℕ) → k < 6 → get8 out k ≡ get8 to k
  pub shost : (k : ℕ) → k < 6 → get8 out (6 + k) ≡ get8 from k
  pub size : length out ≡ length bs

forward_bytes_valid :
    (bs : Bytes) → IsHeader bs → get16 (compute_ip_checksum (forward_bytes bs)) 24 ≡ 0
unfolding forward_bytes
forward_bytes_valid bs h = compute_accepted (aged bs) (aged-IsHeader bs h) (
    get16-put16_self (put8 bs 22 _) 24 0
      (omega (arith, h.long, length-put8 bs 22 (get8 bs 22 + 255))) (omega arith))

length-forward_bytes : (bs : Bytes) → length (forward_bytes bs) ≡ length bs
unfolding forward_bytes
length-forward_bytes bs = omega (
  arith,
  length-compute (aged bs),
  length-put16 (put8 bs 22 (get8 bs 22 + 255)) 24 0,
  length-put8 bs 22 (get8 bs 22 + 255),
)

forward_bytes_ttl :
    (bs : Bytes)
    → IsHeader bs
    → 0 < get8 bs 22
    → get8 bs 22 < 256
    → get8 (forward_bytes bs) 22 + 1 ≡ get8 bs 22
forward_bytes_ttl bs h p q = omega (
  arith,
  forward_bytes_untouched bs 22 h (omega arith) (omega arith),
  get8-put16_ne (put8 bs 22 (get8 bs 22 + 255)) 24 22 0 (omega arith) (omega arith),
  get8-put8_self bs 22 (get8 bs 22 + 255) (omega (arith, h.long)),
)

-- For a datagram with a time to live above 0 and two MAC addresses of six bytes.
pub forward-IsForwarded :
    (f : Frame) (bs : Bytes)
    → IsMac f.from_mac
    → IsMac f.to_mac
    → IsHeader bs
    → 0 < get8 bs Off.ip_ttl
    → f.bytes ≡ forward_bytes bs
    → IsForwarded bs f.from_mac f.to_mac (encapsulate f).bytes
forward-IsForwarded f bs s d h p e = record {
  ttl =
      ap (λ t. t + 1) (body 22 (omega arith))
      ∙ forward_bytes_ttl bs h p (All-get_or (λ b. b < 256) bs 22 0 (omega arith) h.bytes);
  valid =
      accepted_ext (forward_bytes bs) (encapsulate f).bytes (forward_bytes-IsHeader bs h)
        (encapsulate-IsHeader f s d (rw e (forward_bytes-IsHeader bs h))) (λ j l. sym (body j l))
        (forward_bytes_valid bs h);
  kept = λ j l a b c. body j l ∙ forward_bytes_untouched bs j h b c ∙ get8-aged bs j a b c;
  dhost = λ k l. (encapsulate_macs f k s d long l).0;
  shost = λ k l. (encapsulate_macs f k s d long l).1;
  size = length-encapsulate f ∙ ap length e ∙ length-forward_bytes bs;
}
  where
    body : (j : ℕ) → 14 ≤ j → get8 (encapsulate f).bytes j ≡ get8 (forward_bytes bs) j
    body j l = encapsulate_body f j s d l ∙ ap (λ t. get8 t j) e

    long : 26 ≤ length f.bytes
    long = omega (arith, ap length e, length-forward_bytes bs, h.long)
