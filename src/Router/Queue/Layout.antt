-- ===== src/Router/Queue/Layout.antt =====
-- stub_sr/sr_router.c: the fields of the frames that arp_create makes, read back.
use uchi_networks.Common.{
  ℕ, zero, suc, ◌+◌, ◌^◌, ◌<◌, ◌≡◌, refl, ap, sym, ◌∙◌, arith, [], ◌∷◌, ◌++◌, length, take, drop,
}
use uchi_networks.Router.Bytes.{Bytes, get8, net16, net32, get_bytes}
use uchi_networks.Router.Off
use uchi_networks.Router.Frames.{ethertype_ip, ethertype_arp}
use uchi_networks.Router.Queue.{arp_bytes, net16_bytes, net32_bytes}

-- An ARP frame with these fields, of 42 bytes.
pub record IsArp (out dhost shost : Bytes) (op : ℕ) (sha : Bytes) (sip : ℕ) (tha : Bytes) (tip : ℕ)
    : Type 0 where
  pub to : get_bytes out Off.ether_dhost 6 ≡ dhost
  pub from : get_bytes out Off.ether_shost 6 ≡ shost
  pub ether_type : net16 out Off.ether_type ≡ ethertype_arp
  pub hardware : net16 out 14 ≡ 1
  pub protocol : net16 out 16 ≡ ethertype_ip
  pub ar_op : net16 out Off.ar_op ≡ op
  pub ar_sha : get_bytes out Off.ar_sha 6 ≡ sha
  pub ar_sip : net32 out Off.ar_sip ≡ sip
  pub ar_tha : get_bytes out Off.ar_tha 6 ≡ tha
  pub ar_tip : net32 out Off.ar_tip ≡ tip
  pub size : length out ≡ 42

skip : (m b : Bytes) (n : ℕ) → drop (length m + n) (m ++ b) ≡ drop n b
skip [] b n = ap (λ k. drop k b) (omega arith)
skip (x ∷ m) b n = ap (λ k. drop k (x ∷ (m ++ b))) suc-out ∙ skip m b n
  where
    suc-out : length (x ∷ m) + n ≡ suc (length m + n)
    suc-out = omega arith

skip_six : (m b : Bytes) (k n : ℕ) → length m ≡ 6 → k ≡ 6 + n → drop k (m ++ b) ≡ drop n b
skip_six m b k n h e = ap (λ t. drop t (m ++ b)) (omega arith) ∙ skip m b n

take_all : (m b : Bytes) → take (length m) (m ++ b) ≡ m
take_all [] b = refl
take_all (x ∷ m) b = ap (◌∷◌ x) (take_all m b)

take_six : (m b : Bytes) → length m ≡ 6 → take 6 (m ++ b) ≡ m
take_six m b h = ap (λ k. take k (m ++ b)) (sym h) ∙ take_all m b

get8-drop : (bs : Bytes) (n k : ℕ) → get8 bs (n + k) ≡ get8 (drop n bs) k
get8-drop bs zero k = ap (get8 bs) (omega arith)
get8-drop [] (suc n) k = refl
get8-drop (x ∷ bs) (suc n) k = ap (get8 (x ∷ bs)) suc-out ∙ get8-drop bs n k
  where
    suc-out : suc n + k ≡ suc (n + k)
    suc-out = omega arith

length-app : (a b : Bytes) → length (a ++ b) ≡ length a + length b
length-app [] b = omega arith
length-app (x ∷ a) b = omega (arith, length-app a b)

module _ (dh sh : Bytes) (op : ℕ) (sha : Bytes) (sip : ℕ) (tha : Bytes) (tip : ℕ)
    (ldh : length dh ≡ 6) (lsh : length sh ≡ 6) (lsha : length sha ≡ 6)
    (ltha : length tha ≡ 6) where
  tail_tha : Bytes
  tail_tha = tha ++ net32_bytes tip

  tail_sha : Bytes
  unfolding tail_tha
  tail_sha = sha ++ (net32_bytes sip ++ tail_tha)

  head_arp : Bytes
  unfolding tail_sha
  head_arp = 8 ∷ 6 ∷ 0 ∷ 1 ∷ 8 ∷ 0 ∷ 6 ∷ 4 ∷ (net16_bytes op ++ tail_sha)

  out : Bytes
  out = arp_bytes dh sh op sha sip tha tip

  drop_head : (k : ℕ) → drop (12 + k) out ≡ drop k head_arp
  unfolding out arp_bytes head_arp
  drop_head k =
      skip_six dh _ (12 + k) (6 + k) ldh (omega arith) ∙ skip_six sh head_arp (6 + k) k lsh refl

  drop_sip : drop 28 out ≡ net32_bytes sip ++ tail_tha
  unfolding head_arp
  drop_sip = drop_head 16 ∙ skip_six sha _ 6 0 lsha refl

  drop_tha : drop 32 out ≡ tail_tha
  unfolding head_arp
  drop_tha = drop_head 20 ∙ skip_six sha _ 10 4 lsha refl

  drop_tip : drop 38 out ≡ net32_bytes tip
  unfolding head_arp
  drop_tip = drop_head 26 ∙ skip_six sha _ 16 10 lsha refl ∙ skip_six tha _ 6 0 ltha refl

  get_at : (n k : ℕ) (bs : Bytes) → drop n out ≡ bs → get8 out (n + k) ≡ get8 bs k
  get_at n k bs e = get8-drop out n k ∙ ap (λ t. get8 t k) e

  net32_at :
      (n v : ℕ) (rest : Bytes) → drop n out ≡ net32_bytes v ++ rest → v < 2 ^ 32 → net32 out n ≡ v
  net32_at n v rest e h = omega (
    arith,
    get_at n 0 (net32_bytes v ++ rest) e,
    get_at n 1 (net32_bytes v ++ rest) e,
    get_at n 2 (net32_bytes v ++ rest) e,
    get_at n 3 (net32_bytes v ++ rest) e,
    first,
    last,
  )
    where
      first : get8 out n ≡ get8 out (n + 0)
      first = ap (get8 out) (omega arith)

      last : get8 out (n + 2 + 1) ≡ get8 out (n + 3)
      last = ap (get8 out) (omega arith)

  pub arp_bytes-IsArp :
      op < 65536
      → sip < 2 ^ 32
      → tip < 2 ^ 32
      → IsArp (arp_bytes dh sh op sha sip tha tip) dh sh op sha sip tha tip
  unfolding out arp_bytes head_arp
  arp_bytes-IsArp ho hs ht = record {
    to = take_six dh _ ldh;
    from = ap (take 6) (skip_six dh _ 6 0 ldh refl) ∙ take_six sh _ lsh;
    ether_type =
        omega (arith, get_at 12 0 head_arp (drop_head 0), get_at 12 1 head_arp (drop_head 0));
    hardware =
        omega (arith, get_at 12 2 head_arp (drop_head 0), get_at 12 3 head_arp (drop_head 0));
    protocol =
        omega (arith, get_at 12 4 head_arp (drop_head 0), get_at 12 5 head_arp (drop_head 0));
    ar_op = omega (arith, get_at 12 8 head_arp (drop_head 0), get_at 12 9 head_arp (drop_head 0));
    ar_sha = ap (take 6) (drop_head 10) ∙ take_six sha _ lsha;
    ar_sip = net32_at 28 sip tail_tha drop_sip hs;
    ar_tha = ap (take 6) drop_tha ∙ take_six tha _ ltha;
    ar_tip = net32_at 38 tip [] drop_tip ht;
    size = whole;
  }
    where
      whole : length (arp_bytes dh sh op sha sip tha tip) ≡ 42
      whole = omega (
        arith,
        length-app dh (sh ++ head_arp),
        length-app sh head_arp,
        length-app sha (net32_bytes sip ++ tail_tha),
        length-app tha (net32_bytes tip),
      )
