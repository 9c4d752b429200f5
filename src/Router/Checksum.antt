-- ===== src/Router/Checksum.antt =====
-- stub_sr/sr_router.c: compute_ip_checksum and compute_icmp_checksum.
pub mod Ones
pub mod Verify
use uchi_networks.Common.{
  ℕ, zero, suc, ◌+◌, ◌-◌, ◌*◌, ◌/◌, ◌%◌, ◌^◌, Option, none, some, if◌then◌else◌, leb, ltb,
}
use uchi_networks.Router.Bytes.{Bytes, get8, get16, put16}
use uchi_networks.Router.Off

-- `sum += *tmp++; if (sum & 0xffff0000) { sum &= 0xffff; sum++; }` on a uint32_t.
unfoldable pub add_word : ℕ → ℕ → ℕ
add_word sum w = let s = (sum + w) % 2 ^ 32 in if leb 65536 s then s % 65536 + 1 else s

-- `while (count--)` over the 16-bit words from byte `off` on.
unfoldable pub sum_words : ℕ → ℕ → Bytes → ℕ → ℕ
sum_words zero off bs sum = sum
sum_words (suc count) off bs sum = sum_words count (off + 2) bs (add_word sum (get16 bs off))

-- `~(sum & 0xffff)` stored in a uint16_t
unfoldable pub complement16 : ℕ → ℕ
complement16 sum = 65535 - sum % 65536

-- The length field of the IP header, in 32-bit words.
unfoldable pub header_words : Bytes → ℕ
header_words bs = get8 bs Off.ip_header % 16

unfoldable pub compute_ip_checksum : Bytes → Bytes
compute_ip_checksum bs =
    put16 bs Off.ip_sum (complement16 (sum_words (header_words bs * 2) Off.ip_header bs 0))

-- `icmp` is the offset of the ICMP header. The source copies `len` bytes and sums the copy: the
-- words are the same. `!len%2` is `(!len) % 2`, so only an empty message is lengthened, and
-- `count` is computed before that. With ip_len < ip_hl the source asks `calloc` for a size near
-- 2^64 and copies to the null pointer that it gets: `none`.
unfoldable pub compute_icmp_checksum : (ip_len ip_hl icmp : ℕ) → Bytes → Option Bytes
compute_icmp_checksum ip_len ip_hl icmp bs =
    if ltb ip_len ip_hl
    then none
    else some (put16 bs (icmp + 2) (complement16 (sum_words ((ip_len - ip_hl) / 2) icmp bs 0)))
