-- ===== src/Router/Bytes.antt =====
-- stub_sr/sr_protocol.h: the packed headers of a frame as offsets into its bytes.
-- The host is little-endian, as the _LINUX_ build of the header is. A 32-bit address is kept as
-- the number that `ntohl` gives; a read past the end of the copied frame gives 0.
pub mod Copy
use uchi_networks.Common.{
  ℕ, ◌+◌, ◌*◌, ◌/◌, ◌%◌, ◌<◌, ◌≡◌, ◌≢◌, arith, List, [], ◌∷◌, length, get_or, set, take, drop,
  length-set, get_or-set_self, get_or-set_ne,
}

abbrev pub Bytes : Type 0
Bytes = List ℕ

abbrev pub get8 : Bytes → ℕ → ℕ
get8 bs i = get_or bs i 0

-- A 16-bit load as the host sees it.
abbrev pub get16 : Bytes → ℕ → ℕ
get16 bs i = get8 bs i + 256 * get8 bs (i + 1)

-- `ntohs` of such a load.
abbrev pub net16 : Bytes → ℕ → ℕ
net16 bs i = 256 * get8 bs i + get8 bs (i + 1)

-- `ntohl` of a 32-bit load.
abbrev pub net32 : Bytes → ℕ → ℕ
net32 bs i = 65536 * net16 bs i + net16 bs (i + 2)

abbrev pub put8 : Bytes → ℕ → ℕ → Bytes
put8 bs i v = set bs i (v % 256)

abbrev pub put16 : Bytes → ℕ → ℕ → Bytes
put16 bs i v = put8 (put8 bs i v) (i + 1) (v / 256)

-- A store of `htons(v)`.
abbrev pub put_net16 : Bytes → ℕ → ℕ → Bytes
put_net16 bs i v = put8 (put8 bs i (v / 256)) (i + 1) v

-- A store of a 32-bit address.
abbrev pub put_net32 : Bytes → ℕ → ℕ → Bytes
put_net32 bs i v = put_net16 (put_net16 bs i (v / 65536)) (i + 2) v

-- `memcpy` out of and into a frame.
abbrev pub get_bytes : Bytes → ℕ → ℕ → Bytes
get_bytes bs i n = take n (drop i bs)

unfoldable pub put_bytes : Bytes → ℕ → Bytes → Bytes
put_bytes bs i [] = bs
put_bytes bs i (v ∷ vs) = put_bytes (put8 bs i v) (i + 1) vs

pub length-put16 : (bs : Bytes) (i v : ℕ) → length (put16 bs i v) ≡ length bs
length-put16 bs i v =
    omega (arith, length-set (put8 bs i v) (i + 1) (v / 256 % 256), length-set bs i (v % 256))

pub get8-put16_ne : (bs : Bytes) (i j v : ℕ) → j ≢ i → j ≢ i + 1 → get8 (put16 bs i v) j ≡ get8 bs j
get8-put16_ne bs i j v h k = omega (
  arith,
  get_or-set_ne (put8 bs i v) (i + 1) j (v / 256 % 256) 0 (λ e. k (omega arith)),
  get_or-set_ne bs i j (v % 256) 0 (λ e. h (omega arith)),
)

pub get16-put16_self :
    (bs : Bytes) (i v : ℕ) → i + 1 < length bs → v < 65536 → get16 (put16 bs i v) i ≡ v
get16-put16_self bs i v h k = omega (
  arith,
  length-set bs i (v % 256),
  get_or-set_ne (put8 bs i v) (i + 1) i (v / 256 % 256) 0 (omega arith),
  get_or-set_self bs i (v % 256) 0 (omega arith),
  get_or-set_self (put8 bs i v) (i + 1) (v / 256 % 256) 0
      (omega (arith, length-set bs i (v % 256))),
)
