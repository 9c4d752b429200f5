-- ===== src/Router/Bytes/Copy.antt =====
-- Stores of bytes and of runs of bytes in a frame.
use uchi_networks.Common.{
  ℕ, zero, suc, ◌+◌, ◌%◌, ◌≤◌, ◌<◌, ◌≡◌, ◌≢◌, ◌⊎◌, refl, ◌∙◌, ap, arith, [], ◌∷◌, length, All,
  All-set, length-set, get_or-set_self, get_or-set_ne,
}
use uchi_networks.Router.Bytes.{Bytes, get8, put8, put_bytes}

pub get8-put8_self : (bs : Bytes) (i v : ℕ) → i < length bs → get8 (put8 bs i v) i ≡ v % 256
get8-put8_self bs i v h = get_or-set_self bs i (v % 256) 0 h

pub get8-put8_ne : (bs : Bytes) (i j v : ℕ) → j ≢ i → get8 (put8 bs i v) j ≡ get8 bs j
get8-put8_ne bs i j v h = get_or-set_ne bs i j (v % 256) 0 (λ e. h (omega arith))

pub length-put8 : (bs : Bytes) (i v : ℕ) → length (put8 bs i v) ≡ length bs
length-put8 bs i v = length-set bs i (v % 256)

pub put8-IsBytes : (bs : Bytes) (i v : ℕ) → All (λ b. b < 256) bs → All (λ b. b < 256) (put8 bs i v)
put8-IsBytes bs i v h = All-set (λ b. b < 256) bs i (v % 256) (omega arith) h

pub length-put_bytes : (bs : Bytes) (i : ℕ) (vs : Bytes) → length (put_bytes bs i vs) ≡ length bs
unfolding put_bytes
length-put_bytes bs i [] = refl
length-put_bytes bs i (v ∷ vs) = length-put_bytes (put8 bs i v) (i + 1) vs ∙ length-put8 bs i v

pub put_bytes-IsBytes :
    (bs : Bytes) (i : ℕ) (vs : Bytes)
    → All (λ b. b < 256) bs
    → All (λ b. b < 256) (put_bytes bs i vs)
unfolding put_bytes
put_bytes-IsBytes bs i [] h = h
put_bytes-IsBytes bs i (v ∷ vs) h =
    put_bytes-IsBytes (put8 bs i v) (i + 1) vs (put8-IsBytes bs i v h)

pub get8-put_bytes_outside :
    (bs : Bytes) (i : ℕ) (vs : Bytes) (j : ℕ)
    → (j < i) ⊎ (i + length vs ≤ j)
    → get8 (put_bytes bs i vs) j ≡ get8 bs j
unfolding put_bytes
get8-put_bytes_outside bs i [] j h = refl
get8-put_bytes_outside bs i (v ∷ vs) j h =
    get8-put_bytes_outside (put8 bs i v) (i + 1) vs j (omega arith)
    ∙ get8-put8_ne bs i j v (omega arith)

pub get8-put_bytes_inside :
    (bs : Bytes) (i : ℕ) (vs : Bytes) (k : ℕ)
    → All (λ b. b < 256) vs
    → i + length vs ≤ length bs
    → k < length vs
    → get8 (put_bytes bs i vs) (i + k) ≡ get8 vs k
unfolding put_bytes
get8-put_bytes_inside bs i [] k a h l = absurd (omega arith)
get8-put_bytes_inside bs i (v ∷ vs) zero a h l =
    ap (get8 (put_bytes (put8 bs i v) (i + 1) vs)) (omega arith)
    ∙ get8-put_bytes_outside (put8 bs i v) (i + 1) vs i (omega arith)
    ∙ get8-put8_self bs i v (omega arith)
    ∙ omega (arith, a.0)
get8-put_bytes_inside bs i (v ∷ vs) (suc k) a h l =
    ap (get8 (put_bytes (put8 bs i v) (i + 1) vs)) (omega arith)
    ∙ get8-put_bytes_inside (put8 bs i v) (i + 1) vs k a.1 (omega (arith, length-put8 bs i v))
        (omega arith)
