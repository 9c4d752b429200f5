-- ===== src/Stcp/Window.antt =====
-- stcp/transport.c: the receive window, the part of recv_packet that stores a payload, and the part
-- of control_loop that hands bytes to the application.
pub mod Stream
pub mod Arrays
pub mod Deliver
use uchi_networks.Common.{
  ℕ, zero, suc, ◌+◌, ◌-◌, ◌%◌, ◌^◌, Bool, true, false, ltb, leb, if◌then◌else◌, List, [], ◌∷◌, ◌++◌,
  Option, none, some, length, set, take, drop, ◌>>=◌,
}
use uchi_networks.Stcp.Types.{win_len, Context, Got, bad, old, bytes, add32, sub32}

-- `memcpy(xs + i, vs, ...)`
unfoldable pub write_at {ℓ} : {A : Type ℓ} → List A → ℕ → List A → List A
write_at xs i [] = xs
write_at xs i (v ∷ vs) = write_at (set xs i v) (i + 1) vs

-- `memset` and fresh memory
unfoldable pub replicate {ℓ} : {A : Type ℓ} → ℕ → A → List A
replicate zero v = []
replicate (suc n) v = v ∷ replicate n v

-- `strchr(recv_indicator, '\0') - recv_indicator`; with no gap in the window the search runs past
-- the array: `none`.
unfoldable pub first_gap : List Bool → Option ℕ
first_gap [] = none
first_gap (false ∷ bs) = some 0
first_gap (true ∷ bs) = first_gap bs >>= λ n. some (suc n)

-- The copy of n bytes from the packet's buffer into the window: they are marked, and recv_next moves
-- by the bytes that now stand in front of the first gap. A copy that runs past the buffer is `none`.
unfoldable pub copy_in : Context → (off : ℕ) → (buff : List ℕ) → (pos n : ℕ) → Option (Context × ℕ)
copy_in ctx off buff pos n =
    let indicator = write_at ctx.recv_indicator off (replicate n true) in
    if ltb (length buff) (pos + n)
    then none
    else first_gap indicator >>= λ gap. some (
      record ctx {
        recv_buffer = write_at ctx.recv_buffer off (take n (drop pos buff));
        recv_indicator = indicator;
        recv_next = add32 ctx.recv_next gap;
      },
      gap,
    )

-- The payload is truncated to the window.
unfoldable pub store :
    Context → (off : ℕ) → (buff : List ℕ) → (pos paylen : ℕ) → Option (Context × ℕ)
store ctx off buff pos paylen =
    copy_in ctx off buff pos (if ltb (win_len - off) paylen then win_len - off else paylen)

-- A payload beyond the window ends recv_packet with -1.
pub data Placed : Type 0 where
  beyond : Placed
  placed : Context → Got → Placed

unfoldable pub place_old : Context → List ℕ → ℕ → Option Placed
place_old ctx buff pos = store ctx 0 buff pos 0 >>= λ r. some (placed (r.0) old)

unfoldable pub place_at : Context → (off : ℕ) → List ℕ → (pos paylen : ℕ) → Option Placed
place_at ctx off buff pos paylen =
    store ctx off buff pos paylen >>= λ r. some (placed (r.0) (bytes r.1))

-- A payload that begins before recv_next: what was received before is cut off. Lengths are 64 bits
-- wide.
unfoldable pub place_before : Context → (seq : ℕ) → List ℕ → (pos paylen : ℕ) → Option Placed
place_before ctx seq buff pos paylen =
    let cut = sub32 ctx.recv_next seq in
    if leb ((seq + paylen) % 2 ^ 64) ctx.recv_next
    then place_old ctx buff pos
    else place_at ctx 0 buff (pos + cut) ((paylen + 2 ^ 64 - cut) % 2 ^ 64)

-- `int buffer_offset = seq - recv_next`, negative from 2^31 on.
unfoldable pub place : Context → (seq : ℕ) → List ℕ → (pos paylen : ℕ) → Option Placed
place ctx seq buff pos paylen =
    let off = sub32 seq ctx.recv_next in
    if leb (2 ^ 31) off
    then place_before ctx seq buff pos paylen
    else if ltb win_len off
    then some beyond
    else place_at ctx off buff pos paylen

-- control_loop: the window without its first `gap` places.
unfoldable pub slide : Context → (gap : ℕ) → Context
slide ctx gap = record ctx {
  recv_buffer = drop gap ctx.recv_buffer ++ replicate gap 0;
  recv_indicator = drop gap ctx.recv_indicator ++ replicate gap false;
}

-- control_loop: the first `size` bytes go to the application, and the window slides to its first
-- gap.
unfoldable pub app_send : Context → (size : ℕ) → Option (List ℕ × Context)
app_send ctx size =
    first_gap ctx.recv_indicator >>= λ gap. some (take size ctx.recv_buffer, slide ctx gap)
