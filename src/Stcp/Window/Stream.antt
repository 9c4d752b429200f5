-- ===== src/Stcp/Window/Stream.antt =====
-- stcp/transport.c: the receive window follows the stream of bytes that the peer sends.
use uchi_networks.Common.{
  ℕ, ◌+◌, ◌-◌, ◌%◌, ◌^◌, ◌≤◌, ◌<◌, ◌≡◌, ◌⊎◌, inl, inr, refl, ap, sym, subst, ◌∙◌, arith, Bool, true,
  false, ltb, leb, List, [], ◌∷◌, some, length, get_or, take, drop, Bool-cases, Ensures,
  bind-Ensures, self-Ensures, ltb→lt, leb→le,
}
use uchi_networks.Stcp.Types.{win_len, Context, bytes, add32, sub32}
use uchi_networks.Stcp.Window.{
  write_at, replicate, first_gap, copy_in, store, Placed, beyond, placed, place, place_at,
  place_before, place_old,
}
use uchi_networks.Stcp.Window.Arrays.{
  first_gap-IsGap, length-write_at, get_or-write_at_outside, get_or-write_at_inside,
  length-replicate, get_or-take, get_or-drop, length-take, length-drop,
}

-- What a peer sends: the byte of each sequence number, and the number of the first that there is
-- not.
pub record Source : Type 0 where
  pub byte : ℕ → ℕ
  pub end : ℕ

-- The byte is one of the source's.
abbrev pub IsByte : Source → ℕ → ℕ → Type 0
IsByte src n b = (n < src.end) × (b ≡ src.byte n)

-- The window holds bytes of the source: what stands at a marked place is the byte of that number.
-- Sequence numbers stay below 2^31.
pub record IsWindow (src : Source) (ctx : Context) : Type 0 where
  pub room : src.end + 6144 < 2 ^ 31
  pub due : ctx.recv_next ≤ src.end
  pub buffer_size : length ctx.recv_buffer ≡ 3072
  pub indicator_size : length ctx.recv_indicator ≡ 3072
  pub held :
      (i : ℕ)
      → i < 3072
      → get_or ctx.recv_indicator i false ≡ true
      → IsByte src (ctx.recv_next + i) (get_or ctx.recv_buffer i 0)

-- The window of which no byte is due: the byte of number recv_next has not arrived.
pub record IsWaiting (src : Source) (ctx : Context) : Type 0 where
  pub window : IsWindow src ctx
  pub first : get_or ctx.recv_indicator 0 false ≡ false

-- The packet's buffer holds bytes of the source from `pos` on.
pub record IsPayload (src : Source) (seq : ℕ) (buff : List ℕ) (pos paylen : ℕ) : Type 0 where
  pub inside : pos + paylen ≤ length buff
  pub below : seq + paylen ≤ src.end
  pub same : (k : ℕ) → k < paylen → get_or buff (pos + k) 0 ≡ src.byte (seq + k)

-- After a store: the bytes in front of the gap are due.
pub record IsStored (src : Source) (before after : Context) (g : ℕ) : Type 0 where
  pub gap : first_gap after.recv_indicator ≡ some g
  pub moved : after.recv_next ≡ before.recv_next + g
  pub room : src.end + 6144 < 2 ^ 31
  pub due : before.recv_next ≤ src.end
  pub buffer_size : length after.recv_buffer ≡ 3072
  pub indicator_size : length after.recv_indicator ≡ 3072
  pub held :
      (i : ℕ)
      → i < 3072
      → get_or after.recv_indicator i false ≡ true
      → IsByte src (before.recv_next + i) (get_or after.recv_buffer i 0)

where-is : (i off n : ℕ) → ((i < off) ⊎ (off + n ≤ i)) ⊎ ((k : ℕ) × (i ≡ off + k) × (k < n))
where-is i off n = elim (Bool-cases (ltb i off)) [
  | inl a ↦ inl (inl (ltb→lt i off a))
  | inr a ↦ elim (Bool-cases (leb (off + n) i)) [
    | inl b ↦ inl (inr (leb→le (off + n) i b))
    | inr b ↦ inr (i - off, ground arith, ground arith)
  ]
]

module _ (src : Source) (ctx : Context) (off : ℕ) (buff : List ℕ) (pos n : ℕ) (w : IsWindow src ctx)
    (fits : off + n ≤ 3072) (p : IsPayload src (ctx.recv_next + off) buff pos n) where
  kept_size : length (take n (drop pos buff)) ≡ n
  kept_size = length-take n (drop pos buff) (omega (arith, length-drop pos buff, p.inside))

  copied_held :
      (i : ℕ)
      → i < 3072
      → get_or (write_at ctx.recv_indicator off (replicate n true)) i false ≡ true
      → IsByte src
          (ctx.recv_next + i)
          (get_or (write_at ctx.recv_buffer off (take n (drop pos buff))) i 0)
  copied_held i l e = elim (where-is i off n) [
    | inl out ↦ outside (w.held i l (kept_mark out ∙ e)) (kept_byte out)
    | inr (k, q, r) ↦ (
      omega (arith, q, r, p.below),
      ap (λ t. get_or (write_at ctx.recv_buffer off (take n (drop pos buff))) t 0) q
          ∙ get_or-write_at_inside ctx.recv_buffer off (take n (drop pos buff)) k 0
              (omega (arith, kept_size, w.buffer_size)) (omega (arith, kept_size))
          ∙ get_or-take n (drop pos buff) k 0 r
          ∙ get_or-drop pos buff k 0
          ∙ p.same k r
          ∙ ap src.byte (omega (arith, q)),
    )
  ]
    where
      kept_mark :
          (i < off) ⊎ (off + n ≤ i)
          → get_or ctx.recv_indicator i false
            ≡ get_or (write_at ctx.recv_indicator off (replicate n true)) i false
      kept_mark out = sym (
          get_or-write_at_outside ctx.recv_indicator off (replicate n true) i false
            (omega (arith, length-replicate n true)))

      kept_byte :
          (i < off) ⊎ (off + n ≤ i)
          → get_or (write_at ctx.recv_buffer off (take n (drop pos buff))) i 0
            ≡ get_or ctx.recv_buffer i 0
      kept_byte out =
          get_or-write_at_outside ctx.recv_buffer off (take n (drop pos buff)) i 0
            (omega (arith, kept_size))

      outside :
          IsByte src (ctx.recv_next + i) (get_or ctx.recv_buffer i 0)
          → get_or (write_at ctx.recv_buffer off (take n (drop pos buff))) i 0
            ≡ get_or ctx.recv_buffer i 0
          → IsByte src
              (ctx.recv_next + i)
              (get_or (write_at ctx.recv_buffer off (take n (drop pos buff))) i 0)
      outside (a, b) q = (a, q ∙ b)

  copy_in-IsStored :
      Ensures (λ (r : Context × ℕ). IsStored src ctx r.0 r.1) (copy_in ctx off buff pos n)
  unfolding copy_in
  copy_in-IsStored = elim (Bool-cases (ltb (length buff) (pos + n))) [
    | inl e ↦ rw e tt
    | inr e ↦ rw e (
        bind-Ensures (λ g. first_gap marked ≡ some g)
          (λ (r : Context × ℕ). IsStored src ctx r.0 r.1) (first_gap marked) _
          (self-Ensures (first_gap marked))
          (λ g h. record {
            gap = h;
            moved = omega (arith, small g h, w.room, w.due);
            room = w.room;
            due = w.due;
            buffer_size =
                length-write_at ctx.recv_buffer off (take n (drop pos buff)) ∙ w.buffer_size;
            indicator_size = marked_size;
            held = copied_held;
          }))
  ]
    where
      marked : List Bool
      marked = write_at ctx.recv_indicator off (replicate n true)

      marked_size : length marked ≡ 3072
      marked_size = length-write_at ctx.recv_indicator off (replicate n true) ∙ w.indicator_size

      small : (g : ℕ) → first_gap marked ≡ some g → g < 3072
      small g h = omega (arith, marked_size, (first_gap-IsGap marked g h).inside)

-- A payload of the stream that fits in the window.
pub store-IsStored :
    (src : Source) (ctx : Context) (off : ℕ) (buff : List ℕ) (pos paylen : ℕ)
    → IsWindow src ctx
    → off ≤ 3072
    → IsPayload src (ctx.recv_next + off) buff pos paylen
    → Ensures (λ (r : Context × ℕ). IsStored src ctx r.0 r.1) (store ctx off buff pos paylen)
unfolding store
store-IsStored src ctx off buff pos paylen w o p = elim (Bool-cases (ltb (win_len - off) paylen)) [
  | inl e ↦ rw e (
      copy_in-IsStored src ctx off buff pos (win_len - off) w (omega arith)
        (shorter (ltb→lt (win_len - off) paylen e)))
  | inr e ↦ rw e (copy_in-IsStored src ctx off buff pos paylen w (ground arith) p)
]
  where
    shorter : win_len - off < paylen → IsPayload src (ctx.recv_next + off) buff pos (win_len - off)
    shorter h = record {
      inside = omega (arith, p.inside);
      below = omega (arith, p.below);
      same = λ k l. p.same k (omega arith);
    }

first_gap_zero :
    (bs : List Bool) → 0 < length bs → get_or bs 0 false ≡ false → first_gap bs ≡ some 0
unfolding first_gap
first_gap_zero [] h e = absurd (omega arith)
first_gap_zero (true ∷ bs) h e = absurd (ground arith)
first_gap_zero (false ∷ bs) h e = refl

-- What recv_packet leaves: the bytes that are due, counted; old bytes leave the window as it was.
abbrev pub IsPlaced : Source → Context → Placed → Type 0
IsPlaced src ctx beyond = Unit {0}
IsPlaced src ctx (placed c (bytes g)) = IsStored src ctx c g
IsPlaced src ctx (placed c _) = IsWaiting src c × (c.recv_next ≡ ctx.recv_next)

place_old-IsPlaced :
    (src : Source) (ctx : Context) (buff : List ℕ) (pos : ℕ)
    → IsWaiting src ctx
    → Ensures (IsPlaced src ctx) (place_old ctx buff pos)
unfolding place_old store copy_in write_at replicate
place_old-IsPlaced src ctx buff pos w = elim (Bool-cases (ltb (length buff) (pos + 0))) [
  | inl e ↦ rw e tt
  | inr e ↦
      rw
        (
          e,
          first_gap_zero ctx.recv_indicator (omega (arith, w.window.indicator_size)) w.first,
          stay,
        )
        (w, refl)
]
  where
    stay : add32 ctx.recv_next 0 ≡ ctx.recv_next
    stay = omega (arith, w.window.room, w.window.due)

place_at-IsPlaced :
    (src : Source) (ctx : Context) (off : ℕ) (buff : List ℕ) (pos paylen : ℕ)
    → IsWindow src ctx
    → off ≤ 3072
    → IsPayload src (ctx.recv_next + off) buff pos paylen
    → Ensures (IsPlaced src ctx) (place_at ctx off buff pos paylen)
unfolding place_at
place_at-IsPlaced src ctx off buff pos paylen w o p =
    bind-Ensures (λ (r : Context × ℕ). IsStored src ctx r.0 r.1) (IsPlaced src ctx)
      (store ctx off buff pos paylen) _ (store-IsStored src ctx off buff pos paylen w o p)
      (λ r h. h)

module _ (src : Source) (ctx : Context) (seq : ℕ) (buff : List ℕ) (pos paylen : ℕ)
    (w : IsWaiting src ctx) (p : IsPayload src seq buff pos paylen) where
  place_before-IsPlaced :
      seq < ctx.recv_next → Ensures (IsPlaced src ctx) (place_before ctx seq buff pos paylen)
  unfolding place_before
  place_before-IsPlaced early = elim (Bool-cases (leb ((seq + paylen) % 2 ^ 64) ctx.recv_next)) [
    | inl e ↦ rw e (place_old-IsPlaced src ctx buff pos w)
    | inr e ↦
        rw (e, cut, rest (ground arith))
          (place_at-IsPlaced src ctx 0 buff (pos + (ctx.recv_next - seq))
            (paylen - (ctx.recv_next - seq)) w.window (omega arith) (tail (ground arith)))
  ]
    where
      cut : sub32 ctx.recv_next seq ≡ ctx.recv_next - seq
      cut = omega (arith, w.window.room, w.window.due)

      rest :
          ctx.recv_next < seq + paylen
          → (paylen + 2 ^ 64 - (ctx.recv_next - seq)) % 2 ^ 64 ≡ paylen - (ctx.recv_next - seq)
      rest h = omega (arith, w.window.room, p.below)

      tail :
          ctx.recv_next < seq + paylen
          → IsPayload src
              (ctx.recv_next + 0)
              buff
              (pos + (ctx.recv_next - seq))
              (paylen - (ctx.recv_next - seq))
      tail h = record {
        inside = omega (arith, p.inside);
        below = omega (arith, p.below);
        same = λ k l.
            ap (λ t. get_or buff t 0) (omega arith)
            ∙ p.same ((ctx.recv_next - seq) + k) (omega arith)
            ∙ ap src.byte (omega arith);
      }

  -- A payload of the source, wherever it stands.
  pub place-IsPlaced : Ensures (IsPlaced src ctx) (place ctx seq buff pos paylen)
  unfolding place
  place-IsPlaced = elim (Bool-cases (leb (2 ^ 31) (sub32 seq ctx.recv_next))) [
    | inl e ↦ rw e (
        place_before-IsPlaced (
          omega (
            arith,
            w.window.room,
            p.below,
            w.window.due,
            leb→le (2 ^ 31) (sub32 seq ctx.recv_next) e,
          )))
    | inr e ↦ rw e (elim (Bool-cases (ltb win_len (sub32 seq ctx.recv_next))) [
      | inl f ↦ rw f tt
      | inr f ↦ rw f (
          place_at-IsPlaced src ctx (sub32 seq ctx.recv_next) buff pos paylen w.window
            (ground arith) (ahead (ground arith)))
    ])
  ]
    where
      ahead :
          sub32 seq ctx.recv_next < 2 ^ 31
          → IsPayload src (ctx.recv_next + sub32 seq ctx.recv_next) buff pos paylen
      ahead h =
          subst (λ t. IsPayload src t buff pos paylen)
            (omega (arith, w.window.room, p.below, w.window.due)) p

pub waiting-IsStored : (src : Source) (ctx : Context) → IsWaiting src ctx → IsStored src ctx ctx 0
waiting-IsStored src ctx w = record {
  gap = first_gap_zero ctx.recv_indicator (omega (arith, w.window.indicator_size)) w.first;
  moved = omega arith;
  room = w.window.room;
  due = w.window.due;
  buffer_size = w.window.buffer_size;
  indicator_size = w.window.indicator_size;
  held = w.window.held;
}
