-- ===== src/Stcp/Loop/Progress.antt =====
-- stcp/transport.c: control_loop on the packet that the receiver waits for.
use uchi_networks.Common.{
  ℕ, ◌+◌, ◌-◌, ◌*◌, ◌%◌, ◌^◌, ◌≤◌, ◌<◌, ◌≡◌, inl, inr, ap, ◌∙◌, arith, Bool, true, false, ltb, ◌==◌,
  List, some, length, get_or, take, Bool-cases, Returns, bind-Returns, Returns-Ensures,
  length-append, ltb→lt,
}
use uchi_networks.Stcp.Types.{
  Segment, Timespec, Context, Got, bad, old, bytes, has_fin, sub32, Conn,
}
use uchi_networks.Stcp.Window.{
  write_at, replicate, first_gap, copy_in, store, Placed, beyond, placed, place_at, place,
}
use uchi_networks.Stcp.Window.Arrays.{
  first_gap-IsGap, first_gap_found, length-write_at, get_or-write_at_outside,
  get_or-write_at_inside, length-replicate, get_or-replicate_inside, take_short,
}
use uchi_networks.Stcp.Window.Stream.{Source}
use uchi_networks.Stcp.Window.Deliver.{app_send_eq, app_send-IsHandedOver}
use uchi_networks.Stcp.Recv.{place_payload, packet_buffer, recv_packet, Received, finish}
use uchi_networks.Stcp.Recv.Window.{IsFrom, IsGot, recv_packet-IsGot}
use uchi_networks.Stcp.Loop.{hand_over, on_network}
use uchi_networks.Stcp.Loop.Reader.{IsReader, on_network-IsReader, teardown-delivered}

-- A place of the window that no byte has filled.
abbrev pub IsFree : Context → ℕ → Type 0
IsFree ctx j = (j < length ctx.recv_indicator) × (get_or ctx.recv_indicator j false ≡ false)

-- At least `n` bytes are due.
abbrev pub IsDue : ℕ → Placed → Type 0
IsDue n (placed c (bytes g)) = n ≤ g
IsDue n _ = ⊥

abbrev IsCounted : ℕ → Got → Type 0
IsCounted n (bytes g) = n ≤ g
IsCounted n _ = ⊥

module _ (ctx : Context) (buff : List ℕ) (pos n j : ℕ) (free : IsFree ctx j) (short : n ≤ j)
    (inside : pos + n ≤ length buff) where
  marked : List Bool
  marked = write_at ctx.recv_indicator 0 (replicate n true)

  copied_gap : (g : ℕ) × (first_gap marked ≡ some g) × (g ≤ j)
  unfolding marked
  copied_gap =
      first_gap_found marked j
        (omega (arith, free.0, length-write_at ctx.recv_indicator 0 (replicate n true)))
        (get_or-write_at_outside ctx.recv_indicator 0 (replicate n true) j false
            (inr (omega (arith, length-replicate n true)))
          ∙ free.1)

  gap_after : (g : ℕ) → first_gap marked ≡ some g → n ≤ g
  unfolding marked
  gap_after g e = elim (Bool-cases (ltb g n)) [
    | inl l ↦ absurd (clash (filled (ltb→lt g n l)) (first_gap-IsGap marked g e).here)
    | inr l ↦ ground arith
  ]
    where
      filled : g < n → get_or marked g false ≡ true
      filled l =
          ap (λ t. get_or (write_at ctx.recv_indicator 0 (replicate n true)) t false) (omega arith)
          ∙ get_or-write_at_inside ctx.recv_indicator 0 (replicate n true) g false
              (omega (arith, free.0, length-replicate n true))
              (omega (arith, length-replicate n true))
          ∙ get_or-replicate_inside n true false g l

      clash : get_or marked g false ≡ true → get_or marked g false ≡ false → ⊥
      clash a b = ground arith

  copy_in-IsDue : Returns (λ (r : Context × ℕ). n ≤ r.1) (copy_in ctx 0 buff pos n)
  unfolding copy_in marked
  copy_in-IsDue = rw (no_overrun, copied_gap.1) (gap_after (copied_gap.0) copied_gap.1)
    where
      no_overrun : ltb (length buff) (pos + n) ≡ false
      no_overrun = ground (arith, inside)

-- Nothing is due yet, the packet begins at recv_next, and a place behind it is free.
pub record IsNext (ctx : Context) (seg : Segment) (j : ℕ) : Type 0 where
  pub at_next : seg.header.seq ≡ ctx.recv_next
  pub free : IsFree ctx j
  pub short : length seg.raw ≤ j + 4 * seg.header.off
  pub some_bytes : 4 * seg.header.off < length seg.raw
  pub header : 20 ≤ length seg.raw

place-IsDue :
    (ctx : Context) (buff : List ℕ) (pos n j : ℕ)
    → IsFree ctx j
    → n ≤ j
    → n ≤ 3072
    → pos + n ≤ length buff
    → Returns (IsDue n) (place ctx ctx.recv_next buff pos n)
unfolding place place_at store
place-IsDue ctx buff pos n j free short fits inside =
    rw (zero_off, whole)
      (bind-Returns (λ (r : Context × ℕ). n ≤ r.1) (IsDue n) (copy_in ctx 0 buff pos n) _
        (copy_in-IsDue ctx buff pos n j free short inside) (λ r h. h))
  where
    zero_off : sub32 ctx.recv_next ctx.recv_next ≡ 0
    zero_off = omega arith

    whole : ltb 3072 n ≡ false
    whole = ground arith

buffer_size : (raw : List ℕ) → length (packet_buffer raw) ≡ 596
unfolding packet_buffer
buffer_size raw = length-write_at (replicate 596 0) 0 raw ∙ length-replicate 596 0

module _ (src : Source) (now : Timespec) (ctx : Context) (seg : Segment) (j : ℕ)
    (f : IsFrom src seg) (x : IsNext ctx seg j) where
  place_payload-IsDue :
      Returns (IsDue (length seg.raw - 4 * seg.header.off)) (place_payload ctx seg.header seg.raw)
  unfolding place_payload
  place_payload-IsDue =
      rw (paylen, positive, x.at_next)
        (place-IsDue ctx (packet_buffer seg.raw) (4 * seg.header.off)
          (length seg.raw - 4 * seg.header.off) j x.free (omega (arith, x.short))
          (omega (arith, f.size)) (omega (arith, buffer_size seg.raw, x.some_bytes, f.size)))
    where
      paylen :
          (length seg.raw + 2 ^ 64 - 4 * seg.header.off) % 2 ^ 64
          ≡ length seg.raw - 4 * seg.header.off
      paylen = omega (arith, f.room, f.size)

      positive : ((length seg.raw - 4 * seg.header.off) == 0) ≡ false
      positive = ground (arith, x.some_bytes)

  recv_packet-IsDue :
      Returns
        (λ (r : Received). IsCounted (length seg.raw - 4 * seg.header.off) r.got)
        (recv_packet now ctx seg)
  unfolding recv_packet
  recv_packet-IsDue =
      rw (take_short 596 seg.raw f.size, full)
        (bind-Returns (IsDue (length seg.raw - 4 * seg.header.off)) _
          (place_payload ctx seg.header seg.raw) _ place_payload-IsDue finished)
    where
      full : ltb (length seg.raw) 20 ≡ false
      full = ground (arith, x.header)

      finished :
          (p : Placed)
          → IsDue (length seg.raw - 4 * seg.header.off) p
          → IsCounted (length seg.raw - 4 * seg.header.off) (finish now ctx seg.header p).got
      finished beyond h = absurd h
      finished (placed c (bytes g)) h = h
      finished (placed c bad) h = absurd h
      finished (placed c old) h = absurd h

-- The application has at least `n` bytes more.
abbrev pub IsLonger : ℕ → Conn → Conn → Type 0
IsLonger n before after = length before.delivered + n ≤ length after.delivered

hand_over-IsLonger :
    (src : Source) (conn : Conn) (c : Context) (n : ℕ) (got : Got)
    → 0 < n
    → IsCounted n got
    → IsGot src conn.ctx c got
    → Returns (IsLonger n conn) (hand_over (record conn { ctx = c }) got)
unfolding hand_over
hand_over-IsLonger src conn c n bad z h s = absurd h
hand_over-IsLonger src conn c n old z h s = absurd h
hand_over-IsLonger src conn c n (bytes g) z h s =
    rw (positive, app_send_eq src conn.ctx c g s)
      (omega (
        arith,
        h,
        length-append conn.delivered (take g c.recv_buffer),
        (app_send-IsHandedOver src conn.ctx c g s).count,
      ))
  where
    positive : (g == 0) ≡ false
    positive = ground (arith, h, z)

-- The packet that the receiver waits for, with a free place behind it: what control_loop does with
-- the packet returns, the application gets its payload at least, and what the application was given
-- are still the peer's bytes in order. The packet is the peer's, with neither SYN nor FIN, at most
-- 596 bytes, and numbers below 2^31.
pub on_network_delivers :
    (src : Source) (from : ℕ) (now : Timespec) (conn : Conn) (seg : Segment) (j : ℕ)
    → IsReader src from conn
    → IsFrom src seg
    → IsNext conn.ctx seg j
    → Returns
        (λ c. IsLonger (length seg.raw - 4 * seg.header.off) conn c × IsReader src from c)
        (on_network now conn seg)
unfolding on_network
on_network_delivers src from now conn seg j r f x =
    Returns-Ensures (IsLonger (length seg.raw - 4 * seg.header.off) conn) (IsReader src from)
      (on_network now conn seg) longer (on_network-IsReader src from now conn seg r f)
  where
    longer : Returns (IsLonger (length seg.raw - 4 * seg.header.off) conn) (on_network now conn seg)
    longer =
        bind-Returns
          (λ (g : Received).
            IsCounted (length seg.raw - 4 * seg.header.off) g.got
            × ((has_fin g.header ≡ false) × IsGot src conn.ctx g.ctx g.got))
          _ (recv_packet now conn.ctx seg) _
          (Returns-Ensures (λ (g : Received). IsCounted (length seg.raw - 4 * seg.header.off) g.got)
            (λ (g : Received). (has_fin g.header ≡ false) × IsGot src conn.ctx g.ctx g.got)
            (recv_packet now conn.ctx seg) (recv_packet-IsDue src now conn.ctx seg j f x)
            (recv_packet-IsGot src now conn.ctx seg r.waiting f))
          (λ g h.
            bind-Returns (IsLonger (length seg.raw - 4 * seg.header.off) conn) _
              (hand_over (record conn { ctx = g.ctx }) g.got) _
              (hand_over-IsLonger src conn g.ctx _ g.got (omega (arith, x.some_bytes)) h.0 (h.1.1))
              (λ c k. rw (teardown-delivered c g.header h.1.0) k))
