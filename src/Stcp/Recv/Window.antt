-- ===== src/Stcp/Recv/Window.antt =====
-- stcp/transport.c: recv_packet on the receive window.
use uchi_networks.Common.{
  ℕ, ◌+◌, ◌-◌, ◌*◌, ◌%◌, ◌^◌, ◌≤◌, ◌<◌, ◌≡◌, inl, inr, refl, ap, sym, ◌∙◌, arith, Bool, true, false,
  ltb, leb, ◌==◌, not, ◌&&◌, if◌then◌else◌, List, [], ◌∷◌, length, get_or, Bool-cases, Ensures,
  bind-Ensures,
}
use uchi_networks.Stcp.Types.{
  header_size, Header, Segment, Timespec, Unacked, Context, Got, bad, old, bytes, has_ack, has_syn,
  has_fin,
}
use uchi_networks.Stcp.Window.{Placed, beyond, placed, replicate, write_at}
use uchi_networks.Stcp.Window.Arrays.{
  take_short, length-write_at, length-replicate, get_or-write_at_inside,
}
use uchi_networks.Stcp.Window.Stream.{
  Source, IsWaiting, IsStored, IsPayload, IsPlaced, place-IsPlaced, waiting-IsStored,
}
use uchi_networks.Stcp.Rto.{smooth, set_rto, update_rto}
use uchi_networks.Stcp.Recv.{
  set_unackd, note_ack, note_window, remove_acked, packet_t_remove, note_header, packet_buffer,
  place_payload, recv_packet, Received, finish, is_acked,
}

-- The two contexts have one window.
pub record HasWindow (c d : Context) : Type 0 where
  pub next : d.recv_next ≡ c.recv_next
  pub buffer : d.recv_buffer ≡ c.recv_buffer
  pub indicator : d.recv_indicator ≡ c.recv_indicator

pub HasWindow-trans : (b c d : Context) → HasWindow b c → HasWindow c d → HasWindow b d
HasWindow-trans b c d h k = record {
  next = k.next ∙ h.next;
  buffer = k.buffer ∙ h.buffer;
  indicator = k.indicator ∙ h.indicator;
}

same_window : (c : Context) → HasWindow c c
same_window c = record { next = refl; buffer = refl; indicator = refl }

if-HasWindow :
    (b : Bool) (c x y : Context) → HasWindow c x → HasWindow c y → HasWindow c (if b then x else y)
if-HasWindow true c x y h k = h
if-HasWindow false c x y h k = k

smooth-HasWindow : (ctx : Context) (s n : ℕ) → HasWindow ctx (smooth ctx s n)
unfolding smooth
smooth-HasWindow ctx s n = elim (Bool-cases ctx.rto_init) [
  | inl e ↦ rw e (record { next = refl; buffer = refl; indicator = refl })
  | inr e ↦ rw e (record { next = refl; buffer = refl; indicator = refl })
]

set_rto-HasWindow : (b ctx : Context) → HasWindow b ctx → HasWindow b (set_rto ctx)
unfolding set_rto
set_rto-HasWindow b ctx h = record { next = h.next; buffer = h.buffer; indicator = h.indicator }

set_unackd-HasWindow :
    (b ctx : Context) (ps : List Unacked) → HasWindow b ctx → HasWindow b (set_unackd ctx ps)
unfolding set_unackd
set_unackd-HasWindow b ctx ps h = record {
  next = h.next;
  buffer = h.buffer;
  indicator = h.indicator;
}

pub update_rto-HasWindow :
    (now : Timespec) (ctx : Context) (p : Unacked) → HasWindow ctx (update_rto now ctx p)
unfolding update_rto
update_rto-HasWindow now ctx p =
    if-HasWindow (not (p.retry_count == 0)) ctx ctx _ (same_window ctx)
      (set_rto-HasWindow ctx _ (smooth-HasWindow ctx _ _))

remove_acked-HasWindow :
    (now : Timespec) (ctx : Context) (ps : List Unacked) → HasWindow ctx (remove_acked now ctx ps)
unfolding remove_acked
remove_acked-HasWindow now ctx [] = set_unackd-HasWindow ctx ctx [] (same_window ctx)
remove_acked-HasWindow now ctx (p ∷ ps) =
    if-HasWindow (is_acked ctx.send_unack p) ctx _ _
      (HasWindow-trans ctx _ _ (update_rto-HasWindow now ctx p)
        (remove_acked-HasWindow now (update_rto now ctx p) ps))
      (set_unackd-HasWindow ctx _ (p ∷ ps) (update_rto-HasWindow now ctx p))

note_ack-HasWindow : (ctx : Context) (h : Header) → HasWindow ctx (note_ack ctx h)
unfolding note_ack
note_ack-HasWindow ctx h = elim (Bool-cases (has_ack h && leb ctx.send_unack h.ack)) [
  | inl e ↦ rw e (record { next = refl; buffer = refl; indicator = refl })
  | inr e ↦ rw e (same_window ctx)
]

note_window-HasWindow :
    (b ctx : Context) (h : Header)
    → has_syn h ≡ false
    → HasWindow b ctx
    → HasWindow b (note_window ctx h)
unfolding note_window
note_window-HasWindow b ctx h e k =
    rw e (record { next = k.next; buffer = k.buffer; indicator = k.indicator })

pub note_header-HasWindow :
    (now : Timespec) (ctx : Context) (h : Header)
    → has_syn h ≡ false
    → HasWindow ctx (note_header now ctx h)
unfolding note_header packet_t_remove
note_header-HasWindow now ctx h e = note_window-HasWindow ctx _ h e (
    HasWindow-trans ctx _ _ (note_ack-HasWindow ctx h)
      (remove_acked-HasWindow now (note_ack ctx h) (note_ack ctx h).unackd_packets))

pub IsWaiting-moved :
    (src : Source) (c d : Context) → HasWindow c d → IsWaiting src c → IsWaiting src d
IsWaiting-moved src c d h w = record {
  window = record {
    room = w.window.room;
    due = omega (arith, h.next, w.window.due);
    buffer_size = ap length h.buffer ∙ w.window.buffer_size;
    indicator_size = ap length h.indicator ∙ w.window.indicator_size;
    held = λ i l e.
        rw (h.next, h.buffer)
          (w.window.held i l (sym (ap (λ t. get_or t i false) h.indicator) ∙ e));
  };
  first = ap (λ t. get_or t 0 false) h.indicator ∙ w.first;
}

pub IsStored-moved :
    (src : Source) (b c d : Context) (g : ℕ)
    → HasWindow c d
    → IsStored src b c g
    → IsStored src b d g
IsStored-moved src b c d g h s = record {
  gap = rw h.indicator s.gap;
  moved = h.next ∙ s.moved;
  room = s.room;
  due = s.due;
  buffer_size = ap length h.buffer ∙ s.buffer_size;
  indicator_size = ap length h.indicator ∙ s.indicator_size;
  held = λ i l e. rw h.buffer (s.held i l (sym (ap (λ t. get_or t i false) h.indicator) ∙ e));
}

-- A packet with bytes of the source.
pub record IsFrom (src : Source) (seg : Segment) : Type 0 where
  pub no_syn : has_syn seg.header ≡ false
  pub no_fin : has_fin seg.header ≡ false
  pub size : length seg.raw ≤ 596
  pub room : 4 * seg.header.off ≤ length seg.raw
  pub below : seg.header.seq + length seg.raw ≤ src.end + 4 * seg.header.off
  pub same :
      (k : ℕ)
      → 4 * seg.header.off + k < length seg.raw
      → get_or seg.raw (4 * seg.header.off + k) 0 ≡ src.byte (seg.header.seq + k)

abbrev pub IsGot : Source → (before after : Context) → Got → Type 0
IsGot src before after (bytes g) = IsStored src before after g
IsGot src before after _ = IsWaiting src after × (after.recv_next ≡ before.recv_next)

buffer-IsPayload :
    (src : Source) (seg : Segment)
    → IsFrom src seg
    → IsPayload src seg.header.seq
        (packet_buffer seg.raw)
        (4 * seg.header.off)
        (length seg.raw - 4 * seg.header.off)
unfolding packet_buffer
buffer-IsPayload src seg f = record {
  inside = omega (arith, size, f.room, f.size);
  below = omega (arith, f.below, f.room);
  same = λ k l.
      ap (λ t. get_or (write_at (replicate 596 0) 0 seg.raw) t 0) (omega arith)
      ∙ get_or-write_at_inside (replicate 596 0) 0 seg.raw (4 * seg.header.off + k) 0
          (omega (arith, size0, f.size)) (omega arith)
      ∙ f.same k (omega arith);
}
  where
    size0 : length (replicate {A = ℕ} 596 0) ≡ 596
    size0 = length-replicate 596 0

    size : length (write_at (replicate 596 0) 0 seg.raw) ≡ 596
    size = length-write_at (replicate 596 0) 0 seg.raw ∙ size0

place_payload-IsPlaced :
    (src : Source) (ctx : Context) (seg : Segment)
    → IsWaiting src ctx
    → IsFrom src seg
    → Ensures (IsPlaced src ctx) (place_payload ctx seg.header seg.raw)
unfolding place_payload
place_payload-IsPlaced src ctx seg w f =
    rw paylen (elim (Bool-cases ((length seg.raw - 4 * seg.header.off) == 0)) [
      | inl e ↦ rw e (waiting-IsStored src ctx w)
      | inr e ↦ rw e (place-IsPlaced src ctx seg.header.seq _ _ _ w (buffer-IsPayload src seg f))
    ])
  where
    paylen :
        (length seg.raw + 2 ^ 64 - 4 * seg.header.off) % 2 ^ 64
        ≡ length seg.raw - 4 * seg.header.off
    paylen = omega (arith, f.room, f.size)

-- What control_loop gets of such a packet.
pub recv_packet-IsGot :
    (src : Source) (now : Timespec) (ctx : Context) (seg : Segment)
    → IsWaiting src ctx
    → IsFrom src seg
    → Ensures
        (λ (r : Received). (has_fin r.header ≡ false) × IsGot src ctx r.ctx r.got)
        (recv_packet now ctx seg)
unfolding recv_packet
recv_packet-IsGot src now ctx seg w f =
    rw (take_short 596 seg.raw f.size) (elim (Bool-cases (ltb (length seg.raw) header_size)) [
      | inl e ↦ rw e (refl, (w, refl))
      | inr e ↦ rw e (
          bind-Ensures (IsPlaced src ctx) _ (place_payload ctx seg.header seg.raw) _
            (place_payload-IsPlaced src ctx seg w f) noted)
    ])
  where
    moved_on :
        (c : Context)
        → IsWaiting src c × (c.recv_next ≡ ctx.recv_next)
        → IsWaiting src (note_header now c seg.header)
          × ((note_header now c seg.header).recv_next ≡ ctx.recv_next)
    moved_on c (a, b) =
        let k = note_header-HasWindow now c seg.header f.no_syn in
        (IsWaiting-moved src c (note_header now c seg.header) k a, k.next ∙ b)

    noted :
        (p : Placed)
        → IsPlaced src ctx p
        → (has_fin (finish now ctx seg.header p).header ≡ false)
          × IsGot src ctx (finish now ctx seg.header p).ctx (finish now ctx seg.header p).got
    noted beyond h = (f.no_fin, (w, refl))
    noted (placed c (bytes g)) h = (
      f.no_fin,
      IsStored-moved src ctx c (note_header now c seg.header) g
          (note_header-HasWindow now c seg.header f.no_syn) h,
    )
    noted (placed c bad) h = (f.no_fin, moved_on c h)
    noted (placed c old) h = (f.no_fin, moved_on c h)
