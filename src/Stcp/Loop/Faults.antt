-- ===== src/Stcp/Loop/Faults.antt =====
-- stcp/transport.c: control_loop where it reads through a null pointer.
use uchi_networks.Common.{
  ◌+◌, ◌^◌, ◌≤◌, ◌<◌, ◌≡◌, inl, inr, refl, ap, subst, sym, arith, false, ltb, not, ◌&&◌, [], ◌∷◌,
  ◌++◌, none, some, length, Bool-cases, Returns, bind-Returns, lt→ltb, le→leb, length-append,
}
use uchi_networks.Stcp.Types.{
  Header, Segment, Timespec, Unacked, Context, bytes, has_ack, has_fin, Conn, State, established,
  syn_sent, syn_received, fin_wait1, fin_wait2, closing, closed, last_ack, close_wait,
}
use uchi_networks.Stcp.Window.Arrays.{take_short}
use uchi_networks.Stcp.Rto.{wait_until, first_timeout, update_rto}
use uchi_networks.Stcp.Recv.{
  packet_t_create, make_stcp_packet, set_unackd, remove_acked, packet_t_remove, note_ack,
  note_window, note_header, place_payload, recv_packet, Received,
}
use uchi_networks.Stcp.Recv.Sent.{HasSent, update_rto-HasSent}
use uchi_networks.Stcp.Loop.{
  send_kept, send_ack, hand_over, ack_part, fin_in, close_in, fin_packet, on_fin, fin_part,
  teardown, on_network, on_close,
}

-- Something is not acknowledged and there is no packet to wait for.
pub record IsLost (ctx : Context) : Type 0 where
  pub open_end : ctx.send_unack < ctx.send_next
  pub no_packet : ctx.unackd_packets ≡ []

lost_faults : (ctx : Context) → IsLost ctx → wait_until ctx ≡ none
unfolding wait_until first_timeout
lost_faults ctx l = rw (lt→ltb ctx.send_unack ctx.send_next l.open_end, l.no_packet) refl

-- The only packet is a bare one that counts as acknowledged.
pub record IsBare (ctx : Context) (p : Unacked) : Type 0 where
  pub alone : ctx.unackd_packets ≡ p ∷ []
  pub counted : p.seq_num + length p.packet.payload ≤ ctx.send_unack
  pub open_end : ctx.send_unack < ctx.send_next

remove-IsLost :
    (now : Timespec) (ctx : Context) (p : Unacked) → IsBare ctx p → IsLost (packet_t_remove now ctx)
unfolding packet_t_remove remove_acked set_unackd
remove-IsLost now ctx p b = subst (λ ps. IsLost (remove_acked now ctx ps)) (sym b.alone) one
  where
    h : HasSent ctx (update_rto now ctx p)
    h = update_rto-HasSent now ctx p

    one : IsLost (remove_acked now ctx (p ∷ []))
    one =
        rw (le→leb (p.seq_num + length p.packet.payload) ctx.send_unack b.counted)
          (record { open_end = omega (arith, h.unack, h.next, b.open_end); no_packet = refl })

note_header-IsLost :
    (now : Timespec) (ctx : Context) (h : Header) (p : Unacked)
    → has_ack h ≡ false
    → IsBare ctx p
    → IsLost (note_header now ctx h)
unfolding note_header note_window note_ack
note_header-IsLost now ctx h p e b =
    rw e (
      let l = remove-IsLost now ctx p b in
      record { open_end = l.open_end; no_packet = l.no_packet })

-- A header alone, without ACK.
pub record IsBareSegment (seg : Segment) : Type 0 where
  pub size : length seg.raw ≡ 20
  pub off : seg.header.off ≡ 5
  pub no_ack : has_ack seg.header ≡ false

abbrev pub IsLostReceived : Context → Header → Received → Type 0
IsLostReceived ctx h r = IsLost r.ctx × (r.got ≡ bytes 0) × (r.header ≡ h)

pub recv_packet-IsLost :
    (now : Timespec) (ctx : Context) (seg : Segment) (p : Unacked)
    → IsBareSegment seg
    → IsBare ctx p
    → Returns (IsLostReceived ctx seg.header) (recv_packet now ctx seg)
unfolding recv_packet place_payload note_header note_ack note_window
recv_packet-IsLost now ctx seg p s b =
    rw (take_short 596 seg.raw (omega (arith, s.size)), s.size, s.off)
      (note_header-IsLost now ctx seg.header p s.no_ack b, refl, refl)

abbrev IsLostConn : Conn → Type 0
IsLostConn c = IsLost c.ctx

fin_in-IsLost : (s : State) (conn : Conn) → IsLost conn.ctx → IsLost (fin_in s conn).ctx
unfolding fin_in
fin_in-IsLost established conn l = record { open_end = l.open_end; no_packet = l.no_packet }
fin_in-IsLost syn_sent conn l = l
fin_in-IsLost syn_received conn l = l
fin_in-IsLost fin_wait1 conn l = record { open_end = l.open_end; no_packet = l.no_packet }
fin_in-IsLost fin_wait2 conn l = record { open_end = l.open_end; no_packet = l.no_packet }
fin_in-IsLost close_wait conn l = l
fin_in-IsLost last_ack conn l = l
fin_in-IsLost closing conn l = l
fin_in-IsLost closed conn l = l

teardown-IsLost :
    (conn : Conn) (h : Header) → has_ack h ≡ false → IsLost conn.ctx → IsLost (teardown conn h).ctx
unfolding teardown ack_part fin_part on_fin send_ack
teardown-IsLost conn h e l = rw e (elim (Bool-cases (not conn.left && has_fin h)) [
  | inl f ↦ rw f (
      fin_in-IsLost conn.ctx.connection_state _
        (record { open_end = l.open_end; no_packet = l.no_packet }))
  | inr f ↦ rw f l
])

on_network-IsLost :
    (now : Timespec) (conn : Conn) (seg : Segment) (p : Unacked)
    → IsBareSegment seg
    → IsBare conn.ctx p
    → Returns (λ (c : Conn). wait_until c.ctx ≡ none) (on_network now conn seg)
unfolding on_network hand_over
on_network-IsLost now conn seg p s b =
    bind-Returns (IsLostReceived conn.ctx seg.header) (λ (c : Conn). wait_until c.ctx ≡ none)
      (recv_packet now conn.ctx seg) _ (recv_packet-IsLost now conn.ctx seg p s b)
      (λ r h.
        rw (h.1, h.2)
          (lost_faults _ (teardown-IsLost (record conn { ctx = r.ctx }) seg.header s.no_ack h.0)))

abbrev fin_record : Timespec → Context → Unacked
fin_record now ctx = record {
  start_time = now;
  retry_count = 0;
  seq_num = ctx.send_next;
  packet = fin_packet ctx;
}

close_in-IsBare :
    (now : Timespec) (conn : Conn)
    → conn.ctx.unackd_packets ≡ []
    → conn.ctx.send_unack ≡ conn.ctx.send_next
    → conn.ctx.send_next + 1 < 2 ^ 32
    → IsBare (close_in now close_wait conn).ctx (fin_record now conn.ctx)
unfolding close_in send_kept packet_t_create make_stcp_packet
close_in-IsBare now conn none_left all_acked low = record {
  alone = ap (λ ps. ps ++ (fin_record now conn.ctx ∷ [])) none_left;
  counted = omega (arith, all_acked);
  open_end = omega (arith, all_acked, low);
}

-- A close of a connection that the peer has closed and of which everything is acknowledged: the
-- next packet without ACK, as the peer's FIN when it comes twice, leaves send_unack below send_next
-- and the list empty, and control_loop reads through a null pointer when it is to wait again.
pub closed_twice_faults :
    (now later : Timespec) (conn : Conn) (seg : Segment)
    → conn.ctx.connection_state ≡ close_wait
    → conn.ctx.unackd_packets ≡ []
    → conn.ctx.send_unack ≡ conn.ctx.send_next
    → conn.ctx.send_next + 1 < 2 ^ 32
    → IsBareSegment seg
    → Returns (λ (c : Conn). wait_until c.ctx ≡ none) (on_network later (on_close now conn) seg)
unfolding on_close
closed_twice_faults now later conn seg state none_left all_acked low s =
    subst
      (λ t.
        Returns (λ (c : Conn). wait_until c.ctx ≡ none)
          (on_network later (close_in now t conn) seg))
      (sym state)
      (on_network-IsLost later (close_in now close_wait conn) seg (fin_record now conn.ctx) s
        (close_in-IsBare now conn none_left all_acked low))

close_in-length :
    (now : Timespec) (conn : Conn)
    → length (close_in now established conn).ctx.unackd_packets ≡ length conn.ctx.unackd_packets + 1
unfolding close_in packet_t_create
close_in-length now conn = length-append conn.ctx.unackd_packets _

close_in_past :
    (now : Timespec) (conn : Conn)
    → conn.ctx.send_unack ≡ conn.ctx.send_next
    → conn.ctx.send_next + 1 < 2 ^ 32
    → (close_in now established conn).ctx.send_next ≤ (close_in now established conn).ctx.send_unack
unfolding close_in packet_t_create
close_in_past now conn all_acked low = omega (arith, all_acked, low)

past_end : (ctx : Context) → ctx.send_next ≤ ctx.send_unack → wait_until ctx ≡ some none
unfolding wait_until
past_end ctx h = rw not_below refl
  where
    not_below : ltb ctx.send_unack ctx.send_next ≡ false
    not_below = ground (arith, h)

-- A close of an established connection of which everything is acknowledged: the FIN is one more
-- packet to keep, and yet control_loop sets no time to send it again, since send_unack is past
-- send_next.
pub first_close_untimed :
    (now : Timespec) (conn : Conn)
    → conn.ctx.connection_state ≡ established
    → conn.ctx.send_unack ≡ conn.ctx.send_next
    → conn.ctx.send_next + 1 < 2 ^ 32
    → (length (on_close now conn).ctx.unackd_packets ≡ length conn.ctx.unackd_packets + 1)
      × (wait_until (on_close now conn).ctx ≡ some none)
unfolding on_close
first_close_untimed now conn state all_acked low =
    subst
      (λ t.
        (length (close_in now t conn).ctx.unackd_packets ≡ length conn.ctx.unackd_packets + 1)
        × (wait_until (close_in now t conn).ctx ≡ some none))
      (sym state) (one_more, untimed)
  where
    one_more :
        length (close_in now established conn).ctx.unackd_packets
        ≡ length conn.ctx.unackd_packets + 1
    one_more = close_in-length now conn

    untimed : wait_until (close_in now established conn).ctx ≡ some none
    untimed = past_end _ (close_in_past now conn all_acked low)
