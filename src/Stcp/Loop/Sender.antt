-- ===== src/Stcp/Loop/Sender.antt =====
-- stcp/transport.c: control_loop on the packets that are not acknowledged.
use uchi_networks.Common.{
  ℕ, ◌+◌, ◌^◌, ◌≤◌, ◌<◌, ◌≡◌, inl, inr, refl, ap, sym, ◌∙◌, arith, Bool, true, false, ltb, ◌==◌,
  not, ◌&&◌, if◌then◌else◌, List, [], ◌∷◌, ◌++◌, map, Option, none, some, length, take, Bool-cases,
  Ensures, bind-Ensures, then-Ensures, Returns,
}
use uchi_networks.Stcp.Types.{
  max_len, Header, Segment, Out, Timespec, Unacked, Context, Got, bad, old, bytes, has_ack, has_fin,
  Conn, State, established, fin_wait1, fin_wait2, close_wait, last_ack, closing, closed, syn_sent,
  syn_received, add32,
}
use uchi_networks.Stcp.Window.{app_send, slide, first_gap}
use uchi_networks.Stcp.Window.Arrays.{length-take_le}
use uchi_networks.Stcp.Rto.{wait_until}
use uchi_networks.Stcp.Recv.{packet_t_create, make_stcp_packet, recv_packet, Received}
use uchi_networks.Stcp.Recv.Sent.{
  IsChain, IsSender, IsLater, recv_packet-IsLater, wait_until-Returns,
}
use uchi_networks.Stcp.Loop.{
  send_ack, send_kept, open_window, app_payload, on_app, hand_over, ack_in, ack_part, fin_in,
  on_fin, fin_part, teardown, on_network, on_close, resend, on_timeout, Event, app_part,
  network_part, close_part, is_timeout, iterate,
}

IsChain-append :
    (s e : ℕ) (ps : List Unacked) (p : Unacked)
    → IsChain s ps e
    → p.seq_num ≡ e
    → IsChain s (ps ++ (p ∷ [])) (e + length p.packet.payload)
IsChain-append s e [] p k h = (h ∙ sym k, ap (λ t. t + length p.packet.payload) k)
IsChain-append s e (q ∷ qs) p k h = (k.0, IsChain-append (s + length q.packet.payload) e qs p k.1 h)

IsChain-resend :
    (now : Timespec) (ack s e : ℕ) (ps : List Unacked)
    → IsChain s ps e
    → IsChain s (map (resend now ack) ps) e
unfolding resend
IsChain-resend now ack s e [] k = k
IsChain-resend now ack s e (p ∷ ps) k =
    (k.0, IsChain-resend now ack (s + length p.packet.payload) e ps k.1)

-- A packet that is sent and kept continues the chain.
pub send_kept-IsSender :
    (now : Timespec) (conn : Conn) (packet : Out)
    → IsSender conn.ctx
    → conn.ctx.send_next + length packet.payload < 2 ^ 32
    → IsSender (send_kept now conn packet (length packet.payload)).ctx
unfolding send_kept packet_t_create
send_kept-IsSender now conn packet s h = record {
  from = s.from;
  chain =
      rw no_wrap (IsChain-append s.from conn.ctx.send_next conn.ctx.unackd_packets _ s.chain refl);
  acked = s.acked;
}
  where
    no_wrap :
        add32 conn.ctx.send_next (length packet.payload)
        ≡ conn.ctx.send_next + length packet.payload
    no_wrap = omega arith

pub length-app_payload : (ctx : Context) (written : List ℕ) → length (app_payload ctx written) ≤ 536
unfolding app_payload
length-app_payload ctx written = elim (Bool-cases (ltb max_len (open_window ctx))) [
  | inl e ↦ rw e (length-take_le 536 written)
  | inr e ↦ rw e (omega (arith, length-take_le (open_window ctx) written, small e))
]
  where
    small : ltb max_len (open_window ctx) ≡ false → open_window ctx ≤ 536
    small e = ground arith

on_app-IsSender :
    (now : Timespec) (conn : Conn) (written : List ℕ)
    → IsSender conn.ctx
    → conn.ctx.send_next + 536 < 2 ^ 32
    → IsSender (on_app now conn written).ctx
unfolding on_app make_stcp_packet
on_app-IsSender now conn written s h =
    elim (Bool-cases (length (app_payload conn.ctx written) == 0)) [
      | inl e ↦ rw e s
      | inr e ↦
          rw e
            (send_kept-IsSender now conn _ s (omega (arith, length-app_payload conn.ctx written)))
    ]

ack_in-IsSender : (s : State) (conn : Conn) → IsSender conn.ctx → IsSender (ack_in s conn).ctx
unfolding ack_in
ack_in-IsSender established conn s = s
ack_in-IsSender syn_sent conn s = s
ack_in-IsSender syn_received conn s = s
ack_in-IsSender fin_wait1 conn s = record { from = s.from; chain = s.chain; acked = s.acked }
ack_in-IsSender fin_wait2 conn s = s
ack_in-IsSender close_wait conn s = s
ack_in-IsSender last_ack conn s = record { from = s.from; chain = s.chain; acked = s.acked }
ack_in-IsSender closing conn s = record { from = s.from; chain = s.chain; acked = s.acked }
ack_in-IsSender closed conn s = s

fin_in-IsSender : (s : State) (conn : Conn) → IsSender conn.ctx → IsSender (fin_in s conn).ctx
unfolding fin_in
fin_in-IsSender established conn s = record { from = s.from; chain = s.chain; acked = s.acked }
fin_in-IsSender syn_sent conn s = s
fin_in-IsSender syn_received conn s = s
fin_in-IsSender fin_wait1 conn s = record { from = s.from; chain = s.chain; acked = s.acked }
fin_in-IsSender fin_wait2 conn s = record { from = s.from; chain = s.chain; acked = s.acked }
fin_in-IsSender close_wait conn s = s
fin_in-IsSender last_ack conn s = s
fin_in-IsSender closing conn s = s
fin_in-IsSender closed conn s = s

fin_part-IsSender : (conn : Conn) (h : Header) → IsSender conn.ctx → IsSender (fin_part conn h).ctx
unfolding fin_part on_fin send_ack
fin_part-IsSender conn h s = elim (Bool-cases (not conn.left && has_fin h)) [
  | inl e ↦ rw e (
      fin_in-IsSender conn.ctx.connection_state _
        (record { from = s.from; chain = s.chain; acked = s.acked }))
  | inr e ↦ rw e s
]

teardown-IsSender : (conn : Conn) (h : Header) → IsSender conn.ctx → IsSender (teardown conn h).ctx
unfolding teardown ack_part
teardown-IsSender conn h s = elim (Bool-cases (has_ack h)) [
  | inl e ↦ rw e (
      fin_part-IsSender (ack_in conn.ctx.connection_state conn) h
        (ack_in-IsSender conn.ctx.connection_state conn s))
  | inr e ↦ rw e (fin_part-IsSender conn h s)
]

app_send-IsSender :
    (ctx : Context) (n : ℕ)
    → IsSender ctx
    → Ensures (λ (r : List ℕ × Context). IsSender r.1) (app_send ctx n)
unfolding app_send slide
app_send-IsSender ctx n s =
    then-Ensures (λ (r : List ℕ × Context). IsSender r.1) (first_gap ctx.recv_indicator)
      (λ g. some (take n ctx.recv_buffer, slide ctx g))
      (λ g. record { from = s.from; chain = s.chain; acked = s.acked })

hand_over-IsSender :
    (conn : Conn) (got : Got)
    → IsSender conn.ctx
    → Ensures (λ (c : Conn). IsSender c.ctx) (hand_over conn got)
unfolding hand_over send_ack
hand_over-IsSender conn bad s = s
hand_over-IsSender conn old s = s
hand_over-IsSender conn (bytes n) s = elim (Bool-cases (n == 0)) [
  | inl e ↦ rw e s
  | inr e ↦ rw e (
      bind-Ensures (λ (r : List ℕ × Context). IsSender r.1) (λ (c : Conn). IsSender c.ctx)
        (app_send conn.ctx n) _ (app_send-IsSender conn.ctx n s) (λ r k. k))
]

on_network-IsSender :
    (now : Timespec) (conn : Conn) (seg : Segment)
    → IsSender conn.ctx
    → Ensures (λ (c : Conn). IsSender c.ctx) (on_network now conn seg)
unfolding on_network
on_network-IsSender now conn seg s =
    bind-Ensures (λ (r : Received). IsLater conn.ctx r.ctx) (λ (c : Conn). IsSender c.ctx)
      (recv_packet now conn.ctx seg) _ (recv_packet-IsLater now conn.ctx seg s)
      (λ r h.
        bind-Ensures (λ (c : Conn). IsSender c.ctx) (λ (c : Conn). IsSender c.ctx)
          (hand_over (record conn { ctx = r.ctx }) r.got) _
          (hand_over-IsSender (record conn { ctx = r.ctx }) r.got h.sender)
          (λ c k. teardown-IsSender c r.header k))

on_timeout-IsSender :
    (now : Timespec) (conn : Conn) → IsSender conn.ctx → IsSender (on_timeout now conn).ctx
unfolding on_timeout
on_timeout-IsSender now conn s = record {
  from = s.from;
  chain =
      IsChain-resend now conn.ctx.recv_next s.from conn.ctx.send_next conn.ctx.unackd_packets
        s.chain;
  acked = s.acked;
}

if-IsSender :
    (b : Bool) (x y : Conn) → IsSender x.ctx → IsSender y.ctx → IsSender (if b then x else y).ctx
if-IsSender true x y h k = h
if-IsSender false x y h k = k

not_taken : (b : Bool) (x y : Conn) → b ≡ false → IsSender y.ctx → IsSender (if b then x else y).ctx
not_taken true x y e k = absurd (ground arith)
not_taken false x y e k = k

app_part-IsSender :
    (now : Timespec) (conn : Conn) (written : Option (List ℕ))
    → IsSender conn.ctx
    → conn.ctx.send_next + 536 < 2 ^ 32
    → IsSender (app_part now conn written).ctx
app_part-IsSender now conn none s h = s
app_part-IsSender now conn (some written) s h = on_app-IsSender now conn written s h

network_part-IsSender :
    (now : Timespec) (conn : Conn) (seg : Option Segment)
    → IsSender conn.ctx
    → Ensures (λ (c : Conn). IsSender c.ctx) (network_part now conn seg)
network_part-IsSender now conn none s = s
network_part-IsSender now conn (some seg) s = on_network-IsSender now conn seg s

-- A round of control_loop without a close request: it has a packet to wait for whenever something
-- is not acknowledged, and the list still holds the packets up to send_next without a gap,
-- everything before its first acknowledged. A round that faults is left out, and the numbers do
-- not come near 2^32.
pub iterate-IsSender :
    (now : Timespec) (conn : Conn) (e : Event)
    → IsSender conn.ctx
    → conn.ctx.send_next + 536 < 2 ^ 32
    → e.close_requested ≡ false
    → Returns (λ t. Unit {0}) (wait_until conn.ctx)
      × Ensures (λ (c : Conn). IsSender c.ctx) (iterate now conn e)
unfolding iterate
iterate-IsSender now conn e s h c = (
  wait_until-Returns conn.ctx s,
  then-Ensures (λ (c : Conn). IsSender c.ctx) (wait_until conn.ctx) _
      (λ t.
        bind-Ensures (λ (c : Conn). IsSender c.ctx) (λ (c : Conn). IsSender c.ctx)
          (network_part now (app_part now conn e.app_data) e.network_data) _
          (network_part-IsSender now (app_part now conn e.app_data) e.network_data
            (app_part-IsSender now conn e.app_data s h))
          last),
)
  where
    last : (d : Conn) → IsSender d.ctx → IsSender (if d.left then d else close_part now d e).ctx
    last d k =
        if-IsSender d.left d (close_part now d e) k
          (if-IsSender (is_timeout e) _ _ (on_timeout-IsSender now _ open_still) open_still)
      where
        open_still : IsSender (if e.close_requested then on_close now d else d).ctx
        open_still = not_taken e.close_requested (on_close now d) d c k
