-- ===== src/Stcp/Open/Faults.antt =====
-- stcp/transport.c: transport_init where it reads through a null pointer.
use uchi_networks.Common.{
  ℕ, ◌+◌, ◌≡◌, ap, ◌∙◌, subst, sym, refl, arith, Bool, true, false, ◌==◌, ◌&&◌, ◌||◌, not,
  if◌then◌else◌, List, [], ◌∷◌, none, some, ◌>>=◌, Returns, bind-Returns, map-Returns, ◌<◌, ◌^◌,
}
use uchi_networks.Stcp.Types.{Segment, Timespec, Conn, has_ack, has_syn, Unacked, established}
use uchi_networks.Stcp.Rto.{first_timeout}
use uchi_networks.Stcp.Recv.{make_stcp_packet, packet_t_create, recv_packet, Received}
use uchi_networks.Stcp.Loop.{send_kept, send_ack, go_to}
use uchi_networks.Stcp.Loop.Faults.{IsBare, IsBareSegment, IsLostReceived, recv_packet-IsLost}
use uchi_networks.Stcp.Open.{start_context, start, send_syn, answer_synack, is_refused, client_step}

first_timeout-nil : (rto : Timespec) → first_timeout rto [] ≡ none
unfolding first_timeout
first_timeout-nil rto = refl

first_timeout-cons :
    (rto : Timespec) (p : Unacked) (ps : List Unacked)
    → Returns (λ t. Unit {0}) (first_timeout rto (p ∷ ps))
unfolding first_timeout
first_timeout-cons rto p ps = tt

empty_faults :
    (now : Timespec) (conn : Conn) (seg : Segment)
    → conn.ctx.unackd_packets ≡ []
    → client_step now conn seg ≡ none
unfolding client_step
empty_faults now conn seg e =
    ap
      (λ m. m >>= λ _.
        recv_packet now conn.ctx seg >>= λ r. some (answer_synack (record conn { ctx = r.ctx }) r))
      no_packet
  where
    no_packet : first_timeout conn.ctx.rto conn.ctx.unackd_packets ≡ none
    no_packet = ap (first_timeout conn.ctx.rto) e ∙ first_timeout-nil conn.ctx.rto

refused : (conn : Conn) (r : Received) → has_ack r.header ≡ false → answer_synack conn r ≡ conn
unfolding answer_synack
refused conn r e =
    ap
      (λ b.
        if b
        then conn
        else if r.header.ack == conn.ctx.send_next
        then go_to established (send_ack conn)
        else conn)
      (off (is_refused r.got) (has_syn r.header) (has_ack r.header) e)
  where
    off : (a b c : Bool) → c ≡ false → (a || not (b && c)) ≡ true
    off a b c e = ground arith

-- The SYN is kept alone.
send_syn-IsBare :
    (now : Timespec) (isn : ℕ)
    → isn + 1 < 2 ^ 32
    → (p : Unacked) × IsBare (send_syn now (start isn)).ctx p
unfolding send_syn start start_context send_kept packet_t_create make_stcp_packet
send_syn-IsBare now isn low =
    (_, record { alone = refl; counted = omega arith; open_end = omega arith })

client_step-IsLost :
    (now : Timespec) (conn : Conn) (seg : Segment) (p : Unacked)
    → IsBare conn.ctx p
    → IsBareSegment seg
    → Returns (λ (c : Conn). c.ctx.unackd_packets ≡ []) (client_step now conn seg)
unfolding client_step
client_step-IsLost now conn seg p b s =
    bind-Returns (λ t. Unit {0}) (λ (c : Conn). c.ctx.unackd_packets ≡ [])
      (first_timeout conn.ctx.rto conn.ctx.unackd_packets) _
      (subst (λ ps. Returns (λ t. Unit {0}) (first_timeout conn.ctx.rto ps)) (sym b.alone)
        (first_timeout-cons conn.ctx.rto p []))
      (λ t u.
        bind-Returns (IsLostReceived conn.ctx seg.header) (λ (c : Conn). c.ctx.unackd_packets ≡ [])
          (recv_packet now conn.ctx seg) _ (recv_packet-IsLost now conn.ctx seg p s b)
          (λ r h.
            ap (λ (c : Conn). c.ctx.unackd_packets)
              (refused (record conn { ctx = r.ctx }) r (ap has_ack h.2 ∙ s.no_ack))
            ∙ h.0.no_packet))

-- A client that has sent its SYN, and a packet without ACK that is only a header: the SYN counts as
-- acknowledged and is dropped, and the next round of transport_init's loop reads through a null
-- pointer, whatever arrives.
pub syn_sent_faults :
    (t0 t1 t2 : Timespec) (initial_sequence_num : ℕ) (seg next : Segment)
    → initial_sequence_num + 1 < 2 ^ 32
    → IsBareSegment seg
    → Returns
        (λ c. client_step t2 c next ≡ none)
        (client_step t1 (send_syn t0 (start initial_sequence_num)) seg)
syn_sent_faults t0 t1 t2 initial_sequence_num seg next low s =
    let (p, b) = send_syn-IsBare t0 initial_sequence_num low in
    map-Returns (λ (c : Conn). c.ctx.unackd_packets ≡ []) (λ c. client_step t2 c next ≡ none)
      (client_step t1 (send_syn t0 (start initial_sequence_num)) seg)
      (λ c e. empty_faults t2 c next e)
      (client_step-IsLost t1 (send_syn t0 (start initial_sequence_num)) seg p b s)
