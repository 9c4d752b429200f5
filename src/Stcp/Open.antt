-- ===== src/Stcp/Open.antt =====
-- stcp/transport.c: transport_init, the handshake.
pub mod Handshake
pub mod Faults
use uchi_networks.Common.{
  ℕ, ◌+◌, Bool, true, false, ◌==◌, ◌&&◌, ◌||◌, not, if◌then◌else◌, List, [], ◌∷◌, ◌++◌, Option,
  some, ◌>>=◌,
}
use uchi_networks.Stcp.Types.{
  th_syn, Header, Segment, Timespec, Context, Got, bad, old, bytes, has_ack, has_syn, add32, Conn,
  State, closed, syn_sent, syn_received, established,
}
use uchi_networks.Stcp.Window.{replicate}
use uchi_networks.Stcp.Rto.{first_timeout}
use uchi_networks.Stcp.Recv.{make_stcp_packet, packet_t_create, recv_packet, Received}
use uchi_networks.Stcp.Loop.{send, send_ack, go_to, send_kept}

-- The fresh context, zeroed, with `initial_sequence_num` for both sides of what is sent: the active
-- side sets send_unack and send_next to it before its SYN, the passive one before each wait.
unfoldable pub start_context : (initial_sequence_num : ℕ) → Context
start_context initial_sequence_num = record {
  connection_state = closed;
  send_unack = initial_sequence_num;
  send_next = initial_sequence_num;
  send_wind = 0;
  recv_next = 0;
  recv_buffer = replicate 3072 0;
  recv_indicator = replicate 3072 false;
  rto = record { sec = 0; nsec = 0 };
  srtt = record { sec = 0; nsec = 0 };
  rttvar_sec = 0;
  rttvar_nsec = 0;
  rto_init = false;
  unackd_packets = [];
}

unfoldable pub start : (initial_sequence_num : ℕ) → Conn
start initial_sequence_num = record {
  ctx = start_context initial_sequence_num;
  sent = [];
  delivered = [];
  fin_seen = false;
  left = false;
}

-- Active: the SYN goes out and is kept.
unfoldable pub send_syn : (now : Timespec) → Conn → Conn
send_syn now conn =
    go_to syn_sent (send_kept now conn (make_stcp_packet th_syn conn.ctx.send_unack 0 []) 1)

-- `tcplen < 0`
abbrev pub is_refused : Got → Bool
is_refused (bytes n) = false
is_refused _ = true

-- Active: what a packet does, in the state that recv_packet has left.
unfoldable pub answer_synack : Conn → Received → Conn
answer_synack conn r =
    if is_refused r.got || not (has_syn r.header && has_ack r.header)
    then conn
    else if r.header.ack == conn.ctx.send_next
    then go_to established (send_ack conn)
    else conn

-- Active: a round of the loop in SYN_SENT in which a packet arrives. The time to wait until is that
-- of the first packet that is kept; a round without a packet changes nothing.
unfoldable pub client_step : (now : Timespec) → Conn → Segment → Option Conn
client_step now conn seg = first_timeout conn.ctx.rto conn.ctx.unackd_packets >>= λ _.
    recv_packet now conn.ctx seg >>= λ r. some (answer_synack (record conn { ctx = r.ctx }) r)

-- Passive: the SYN/ACK goes out and is kept, twice, before send_next moves.
unfoldable pub send_synack : (now : Timespec) → Conn → Conn
send_synack now conn =
    let reply = make_stcp_packet 0x12 conn.ctx.send_unack conn.ctx.recv_next [] in
    let kept = record (send conn reply) { ctx = packet_t_create now conn.ctx reply } in
    go_to syn_received (record kept {
      ctx = record (packet_t_create now kept.ctx reply) { send_next = add32 kept.ctx.send_next 1 };
    })

unfoldable pub answer_syn : (now : Timespec) → Conn → Received → Conn
answer_syn now conn r =
    if is_refused r.got || not (r.header.flags == th_syn) then conn else send_synack now conn

-- Passive: a round of the loop in CLOSED in which a packet arrives.
unfoldable pub listen_step :
    (now : Timespec) → (initial_sequence_num : ℕ) → Conn → Segment → Option Conn
listen_step now initial_sequence_num conn seg =
    let ctx = record conn.ctx {
      send_unack = initial_sequence_num;
      send_next = initial_sequence_num;
    } in
    recv_packet now ctx seg >>= λ r. some (answer_syn now (record conn { ctx = r.ctx }) r)

unfoldable pub finish_open : Conn → Received → Conn
finish_open conn r =
    if is_refused r.got || not (has_ack r.header)
    then conn
    else if r.header.ack == conn.ctx.send_next
    then go_to established conn
    else conn

-- Passive: a round of the loop in SYN_RECEIVED in which a packet arrives.
unfoldable pub server_step : (now : Timespec) → Conn → Segment → Option Conn
server_step now conn seg = first_timeout conn.ctx.rto conn.ctx.unackd_packets >>= λ _.
    recv_packet now conn.ctx seg >>= λ r. some (finish_open (record conn { ctx = r.ctx }) r)
