-- ===== src/Stcp/Recv.antt =====
-- stcp/transport.c: packets that are built, remembered and received.
pub mod Window
pub mod Sent
pub mod Bare
use uchi_networks.Common.{
  ℕ, ◌+◌, ◌-◌, ◌*◌, ◌%◌, ◌^◌, Bool, ltb, leb, ◌==◌, ◌&&◌, if◌then◌else◌, List, [], ◌∷◌, ◌++◌,
  Option, some, length, take, ◌>>=◌,
}
use uchi_networks.Stcp.Types.{
  win_len, header_size, Header, Segment, Out, Timespec, Unacked, Context, Got, bad, bytes, has_ack,
  has_syn, add32,
}
use uchi_networks.Stcp.Window.{replicate, write_at, Placed, beyond, placed, place}
use uchi_networks.Stcp.Rto.{update_rto}

-- `make_stcp_packet` and the payload that its caller copies behind the header.
unfoldable pub make_stcp_packet : (flags seq ack : ℕ) → (payload : List ℕ) → Out
make_stcp_packet flags seq ack payload = record {
  header = record { seq = seq; ack = ack; off = 5; flags = flags; win = win_len };
  payload = payload;
}

-- `packet_t_create`
unfoldable pub packet_t_create : (now : Timespec) → Context → Out → Context
packet_t_create now ctx packet = record ctx {
  unackd_packets =
      ctx.unackd_packets
      ++ (record { start_time = now; retry_count = 0; seq_num = ctx.send_next; packet = packet }
          ∷ []);
}

-- `send_unack >= seq_num + (packet_size - sizeof(STCPHeader))`, of which the right side is 64 bits
-- wide.
abbrev pub is_acked : ℕ → Unacked → Bool
is_acked unack p = leb (p.seq_num + length p.packet.payload) unack

unfoldable pub set_unackd : Context → List Unacked → Context
set_unackd ctx ps = record ctx { unackd_packets = ps }

-- The loop of packet_t_remove: the first packet that is not acknowledged ends it, after it has been
-- a sample of update_rto too.
unfoldable pub remove_acked : (now : Timespec) → Context → List Unacked → Context
remove_acked now ctx [] = set_unackd ctx []
remove_acked now ctx (p ∷ ps) =
    let sampled = update_rto now ctx p in
    let rest = remove_acked now sampled ps in
    if is_acked ctx.send_unack p then rest else set_unackd sampled (p ∷ ps)

unfoldable pub packet_t_remove : (now : Timespec) → Context → Context
packet_t_remove now ctx = remove_acked now ctx ctx.unackd_packets

unfoldable pub note_ack : Context → Header → Context
note_ack ctx h =
    if has_ack h && leb ctx.send_unack h.ack then record ctx { send_unack = h.ack } else ctx

-- A SYN sets recv_next, and every packet the window.
unfoldable pub note_window : Context → Header → Context
note_window ctx h = record ctx {
  recv_next = if has_syn h then add32 h.seq 1 else ctx.recv_next;
  send_wind = if leb h.win win_len then h.win else win_len;
}

-- The part of recv_packet after the payload: the acknowledgement, the SYN and the peer's window.
unfoldable pub note_header : (now : Timespec) → Context → Header → Context
note_header now ctx h = note_window (packet_t_remove now (note_ack ctx h)) h

-- The buffer of recv_packet, fresh, and the packet in it.
unfoldable pub packet_buffer : List ℕ → List ℕ
packet_buffer raw = write_at (replicate 596 0) 0 raw

-- `paylen > 0`: it is a 64-bit difference, so it is 0 only where the packet is its header.
unfoldable pub place_payload : Context → Header → (raw : List ℕ) → Option Placed
place_payload ctx h raw =
    let paylen = (length raw + 2 ^ 64 - 4 * h.off) % 2 ^ 64 in
    if paylen == 0
    then some (placed ctx (bytes 0))
    else place ctx h.seq (packet_buffer raw) (4 * h.off) paylen

-- What recv_packet leaves for control_loop: the context, its result, and the header, which is zeroed
-- where the packet is too short.
pub record Received : Type 0 where
  pub ctx : Context
  pub got : Got
  pub header : Header

abbrev pub no_header : Header
no_header = record { seq = 0; ack = 0; off = 0; flags = 0; win = 0 }

-- The end of recv_packet, which a payload beyond the window skips.
abbrev pub finish : (now : Timespec) → Context → Header → Placed → Received
finish now ctx h beyond = record { ctx = ctx; got = bad; header = h }
finish now ctx h (placed c g) = record { ctx = note_header now c h; got = g; header = h }

-- `recv_packet`. The network hands over at most 596 bytes.
unfoldable pub recv_packet : (now : Timespec) → Context → Segment → Option Received
recv_packet now ctx seg =
    let raw = take 596 seg.raw in
    if ltb (length raw) header_size
    then some (record { ctx = ctx; got = bad; header = no_header })
    else place_payload ctx seg.header raw >>= λ p. some (finish now ctx seg.header p)
