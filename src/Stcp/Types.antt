-- ===== src/Stcp/Types.antt =====
-- stcp/transport.c and transport.h: segments, the context of a connection, and what it does.
use uchi_networks.Common.{ℕ, ◌+◌, ◌-◌, ◌/◌, ◌%◌, ◌^◌, Bool, ◌==◌, List, length}

-- MAXLEN
abbrev pub max_len : ℕ
max_len = 536

-- WINLEN
abbrev pub win_len : ℕ
win_len = 3072

-- sizeof(STCPHeader)
abbrev pub header_size : ℕ
header_size = 20

abbrev pub th_fin : ℕ
th_fin = 0x01

abbrev pub th_syn : ℕ
th_syn = 0x02

abbrev pub th_ack : ℕ
th_ack = 0x10

-- `STCPHeader`, in host order; the ports, the checksum and the urgent pointer are the network
-- layer's.
pub record Header : Type 0 where
  pub seq : ℕ
  pub ack : ℕ
  pub off : ℕ
  pub flags : ℕ
  pub win : ℕ

-- A packet from the network: its header, and all its bytes, the 20 of the header first.
pub record Segment : Type 0 where
  pub header : Header
  pub raw : List ℕ

-- A packet that is sent.
pub record Out : Type 0 where
  pub header : Header
  pub payload : List ℕ

abbrev pub has_fin : Header → Bool
has_fin h = h.flags % 2 == 1

abbrev pub has_syn : Header → Bool
has_syn h = h.flags / 2 % 2 == 1

abbrev pub has_ack : Header → Bool
has_ack h = h.flags / 16 % 2 == 1

-- The states of the enumeration.
pub data State : Type 0 where
  established syn_sent syn_received fin_wait1 fin_wait2 close_wait last_ack closing closed : State

-- `struct timespec`
pub record Timespec : Type 0 where
  pub sec : ℕ
  pub nsec : ℕ

-- `packet_t`
pub record Unacked : Type 0 where
  pub start_time : Timespec
  pub retry_count : ℕ
  pub seq_num : ℕ
  pub packet : Out

-- `packet_size`
abbrev pub packet_size : Unacked → ℕ
packet_size p = header_size + length p.packet.payload

-- `context_t`. `recv_indicator` holds '1' and '\0', here true and false. `rto_init` is the static
-- `init` of update_rto. `recv_wind` and `done` are never used.
pub record Context : Type 0 where
  pub connection_state : State
  pub send_unack : ℕ
  pub send_next : ℕ
  pub send_wind : ℕ
  pub recv_next : ℕ
  pub recv_buffer : List ℕ
  pub recv_indicator : List Bool
  pub rto : Timespec
  pub srtt : Timespec
  pub rttvar_sec : ℕ
  pub rttvar_nsec : ℕ
  pub rto_init : Bool
  pub unackd_packets : List Unacked

-- uint32_t a + b and a - b.
abbrev pub add32 : ℕ → ℕ → ℕ
add32 a b = (a + b) % 2 ^ 32

abbrev pub sub32 : ℕ → ℕ → ℕ
sub32 a b = (a + 2 ^ 32 - b) % 2 ^ 32

-- The result of recv_packet: -1, -2, or a size.
pub data Got : Type 0 where
  bad : Got
  old : Got
  bytes : ℕ → Got

-- A connection as its peer and the application see it: the packets that it has sent, the bytes
-- that the application was given, whether the application was told of the peer's FIN, and whether
-- control_loop has been left.
pub record Conn : Type 0 where
  pub ctx : Context
  pub sent : List Out
  pub delivered : List ℕ
  pub fin_seen : Bool
  pub left : Bool
