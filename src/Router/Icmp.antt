-- ===== src/Router/Icmp.antt =====
-- stub_sr/sr_router.c: generate_icmp_echo and generate_icmp_error.
use uchi_networks.Common.{
  ℕ, zero, suc, ◌+◌, ◌-◌, Bool, ◌==◌, ◌||◌, ltb, if◌then◌else◌, [], ◌∷◌, Option, none, some,
}
use uchi_networks.Router.Bytes.{Bytes, put8, put16, get_bytes, put_bytes}
use uchi_networks.Router.Off
use uchi_networks.Router.Types.{ip_packet, Frame, ◌>>=◌}
use uchi_networks.Router.Checksum.{compute_icmp_checksum}
use uchi_networks.Router.Frames.{encapsulate, ip_header_create}

abbrev pub echo_reply : ℕ
echo_reply = 0

abbrev pub dest_unreach : ℕ
dest_unreach = 3

abbrev pub echo_request : ℕ
echo_request = 8

abbrev pub time_exceeded : ℕ
time_exceeded = 11

abbrev pub host_unreach : ℕ
host_unreach = 1

abbrev pub port_unreach : ℕ
port_unreach = 3

-- `code == DEST_UNREACH || code == TIME_EXCEEDED || code == 12 || code == 31`
unfoldable pub is_icmp_error : ℕ → Bool
is_icmp_error code = code == dest_unreach || code == time_exceeded || code == 12 || code == 31

unfoldable pub generate_icmp_echo : Frame → Option Frame
generate_icmp_echo incoming = do
  let icmp = Off.ip_header + incoming.ip_hl
  bytes ←
      compute_icmp_checksum incoming.ip_len incoming.ip_hl icmp
        (put16 (put8 incoming.bytes icmp echo_reply) (icmp + 2) 0)
  some (
      encapsulate (
        ip_header_create (record incoming {
          bytes = bytes;
          icmp = some icmp;
          from_mac = incoming.to_mac;
          to_mac = incoming.from_mac;
          from_ip = incoming.to_ip;
          to_ip = incoming.from_ip;
        })))

-- The memory that `malloc` gives, before it is written.
unfoldable pub fresh : ℕ → Bytes
fresh zero = []
fresh (suc n) = 0 ∷ fresh n

-- How much of the received datagram is sent back. The comparison is on size_t, where the difference
-- wraps: it is below 8 only if it is not negative.
unfoldable pub icmp_data_len : Frame → ℕ
icmp_data_len incoming =
    if ltb incoming.ip_len incoming.ip_hl
    then incoming.ip_hl + 8
    else if ltb (incoming.ip_len - incoming.ip_hl) 8
    then incoming.ip_len
    else incoming.ip_hl + 8

-- type, code, unused, sum, and the data
unfoldable pub icmp_fields : Bytes → (icmp type code : ℕ) → Bytes → Bytes
icmp_fields b0 icmp type code quoted =
    let b1 = put8 b0 icmp type in
    let b2 = put8 b1 (icmp + 1) code in
    let b3 = put16 b2 (icmp + 4) 0 in
    let b4 = put16 b3 (icmp + 6) 0 in
    let b5 = put16 b4 (icmp + 2) 0 in put_bytes b5 (icmp + 8) quoted

-- The new ICMP header is put behind an IP header of the received length, but the buffer has room
-- for one of 20 bytes only: with options the copy runs past its end, and the call is `none`.
unfoldable pub generate_icmp_error : Frame → (type code : ℕ) → Option Frame
unfolding icmp_fields
generate_icmp_error incoming type code = do
  let icmp = Off.ip_header + incoming.ip_hl
  let data_len = icmp_data_len incoming
  let size = 14 + 20 + 8 + data_len
  let quoted = get_bytes incoming.bytes Off.ip_header data_len
  bytes ←
      if ltb 20 incoming.ip_hl
      then none
      else compute_icmp_checksum (size - 14) 20 icmp
          (icmp_fields (fresh size) icmp type code quoted)
  some (
      encapsulate (
        ip_header_create (record {
          bytes = bytes;
          proto = ip_packet;
          icmp = some icmp;
          from_mac = incoming.to_mac;
          to_mac = incoming.from_mac;
          from_ip = incoming.to_ip;
          to_ip = incoming.from_ip;
          iface = incoming.iface;
          len = size;
          ip_hl = 20;
          ip_len = size - 14;
        })))
