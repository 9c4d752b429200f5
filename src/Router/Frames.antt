-- ===== src/Router/Frames.antt =====
-- stub_sr/sr_router.c: create_frame_t, encapsulate, ip_header_create and update_ip_hdr.
pub mod Forward
use uchi_networks.Common.{
  ℕ, ◌+◌, ◌-◌, ◌*◌, ◌/◌, ◌%◌, Bool, ◌==◌, if◌then◌else◌, List, [], ◌∷◌, Option, none, some, length,
}
use uchi_networks.Router.Bytes.{
  Bytes, get8, get16, net16, net32, put8, put16, put_net16, put_net32, get_bytes, put_bytes,
}
use uchi_networks.Router.Off
use uchi_networks.Router.Types.{Iface, Route, Proto, ip_packet, arp_packet, Frame, Router, ◌>>=◌}
use uchi_networks.Router.Routing.{get_interface, rt_match}
use uchi_networks.Router.Checksum.{compute_ip_checksum}

abbrev pub ethertype_ip : ℕ
ethertype_ip = 0x0800

abbrev pub ethertype_arp : ℕ
ethertype_arp = 0x0806

abbrev pub ipproto_icmp : ℕ
ipproto_icmp = 1

unfoldable pub ip_frame : Bytes → Option Iface → Frame
ip_frame bs iface = record {
  bytes = bs;
  proto = ip_packet;
  icmp =
      if get8 bs Off.ip_p == ipproto_icmp
      then some (Off.ip_header + get8 bs Off.ip_header % 16 * 4)
      else none;
  from_mac = get_bytes bs Off.ether_shost 6;
  to_mac = get_bytes bs Off.ether_dhost 6;
  from_ip = net32 bs Off.ip_src;
  to_ip = net32 bs Off.ip_dst;
  iface = iface;
  len = length bs;
  ip_hl = get8 bs Off.ip_header % 16 * 4;
  ip_len = net16 bs Off.ip_len;
}

unfoldable pub arp_frame : Bytes → Option Iface → Frame
arp_frame bs iface = record {
  bytes = bs;
  proto = arp_packet;
  icmp = none;
  from_mac = get_bytes bs Off.ether_shost 6;
  to_mac = get_bytes bs Off.ether_dhost 6;
  from_ip = net32 bs Off.ar_sip;
  to_ip = net32 bs Off.ar_tip;
  iface = iface;
  len = length bs;
  ip_hl = 0;
  ip_len = 0;
}

-- The packet is `packet` with its length; the frame holds a copy. `none` is the NULL that an
-- unknown protocol gives.
unfoldable pub create_frame_t : List Iface → Bytes → List ℕ → Option Frame
unfolding ip_frame arp_frame
create_frame_t ifs packet name =
    if net16 packet Off.ether_type == ethertype_ip
    then some (ip_frame packet (get_interface ifs name))
    else if net16 packet Off.ether_type == ethertype_arp
    then some (arp_frame packet (get_interface ifs name))
    else none

abbrev pub proto_type : Proto → ℕ
proto_type ip_packet = ethertype_ip
proto_type arp_packet = ethertype_arp

-- Fills in the Ethernet header. A MAC address has 6 bytes.
unfoldable pub encapsulate : Frame → Frame
encapsulate f = record f {
  bytes =
      put_net16 (put_bytes (put_bytes f.bytes Off.ether_shost f.from_mac) Off.ether_dhost f.to_mac)
        Off.ether_type (proto_type f.proto);
}

-- The fields in the order of the source: version and length, tos, id, off, ttl, p, len, src, dst,
-- sum.
unfoldable pub ip_fields : Frame → Bytes → Bytes
ip_fields f b0 =
    let b1 = put8 b0 14 0x45 in
    let b2 = put8 b1 15 0 in
    let b3 = put16 b2 18 0 in
    let b4 = put16 b3 20 0 in
    let b5 = put8 b4 22 255 in
    let b6 = put8 b5 23 ipproto_icmp in
    let b7 = put_net16 b6 16 f.ip_len in
    let b8 = put_net32 b7 26 f.from_ip in let b9 = put_net32 b8 30 f.to_ip in put16 b9 24 0

unfoldable pub ip_header_create : Frame → Frame
unfolding ip_fields
ip_header_create f = record f { bytes = compute_ip_checksum (ip_fields f f.bytes) }

-- `ip_ttl--` on a uint8_t, `ip_sum = 0`, and the checksum.
unfoldable pub forward_bytes : Bytes → Bytes
forward_bytes bs =
    compute_ip_checksum (put16 (put8 bs Off.ip_ttl (get8 bs Off.ip_ttl + 255)) Off.ip_sum 0)

-- The frame to forward and the address of the next hop. With no route, or no interface of the
-- route's name, the source reads through NULL: `none`. `ip_len` and `to_mac` are not set: `junk` is
-- what the first holds, and the second is set before it reaches a frame that is sent.
unfoldable pub update_ip_hdr : ℕ → List Iface → List Route → Frame → Option (Frame × ℕ)
unfolding forward_bytes
update_ip_hdr junk ifs table incoming = do
  router_entry ← rt_match table incoming.to_ip
  iface ← get_interface ifs router_entry.interface
  some (
    record incoming {
      bytes = forward_bytes incoming.bytes;
      icmp = none;
      from_mac = iface.addr;
      iface = some iface;
      ip_len = junk;
    },
    router_entry.gw,
  )
