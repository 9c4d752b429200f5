-- ===== src/Router/Handle/Ip.antt =====
-- stub_sr/sr_router.c: how sr_handlepacket treats an IP datagram.
use uchi_networks.Common.{
  ℕ, ◌/◌, ◌%◌, ◌≤◌, ◌<◌, ◌≡◌, ◌≢◌, ◌⊎◌, arith, List, none, some, length, All,
}
use uchi_networks.Router.Bytes.{Bytes, get8, get16, net16}
use uchi_networks.Router.Off
use uchi_networks.Router.Types.{Iface, Frame, CacheEntry, Router}
use uchi_networks.Router.Routing.{get_interface, if_dst_check}
use uchi_networks.Router.Checksum.{compute_ip_checksum}
use uchi_networks.Router.Checksum.Verify.{IsHeader, header_total, accepts_iff, compute_restores}
use uchi_networks.Router.Frames.{forward_bytes, create_frame_t, ip_frame, ethertype_ip}
use uchi_networks.Router.Cache.{arp_cache_flush}
use uchi_networks.Router.Queue.Send.{IsIdle, flush_idle}
use uchi_networks.Router.Handle.{
  forward, route_ip, handle_ip, handle_proto, dispatch, sr_handlepacket,
}

-- A datagram that is not IPv4, or whose header words do not sum to a multiple of 65535 above 0, is
-- dropped: nothing is sent and nothing changes.
pub handle_ip_drops :
    (junk now : ℕ) (r : Router) (f : Frame)
    → IsHeader f.bytes
    → (get8 f.bytes Off.ip_header / 16 ≢ 4)
      ⊎ ((header_total f.bytes % 65535 ≢ 0) ⊎ (header_total f.bytes ≡ 0))
    → handle_ip junk now r f ≡ some r
unfolding handle_ip
handle_ip_drops junk now r f h bad = ground (arith, accepts_iff f.bytes h)

-- The frame that goes out.
abbrev out_frame : ℕ → Frame → Iface → CacheEntry → Frame
out_frame junk f i e = record f {
  bytes = forward_bytes f.bytes;
  icmp = none;
  from_mac = i.addr;
  to_mac = e.mac;
  iface = some i;
  ip_len = junk;
}

-- A datagram that passes the checks, and is for another host.
pub handle_ip-forward :
    (junk now : ℕ) (r : Router) (f : Frame)
    → IsHeader f.bytes
    → get8 f.bytes Off.ip_header / 16 ≡ 4
    → get16 (compute_ip_checksum f.bytes) Off.ip_sum ≡ 0
    → get16 f.bytes Off.ip_sum ≢ 65535
    → 0 < get8 f.bytes Off.ip_ttl
    → if_dst_check r.if_list f.to_ip ≡ some none
    → handle_ip junk now r f ≡ forward junk now r f
unfolding handle_ip route_ip
handle_ip-forward junk now r f h v z ne ttl away = ground (arith, compute_restores f.bytes h z ne)

pub received :
    (junk now later : ℕ) (r : Router) (packet : Bytes) (name : List ℕ)
    → 42 ≤ length packet
    → net16 packet Off.ether_type ≡ ethertype_ip
    → All (IsIdle now) r.queue
    → sr_handlepacket junk now later r packet name
      ≡ handle_ip junk later
          (record r { cache = arp_cache_flush now r.cache })
          (ip_frame packet (get_interface r.if_list name))
unfolding sr_handlepacket dispatch create_frame_t ip_frame handle_proto
received junk now later r packet name l t idle =
    ground (arith, flush_idle now r.routing_table r.sent r.queue idle)
