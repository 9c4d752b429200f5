-- ===== src/Router/Handle/Faults.antt =====
-- stub_sr/sr_router.c: calls of sr_handlepacket that fault.
use uchi_networks.Common.{ℕ, ◌≤◌, ◌≡◌, ◌≢◌, arith, List, none, length}
use uchi_networks.Router.Bytes.{Bytes, net16}
use uchi_networks.Router.Off
use uchi_networks.Router.Types.{QueueEntry, Router, Sent, bind-none}
use uchi_networks.Router.Frames.{ethertype_ip, ethertype_arp, create_frame_t}
use uchi_networks.Router.Queue.{arp_queue_flush}
use uchi_networks.Router.Handle.{dispatch, sr_handlepacket}

unknown_frame :
    (junk now later : ℕ) (r : Router) (packet : Bytes) (name : List ℕ)
    (s : List Sent × List QueueEntry)
    → net16 packet Off.ether_type ≢ ethertype_ip
    → net16 packet Off.ether_type ≢ ethertype_arp
    → dispatch junk now later r packet name s ≡ none
unfolding dispatch create_frame_t
unknown_frame junk now later r packet name s a b = ground arith

-- A packet of 42 bytes or more that is neither IP nor ARP faults in every state: the frame is NULL
-- and is read.
pub unknown_protocol_faults :
    (junk now later : ℕ) (r : Router) (packet : Bytes) (name : List ℕ)
    → 42 ≤ length packet
    → net16 packet Off.ether_type ≢ ethertype_ip
    → net16 packet Off.ether_type ≢ ethertype_arp
    → sr_handlepacket junk now later r packet name ≡ none
unfolding sr_handlepacket
unknown_protocol_faults junk now later r packet name l a b = ground (
  arith,
  bind-none (arp_queue_flush now r.routing_table r.sent r.queue)
      (dispatch junk now later r packet name)
      (λ s. unknown_frame junk now later r packet name s a b),
)
