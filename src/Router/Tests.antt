-- ===== src/Router/Tests.antt =====
-- stub_sr: runs of the router on concrete packets, and the theorems at concrete inputs.
use uchi_networks.Common.{
  ℕ, ◌≡◌, ◌≢◌, ◌↔◌, refl, inl, inr, arith, false, List, [], ◌∷◌, none, some, All, find, ◌%◌,
}
use uchi_networks.Router.Bytes.{Bytes, get16}
use uchi_networks.Router.Off
use uchi_networks.Router.Types.{
  Iface, Route, Frame, Packet, CacheEntry, QueueEntry, Router, ip_packet, arp_packet,
}
use uchi_networks.Router.Routing.{
  if_dst_check, route_matches, consider, rt_walk, rt_match, sr_add_rt_entry,
}
use uchi_networks.Router.Routing.Longest.{
  IsLongest, rt_match-IsLongest, rt_match-none_iff, rt_match-sr_add_rt_entry, better,
}
use uchi_networks.Router.Checksum.{
  add_word, sum_words, complement16, header_words, compute_ip_checksum,
}
use uchi_networks.Router.Checksum.Ones.{total, residue, sum_words-total}
use uchi_networks.Router.Checksum.Verify.{
  IsHeader, header_total, accepts_iff, compute_accepted, compute_restores,
}
use uchi_networks.Router.Cache.{init_cache, arp_cache_lookup, arp_cache_update, arp_cache_flush}
use uchi_networks.Router.Cache.Fresh.{only_fresh, lookup-flush, lookup-update}
use uchi_networks.Router.Queue.{
  arpq_next_hop_lookup, arp_reply, icmpsend_loop, arpq_packets_icmpsend, is_error_packet,
}
use uchi_networks.Router.Icmp.{is_icmp_error}
use uchi_networks.Router.Queue.Send.{bounced, icmpsend_lem, icmpsend_loop_stuck}
use uchi_networks.Router.Queue.Layout.{IsArp}
use uchi_networks.Router.Handle.{sr_handlepacket, handle_ip, handle_arp}
use uchi_networks.Router.Handle.Ip.{handle_ip_drops}
use uchi_networks.Router.Handle.Inv.{IsStep, sr_handlepacket-IsStep}
use uchi_networks.Router.Handle.Arp.{IsLearned, handle_arp_learns, handle_arp_answers}
use uchi_networks.Router.Handle.Faults.{unknown_protocol_faults}

abbrev eth1 : Iface
eth1 = record { name = 101 ∷ 49 ∷ []; addr = 2 ∷ 0 ∷ 0 ∷ 0 ∷ 0 ∷ 1 ∷ []; ip = 0x0a00_0101 }

abbrev eth2 : Iface
eth2 = record { name = 101 ∷ 50 ∷ []; addr = 2 ∷ 0 ∷ 0 ∷ 0 ∷ 0 ∷ 2 ∷ []; ip = 0x0a00_0201 }

abbrev near_route : Route
near_route = record {
  dest = 0x0a00_0200;
  gw = 0x0a00_0207;
  mask = 0xffff_ff00;
  interface = 101 ∷ 50 ∷ [];
}

abbrev default_route : Route
default_route = record { dest = 0; gw = 0x0a00_0101; mask = 0; interface = 101 ∷ 49 ∷ [] }

abbrev neighbour : CacheEntry
neighbour = record { ip = 0x0a00_0207; mac = 2 ∷ 0 ∷ 0 ∷ 0 ∷ 0 ∷ 7 ∷ []; timeout = 100 }

abbrev table : List Route
table = default_route ∷ near_route ∷ []

abbrev router : Router
router = record {
  if_list = eth1 ∷ eth2 ∷ [];
  routing_table = table;
  cache = neighbour ∷ [];
  queue = [];
  sent = [];
}

-- From 10.0.1.5 to 10.0.2.7, with a time to live of 64 and a valid checksum.
abbrev datagram : Bytes
datagram =
    2 ∷ 0 ∷ 0 ∷ 0 ∷ 0 ∷ 1 ∷ 2 ∷ 0 ∷ 0 ∷ 0 ∷ 0 ∷ 9 ∷ 8 ∷ 0 ∷ 69 ∷ 0 ∷ 0 ∷ 28 ∷ 0 ∷ 1 ∷ 0 ∷ 0 ∷ 64
    ∷ 17 ∷ 99 ∷ 197 ∷ 10 ∷ 0 ∷ 1 ∷ 5 ∷ 10 ∷ 0 ∷ 2 ∷ 7 ∷ 1 ∷ 2 ∷ 3 ∷ 4 ∷ 5 ∷ 6 ∷ 7 ∷ 8 ∷ []

datagram-IsHeader : IsHeader datagram
unfolding header_words
datagram-IsHeader = omega arith

datagram_valid : get16 (compute_ip_checksum datagram) Off.ip_sum ≡ 0
unfolding compute_ip_checksum header_words sum_words add_word complement16
datagram_valid = refl

rt_match-IsLongest_example : IsLongest 0x0a00_0207 table near_route
unfolding rt_match rt_walk consider route_matches
rt_match-IsLongest_example = rt_match-IsLongest table 0x0a00_0207 near_route refl

rt_match-none_iff_example :
    (rt_match (near_route ∷ []) 0x0a00_0105 ≡ none)
    ↔ All (λ x. route_matches 0x0a00_0105 x ≡ false) (near_route ∷ [])
rt_match-none_iff_example = rt_match-none_iff (near_route ∷ []) 0x0a00_0105

rt_match-sr_add_rt_entry_example :
    rt_match
      (sr_add_rt_entry (default_route ∷ []) 0x0a00_0200 0x0a00_0207 0xffff_ff00 (101 ∷ 50 ∷ []))
      0x0a00_0207
    ≡ better 0x0a00_0207 near_route (rt_match (default_route ∷ []) 0x0a00_0207)
rt_match-sr_add_rt_entry_example =
    rt_match-sr_add_rt_entry (default_route ∷ []) near_route 0x0a00_0207 refl

sum_words-total_example : sum_words 10 14 datagram 0 ≡ residue (total 10 14 datagram)
sum_words-total_example = sum_words-total 10 14 datagram (omega arith)

accepts_iff_example :
    (get16 (compute_ip_checksum datagram) Off.ip_sum ≡ 0)
    ↔ ((header_total datagram % 65535 ≡ 0) × (header_total datagram ≢ 0))
accepts_iff_example = accepts_iff datagram datagram-IsHeader

-- The same header before its checksum was stored.
abbrev unsummed : Bytes
unsummed =
    2 ∷ 0 ∷ 0 ∷ 0 ∷ 0 ∷ 1 ∷ 2 ∷ 0 ∷ 0 ∷ 0 ∷ 0 ∷ 9 ∷ 8 ∷ 0 ∷ 69 ∷ 0 ∷ 0 ∷ 28 ∷ 0 ∷ 1 ∷ 0 ∷ 0 ∷ 64
    ∷ 17 ∷ 0 ∷ 0 ∷ 10 ∷ 0 ∷ 1 ∷ 5 ∷ 10 ∷ 0 ∷ 2 ∷ 7 ∷ 1 ∷ 2 ∷ 3 ∷ 4 ∷ 5 ∷ 6 ∷ 7 ∷ 8 ∷ []

unsummed-IsHeader : IsHeader unsummed
unfolding header_words
unsummed-IsHeader = omega arith

compute_unsummed : compute_ip_checksum unsummed ≡ datagram
unfolding compute_ip_checksum header_words sum_words add_word complement16
compute_unsummed = refl

compute_accepted_example : get16 (compute_ip_checksum (compute_ip_checksum unsummed)) Off.ip_sum ≡ 0
compute_accepted_example = compute_accepted unsummed unsummed-IsHeader refl

compute_restores_example : compute_ip_checksum (compute_ip_checksum datagram) ≡ datagram
compute_restores_example = compute_restores datagram datagram-IsHeader datagram_valid (omega arith)

short_packet : sr_handlepacket 0 50 50 router (1 ∷ []) [] ≡ some router
unfolding sr_handlepacket
short_packet = refl

sr_handlepacket-IsStep_example : IsStep router router
unfolding sr_handlepacket
sr_handlepacket-IsStep_example = sr_handlepacket-IsStep 0 50 50 router (1 ∷ []) [] router refl

lookup-flush_example :
    arp_cache_lookup (arp_cache_flush 101 (neighbour ∷ init_cache)) 0x0a00_0207
    ≡ only_fresh 101 (arp_cache_lookup (neighbour ∷ init_cache) 0x0a00_0207)
unfolding init_cache
lookup-flush_example = lookup-flush 101 0x0a00_0207 (neighbour ∷ init_cache) (omega arith)

lookup-update_example :
    arp_cache_lookup (arp_cache_update 90 (neighbour ∷ []) eth1.addr 0x0a00_0207) 0x0a00_0207
    ≡ some (record { ip = 0x0a00_0207; mac = eth1.addr; timeout = 105 })
unfolding arp_cache_lookup find
lookup-update_example = lookup-update 90 eth1.addr 0x0a00_0207 0x0a00_0207 (neighbour ∷ [])

abbrev arp_from : ℕ → Frame
arp_from op = record {
  bytes =
      2 ∷ 0 ∷ 0 ∷ 0 ∷ 0 ∷ 2 ∷ 2 ∷ 0 ∷ 0 ∷ 0 ∷ 0 ∷ 7 ∷ 8 ∷ 6 ∷ 0 ∷ 1 ∷ 8 ∷ 0 ∷ 6 ∷ 4 ∷ 0 ∷ op ∷ 2 ∷ 0
      ∷ 0 ∷ 0 ∷ 0 ∷ 7 ∷ 10 ∷ 0 ∷ 2 ∷ 7 ∷ 0 ∷ 0 ∷ 0 ∷ 0 ∷ 0 ∷ 0 ∷ 10 ∷ 0 ∷ 2 ∷ 1 ∷ [];
  proto = arp_packet;
  icmp = none;
  from_mac = 2 ∷ 0 ∷ 0 ∷ 0 ∷ 0 ∷ 7 ∷ [];
  to_mac = 2 ∷ 0 ∷ 0 ∷ 0 ∷ 0 ∷ 2 ∷ [];
  from_ip = 0x0a00_0207;
  to_ip = 0x0a00_0201;
  iface = some eth2;
  len = 42;
  ip_hl = 0;
  ip_len = 0;
}

-- A datagram that waits for 10.0.2.7.
abbrev waiting_frame : Frame
waiting_frame = record {
  bytes = datagram;
  proto = ip_packet;
  icmp = none;
  from_mac = eth2.addr;
  to_mac = [];
  from_ip = 0x0a00_0105;
  to_ip = 0x0a00_0207;
  iface = some eth2;
  len = 42;
  ip_hl = 20;
  ip_len = 0;
}

abbrev waiting_packet : Packet
waiting_packet = record {
  from_mac = 2 ∷ 0 ∷ 0 ∷ 0 ∷ 0 ∷ 9 ∷ [];
  from_iface = some eth1;
  outgoing = waiting_frame;
}

abbrev waiting_entry : QueueEntry
waiting_entry = record {
  ip = 0x0a00_0207;
  next_hop = 0x0a00_0207;
  iface = some eth2;
  packets = waiting_packet ∷ [];
  last_req = 40;
  num_reqs = 5;
  freed = false;
}

abbrev waiting_router : Router
waiting_router = record router { cache = []; queue = waiting_entry ∷ [] }

handle_arp_learns_example :
    (r' : Router) × (handle_arp 41 waiting_router (arp_from 2) ≡ some r')
    × IsLearned 41 waiting_router (2 ∷ 0 ∷ 0 ∷ 0 ∷ 0 ∷ 7 ∷ []) 0x0a00_0207 waiting_entry r'
unfolding arp_cache_lookup if_dst_check arpq_next_hop_lookup find
handle_arp_learns_example =
    handle_arp_learns 41 waiting_router (arp_from 2) eth2 waiting_entry refl refl refl (omega arith)
      ((eth2, refl), tt)

handle_arp_answers_example :
    (out : Bytes) × (handle_arp 50 router (arp_from 1)
      ≡ some (record router {
        cache = arp_cache_update 50 router.cache (2 ∷ 0 ∷ 0 ∷ 0 ∷ 0 ∷ 7 ∷ []) 0x0a00_0207;
        sent = record { bytes = out; name = 101 ∷ 50 ∷ [] } ∷ [];
      }))
    × IsArp out
        (2 ∷ 0 ∷ 0 ∷ 0 ∷ 0 ∷ 7 ∷ [])
        eth2.addr
        arp_reply
        eth2.addr
        0x0a00_0201
        (2 ∷ 0 ∷ 0 ∷ 0 ∷ 0 ∷ 7 ∷ [])
        0x0a00_0207
unfolding arp_cache_lookup if_dst_check find
handle_arp_answers_example =
    handle_arp_answers 50 router (arp_from 1) eth2 eth2 neighbour refl refl refl refl refl refl
      (omega arith) (omega arith)

handle_ip_drops_example :
    handle_ip 0 50 router (record waiting_frame { bytes = unsummed }) ≡ some router
unfolding header_words total
handle_ip_drops_example =
    handle_ip_drops 0 50 router (record waiting_frame { bytes = unsummed }) unsummed-IsHeader
      (inr (inl (omega arith)))

icmpsend_lem_example :
    arpq_packets_icmpsend [] (waiting_packet ∷ []) ≡ some (bounced waiting_packet ∷ [])
unfolding is_error_packet is_icmp_error
icmpsend_lem_example =
    icmpsend_lem [] (waiting_packet ∷ [])
      (record { plain = refl; way_back = (eth1, refl); no_options = omega arith }, tt)

-- The same packet as an ICMP message of type 3.
abbrev error_packet : Packet
error_packet = record waiting_packet {
  outgoing = record waiting_frame {
    bytes =
        2 ∷ 0 ∷ 0 ∷ 0 ∷ 0 ∷ 1 ∷ 2 ∷ 0 ∷ 0 ∷ 0 ∷ 0 ∷ 9 ∷ 8 ∷ 0 ∷ 69 ∷ 0 ∷ 0 ∷ 28 ∷ 0 ∷ 1 ∷ 0 ∷ 0 ∷ 64
        ∷ 1 ∷ 99 ∷ 197 ∷ 10 ∷ 0 ∷ 1 ∷ 5 ∷ 10 ∷ 0 ∷ 2 ∷ 7 ∷ 3 ∷ 2 ∷ 3 ∷ 4 ∷ 5 ∷ 6 ∷ 7 ∷ 8 ∷ [];
  };
}

icmpsend_loop_stuck_example : icmpsend_loop 1000 [] (waiting_packet ∷ (error_packet ∷ [])) ≡ none
unfolding is_error_packet is_icmp_error
icmpsend_loop_stuck_example =
    icmpsend_loop_stuck 1000 [] (waiting_packet ∷ []) error_packet []
      (record { plain = refl; way_back = (eth1, refl); no_options = omega arith }, tt) refl

-- An IPv6 frame.
abbrev ipv6_packet : Bytes
ipv6_packet =
    2 ∷ 0 ∷ 0 ∷ 0 ∷ 0 ∷ 1 ∷ 2 ∷ 0 ∷ 0 ∷ 0 ∷ 0 ∷ 9 ∷ 134 ∷ 221 ∷ 96 ∷ 0 ∷ 0 ∷ 0 ∷ 0 ∷ 0 ∷ 59 ∷ 64 ∷ 0
    ∷ 0 ∷ 0 ∷ 0 ∷ 0 ∷ 0 ∷ 0 ∷ 0 ∷ 0 ∷ 0 ∷ 0 ∷ 0 ∷ 0 ∷ 0 ∷ 0 ∷ 0 ∷ 0 ∷ 0 ∷ 0 ∷ 1 ∷ []

unknown_protocol_faults_example : sr_handlepacket 0 50 50 router ipv6_packet (101 ∷ 49 ∷ []) ≡ none
unknown_protocol_faults_example =
    unknown_protocol_faults 0 50 50 router ipv6_packet (101 ∷ 49 ∷ []) (omega arith) (omega arith)
      (omega arith)
