-- ===== src/Router/Handle.antt =====
-- stub_sr/sr_router.c: sr_init and sr_handlepacket. The time-outs of one call read
-- the clock at `now`, and what is done with the packet reads it at `later`.
pub mod Ip
pub mod Inv
pub mod Arp
pub mod Faults
use uchi_networks.Common.{
  ℕ, ◌+◌, ◌/◌, ◌%◌, Bool, true, false, not, ltb, leb, ◌==◌, ◌&&◌, if◌then◌else◌, List, [], ◌∷◌,
  Option, none, some, length,
}
use uchi_networks.Router.Bytes.{Bytes, get8, get16, net16, net32, get_bytes}
use uchi_networks.Router.Off
use uchi_networks.Router.Types.{
  Iface, Route, Proto, ip_packet, arp_packet, Frame, Packet, CacheEntry, QueueEntry, Router, Sent,
  ◌>>=◌,
}
use uchi_networks.Router.Routing.{if_dst_check}
use uchi_networks.Router.Checksum.{compute_ip_checksum, compute_icmp_checksum}
use uchi_networks.Router.Frames.{create_frame_t, encapsulate, update_ip_hdr, ipproto_icmp}
use uchi_networks.Router.Icmp.{
  generate_icmp_echo, generate_icmp_error, is_icmp_error, echo_request, dest_unreach, port_unreach,
  time_exceeded,
}
use uchi_networks.Router.Cache.{
  init_cache, arp_cache_lookup, arp_cache_update, arp_cache_add, arp_cache_flush,
}
use uchi_networks.Router.Queue.{
  init_queue, arp_queue_lookup, arpq_next_hop_lookup, send_frame, arp_create, arp_request,
  arp_reply, arp_max_req, one_more, arpq_add_packet, arpq_add_entry, arpq_entry_clear,
  arpq_packets_icmpsend, is_due, arp_queue_flush, update_entry,
}

-- sr_init on the two static lists; `junk` is the unset next hop of the empty entry.
unfoldable pub sr_init : ℕ → List Iface → List Route → Router
sr_init junk ifs table = record {
  if_list = ifs;
  routing_table = table;
  cache = init_cache;
  queue = init_queue junk;
  sent = [];
}

-- The last lines of sr_handlepacket: the outgoing frame goes out on its interface.
unfoldable pub emit : Router → Frame → Option Router
emit r out = (send_frame r.sent out >>= λ sent. some (record r { sent = sent }))

-- A datagram for one of the router's addresses; `icmp` is its ICMP header, if it has one.
unfoldable pub deliver : Router → Frame → Option ℕ → Option Router
deliver r f none = do out ← generate_icmp_error f dest_unreach port_unreach; emit r out
deliver r f (some icmp) = do
  bytes ← compute_icmp_checksum f.ip_len f.ip_hl icmp f.bytes
  if get8 bytes icmp == echo_request && get16 bytes (icmp + 2) == 0
      then (generate_icmp_echo (record f { bytes = bytes }) >>= λ out. emit r out)
      else some r

-- The time to live is 0. An ICMP error message is dropped, for anything else the sender is told.
unfoldable pub expire : Router → Frame → Option Router
expire r f =
    if get8 f.bytes Off.ip_p == ipproto_icmp
      && is_icmp_error (get8 f.bytes (Off.ip_header + f.ip_hl))
    then some r
    else (generate_icmp_error f time_exceeded 0 >>= λ out. emit r out)

unfoldable pub has_packets : List Packet → Bool
has_packets [] = false
has_packets (_ ∷ _) = true

-- A second request is counted, though none is made here, and the packet is added.
unfoldable pub requeue : ℕ → Frame → Frame → QueueEntry → QueueEntry
unfolding has_packets
requeue now f out e =
    let e' =
      if is_due now e && has_packets e.packets
      then record e { last_req = now; num_reqs = one_more e.num_reqs }
      else e in
    arpq_add_packet e' out f.from_mac f.iface

-- The request that goes out in place of the datagram.
unfoldable pub request : Router → Frame → Option Router
request r out = do arp_req ← arp_create r.routing_table out out.iface arp_request; emit r arp_req

-- An entry waits for this target. When it has asked too often its packets are answered, and its
-- memory is given back while it stays in the queue; otherwise it must hold a packet.
unfoldable pub wait_behind : ℕ → Router → Frame → Frame → QueueEntry → Option Router
unfolding requeue request has_packets
wait_behind now r f out e =
    if is_due now e && leb arp_max_req e.num_reqs
    then (arpq_packets_icmpsend r.sent e.packets >>= λ sent. some (record r {
      queue = update_entry out.to_ip (λ e. record e { freed = true }) r.queue;
      sent = sent;
    }))
    else if has_packets e.packets
    then request (record r { queue = update_entry out.to_ip (requeue now f out) r.queue }) out
    else none

-- No entry waits for this target.
unfoldable pub wait_first : ℕ → Router → Frame → Frame → Option Router
wait_first now r f out = do
  arp_req ← arp_create r.routing_table out out.iface arp_request
  emit
      (record r {
        queue = arpq_add_entry now r.queue out.iface out out.to_ip arp_req.to_ip f.from_mac f.iface;
      })
      arp_req

unfoldable pub wait : ℕ → Router → Frame → Frame → Option QueueEntry → Option Router
wait now r f out none = wait_first now r f out
wait now r f out (some e) = wait_behind now r f out e

unfoldable pub forward_to : ℕ → Router → Frame → Frame → Option CacheEntry → Option Router
forward_to now r f out (some e) = emit r (encapsulate (record out { to_mac = e.mac }))
forward_to now r f out none = wait now r f out (arp_queue_lookup r.queue out.to_ip)

-- Sends the datagram on, or queues it until the address of the next hop is known.
unfoldable pub forward : (junk now : ℕ) → Router → Frame → Option Router
unfolding forward_to
forward junk now r f = do
  (out, hop) ← update_ip_hdr junk r.if_list r.routing_table f
  forward_to now r f out (arp_cache_lookup r.cache hop)

unfoldable pub route_ip : (junk now : ℕ) → Router → Frame → Option Iface → Option Router
route_ip junk now r f (some _) = deliver r f f.icmp
route_ip junk now r f none =
    if get8 f.bytes Off.ip_ttl == 0 then expire r f else forward junk now r f

unfoldable pub handle_ip : (junk now : ℕ) → Router → Frame → Option Router
unfolding route_ip
handle_ip junk now r f =
    let checked = compute_ip_checksum f.bytes in
    if not (get8 f.bytes Off.ip_header / 16 == 4)
    then some r
    else if not (get16 checked Off.ip_sum == 0)
    then some r
    else (if_dst_check r.if_list f.to_ip >>= λ target.
        route_ip junk now r (record f { bytes = compute_ip_checksum checked }) target)

-- A new neighbour: it is cached, and what waits for it as a next hop goes out.
unfoldable pub learn : ℕ → Router → (mac : Bytes) (ip : ℕ) → Option QueueEntry → Option Router
learn now r mac addr none = some (record r { cache = arp_cache_add now r.cache mac addr })
learn now r mac addr (some e) = do
  (sent, queue) ← arpq_entry_clear r.sent r.queue e mac
  some (record r { cache = arp_cache_add now r.cache mac addr; queue = queue; sent = sent })

unfoldable pub answer : Router → Frame → Option Router
answer r f =
    if net16 f.bytes Off.ar_op == arp_request
    then (arp_create r.routing_table f f.iface arp_reply >>= λ out. emit r out)
    else some r

unfoldable pub known : ℕ → Router → Frame → Option CacheEntry → Option Iface → Option Router
unfolding learn answer
known now r f (some _) target =
    let r' = record r {
      cache =
          arp_cache_update now r.cache (get_bytes f.bytes Off.ar_sha 6) (net32 f.bytes Off.ar_sip);
    } in
    elim target [ none ↦ some r' | some _ ↦ answer r' f ]
known now r f none target = elim target [
  | none ↦ some r
  | some _ ↦
      (learn now r (get_bytes f.bytes Off.ar_sha 6) (net32 f.bytes Off.ar_sip)
          (arpq_next_hop_lookup r.queue (net32 f.bytes Off.ar_sip))
        >>= λ r'. answer r' f)
]

unfoldable pub handle_arp : ℕ → Router → Frame → Option Router
unfolding known
handle_arp now r f = if_dst_check r.if_list (net32 f.bytes Off.ar_tip) >>= λ target.
    known now r f (arp_cache_lookup r.cache (net32 f.bytes Off.ar_sip)) target

unfoldable pub handle_proto : (junk now : ℕ) → Router → Frame → Proto → Option Router
handle_proto junk now r f ip_packet = handle_ip junk now r f
handle_proto junk now r f arp_packet = handle_arp now r f

unfoldable pub dispatch :
    (junk now later : ℕ) → Router → Bytes → List ℕ → List Sent × List QueueEntry → Option Router
unfolding handle_proto
dispatch junk now later r packet name s =
    (create_frame_t r.if_list packet name >>= λ f.
    handle_proto junk later
      (record r { cache = arp_cache_flush now r.cache; queue = s.1; sent = s.0 }) f f.proto)

-- A packet that is too short is dropped. Otherwise the time-outs come first, and the NULL frame of
-- an unknown protocol is read after them. `junk` is what memory that is never set holds.
unfoldable pub sr_handlepacket : (junk now later : ℕ) → Router → Bytes → List ℕ → Option Router
unfolding dispatch
sr_handlepacket junk now later r packet name =
    if ltb (length packet) 42
    then some r
    else (arp_queue_flush now r.routing_table r.sent r.queue >>= λ s.
        dispatch junk now later r packet name s)
