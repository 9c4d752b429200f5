-- ===== src/Router/Queue.antt =====
-- stub_sr/sr_router.c: the queue of packets that wait for an ARP reply.
pub mod Grow
pub mod Send
pub mod Layout
use uchi_networks.Common.{
  ℕ, zero, suc, ◌+◌, ◌/◌, ◌%◌, Bool, true, false, ltb, leb, ◌==◌, ◌&&◌, if◌then◌else◌, List, [],
  ◌∷◌, ◌++◌, Option, none, some, find, length,
}
use uchi_networks.Router.Bytes.{Bytes, get8}
use uchi_networks.Router.Off
use uchi_networks.Router.Types.{
  Iface, Route, Proto, ip_packet, arp_packet, Frame, Packet, QueueEntry, Sent, ◌>>=◌,
}
use uchi_networks.Router.Routing.{rt_match}
use uchi_networks.Router.Frames.{encapsulate, ethertype_ip, ipproto_icmp}
use uchi_networks.Router.Icmp.{
  fresh, is_icmp_error, generate_icmp_error, dest_unreach, host_unreach,
}

-- ARP_MAX_REQ
abbrev pub arp_max_req : ℕ
arp_max_req = 5

abbrev pub arp_request : ℕ
arp_request = 1

abbrev pub arp_reply : ℕ
arp_reply = 2

-- The queue half of sr_init. `arpq_next_hop` is not set: `junk` is what it holds.
unfoldable pub init_queue : ℕ → List QueueEntry
init_queue junk =
    record {
      ip = 0;
      next_hop = junk;
      iface = none;
      packets = [];
      last_req = 0;
      num_reqs = 0;
      freed = false;
    }
    ∷ []

unfoldable pub arp_queue_lookup : List QueueEntry → ℕ → Option QueueEntry
arp_queue_lookup queue ip = find (λ e. ip == e.ip) queue

unfoldable pub arpq_next_hop_lookup : List QueueEntry → ℕ → Option QueueEntry
arpq_next_hop_lookup queue ip = find (λ e. ip == e.next_hop) queue

-- `sr_send_packet` on a frame's own interface; reading the name of a NULL one faults.
unfoldable pub send_frame : List Sent → Frame → Option (List Sent)
send_frame sent f = do
  iface ← f.iface
  some (sent ++ (record { bytes = f.bytes; name = iface.name } ∷ []))

abbrev pub net16_bytes : ℕ → Bytes
net16_bytes v = (v / 256 % 256) ∷ (v % 256) ∷ []

abbrev pub net32_bytes : ℕ → Bytes
net32_bytes v = net16_bytes (v / 65536) ++ net16_bytes v

-- The 42 bytes of an ARP frame: the Ethernet header of encapsulate, then hrd, pro, hln, pln, op,
-- sha, sip, tha, tip.
unfoldable pub arp_bytes :
    (dhost shost : Bytes) (op : ℕ) (sha : Bytes) (sip : ℕ) (tha : Bytes) (tip : ℕ) → Bytes
arp_bytes dhost shost op sha sip tha tip =
    dhost
    ++ (shost
        ++ (8
            ∷ 6
            ∷ 0
            ∷ 1
            ∷ 8
            ∷ 0
            ∷ 6
            ∷ 4
            ∷ (net16_bytes op ++ (sha ++ (net32_bytes sip ++ (tha ++ net32_bytes tip))))))

unfoldable pub arp_to : Iface → Frame → ℕ → (to_ip : ℕ) (to_mac : Bytes) → Frame
unfolding arp_bytes
arp_to iface incoming op to_ip to_mac = record {
  bytes = arp_bytes to_mac iface.addr op iface.addr iface.ip incoming.from_mac to_ip;
  proto = arp_packet;
  icmp = none;
  from_mac = iface.addr;
  to_mac = to_mac;
  from_ip = iface.ip;
  to_ip = to_ip;
  iface = some iface;
  len = 42;
  ip_hl = 0;
  ip_len = 0;
}

abbrev pub broadcast : Bytes
broadcast = 255 ∷ 255 ∷ 255 ∷ 255 ∷ 255 ∷ 255 ∷ []

-- A request asks for the next hop of the route to `incoming`'s target, by broadcast; a reply goes
-- back to the sender. A NULL interface or route faults.
unfoldable pub arp_create : List Route → Frame → Option Iface → ℕ → Option Frame
unfolding arp_to
arp_create table incoming iface? op = do
  iface ← iface?
  if op == arp_request
      then (rt_match table incoming.to_ip >>= λ r. some (arp_to iface incoming op r.gw broadcast))
      else some (arp_to iface incoming op incoming.from_ip incoming.from_mac)

-- `arpq_num_reqs++` on a uint8_t
abbrev pub one_more : ℕ → ℕ
one_more n = (n + 1) % 256

-- The copy of the frame counts as an IP frame whatever it was.
unfoldable pub arpq_add_packet : QueueEntry → Frame → Bytes → Option Iface → QueueEntry
arpq_add_packet entry packet old_mac old_iface = record entry {
  packets =
      entry.packets
      ++ (record {
        from_mac = old_mac;
        from_iface = old_iface;
        outgoing = record packet { proto = ip_packet };
      }
          ∷ []);
  num_reqs = one_more entry.num_reqs;
}

-- The new last entry. `next_hop` is set by the caller, as soon as it has made the request.
unfoldable pub arpq_add_entry :
    ℕ
    → List QueueEntry
    → Option Iface
    → Frame
    → (ip next_hop : ℕ) → Bytes
    → Option Iface
    → List QueueEntry
unfolding arpq_add_packet
arpq_add_entry now queue iface packet ip next_hop old_mac old_iface =
    queue
    ++ (record (arpq_add_packet blank packet old_mac old_iface) { last_req = now; num_reqs = 0 }
        ∷ [])
  where
    blank : QueueEntry
    blank = record {
      ip = ip;
      next_hop = next_hop;
      iface = iface;
      packets = [];
      last_req = 0;
      num_reqs = 0;
      freed = false;
    }

-- The loop of arpq_entry_clear: each packet goes out on its interface to `d_ha`, oldest first.
unfoldable pub clear_packets : List Sent → List Packet → Bytes → Option (List Sent)
clear_packets sent [] d_ha = some sent
clear_packets sent (q ∷ qs) d_ha = do
  iface ← q.outgoing.iface
  sent' ←
      send_frame sent (encapsulate (record (q.outgoing) { from_mac = iface.addr; to_mac = d_ha }))
  clear_packets sent' qs d_ha

-- Unlinks the first entry with that next hop.
unfoldable pub unlink : ℕ → List QueueEntry → List QueueEntry
unlink hop [] = []
unlink hop (e ∷ es) = if hop == e.next_hop then es else e ∷ unlink hop es

unfoldable pub arpq_entry_clear :
    List Sent → List QueueEntry → QueueEntry → Bytes → Option (List Sent × List QueueEntry)
unfolding clear_packets unlink
arpq_entry_clear sent queue entry d_ha = do
  sent' ← clear_packets sent entry.packets d_ha
  some (sent', unlink entry.next_hop queue)

-- Is the packet an ICMP error message itself?
unfoldable pub is_error_packet : Packet → Bool
is_error_packet q =
    get8 q.outgoing.bytes Off.ip_p == ipproto_icmp
    && is_icmp_error (get8 q.outgoing.bytes (Off.ip_header + q.outgoing.ip_hl))

-- One round for a packet that is none: the error message is made, and the queued frame itself is
-- sent on the interface that it came by.
unfoldable pub icmpsend_one : List Sent → Packet → Option (List Sent)
icmpsend_one sent q = do
  let back = record (q.outgoing) { iface = q.from_iface; from_mac = q.from_mac }
  _ ← generate_icmp_error back dest_unreach host_unreach
  send_frame sent back

-- `while(current_packet)` on fuel; for an error message the loop continues with the same packet.
unfoldable pub icmpsend_loop : ℕ → List Sent → List Packet → Option (List Sent)
icmpsend_loop zero sent qs = none
icmpsend_loop (suc fuel) sent [] = some sent
icmpsend_loop (suc fuel) sent (q ∷ qs) =
    let again = icmpsend_loop fuel sent (q ∷ qs) in
    let next = (icmpsend_one sent q >>= λ sent'. icmpsend_loop fuel sent' qs) in
    if is_error_packet q then again else next

-- One round for each packet, and one to see the end.
unfoldable pub arpq_packets_icmpsend : List Sent → List Packet → Option (List Sent)
arpq_packets_icmpsend sent qs = icmpsend_loop (suc (length qs)) sent qs

-- `time(NULL) - 1 > arpq_last_req`
unfoldable pub is_due : ℕ → QueueEntry → Bool
is_due now e = ltb (e.last_req + 1) now

-- The request that is repeated for an entry with packets.
unfoldable pub flush_ask :
    ℕ → List Route → List Sent → QueueEntry → List Packet → Option (List Sent × Option QueueEntry)
flush_ask now table sent e [] = some (sent, some e)
flush_ask now table sent e (old ∷ _) = do
  arp_req ← arp_create table old.outgoing old.outgoing.iface arp_request
  sent' ← send_frame sent arp_req
  some (sent', some (record e { last_req = now; num_reqs = one_more e.num_reqs }))

unfoldable pub flush_due :
    ℕ → List Route → List Sent → QueueEntry → Option (List Sent × Option QueueEntry)
unfolding flush_ask
flush_due now table sent e =
    if leb arp_max_req e.num_reqs
    then (arpq_packets_icmpsend sent e.packets >>= λ sent'. some (sent', none))
    else flush_ask now table sent e e.packets

-- What arp_queue_flush does to one entry: `none` in the pair unlinks it.
unfoldable pub flush_entry :
    ℕ → List Route → List Sent → QueueEntry → Option (List Sent × Option QueueEntry)
unfolding flush_due
flush_entry now table sent e =
    if e.freed
    then none
    else if is_due now e
    then flush_due now table sent e
    else some (sent, some e)

abbrev pub keep_entry : Option QueueEntry → List QueueEntry → List QueueEntry
keep_entry none es = es
keep_entry (some e) es = e ∷ es

unfoldable pub arp_queue_flush :
    ℕ → List Route → List Sent → List QueueEntry → Option (List Sent × List QueueEntry)
arp_queue_flush now table sent [] = some (sent, [])
arp_queue_flush now table sent (e ∷ es) = do
  (sent', e?) ← flush_entry now table sent e
  (sent'', es') ← arp_queue_flush now table sent' es
  some (sent'', keep_entry e? es')

-- A walk to the entry that the lookup of `ip` finds, and the write to it.
unfoldable pub update_entry : ℕ → (QueueEntry → QueueEntry) → List QueueEntry → List QueueEntry
update_entry ip f [] = []
update_entry ip f (e ∷ es) = if ip == e.ip then f e ∷ es else e ∷ update_entry ip f es
