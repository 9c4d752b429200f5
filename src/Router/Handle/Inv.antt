-- ===== src/Router/Handle/Inv.antt =====
-- stub_sr/sr_router.c: what every call of sr_handlepacket keeps.
use uchi_networks.Common.{
  ℕ, ◌+◌, ◌/◌, ◌≡◌, refl, ◌∙◌, subst, arith, ltb, ◌==◌, ◌&&◌, not, if◌then◌else◌, List, Option,
  none, some, length,
}
use uchi_networks.Router.Bytes.{Bytes, get8, get16, net16, net32}
use uchi_networks.Router.Types.{
  Iface, Proto, ip_packet, arp_packet, Frame, CacheEntry, QueueEntry, Router, Grows, Grows-refl,
  Grows-trans, Ensures, ◌>>=◌, bind-Ensures, then-Ensures, if-Ensures,
}
use uchi_networks.Router.Off
use uchi_networks.Router.Routing.{if_dst_check}
use uchi_networks.Router.Checksum.{compute_ip_checksum, compute_icmp_checksum}
use uchi_networks.Router.Frames.{ipproto_icmp, create_frame_t}
use uchi_networks.Router.Icmp.{
  echo_request, time_exceeded, is_icmp_error, generate_icmp_echo, generate_icmp_error,
}
use uchi_networks.Router.Cache.{arp_cache_lookup}
use uchi_networks.Router.Cache.Fresh.{
  IsDistinct, flush-IsDistinct, update-IsDistinct, add-IsDistinct, absent_lookup,
}
use uchi_networks.Router.Queue.{
  send_frame, arp_queue_lookup, arpq_packets_icmpsend, arpq_add_packet, arp_create, arp_request,
  arp_reply, arp_queue_flush,
}
use uchi_networks.Router.Queue.Grow.{
  IsUnique, update_entry-Keeps, arpq_add_entry-IsUnique, send_frame-Grows, icmpsend-Grows,
  IsQueueStep, arpq_entry_clear_step, arp_queue_flush_step,
}
use uchi_networks.Router.Handle.{
  emit, deliver, expire, has_packets, requeue, request, wait_behind, wait_first, wait, forward_to,
  forward, route_ip, handle_ip, learn, answer, known, handle_arp, handle_proto, dispatch,
  sr_handlepacket,
}

-- The tables stay; frames that were sent stay sent, in their order; and neither the ARP cache nor
-- the ARP queue gets a second entry for an address.
pub record IsStep (r r' : Router) : Type 0 where
  pub if_list : r'.if_list ≡ r.if_list
  pub routing_table : r'.routing_table ≡ r.routing_table
  pub grows : Grows r.sent r'.sent
  pub cache : IsDistinct r.cache → IsDistinct r'.cache
  pub queue : IsUnique r.queue → IsUnique r'.queue

IsStep-refl : (r : Router) → IsStep r r
IsStep-refl r = record {
  if_list = refl;
  routing_table = refl;
  grows = Grows-refl r.sent;
  cache = λ h. h;
  queue = λ h. h;
}

IsStep-trans : (r s t : Router) → IsStep r s → IsStep s t → IsStep r t
IsStep-trans r s t a b = record {
  if_list = b.if_list ∙ a.if_list;
  routing_table = b.routing_table ∙ a.routing_table;
  grows = Grows-trans r.sent s.sent t.sent a.grows b.grows;
  cache = λ h. b.cache (a.cache h);
  queue = λ h. b.queue (a.queue h);
}

IsStep-then :
    (r s : Router) (m : Option Router) → IsStep r s → Ensures (IsStep s) m → Ensures (IsStep r) m
IsStep-then r s none a h = tt
IsStep-then r s (some t) a h = IsStep-trans r s t a h

emit-IsStep : (r : Router) (f : Frame) → Ensures (IsStep r) (emit r f)
unfolding emit
emit-IsStep r f =
    bind-Ensures (Grows r.sent) (IsStep r) (send_frame r.sent f) _ (send_frame-Grows r.sent f)
      (λ s g. record {
        if_list = refl;
        routing_table = refl;
        grows = g;
        cache = λ h. h;
        queue = λ h. h;
      })

deliver-IsStep : (r : Router) (f : Frame) (o : Option ℕ) → Ensures (IsStep r) (deliver r f o)
unfolding deliver
deliver-IsStep r f none = then-Ensures (IsStep r) _ _ (λ out. emit-IsStep r out)
deliver-IsStep r f (some icmp) =
    then-Ensures (IsStep r) (compute_icmp_checksum f.ip_len f.ip_hl icmp f.bytes) _ (λ bytes.
      if-Ensures (IsStep r) (get8 bytes icmp == echo_request && get16 bytes (icmp + 2) == 0)
        (generate_icmp_echo (record f { bytes = bytes }) >>= λ out. emit r out) (some r)
        (then-Ensures (IsStep r) (generate_icmp_echo (record f { bytes = bytes })) _
          (λ out. emit-IsStep r out))
        (IsStep-refl r))

expire-IsStep : (r : Router) (f : Frame) → Ensures (IsStep r) (expire r f)
unfolding expire
expire-IsStep r f =
    if-Ensures (IsStep r)
      (get8 f.bytes Off.ip_p == ipproto_icmp
        && is_icmp_error (get8 f.bytes (Off.ip_header + f.ip_hl)))
      (some r) (generate_icmp_error f time_exceeded 0 >>= λ out. emit r out) (IsStep-refl r)
      (then-Ensures (IsStep r) (generate_icmp_error f time_exceeded 0) _ (λ out. emit-IsStep r out))

with_queue :
    (r : Router) (q : List QueueEntry)
    → (IsUnique r.queue → IsUnique q)
    → IsStep r (record r { queue = q })
with_queue r q k = record {
  if_list = refl;
  routing_table = refl;
  grows = Grows-refl r.sent;
  cache = λ h. h;
  queue = k;
}

request-IsStep : (r : Router) (f : Frame) → Ensures (IsStep r) (request r f)
unfolding request
request-IsStep r f = then-Ensures (IsStep r) _ _ (λ req. emit-IsStep r req)

requeue_same : (now : ℕ) (f out : Frame) (e : QueueEntry) → (requeue now f out e).ip ≡ e.ip
unfolding requeue arpq_add_packet
requeue_same now f out e = ground arith

wait_behind-IsStep :
    (now : ℕ) (r : Router) (f out : Frame) (e : QueueEntry)
    → Ensures (IsStep r) (wait_behind now r f out e)
unfolding wait_behind
wait_behind-IsStep now r f out e =
    if-Ensures (IsStep r) _ _ _
      (bind-Ensures (Grows r.sent) (IsStep r) (arpq_packets_icmpsend r.sent e.packets) _
        (icmpsend-Grows r.sent e.packets)
        (λ s g. record {
          if_list = refl;
          routing_table = refl;
          grows = g;
          cache = λ h. h;
          queue = (update_entry-Keeps out.to_ip _ r.queue (λ x. refl)).unique;
        }))
      (if-Ensures (IsStep r) (has_packets e.packets) _ none
        (IsStep-then r _ _
          (with_queue r _ (update_entry-Keeps out.to_ip _ r.queue (requeue_same now f out)).unique)
          (request-IsStep _ out))
        tt)

wait-IsStep :
    (now : ℕ) (r : Router) (f out : Frame) (o : Option QueueEntry)
    → arp_queue_lookup r.queue out.to_ip ≡ o
    → Ensures (IsStep r) (wait now r f out o)
unfolding wait wait_first
wait-IsStep now r f out none e = then-Ensures (IsStep r) _ _ (λ req.
    IsStep-then r _ _
      (with_queue r _ (
        arpq_add_entry-IsUnique now r.queue out.iface out out.to_ip req.to_ip f.from_mac f.iface e))
      (emit-IsStep _ req))
wait-IsStep now r f out (some x) e = wait_behind-IsStep now r f out x

forward_to-IsStep :
    (now : ℕ) (r : Router) (f out : Frame) (o : Option CacheEntry)
    → Ensures (IsStep r) (forward_to now r f out o)
unfolding forward_to
forward_to-IsStep now r f out (some e) = emit-IsStep r _
forward_to-IsStep now r f out none = wait-IsStep now r f out _ refl

forward-IsStep : (junk now : ℕ) (r : Router) (f : Frame) → Ensures (IsStep r) (forward junk now r f)
unfolding forward
forward-IsStep junk now r f =
    then-Ensures (IsStep r) _ _ (λ p. forward_to-IsStep now r f p.0 (arp_cache_lookup r.cache p.1))

route_ip-IsStep :
    (junk now : ℕ) (r : Router) (f : Frame) (o : Option Iface)
    → Ensures (IsStep r) (route_ip junk now r f o)
unfolding route_ip
route_ip-IsStep junk now r f (some i) = deliver-IsStep r f f.icmp
route_ip-IsStep junk now r f none =
    if-Ensures (IsStep r) _ _ _ (expire-IsStep r f) (forward-IsStep junk now r f)

handle_ip-IsStep :
    (junk now : ℕ) (r : Router) (f : Frame) → Ensures (IsStep r) (handle_ip junk now r f)
unfolding handle_ip
handle_ip-IsStep junk now r f =
    if-Ensures (IsStep r) (not (get8 f.bytes Off.ip_header / 16 == 4)) (some r)
      (if not (get16 (compute_ip_checksum f.bytes) Off.ip_sum == 0) then some r else routed)
      (IsStep-refl r)
      (if-Ensures (IsStep r) (not (get16 (compute_ip_checksum f.bytes) Off.ip_sum == 0)) (some r)
        routed (IsStep-refl r)
        (then-Ensures (IsStep r) (if_dst_check r.if_list f.to_ip) _
          (λ target. route_ip-IsStep junk now r back target)))
  where
    back : Frame
    back = record f { bytes = compute_ip_checksum (compute_ip_checksum f.bytes) }

    routed : Option Router
    routed = if_dst_check r.if_list f.to_ip >>= λ target. route_ip junk now r back target

answer-IsStep : (r : Router) (f : Frame) → Ensures (IsStep r) (answer r f)
unfolding answer
answer-IsStep r f =
    if-Ensures (IsStep r) (net16 f.bytes Off.ar_op == arp_request)
      (arp_create r.routing_table f f.iface arp_reply >>= λ out. emit r out) (some r)
      (then-Ensures (IsStep r) (arp_create r.routing_table f f.iface arp_reply) _
        (λ out. emit-IsStep r out))
      (IsStep-refl r)

learn-IsStep :
    (now : ℕ) (r : Router) (mac : Bytes) (a : ℕ) (o : Option QueueEntry)
    → arp_cache_lookup r.cache a ≡ none
    → Ensures (IsStep r) (learn now r mac a o)
unfolding learn
learn-IsStep now r mac a none e = record {
  if_list = refl;
  routing_table = refl;
  grows = Grows-refl r.sent;
  cache = add-IsDistinct now mac a r.cache (absent_lookup a r.cache e);
  queue = λ h. h;
}
learn-IsStep now r mac a (some x) e =
    bind-Ensures (IsQueueStep r.sent r.queue) (IsStep r) _ _
      (arpq_entry_clear_step r.sent r.queue x mac)
      (λ s h. record {
        if_list = refl;
        routing_table = refl;
        grows = h.grows;
        cache = add-IsDistinct now mac a r.cache (absent_lookup a r.cache e);
        queue = h.keeps.unique;
      })

known-IsStep :
    (now : ℕ) (r : Router) (f : Frame) (o : Option CacheEntry) (t : Option Iface)
    → arp_cache_lookup r.cache (net32 f.bytes 28) ≡ o
    → Ensures (IsStep r) (known now r f o t)
unfolding known
known-IsStep now r f (some c) none e = record {
  if_list = refl;
  routing_table = refl;
  grows = Grows-refl r.sent;
  cache = update-IsDistinct now _ _ r.cache;
  queue = λ h. h;
}
known-IsStep now r f (some c) (some i) e =
    IsStep-then r _ _
      (record {
        if_list = refl;
        routing_table = refl;
        grows = Grows-refl r.sent;
        cache = update-IsDistinct now _ _ r.cache;
        queue = λ h. h;
      })
      (answer-IsStep _ f)
known-IsStep now r f none none e = IsStep-refl r
known-IsStep now r f none (some i) e =
    bind-Ensures (IsStep r) (IsStep r) _ _ (learn-IsStep now r _ (net32 f.bytes 28) _ e)
      (λ s h. IsStep-then r s _ h (answer-IsStep s f))

handle_proto-IsStep :
    (junk now : ℕ) (r : Router) (f : Frame) (p : Proto)
    → Ensures (IsStep r) (handle_proto junk now r f p)
unfolding handle_proto handle_arp
handle_proto-IsStep junk now r f ip_packet = handle_ip-IsStep junk now r f
handle_proto-IsStep junk now r f arp_packet =
    then-Ensures (IsStep r) (if_dst_check r.if_list (net32 f.bytes Off.ar_tip)) _
      (λ target. known-IsStep now r f _ target refl)

sr_handlepacket-Ensures :
    (junk now later : ℕ) (r : Router) (packet : Bytes) (name : List ℕ)
    → Ensures (IsStep r) (sr_handlepacket junk now later r packet name)
unfolding sr_handlepacket dispatch
sr_handlepacket-Ensures junk now later r packet name =
    if-Ensures (IsStep r) (ltb (length packet) 42) (some r)
      (arp_queue_flush now r.routing_table r.sent r.queue >>= λ s.
        dispatch junk now later r packet name s)
      (IsStep-refl r)
      (bind-Ensures (IsQueueStep r.sent r.queue) (IsStep r) _
        (dispatch junk now later r packet name)
        (arp_queue_flush_step now r.routing_table r.sent r.queue)
        (λ s h. then-Ensures (IsStep r) (create_frame_t r.if_list packet name) _ (λ f.
          IsStep-then r _ _
            (record {
              if_list = refl;
              routing_table = refl;
              grows = h.grows;
              cache = flush-IsDistinct now r.cache;
              queue = h.keeps.unique;
            })
            (handle_proto-IsStep junk later _ f f.proto))))

-- For any packet, any time and any state: if the call returns, the interfaces and the routing
-- table are as before, what was sent is as before with new frames behind it, and if no address had
-- two entries in the ARP cache or in the ARP queue, none has two afterwards.
pub sr_handlepacket-IsStep :
    (junk now later : ℕ) (r : Router) (packet : Bytes) (name : List ℕ) (r' : Router)
    → sr_handlepacket junk now later r packet name ≡ some r'
    → IsStep r r'
sr_handlepacket-IsStep junk now later r packet name r' e =
    subst (Ensures (IsStep r)) e (sr_handlepacket-Ensures junk now later r packet name)
