-- ===== src/Router/Handle/Arp.antt =====
-- stub_sr/sr_router.c: what an ARP packet teaches the router.
use uchi_networks.Common.{
  ℕ, ◌+◌, ◌^◌, ◌<◌, length, ◌≡◌, ◌≢◌, refl, ap, sym, subst, ◌∙◌, ◌==◌, Bool-cases, inl, inr, arith,
  List, [], ◌∷◌, ◌++◌, map, none, some, All, find, ==_iff,
}
use uchi_networks.Router.Bytes.{Bytes, net16, net32, get_bytes}
use uchi_networks.Router.Off
use uchi_networks.Router.Types.{Iface, Frame, Packet, CacheEntry, QueueEntry, Router}
use uchi_networks.Router.Routing.{if_dst_check}
use uchi_networks.Router.Cache.{cache_timeout, arp_cache_lookup, arp_cache_update, arp_cache_add}
use uchi_networks.Router.Queue.{
  arpq_next_hop_lookup, arp_request, arp_create, arpq_entry_clear, unlink, send_frame, arp_bytes,
  arp_to, arp_reply,
}
use uchi_networks.Router.Queue.Send.{IsSome, cleared, clear_packets_lem}
use uchi_networks.Router.Queue.Layout.{IsArp, arp_bytes-IsArp}
use uchi_networks.Router.Handle.{emit, learn, answer, known, handle_arp}

lookup-add :
    (now : ℕ) (mac : Bytes) (a : ℕ) (cache : List CacheEntry)
    → arp_cache_lookup cache a ≡ none
    → arp_cache_lookup (arp_cache_add now cache mac a) a
      ≡ some (record { ip = a; mac = mac; timeout = now + cache_timeout })
unfolding arp_cache_lookup arp_cache_add find
lookup-add now mac a [] h = ground arith
lookup-add now mac a (e ∷ es) h = ground (arith, lookup-add now mac a es)

-- The first entry with this next hop is taken out, and no other.
pub record IsCleared (a : ℕ) (e : QueueEntry) (q q' : List QueueEntry) : Type 0 where
  pub before : List QueueEntry
  pub after : List QueueEntry
  pub was : q ≡ before ++ (e ∷ after)
  pub others : All (λ (x : QueueEntry). x.next_hop ≢ a) before
  pub hop : e.next_hop ≡ a
  pub is_now : q' ≡ before ++ after

IsCleared-next :
    (a : ℕ) (x e : QueueEntry) (q q' : List QueueEntry)
    → x.next_hop ≢ a
    → IsCleared a e q q'
    → IsCleared a e (x ∷ q) (x ∷ q')
IsCleared-next a x e q q' n h = record {
  before = x ∷ h.before;
  after = h.after;
  was = ap (◌∷◌ x) h.was;
  others = (n, h.others);
  hop = h.hop;
  is_now = ap (◌∷◌ x) h.is_now;
}

lookup-unlink :
    (a : ℕ) (q : List QueueEntry) (e : QueueEntry)
    → arpq_next_hop_lookup q a ≡ some e
    → IsCleared a e q (unlink a q)
unfolding arpq_next_hop_lookup unlink find
lookup-unlink a [] e h = absurd (ground (arith, h))
lookup-unlink a (x ∷ q) e h = elim (Bool-cases (a == x.next_hop)) [
  | inl t ↦
      let same : x ≡ e = ground (arith, h, t) in
      rw t (record {
        before = [];
        after = q;
        was = ap (λ y. y ∷ q) same;
        others = tt;
        hop = ap (λ y. y.next_hop) (sym same) ∙ sym ((==_iff a x.next_hop).0 t);
        is_now = refl;
      })
  | inr t ↦ rw t (
      IsCleared-next a x e q (unlink a q) (λ p. ground (arith, t, p))
        (lookup-unlink a q e (ground (arith, h, t))))
]

-- What an ARP reply from a new neighbour leaves behind.
pub record IsLearned (now : ℕ) (r : Router) (mac : Bytes) (a : ℕ) (e : QueueEntry) (r' : Router)
    : Type 0 where
  pub cached :
      arp_cache_lookup r'.cache a
      ≡ some (record { ip = a; mac = mac; timeout = now + cache_timeout })
  pub sent : r'.sent ≡ r.sent ++ map (cleared mac) e.packets
  pub queue : IsCleared a e r.queue r'.queue

-- An ARP packet that is no request, to one of the router's addresses, from an address that is not
-- cached: the sender is cached for a full term, the packets of the first queue entry that has the
-- sender as its next hop go out to it, oldest first, and that entry leaves the queue; the others
-- stay. The packets have interfaces to go out on.
pub handle_arp_learns :
    (now : ℕ) (r : Router) (f : Frame) (i : Iface) (e : QueueEntry)
    → arp_cache_lookup r.cache (net32 f.bytes Off.ar_sip) ≡ none
    → if_dst_check r.if_list (net32 f.bytes Off.ar_tip) ≡ some (some i)
    → arpq_next_hop_lookup r.queue (net32 f.bytes Off.ar_sip) ≡ some e
    → net16 f.bytes Off.ar_op ≢ arp_request
    → All (λ (q : Packet). IsSome q.outgoing.iface) e.packets
    → (r' : Router) × (handle_arp now r f ≡ some r')
      × IsLearned now r (get_bytes f.bytes Off.ar_sha 6) (net32 f.bytes Off.ar_sip) e r'
unfolding handle_arp known learn answer arpq_entry_clear
handle_arp_learns now r f i e new mine waits op h = (
  record r {
    cache = arp_cache_add now r.cache mac (net32 f.bytes Off.ar_sip);
    queue = unlink e.next_hop r.queue;
    sent = r.sent ++ map (cleared mac) e.packets;
  },
  rw (new, mine, waits, clear_packets_lem r.sent e.packets mac h) (ground arith),
  record {
    cached = lookup-add now mac (net32 f.bytes Off.ar_sip) r.cache new;
    sent = refl;
    queue =
        let gone = lookup-unlink (net32 f.bytes Off.ar_sip) r.queue e waits in
        subst (λ hop. IsCleared (net32 f.bytes Off.ar_sip) e r.queue (unlink hop r.queue))
          (sym gone.hop) gone;
  },
)
  where
    mac : Bytes
    mac = get_bytes f.bytes Off.ar_sha 6

-- A request for one of the router's addresses from a cached neighbour, on a known interface, is
-- answered by one frame on that interface, which carries the interface's own addresses and goes to
-- the sender of the request; and the neighbour's entry is renewed. MAC addresses have 6 bytes, and
-- the two IP addresses fit in 32 bits.
pub handle_arp_answers :
    (now : ℕ) (r : Router) (f : Frame) (i j : Iface) (c : CacheEntry)
    → arp_cache_lookup r.cache (net32 f.bytes Off.ar_sip) ≡ some c
    → if_dst_check r.if_list (net32 f.bytes Off.ar_tip) ≡ some (some i)
    → f.iface ≡ some j
    → net16 f.bytes Off.ar_op ≡ arp_request
    → length j.addr ≡ 6
    → length f.from_mac ≡ 6
    → j.ip < 2 ^ 32
    → f.from_ip < 2 ^ 32
    → (out : Bytes) × (handle_arp now r f
        ≡ some (record r {
          cache =
              arp_cache_update now r.cache
                (get_bytes f.bytes Off.ar_sha 6)
                (net32 f.bytes Off.ar_sip);
          sent = r.sent ++ (record { bytes = out; name = j.name } ∷ []);
        }))
      × IsArp out f.from_mac j.addr arp_reply j.addr j.ip f.from_mac f.from_ip
unfolding handle_arp known answer emit send_frame arp_create arp_to
handle_arp_answers now r f i j c old mine on op la lm li lf = (
  arp_bytes f.from_mac j.addr arp_reply j.addr j.ip f.from_mac f.from_ip,
  rw (old, mine, on, (==_iff (net16 f.bytes Off.ar_op) arp_request).1 op) refl,
  arp_bytes-IsArp f.from_mac j.addr arp_reply j.addr j.ip f.from_mac f.from_ip lm la la lm
      (omega arith) li lf,
)
