-- ===== src/Router/Queue/Send.antt =====
-- stub_sr/sr_router.c: which frames the queue operations send, and when they never return.
use uchi_networks.Common.{
  ℕ, zero, suc, ◌≤◌, ◌<◌, ◌≡◌, ◌⊎◌, inl, inr, refl, ap, sym, ◌∙◌, arith, true, false, List, [], ◌∷◌,
  ◌++◌, map, append_assoc, append-nil, Option, none, some, All, length, find, Option-cases,
}
use uchi_networks.Router.Bytes.{Bytes}
use uchi_networks.Router.Types.{Iface, Route, Frame, Packet, QueueEntry, Sent, bind-none}
use uchi_networks.Router.Checksum.{compute_icmp_checksum}
use uchi_networks.Router.Frames.{encapsulate}
use uchi_networks.Router.Icmp.{generate_icmp_error, dest_unreach, host_unreach}
use uchi_networks.Router.Queue.{
  send_frame, clear_packets, is_error_packet, icmpsend_one, icmpsend_loop, is_due, flush_entry,
  arp_queue_flush, arpq_packets_icmpsend, update_entry, arp_queue_lookup,
}

abbrev pub IsSome {ℓ} : {A : Type ℓ} → Option A → Type ℓ
IsSome {A} o = (a : A) × (o ≡ some a)

abbrev name_of : Option Iface → List ℕ
name_of none = []
name_of (some i) = i.name

abbrev addr_of : Option Iface → Bytes
addr_of none = []
addr_of (some i) = i.addr

-- A queued frame as it goes out to a hardware address that has become known.
abbrev pub cleared : Bytes → Packet → Sent
cleared d_ha q = record {
  bytes =
      (encapsulate
        (record (q.outgoing) { from_mac = addr_of q.outgoing.iface; to_mac = d_ha })).bytes;
  name = name_of q.outgoing.iface;
}

clear_one :
    (sent : List Sent) (q : Packet) (qs : List Packet) (m : Bytes)
    → IsSome q.outgoing.iface
    → clear_packets sent (q ∷ qs) m ≡ clear_packets (sent ++ (cleared m q ∷ [])) qs m
unfolding clear_packets send_frame encapsulate
clear_one sent q qs m (i, e) = rw e

-- Every queued packet goes out, oldest first, under the new address, where each has an interface.
pub clear_packets_lem :
    (sent : List Sent) (qs : List Packet) (m : Bytes)
    → All (λ (q : Packet). IsSome q.outgoing.iface) qs
    → clear_packets sent qs m ≡ some (sent ++ map (cleared m) qs)
unfolding clear_packets
clear_packets_lem sent [] m h = ap some (sym (append-nil sent))
clear_packets_lem sent (q ∷ qs) m h =
    clear_one sent q qs m h.0
    ∙ clear_packets_lem (sent ++ (cleared m q ∷ [])) qs m h.1
    ∙ ap some (append_assoc sent (cleared m q ∷ []) (map (cleared m) qs))

-- A packet for which the error message can be made and sent.
pub record IsAnswerable (q : Packet) : Type 0 where
  pub plain : is_error_packet q ≡ false
  pub way_back : IsSome q.from_iface
  pub no_options : q.outgoing.ip_hl ≤ 20

-- The queued frame, unchanged, on the interface that it came by.
abbrev pub bounced : Packet → Sent
bounced q = record { bytes = q.outgoing.bytes; name = name_of q.from_iface }

generate_icmp_error_made : (f : Frame) (t c : ℕ) → f.ip_hl ≤ 20 → IsSome (generate_icmp_error f t c)
unfolding generate_icmp_error compute_icmp_checksum
generate_icmp_error_made f t c h = elim (Option-cases (generate_icmp_error f t c)) [
  | inl e ↦ absurd (ground arith)
  | inr p ↦ p
]

icmpsend_one_lem :
    (sent : List Sent) (q : Packet)
    → IsAnswerable q
    → icmpsend_one sent q ≡ some (sent ++ (bounced q ∷ []))
unfolding icmpsend_one send_frame
icmpsend_one_lem sent q h =
    let (o, e) =
      generate_icmp_error_made (record (q.outgoing) { iface = q.from_iface; from_mac = q.from_mac })
        dest_unreach host_unreach h.no_options in
    rw (e, h.way_back.1)

icmpsend_loop_lem :
    (fuel : ℕ) (sent : List Sent) (qs : List Packet)
    → length qs < fuel
    → All IsAnswerable qs
    → icmpsend_loop fuel sent qs ≡ some (sent ++ map bounced qs)
unfolding icmpsend_loop
icmpsend_loop_lem zero sent qs l h = absurd (omega arith)
icmpsend_loop_lem (suc fuel) sent [] l h = ap some (sym (append-nil sent))
icmpsend_loop_lem (suc fuel) sent (q ∷ qs) l h =
    rw (h.0.plain, icmpsend_one_lem sent q h.0)
      (icmpsend_loop_lem fuel (sent ++ (bounced q ∷ [])) qs (omega arith) h.1
        ∙ ap some (append_assoc sent (bounced q ∷ []) (map bounced qs)))

-- Where no packet is an ICMP error, each came by an interface, and none has IP options, the call
-- returns, and what it sends back for each packet is the queued frame itself, not the error
-- message that it has made.
pub icmpsend_lem :
    (sent : List Sent) (qs : List Packet)
    → All IsAnswerable qs
    → arpq_packets_icmpsend sent qs ≡ some (sent ++ map bounced qs)
unfolding arpq_packets_icmpsend
icmpsend_lem sent qs h = icmpsend_loop_lem (suc (length qs)) sent qs (omega arith) h

-- A queued ICMP error message is never passed: behind any answerable packets, no number of rounds
-- is enough.
pub icmpsend_loop_stuck :
    (fuel : ℕ) (sent : List Sent) (before : List Packet) (q : Packet) (after : List Packet)
    → All IsAnswerable before
    → is_error_packet q ≡ true
    → icmpsend_loop fuel sent (before ++ (q ∷ after)) ≡ none
unfolding icmpsend_loop
icmpsend_loop_stuck zero sent b q after h e = refl
icmpsend_loop_stuck (suc fuel) sent [] q after h e =
    rw e (icmpsend_loop_stuck fuel sent [] q after tt e)
icmpsend_loop_stuck (suc fuel) sent (b ∷ bs) q after h e =
    rw (h.0.plain, icmpsend_one_lem sent b h.0)
      (icmpsend_loop_stuck fuel (sent ++ (bounced b ∷ [])) bs q after h.1 e)

-- An entry that the flush leaves alone.
abbrev pub IsIdle : ℕ → QueueEntry → Type 0
IsIdle now e = (e.freed ≡ false) × (is_due now e ≡ false)

pub flush_idle :
    (now : ℕ) (t : List Route) (s : List Sent) (q : List QueueEntry)
    → All (IsIdle now) q
    → arp_queue_flush now t s q ≡ some (s, q)
unfolding arp_queue_flush flush_entry
flush_idle now t s [] h = refl
flush_idle now t s (e ∷ es) h = simp (h.0.0, h.0.1, flush_idle now t s es h.1)

abbrev pub HasFreed : List QueueEntry → Type 0
HasFreed [] = ⊥
HasFreed (e ∷ es) = (e.freed ≡ true) ⊎ HasFreed es

flush_rest :
    (now : ℕ) (t : List Route) (s : List Sent) (e : QueueEntry) (es : List QueueEntry)
    → ((s' : List Sent) → arp_queue_flush now t s' es ≡ none)
    → arp_queue_flush now t s (e ∷ es) ≡ none
unfolding arp_queue_flush
flush_rest now t s e es h = bind-none (flush_entry now t s e) _ (λ r. rw (h r.0))

-- The walk reads an entry whose memory was given back.
pub flush_freed :
    (now : ℕ) (t : List Route) (s : List Sent) (q : List QueueEntry)
    → HasFreed q
    → arp_queue_flush now t s q ≡ none
unfolding arp_queue_flush flush_entry
flush_freed now t s [] h = absurd h
flush_freed now t s (e ∷ es) (inl h) = rw h
flush_freed now t s (e ∷ es) (inr h) = flush_rest now t s e es (λ s'. flush_freed now t s' es h)

pub update_entry-HasFreed :
    (a : ℕ) (e : QueueEntry) (q : List QueueEntry)
    → arp_queue_lookup q a ≡ some e
    → HasFreed (update_entry a (λ x. record x { freed = true }) q)
unfolding arp_queue_lookup update_entry find
update_entry-HasFreed a e [] h = ground arith
update_entry-HasFreed a e (x ∷ xs) h = ground (arith, update_entry-HasFreed a e xs)
