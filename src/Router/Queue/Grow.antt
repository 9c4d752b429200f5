-- ===== src/Router/Queue/Grow.antt =====
-- stub_sr/sr_router.c: the queue operations only append to what was sent, and never make two
-- entries for one address.
use uchi_networks.Common.{
  ℕ, zero, suc, ◌≡◌, ◌≢◌, refl, subst, sym, arith, true, false, ◌==◌, if◌then◌else◌, leb, List, [],
  ◌∷◌, ◌++◌, Option, none, some, All, All-append, find, length,
}
use uchi_networks.Router.Bytes.{Bytes}
use uchi_networks.Router.Types.{
  Iface, Route, Frame, Packet, QueueEntry, Sent, Grows, Grows-refl, Grows-trans, Ensures,
  bind-Ensures, then-Ensures, if-Ensures,
}
use uchi_networks.Router.Queue.{
  send_frame, arp_create, arp_request, arp_max_req, arpq_add_entry, clear_packets, unlink,
  arpq_entry_clear, is_error_packet, icmpsend_one, icmpsend_loop, is_due, arpq_packets_icmpsend,
  flush_ask, flush_due, flush_entry, keep_entry, arp_queue_flush, update_entry, arp_queue_lookup,
}

-- No two entries wait for the same address.
abbrev pub IsUnique : List QueueEntry → Type 0
IsUnique [] = Unit {0}
IsUnique (e ∷ es) = All (λ x. x.ip ≢ e.ip) es × IsUnique es

-- No new address, and still no address twice.
pub record Keeps (q q' : List QueueEntry) : Type 0 where
  pub absent : (b : ℕ) → All (λ (x : QueueEntry). x.ip ≢ b) q → All (λ x. x.ip ≢ b) q'
  pub unique : IsUnique q → IsUnique q'

pub Keeps-refl : (q : List QueueEntry) → Keeps q q
Keeps-refl q = record { absent = λ b h. h; unique = λ h. h }

Keeps-cons :
    (e e' : QueueEntry) (q q' : List QueueEntry)
    → e'.ip ≡ e.ip
    → Keeps q q'
    → Keeps (e ∷ q) (e' ∷ q')
Keeps-cons e e' q q' p k = record {
  absent = λ b h. (λ s. h.0 (omega arith), k.absent b h.1);
  unique = λ h. (
    subst (λ t. All (λ (x : QueueEntry). x.ip ≢ t) q') (sym p) (k.absent e.ip h.0),
    k.unique h.1,
  );
}

Keeps-drop : (e : QueueEntry) (q q' : List QueueEntry) → Keeps q q' → Keeps (e ∷ q) q'
Keeps-drop e q q' k = record { absent = λ b h. k.absent b h.1; unique = λ h. k.unique h.1 }

pub update_entry-Keeps :
    (a : ℕ) (f : QueueEntry → QueueEntry) (q : List QueueEntry)
    → ((e : QueueEntry) → (f e).ip ≡ e.ip)
    → Keeps q (update_entry a f q)
unfolding update_entry
update_entry-Keeps a f [] h = Keeps-refl []
update_entry-Keeps a f (e ∷ es) h =
    elim (a == e.ip) as (λ b. Keeps (e ∷ es) (if b then f e ∷ es else e ∷ update_entry a f es)) [
      | true ↦ Keeps-cons e (f e) es es (h e) (Keeps-refl es)
      | false ↦ Keeps-cons e e es _ refl (update_entry-Keeps a f es h)
    ]

pub unlink-Keeps : (hop : ℕ) (q : List QueueEntry) → Keeps q (unlink hop q)
unfolding unlink
unlink-Keeps hop [] = Keeps-refl []
unlink-Keeps hop (e ∷ es) =
    elim (hop == e.next_hop) as (λ b. Keeps (e ∷ es) (if b then es else e ∷ unlink hop es)) [
      | true ↦ Keeps-drop e es es (Keeps-refl es)
      | false ↦ Keeps-cons e e es _ refl (unlink-Keeps hop es)
    ]

lookup_none-absent :
    (a : ℕ) (q : List QueueEntry) → arp_queue_lookup q a ≡ none → All (λ x. x.ip ≢ a) q
unfolding arp_queue_lookup find
lookup_none-absent a [] h = tt
lookup_none-absent a (e ∷ es) h = (λ p. ground arith, lookup_none-absent a es (ground arith))

append-IsUnique :
    (e : QueueEntry) (q : List QueueEntry)
    → All (λ x. x.ip ≢ e.ip) q
    → IsUnique q
    → IsUnique (q ++ (e ∷ []))
append-IsUnique e [] h u = (tt, tt)
append-IsUnique e (x ∷ xs) h u = (
  All-append (λ (y : QueueEntry). y.ip ≢ x.ip) xs _ u.0 ((λ p. h.0 (omega arith)), tt),
  append-IsUnique e xs h.1 u.1,
)

-- An entry is added only for an address that has none.
pub arpq_add_entry-IsUnique :
    (now : ℕ) (q : List QueueEntry) (i : Option Iface) (f : Frame) (a hop : ℕ) (m : Bytes)
    (o : Option Iface)
    → arp_queue_lookup q a ≡ none
    → IsUnique q
    → IsUnique (arpq_add_entry now q i f a hop m o)
unfolding arpq_add_entry
arpq_add_entry-IsUnique now q i f a hop m o h u = append-IsUnique _ q (lookup_none-absent a q h) u

pub send_frame-Grows : (sent : List Sent) (f : Frame) → Ensures (Grows sent) (send_frame sent f)
unfolding send_frame
send_frame-Grows sent f =
    then-Ensures (Grows sent) f.iface
      (λ i. some (sent ++ (record { bytes = f.bytes; name = i.name } ∷ [])))
      (λ i. (record { bytes = f.bytes; name = i.name } ∷ [], refl))

Grows-then :
    (s t : List Sent) (m : Option (List Sent))
    → Grows s t
    → Ensures (Grows t) m
    → Ensures (Grows s) m
Grows-then s t none g h = tt
Grows-then s t (some u) g h = Grows-trans s t u g h

clear_packets-Grows :
    (sent : List Sent) (qs : List Packet) (m : Bytes)
    → Ensures (Grows sent) (clear_packets sent qs m)
unfolding clear_packets
clear_packets-Grows sent [] m = Grows-refl sent
clear_packets-Grows sent (q ∷ qs) m = then-Ensures (Grows sent) q.outgoing.iface _ (λ i.
    bind-Ensures (Grows sent) (Grows sent) (send_frame sent _) _ (send_frame-Grows sent _)
      (λ s g. Grows-then sent s _ g (clear_packets-Grows s qs m)))

icmpsend_one-Grows : (sent : List Sent) (q : Packet) → Ensures (Grows sent) (icmpsend_one sent q)
unfolding icmpsend_one
icmpsend_one-Grows sent q = then-Ensures (Grows sent) _ _ (λ _. send_frame-Grows sent _)

icmpsend_loop-Grows :
    (fuel : ℕ) (sent : List Sent) (qs : List Packet)
    → Ensures (Grows sent) (icmpsend_loop fuel sent qs)
unfolding icmpsend_loop
icmpsend_loop-Grows zero sent qs = tt
icmpsend_loop-Grows (suc fuel) sent [] = Grows-refl sent
icmpsend_loop-Grows (suc fuel) sent (q ∷ qs) =
    if-Ensures (Grows sent) (is_error_packet q) _ _ (icmpsend_loop-Grows fuel sent (q ∷ qs)) (
      bind-Ensures (Grows sent) (Grows sent) (icmpsend_one sent q) _ (icmpsend_one-Grows sent q)
        (λ s g. Grows-then sent s _ g (icmpsend_loop-Grows fuel s qs)))

pub icmpsend-Grows :
    (sent : List Sent) (qs : List Packet) → Ensures (Grows sent) (arpq_packets_icmpsend sent qs)
unfolding arpq_packets_icmpsend
icmpsend-Grows sent qs = icmpsend_loop-Grows (suc (length qs)) sent qs

-- What an operation on the queue may do.
pub record IsQueueStep (s : List Sent) (q : List QueueEntry) (r : List Sent × List QueueEntry)
    : Type 0 where
  pub grows : Grows s r.0
  pub keeps : Keeps q r.1

pub arpq_entry_clear_step :
    (sent : List Sent) (q : List QueueEntry) (e : QueueEntry) (m : Bytes)
    → Ensures (IsQueueStep sent q) (arpq_entry_clear sent q e m)
unfolding arpq_entry_clear
arpq_entry_clear_step sent q e m =
    bind-Ensures (Grows sent) (IsQueueStep sent q) (clear_packets sent e.packets m) _
      (clear_packets-Grows sent e.packets m)
      (λ s g. record { grows = g; keeps = unlink-Keeps e.next_hop q })

abbrev SameIp : QueueEntry → Option QueueEntry → Type 0
SameIp e none = Unit {0}
SameIp e (some e') = e'.ip ≡ e.ip

record IsEntryStep (s : List Sent) (e : QueueEntry) (r : List Sent × Option QueueEntry)
    : Type 0 where
  grows : Grows s r.0
  same : SameIp e r.1

flush_ask_step :
    (now : ℕ) (t : List Route) (s : List Sent) (e : QueueEntry) (qs : List Packet)
    → Ensures (IsEntryStep s e) (flush_ask now t s e qs)
unfolding flush_ask
flush_ask_step now t s e [] = record { grows = Grows-refl s; same = refl }
flush_ask_step now t s e (old ∷ qs) =
    then-Ensures (IsEntryStep s e) (arp_create t old.outgoing old.outgoing.iface arp_request) _
      (λ req.
        bind-Ensures (Grows s) (IsEntryStep s e) (send_frame s req) _ (send_frame-Grows s req)
          (λ s' g. record { grows = g; same = refl }))

flush_entry_step :
    (now : ℕ) (t : List Route) (s : List Sent) (e : QueueEntry)
    → Ensures (IsEntryStep s e) (flush_entry now t s e)
unfolding flush_entry flush_due
flush_entry_step now t s e = if-Ensures (IsEntryStep s e) e.freed none _ tt (
    if-Ensures (IsEntryStep s e) (is_due now e) _ _
      (if-Ensures (IsEntryStep s e) (leb arp_max_req e.num_reqs) _ _
        (bind-Ensures (Grows s) (IsEntryStep s e) (arpq_packets_icmpsend s e.packets) _
          (icmpsend-Grows s e.packets) (λ s' g. record { grows = g; same = tt }))
        (flush_ask_step now t s e e.packets))
      (record { grows = Grows-refl s; same = refl }))

keep_entry-Keeps :
    (e : QueueEntry) (o : Option QueueEntry) (q q' : List QueueEntry)
    → SameIp e o
    → Keeps q q'
    → Keeps (e ∷ q) (keep_entry o q')
keep_entry-Keeps e none q q' p k = Keeps-drop e q q' k
keep_entry-Keeps e (some e') q q' p k = Keeps-cons e e' q q' p k

pub arp_queue_flush_step :
    (now : ℕ) (t : List Route) (s : List Sent) (q : List QueueEntry)
    → Ensures (IsQueueStep s q) (arp_queue_flush now t s q)
unfolding arp_queue_flush
arp_queue_flush_step now t s [] = record { grows = Grows-refl s; keeps = Keeps-refl [] }
arp_queue_flush_step now t s (e ∷ es) =
    bind-Ensures (IsEntryStep s e) (IsQueueStep s (e ∷ es)) (flush_entry now t s e) _
      (flush_entry_step now t s e)
      (λ r h.
        bind-Ensures (IsQueueStep r.0 es) (IsQueueStep s (e ∷ es)) (arp_queue_flush now t r.0 es) _
          (arp_queue_flush_step now t r.0 es)
          (λ u k. record {
            grows = Grows-trans s r.0 u.0 h.grows k.grows;
            keeps = keep_entry-Keeps e r.1 es u.1 h.same k.keeps;
          }))
