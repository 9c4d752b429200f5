-- ===== src/Router/Types.antt =====
-- stub_sr/sr_router.c, sr_if.h and sr_rt.h: the data of the router.
-- A linked list is a list in the order of its links. The `in_or_out` and `MAC_set` flags of a
-- frame are never read, and are left out.
use uchi_networks.Common.{
  ℕ, Bool, List, [], ◌++◌, Option, ◌≡◌, sym, ap, ◌∙◌, append-nil, append_assoc,
}
pub use uchi_networks.Common.{◌>>=◌, Ensures, bind-Ensures, bind-none, then-Ensures, if-Ensures}
use uchi_networks.Router.Bytes.{Bytes}

-- `struct sr_if`; a name is the codes before its NUL.
pub record Iface : Type 0 where
  pub name : List ℕ
  pub addr : Bytes
  pub ip : ℕ

-- `struct sr_rt`
pub record Route : Type 0 where
  pub dest : ℕ
  pub gw : ℕ
  pub mask : ℕ
  pub interface : List ℕ

-- Which of `ip_header` and `arp_header` is not NULL.
pub data Proto : Type 0 where
  ip_packet arp_packet : Proto

-- `struct frame_t`; `icmp` is the offset that `icmp_header` points to.
pub record Frame : Type 0 where
  pub bytes : Bytes
  pub proto : Proto
  pub icmp : Option ℕ
  pub from_mac : Bytes
  pub to_mac : Bytes
  pub from_ip : ℕ
  pub to_ip : ℕ
  pub iface : Option Iface
  pub len : ℕ
  pub ip_hl : ℕ
  pub ip_len : ℕ

-- `struct arpc_entry`
pub record CacheEntry : Type 0 where
  pub ip : ℕ
  pub mac : Bytes
  pub timeout : ℕ

-- `struct queued_packet`
pub record Packet : Type 0 where
  pub from_mac : Bytes
  pub from_iface : Option Iface
  pub outgoing : Frame

-- `struct arpq_entry`; `freed` marks an entry whose memory was given back while it was linked.
pub record QueueEntry : Type 0 where
  pub ip : ℕ
  pub next_hop : ℕ
  pub iface : Option Iface
  pub packets : List Packet
  pub last_req : ℕ
  pub num_reqs : ℕ
  pub freed : Bool

-- What a call of `sr_send_packet` is given: the bytes and the name of the interface.
pub record Sent : Type 0 where
  pub bytes : Bytes
  pub name : List ℕ

-- `struct sr_instance`, the two static lists, and the frames sent so far, in order.
pub record Router : Type 0 where
  pub if_list : List Iface
  pub routing_table : List Route
  pub cache : List CacheEntry
  pub queue : List QueueEntry
  pub sent : List Sent

-- `more` was sent after `before`.
abbrev pub Grows : List Sent → List Sent → Type 0
Grows before after = (more : List Sent) × (after ≡ before ++ more)

pub Grows-refl : (s : List Sent) → Grows s s
Grows-refl s = ([], sym (append-nil s))

pub Grows-trans : (s t u : List Sent) → Grows s t → Grows t u → Grows s u
Grows-trans s t u (m, p) (n, q) = (m ++ n, q ∙ ap (λ x. x ++ n) p ∙ append_assoc s m n)
