-- ===== src/Stcp/Recv/Sent.antt =====
-- stcp/transport.c: recv_packet on the packets that are not acknowledged.
use uchi_networks.Common.{
  ℕ, ◌+◌, ◌-◌, ◌*◌, ◌%◌, ◌^◌, ◌≤◌, ◌≡◌, inl, inr, refl, ◌∙◌, arith, true, ltb, leb, ◌==◌, not,
  if◌then◌else◌, List, [], ◌∷◌, some, length, take, drop, Bool-cases, Ensures, bind-Ensures,
  then-Ensures, leb→le, ltb→lt, ◌<◌, Returns,
}
use uchi_networks.Stcp.Types.{
  Header, Segment, Timespec, Unacked, Context, has_ack, win_len, header_size, bytes, old, add32,
  sub32,
}
use uchi_networks.Stcp.Window.{
  Placed, beyond, placed, copy_in, store, place_old, place_at, place_before, place, write_at,
  replicate, first_gap,
}
use uchi_networks.Stcp.Rto.{smooth, set_rto, update_rto, wait_until, first_timeout}
use uchi_networks.Stcp.Recv.{
  is_acked, set_unackd, remove_acked, packet_t_remove, note_ack, note_window, note_header,
  place_payload, packet_buffer, Received, finish, recv_packet,
}

-- The packets stand one behind the other: their bytes are numbered from `s` to `e`, without a gap.
abbrev pub IsChain : ℕ → List Unacked → ℕ → Type 0
IsChain s [] e = s ≡ e
IsChain s (p ∷ ps) e = (p.seq_num ≡ s) × IsChain (s + length p.packet.payload) ps e

-- The list holds the packets up to send_next, and everything before its first is acknowledged.
pub record IsSender (ctx : Context) : Type 0 where
  pub from : ℕ
  pub chain : IsChain from ctx.unackd_packets ctx.send_next
  pub acked : from ≤ ctx.send_unack

-- What sending depends on is the same.
pub record HasSent (c d : Context) : Type 0 where
  pub unack : d.send_unack ≡ c.send_unack
  pub next : d.send_next ≡ c.send_next
  pub list : d.unackd_packets ≡ c.unackd_packets
  pub state : d.connection_state ≡ c.connection_state

-- More may be acknowledged, and nothing else of what sending depends on has changed.
pub record IsLater (before after : Context) : Type 0 where
  pub sender : IsSender after
  pub unack : before.send_unack ≤ after.send_unack
  pub next : after.send_next ≡ before.send_next
  pub state : after.connection_state ≡ before.connection_state

pub HasSent-IsSender : (c d : Context) → HasSent c d → IsSender c → IsSender d
HasSent-IsSender c d h s = record {
  from = s.from;
  chain = rw (h.list, h.next) s.chain;
  acked = rw h.unack s.acked;
}

same_sent : (c : Context) → HasSent c c
same_sent c = record { unack = refl; next = refl; list = refl; state = refl }

smooth-HasSent : (ctx : Context) (s n : ℕ) → HasSent ctx (smooth ctx s n)
unfolding smooth
smooth-HasSent ctx s n = elim (Bool-cases ctx.rto_init) [
  | inl e ↦ rw e (record { unack = refl; next = refl; list = refl; state = refl })
  | inr e ↦ rw e (record { unack = refl; next = refl; list = refl; state = refl })
]

set_rto-HasSent : (b ctx : Context) → HasSent b ctx → HasSent b (set_rto ctx)
unfolding set_rto
set_rto-HasSent b ctx h = record { unack = h.unack; next = h.next; list = h.list; state = h.state }

pub update_rto-HasSent :
    (now : Timespec) (ctx : Context) (p : Unacked) → HasSent ctx (update_rto now ctx p)
unfolding update_rto
update_rto-HasSent now ctx p = elim (Bool-cases (not (p.retry_count == 0))) [
  | inl e ↦ rw e (same_sent ctx)
  | inr e ↦ rw e (set_rto-HasSent ctx _ (smooth-HasSent ctx _ _))
]

relisted :
    (ctx c : Context) (ps : List Unacked) (from : ℕ)
    → HasSent ctx c
    → IsChain from ps ctx.send_next
    → from ≤ ctx.send_unack
    → IsLater ctx (set_unackd c ps)
unfolding set_unackd
relisted ctx c ps from h k l = record {
  sender = record { from = from; chain = rw h.next k; acked = rw h.unack l };
  unack = omega (arith, h.unack);
  next = h.next;
  state = h.state;
}

remove_acked-IsLater :
    (now : Timespec) (ctx : Context) (ps : List Unacked) (from : ℕ)
    → IsChain from ps ctx.send_next
    → from ≤ ctx.send_unack
    → IsLater ctx (remove_acked now ctx ps)
unfolding remove_acked
remove_acked-IsLater now ctx [] from k l = relisted ctx ctx [] from (same_sent ctx) k l
remove_acked-IsLater now ctx (p ∷ ps) from k l = elim (Bool-cases (is_acked ctx.send_unack p)) [
  | inl e ↦ rw e (
      onward (
        remove_acked-IsLater now (update_rto now ctx p) ps (from + length p.packet.payload)
          (rw h.next k.1)
          (omega
            (arith, h.unack, k.0, leb→le (p.seq_num + length p.packet.payload) ctx.send_unack e))))
  | inr e ↦ rw e (relisted ctx (update_rto now ctx p) (p ∷ ps) from h k l)
]
  where
    h : HasSent ctx (update_rto now ctx p)
    h = update_rto-HasSent now ctx p

    onward :
        IsLater (update_rto now ctx p) (remove_acked now (update_rto now ctx p) ps)
        → IsLater ctx (remove_acked now (update_rto now ctx p) ps)
    onward r = record {
      sender = r.sender;
      unack = omega (arith, h.unack, r.unack);
      next = r.next ∙ h.next;
      state = r.state ∙ h.state;
    }

note_ack-IsLater : (ctx : Context) (h : Header) → IsSender ctx → IsLater ctx (note_ack ctx h)
unfolding note_ack
note_ack-IsLater ctx h s = elim (Bool-cases (has_ack h)) [
  | inr e ↦ rw e same
  | inl e ↦ elim (Bool-cases (leb ctx.send_unack h.ack)) [
    | inr f ↦ rw (e, f) same
    | inl f ↦
        rw (e, f)
          (record {
            sender = record {
              from = s.from;
              chain = s.chain;
              acked = omega (arith, s.acked, leb→le ctx.send_unack h.ack f);
            };
            unack = leb→le ctx.send_unack h.ack f;
            next = refl;
            state = refl;
          })
  ]
]
  where
    same : IsLater ctx ctx
    same = record { sender = s; unack = omega arith; next = refl; state = refl }

pub note_header-IsLater :
    (now : Timespec) (ctx : Context) (h : Header)
    → IsSender ctx
    → IsLater ctx (note_header now ctx h)
unfolding note_header note_window packet_t_remove
note_header-IsLater now ctx h s =
    let a = note_ack-IsLater ctx h s in
    let r =
      remove_acked-IsLater now (note_ack ctx h) (note_ack ctx h).unackd_packets a.sender.from
        a.sender.chain a.sender.acked in
    record {
      sender = record { from = r.sender.from; chain = r.sender.chain; acked = r.sender.acked };
      unack = omega (arith, a.unack, r.unack);
      next = r.next ∙ a.next;
      state = r.state ∙ a.state;
    }

abbrev pub IsPlacedSent : Context → Placed → Type 0
IsPlacedSent ctx beyond = Unit {0}
IsPlacedSent ctx (placed c g) = HasSent ctx c

copy_in-HasSent :
    (ctx : Context) (off : ℕ) (buff : List ℕ) (pos n : ℕ)
    → Ensures (λ (r : Context × ℕ). HasSent ctx r.0) (copy_in ctx off buff pos n)
unfolding copy_in
copy_in-HasSent ctx off buff pos n = elim (Bool-cases (ltb (length buff) (pos + n))) [
  | inl e ↦ rw e tt
  | inr e ↦ rw e (
      then-Ensures (λ (r : Context × ℕ). HasSent ctx r.0)
        (first_gap (write_at ctx.recv_indicator off (replicate n true)))
        (λ g. some (
          record ctx {
            recv_buffer = write_at ctx.recv_buffer off (take n (drop pos buff));
            recv_indicator = write_at ctx.recv_indicator off (replicate n true);
            recv_next = add32 ctx.recv_next g;
          },
          g,
        ))
        (λ g. record { unack = refl; next = refl; list = refl; state = refl }))
]

place_at-HasSent :
    (ctx : Context) (off : ℕ) (buff : List ℕ) (pos n : ℕ)
    → Ensures (IsPlacedSent ctx) (place_at ctx off buff pos n)
unfolding place_at store
place_at-HasSent ctx off buff pos n =
    bind-Ensures (λ (r : Context × ℕ). HasSent ctx r.0) (IsPlacedSent ctx)
      (copy_in ctx off buff pos (if ltb (win_len - off) n then win_len - off else n))
      (λ r. some (placed (r.0) (bytes r.1))) (copy_in-HasSent ctx off buff pos _) (λ r h. h)

place_old-HasSent :
    (ctx : Context) (buff : List ℕ) (pos : ℕ) → Ensures (IsPlacedSent ctx) (place_old ctx buff pos)
unfolding place_old store
place_old-HasSent ctx buff pos =
    bind-Ensures (λ (r : Context × ℕ). HasSent ctx r.0) (IsPlacedSent ctx)
      (copy_in ctx 0 buff pos 0) (λ r. some (placed (r.0) old)) (copy_in-HasSent ctx 0 buff pos 0)
      (λ r h. h)

place_before-HasSent :
    (ctx : Context) (seq : ℕ) (buff : List ℕ) (pos n : ℕ)
    → Ensures (IsPlacedSent ctx) (place_before ctx seq buff pos n)
unfolding place_before
place_before-HasSent ctx seq buff pos n =
    elim (Bool-cases (leb ((seq + n) % 2 ^ 64) ctx.recv_next)) [
      | inl e ↦ rw e (place_old-HasSent ctx buff pos)
      | inr e ↦ rw e (place_at-HasSent ctx 0 buff _ _)
    ]

place-HasSent :
    (ctx : Context) (seq : ℕ) (buff : List ℕ) (pos n : ℕ)
    → Ensures (IsPlacedSent ctx) (place ctx seq buff pos n)
unfolding place
place-HasSent ctx seq buff pos n = elim (Bool-cases (leb (2 ^ 31) (sub32 seq ctx.recv_next))) [
  | inl e ↦ rw e (place_before-HasSent ctx seq buff pos n)
  | inr e ↦ elim (Bool-cases (ltb win_len (sub32 seq ctx.recv_next))) [
    | inl f ↦ rw (e, f) tt
    | inr f ↦ rw (e, f) (place_at-HasSent ctx _ buff pos n)
  ]
]

pub place_payload-HasSent :
    (ctx : Context) (h : Header) (raw : List ℕ)
    → Ensures (IsPlacedSent ctx) (place_payload ctx h raw)
unfolding place_payload
place_payload-HasSent ctx h raw =
    elim (Bool-cases ((length raw + 2 ^ 64 - 4 * h.off) % 2 ^ 64 == 0)) [
      | inl e ↦ rw e (same_sent ctx)
      | inr e ↦ rw e (place-HasSent ctx h.seq (packet_buffer raw) _ _)
    ]

-- Whatever arrives, recv_packet, where it does not fault, keeps the list in order: it holds the
-- packets up to send_next without a gap, and everything before its first is acknowledged.
-- send_unack never goes back, and send_next and the connection's state stay.
pub recv_packet-IsLater :
    (now : Timespec) (ctx : Context) (seg : Segment)
    → IsSender ctx
    → Ensures (λ (r : Received). IsLater ctx r.ctx) (recv_packet now ctx seg)
unfolding recv_packet
recv_packet-IsLater now ctx seg s =
    elim (Bool-cases (ltb (length (take 596 seg.raw)) header_size)) [
      | inl e ↦ rw e same
      | inr e ↦ rw e (
          bind-Ensures (IsPlacedSent ctx) (λ (r : Received). IsLater ctx r.ctx)
            (place_payload ctx seg.header (take 596 seg.raw))
            (λ p. some (finish now ctx seg.header p))
            (place_payload-HasSent ctx seg.header (take 596 seg.raw)) after)
    ]
  where
    same : IsLater ctx ctx
    same = record { sender = s; unack = omega arith; next = refl; state = refl }

    after : (p : Placed) → IsPlacedSent ctx p → IsLater ctx (finish now ctx seg.header p).ctx
    after beyond h = same
    after (placed c g) h =
        let r = note_header-IsLater now c seg.header (HasSent-IsSender ctx c h s) in
        record {
          sender = r.sender;
          unack = omega (arith, h.unack, r.unack);
          next = r.next ∙ h.next;
          state = r.state ∙ h.state;
        }

-- control_loop finds a packet to wait for whenever something is not acknowledged.
pub wait_until-Returns : (ctx : Context) → IsSender ctx → Returns (λ t. Unit {0}) (wait_until ctx)
unfolding wait_until first_timeout
wait_until-Returns ctx s = elim (Bool-cases (ltb ctx.send_unack ctx.send_next)) [
  | inl e ↦ rw e (
      go ctx.unackd_packets s.from s.chain
        (omega (arith, s.acked, ltb→lt ctx.send_unack ctx.send_next e)))
  | inr e ↦ rw e tt
]
  where
    go :
        (ps : List Unacked) (from : ℕ)
        → IsChain from ps ctx.send_next
        → from < ctx.send_next
        → Returns (λ t. Unit {0}) (first_timeout ctx.rto ps)
    go [] from k l = absurd (omega (arith, k))
    go (p ∷ ps) from k l = tt
