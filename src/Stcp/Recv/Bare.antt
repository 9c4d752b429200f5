-- ===== src/Stcp/Recv/Bare.antt =====
-- stcp/transport.c: recv_packet on a packet that is only a header.
use uchi_networks.Common.{
  ◌≡◌, inl, inr, refl, ap, ◌∙◌, arith, Bool, true, false, leb, if◌then◌else◌, List, [], ◌∷◌, some,
  ◌>>=◌, Bool-cases,
}
use uchi_networks.Stcp.Types.{
  Header, Segment, Timespec, Unacked, Context, has_ack, has_syn, bytes, add32,
}
use uchi_networks.Stcp.Window.{placed}
use uchi_networks.Stcp.Rto.{update_rto}
use uchi_networks.Stcp.Recv.{
  is_acked, set_unackd, remove_acked, packet_t_remove, note_ack, note_window, note_header,
  place_payload, recv_packet, finish,
}
use uchi_networks.Stcp.Recv.Window.{update_rto-HasWindow}
use uchi_networks.Stcp.Recv.Sent.{update_rto-HasSent}

-- The numbers of the next bytes and the connection's state are the same.
pub record HasNumbers (c d : Context) : Type 0 where
  pub unack : d.send_unack ≡ c.send_unack
  pub send : d.send_next ≡ c.send_next
  pub recv : d.recv_next ≡ c.recv_next
  pub state : d.connection_state ≡ c.connection_state

-- What a header changes of them: a SYN sets the number of the next byte from the peer.
pub record IsNoted (ctx : Context) (h : Header) (after : Context) : Type 0 where
  pub unack : has_ack h ≡ false → after.send_unack ≡ ctx.send_unack
  pub send : after.send_next ≡ ctx.send_next
  pub recv : after.recv_next ≡ (if has_syn h then add32 h.seq 1 else ctx.recv_next)
  pub state : after.connection_state ≡ ctx.connection_state

-- What the acknowledgement changes of them.
record IsAcked (ctx : Context) (h : Header) (after : Context) : Type 0 where
  pub unack : has_ack h ≡ false → after.send_unack ≡ ctx.send_unack
  pub send : after.send_next ≡ ctx.send_next
  pub recv : after.recv_next ≡ ctx.recv_next
  pub state : after.connection_state ≡ ctx.connection_state

relist-HasNumbers :
    (b c : Context) (ps : List Unacked) → HasNumbers b c → HasNumbers b (set_unackd c ps)
unfolding set_unackd
relist-HasNumbers b c ps h = record {
  unack = h.unack;
  send = h.send;
  recv = h.recv;
  state = h.state;
}

remove_acked-HasNumbers :
    (now : Timespec) (ctx : Context) (ps : List Unacked) → HasNumbers ctx (remove_acked now ctx ps)
unfolding remove_acked
remove_acked-HasNumbers now ctx [] =
    relist-HasNumbers ctx ctx [] (record { unack = refl; send = refl; recv = refl; state = refl })
remove_acked-HasNumbers now ctx (p ∷ ps) = elim (Bool-cases (is_acked ctx.send_unack p)) [
  | inl e ↦ rw e (onward (remove_acked-HasNumbers now (update_rto now ctx p) ps))
  | inr e ↦ rw e (relist-HasNumbers ctx (update_rto now ctx p) (p ∷ ps) one)
]
  where
    one : HasNumbers ctx (update_rto now ctx p)
    one =
        let s = update_rto-HasSent now ctx p in
        record {
          unack = s.unack;
          send = s.next;
          recv = (update_rto-HasWindow now ctx p).next;
          state = s.state;
        }

    onward :
        HasNumbers (update_rto now ctx p) (remove_acked now (update_rto now ctx p) ps)
        → HasNumbers ctx (remove_acked now (update_rto now ctx p) ps)
    onward r = record {
      unack = r.unack ∙ one.unack;
      send = r.send ∙ one.send;
      recv = r.recv ∙ one.recv;
      state = r.state ∙ one.state;
    }

note_ack-IsAcked : (ctx : Context) (h : Header) → IsAcked ctx h (note_ack ctx h)
unfolding note_ack
note_ack-IsAcked ctx h = elim (Bool-cases (has_ack h)) [
  | inr e ↦ rw e (record { unack = λ n. refl; send = refl; recv = refl; state = refl })
  | inl e ↦ elim (Bool-cases (leb ctx.send_unack h.ack)) [
    | inl f ↦
        rw (e, f)
          (record {
            unack = λ n. absurd (clash (has_ack h) e n);
            send = refl;
            recv = refl;
            state = refl;
          })
    | inr f ↦ rw (e, f) (record { unack = λ n. refl; send = refl; recv = refl; state = refl })
  ]
]
  where
    clash : (b : Bool) → b ≡ true → b ≡ false → ⊥
    clash b p q = ground arith

pub note_header-IsNoted :
    (now : Timespec) (ctx : Context) (h : Header) → IsNoted ctx h (note_header now ctx h)
unfolding note_header note_window packet_t_remove
note_header-IsNoted now ctx h =
    let a = note_ack-IsAcked ctx h in
    let r = remove_acked-HasNumbers now (note_ack ctx h) (note_ack ctx h).unackd_packets in
    record {
      unack = λ n. r.unack ∙ a.unack n;
      send = r.send ∙ a.send;
      recv = ap (λ t. if has_syn h then add32 h.seq 1 else t) (r.recv ∙ a.recv);
      state = r.state ∙ a.state;
    }

-- The 20 bytes of a header on the wire.
abbrev pub bare : Header → Segment
bare h = record {
  header = h;
  raw = 0 ∷ 0 ∷ 0 ∷ 0 ∷ 0 ∷ 0 ∷ 0 ∷ 0 ∷ 0 ∷ 0 ∷ 0 ∷ 0 ∷ 0 ∷ 0 ∷ 0 ∷ 0 ∷ 0 ∷ 0 ∷ 0 ∷ 0 ∷ [];
}

place_payload-bare :
    (ctx : Context) (h : Header)
    → h.off ≡ 5
    → place_payload ctx h (bare h).raw ≡ some (placed ctx (bytes 0))
unfolding place_payload
place_payload-bare ctx h e = rw e refl

-- Such a packet, with the standard offset, is never refused.
pub recv_packet-bare :
    (now : Timespec) (ctx : Context) (h : Header)
    → h.off ≡ 5
    → (c : Context) × (recv_packet now ctx (bare h)
        ≡ some (record { ctx = c; got = bytes 0; header = h }))
      × IsNoted ctx h c
unfolding recv_packet
recv_packet-bare now ctx h e = (
  note_header now ctx h,
  ap (λ m. m >>= λ p. some (finish now ctx h p)) (place_payload-bare ctx h e),
  note_header-IsNoted now ctx h,
)
