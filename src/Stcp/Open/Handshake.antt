-- ===== src/Stcp/Open/Handshake.antt =====
-- stcp/transport.c: the handshake of two ends of transport_init.
use uchi_networks.Common.{
  ℕ, ◌≡◌, refl, ap, sym, ◌∙◌, arith, true, ◌==◌, List, [], ◌∷◌, ◌++◌, Option, none, some, ◌>>=◌,
  Returns, bind-Returns,
}
use uchi_networks.Stcp.Types.{Header, Out, Timespec, Unacked, add32, Conn, established}
use uchi_networks.Stcp.Rto.{first_timeout}
use uchi_networks.Stcp.Recv.{make_stcp_packet, packet_t_create}
use uchi_networks.Stcp.Recv.Bare.{bare, recv_packet-bare}
use uchi_networks.Stcp.Loop.{send_ack, send_kept}
use uchi_networks.Stcp.Open.{
  start_context, start, send_syn, answer_synack, client_step, send_synack, answer_syn, listen_step,
  finish_open, server_step,
}

-- The header of the packet that was sent last.
abbrev pub last_header : List Out → Option Header
last_header [] = none
last_header (p ∷ []) = some p.header
last_header (p ∷ (q ∷ qs)) = last_header (q ∷ qs)

-- A network that loses nothing between an active end and a passive one: the SYN, the SYN/ACK and
-- the ACK arrive at the times t1, t2 and t3.
unfoldable pub handshake : (t0 t1 t2 t3 : Timespec) (active passive : ℕ) → Option (Conn × Conn)
handshake t0 t1 t2 t3 active passive = last_header (send_syn t0 (start active)).sent >>= λ syn.
    listen_step t1 passive (start passive) (bare syn) >>= λ server.
    last_header server.sent >>= λ synack.
    client_step t2 (send_syn t0 (start active)) (bare synack) >>= λ client.
    last_header client.sent >>= λ ack.
    server_step t3 server (bare ack) >>= λ opened. some (client, opened)

-- Both ends are open, and each expects the byte that the other sends next.
pub record IsConnected (active passive : ℕ) (client server : Conn) : Type 0 where
  pub client_open : client.ctx.connection_state ≡ established
  pub server_open : server.ctx.connection_state ≡ established
  pub to_server : server.ctx.recv_next ≡ client.ctx.send_next
  pub to_client : client.ctx.recv_next ≡ server.ctx.send_next
  pub client_first : client.ctx.send_next ≡ add32 active 1
  pub server_first : server.ctx.send_next ≡ add32 passive 1

abbrev syn_header : ℕ → Header
syn_header active = record { seq = active; ack = 0; off = 5; flags = 2; win = 3072 }

abbrev synack_header : (seq ack : ℕ) → Header
synack_header seq ack = record { seq = seq; ack = ack; off = 5; flags = 18; win = 3072 }

abbrev ack_header : (seq ack : ℕ) → Header
ack_header seq ack = record { seq = seq; ack = ack; off = 5; flags = 16; win = 3072 }

-- The passive end after the SYN.
record IsAnswered (active passive : ℕ) (c : Conn) : Type 0 where
  pub next : c.ctx.send_next ≡ add32 passive 1
  pub recv : c.ctx.recv_next ≡ add32 active 1
  pub last : last_header c.sent ≡ some (synack_header passive (add32 active 1))
  pub kept : Returns (λ t. Unit {0}) (first_timeout c.ctx.rto c.ctx.unackd_packets)

-- The active end after the SYN/ACK.
record IsOpen (active passive : ℕ) (c : Conn) : Type 0 where
  pub state : c.ctx.connection_state ≡ established
  pub next : c.ctx.send_next ≡ add32 active 1
  pub recv : c.ctx.recv_next ≡ add32 passive 1
  pub last : last_header c.sent ≡ some (ack_header (add32 active 1) (add32 passive 1))

same_number : (n m : ℕ) → n ≡ m → (n == m) ≡ true
same_number n m e = ground arith

syn_sent_last :
    (t0 : Timespec) (active : ℕ)
    → last_header (send_syn t0 (start active)).sent ≡ some (syn_header active)
unfolding send_syn start start_context send_kept make_stcp_packet
syn_sent_last t0 active = refl

client_lem :
    (t0 t2 : Timespec) (active passive : ℕ)
    → Returns (IsOpen active passive) (
        client_step t2 (send_syn t0 (start active)) (bare (synack_header passive (add32 active 1))))
unfolding client_step send_syn start start_context send_kept packet_t_create make_stcp_packet
    first_timeout answer_synack send_ack
client_lem t0 t2 active passive =
    let (c, e, n) =
      recv_packet-bare t2 (send_syn t0 (start active)).ctx (synack_header passive (add32 active 1))
        refl in
    rw (e, same_number (add32 active 1) c.send_next (sym n.send))
      (record {
        state = refl;
        next = n.send;
        recv = n.recv;
        last =
            ap (λ t. some (ack_header t c.recv_next)) n.send
            ∙ ap (λ t. some (ack_header (add32 active 1) t)) n.recv;
      })

something_kept :
    (rto : Timespec) (ps : List Unacked) (p : Unacked)
    → Returns (λ t. Unit {0}) (first_timeout rto (ps ++ (p ∷ [])))
unfolding first_timeout
something_kept rto [] p = tt
something_kept rto (q ∷ qs) p = tt

listen_lem :
    (t1 : Timespec) (active passive : ℕ)
    → Returns
        (IsAnswered active passive)
        (listen_step t1 passive (start passive) (bare (syn_header active)))
unfolding listen_step start start_context answer_syn send_synack make_stcp_packet packet_t_create
    first_timeout
listen_lem t1 active passive =
    let (c, e, n) = recv_packet-bare t1 (start_context passive) (syn_header active) refl in
    rw e (record {
      next = ap (λ t. add32 t 1) n.send;
      recv = n.recv;
      last =
          ap (λ t. some (synack_header t c.recv_next)) (n.unack refl)
          ∙ ap (λ t. some (synack_header passive t)) n.recv;
      kept = something_kept _ (c.unackd_packets ++ (_ ∷ [])) _;
    })

-- The passive end after the ACK.
abbrev IsDone : (active passive : ℕ) → Conn → Type 0
IsDone active passive c =
    (c.ctx.connection_state ≡ established)
    × (c.ctx.recv_next ≡ add32 active 1)
    × (c.ctx.send_next ≡ add32 passive 1)

server_lem :
    (t3 : Timespec) (active passive : ℕ) (conn : Conn)
    → IsAnswered active passive conn
    → Returns
        (IsDone active passive)
        (server_step t3 conn (bare (ack_header (add32 active 1) (add32 passive 1))))
unfolding server_step finish_open
server_lem t3 active passive conn a =
    bind-Returns (λ t. Unit {0}) (IsDone active passive)
      (first_timeout conn.ctx.rto conn.ctx.unackd_packets) _ a.kept
      (λ t u.
        let (c, e, n) =
          recv_packet-bare t3 conn.ctx (ack_header (add32 active 1) (add32 passive 1)) refl in
        rw (e, same_number (add32 passive 1) c.send_next (sym (n.send ∙ a.next)))
          (refl, n.recv ∙ a.recv, n.send ∙ a.next))

-- Over a network that loses nothing, an active and a passive end both reach ESTABLISHED, whatever
-- their initial sequence numbers and the times, and each expects the byte that the other sends
-- next, which is the one after its initial number.
pub handshake-IsConnected :
    (t0 t1 t2 t3 : Timespec) (active passive : ℕ)
    → Returns (λ r. IsConnected active passive (r.0) r.1) (handshake t0 t1 t2 t3 active passive)
unfolding handshake
handshake-IsConnected t0 t1 t2 t3 active passive = rw (syn_sent_last t0 active) (
    bind-Returns (IsAnswered active passive) _
      (listen_step t1 passive (start passive) (bare (syn_header active))) _
      (listen_lem t1 active passive)
      (λ s a. rw a.last (
        bind-Returns (IsOpen active passive) _
          (client_step t2 (send_syn t0 (start active))
            (bare (synack_header passive (add32 active 1))))
          _ (client_lem t0 t2 active passive)
          (λ c o. rw o.last (
            bind-Returns (IsDone active passive) _
              (server_step t3 s (bare (ack_header (add32 active 1) (add32 passive 1)))) _
              (server_lem t3 active passive s a)
              (λ d h. record {
                client_open = o.state;
                server_open = h.0;
                to_server = h.1 ∙ sym o.next;
                to_client = o.recv ∙ sym h.2;
                client_first = o.next;
                server_first = h.2;
              }))))))
