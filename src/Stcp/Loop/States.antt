-- ===== src/Stcp/Loop/States.antt =====
-- stcp/transport.c: the state of the connection in control_loop, against the state diagram of TCP.
use uchi_networks.Common.{
  ℕ, ◌≡◌, inl, inr, refl, sym, subst, ◌∙◌, Bool, true, false, not, ◌&&◌, ◌==◌, ltb, if◌then◌else◌,
  List, [], ◌∷◌, Option, none, some, length, take, ◌>>=◌, Bool-cases, Ensures, bind-Ensures,
  then-Ensures, if-Ensures, map-Ensures, both-Ensures, arith,
}
use uchi_networks.Stcp.Types.{
  header_size, Header, Segment, Timespec, Context, Got, bad, old, bytes, has_ack, has_fin, Conn,
  State, established, syn_sent, syn_received, fin_wait1, fin_wait2, close_wait, last_ack, closing,
  closed,
}
use uchi_networks.Stcp.Window.{Placed, beyond, placed, first_gap, app_send, slide}
use uchi_networks.Stcp.Rto.{wait_until}
use uchi_networks.Stcp.Recv.{packet_t_create, place_payload, finish, recv_packet, Received}
use uchi_networks.Stcp.Recv.Sent.{IsPlacedSent, place_payload-HasSent}
use uchi_networks.Stcp.Recv.Bare.{note_header-IsNoted}
use uchi_networks.Stcp.Loop.{
  send_ack, send_kept, app_payload, on_app, hand_over, ack_in, ack_part, fin_in, on_fin, fin_part,
  teardown, on_network, close_in, on_close, on_timeout, Event, app_part, network_part, close_part,
  is_timeout, iterate, run,
}

-- What moves a connection: an acknowledgement, a FIN, and the application's close.
pub data Cause : Type 0 where
  acks : Cause
  fin : Cause
  close : Cause

-- The arrows of the diagram behind ESTABLISHED, with what each of them needs. There is no TIME_WAIT:
-- FIN_WAIT2 and CLOSING are left for CLOSED at once.
pub data IsEdge : Cause → State → State → Type 0 where
  close_first : IsEdge close established fin_wait1
  fin_acked : IsEdge acks fin_wait1 fin_wait2
  fin_received : IsEdge fin established close_wait
  fin_crossed : IsEdge fin fin_wait1 closing
  fin_second : IsEdge fin fin_wait2 closed
  close_second : IsEdge close close_wait last_ack
  last_acked : IsEdge acks last_ack closed
  crossed_acked : IsEdge acks closing closed

-- Arrows of which each has its cause among the given ones.
pub data IsPath (a : Cause → Bool) : State → State → Type 0 where
  here : {s : State} → IsPath a s s
  via : {c : Cause} {s t u : State} → a c ≡ true → IsEdge c s t → IsPath a t u → IsPath a s u

IsPath-trans : {a : Cause → Bool} {s t u : State} → IsPath a s t → IsPath a t u → IsPath a s u
IsPath-trans here q = q
IsPath-trans (via h e p) q = via h e (IsPath-trans p q)

abbrev state_of : Conn → State
state_of c = c.ctx.connection_state

-- The causes that a round of control_loop has.
abbrev pub causes : Event → Cause → Bool
causes e acks = elim e.network_data [ none ↦ false | some seg ↦ has_ack seg.header ]
causes e fin = elim e.network_data [ none ↦ false | some seg ↦ has_fin seg.header ]
causes e close = e.close_requested

-- The state of the second comes from that of the first along arrows with these causes.
abbrev Follows : (Cause → Bool) → Conn → Conn → Type 0
Follows a c d = IsPath a c.ctx.connection_state d.ctx.connection_state

-- One round after the other, each with the causes of its own event.
pub data IsCourse : List (Timespec × Event) → State → State → Type 0 where
  begun : {s : State} → IsCourse [] s s
  round :
      {x : Timespec × Event} {es : List (Timespec × Event)} {s t u : State}
      → IsPath (causes x.1) s t
      → IsCourse es t u
      → IsCourse (x ∷ es) s u

IsCourse-stay : (es : List (Timespec × Event)) (s : State) → IsCourse es s s
IsCourse-stay [] s = begun
IsCourse-stay (x ∷ es) s = round here (IsCourse-stay es s)

abbrev pub Runs : List (Timespec × Event) → Conn → Conn → Type 0
Runs es c d = IsCourse es c.ctx.connection_state d.ctx.connection_state

same_state : {a : Cause → Bool} (s t : State) → t ≡ s → IsPath a s t
same_state {a} s t e = subst (λ u. IsPath a s u) (sym e) here

ack_in-IsPath :
    (a : Cause → Bool)
    → a acks ≡ true
    → (s : State) (conn : Conn) → state_of conn ≡ s
    → IsPath a s (state_of (ack_in s conn))
unfolding ack_in
ack_in-IsPath a h established conn e = same_state established (state_of conn) e
ack_in-IsPath a h syn_sent conn e = same_state syn_sent (state_of conn) e
ack_in-IsPath a h syn_received conn e = same_state syn_received (state_of conn) e
ack_in-IsPath a h fin_wait1 conn e = via h fin_acked here
ack_in-IsPath a h fin_wait2 conn e = same_state fin_wait2 (state_of conn) e
ack_in-IsPath a h close_wait conn e = same_state close_wait (state_of conn) e
ack_in-IsPath a h last_ack conn e = via h last_acked here
ack_in-IsPath a h closing conn e = via h crossed_acked here
ack_in-IsPath a h closed conn e = same_state closed (state_of conn) e

fin_in-IsPath :
    (a : Cause → Bool)
    → a fin ≡ true
    → (s : State) (conn : Conn) → state_of conn ≡ s
    → IsPath a s (state_of (fin_in s conn))
unfolding fin_in
fin_in-IsPath a h established conn e = via h fin_received here
fin_in-IsPath a h syn_sent conn e = same_state syn_sent (state_of conn) e
fin_in-IsPath a h syn_received conn e = same_state syn_received (state_of conn) e
fin_in-IsPath a h fin_wait1 conn e = via h fin_crossed here
fin_in-IsPath a h fin_wait2 conn e = via h fin_second here
fin_in-IsPath a h close_wait conn e = same_state close_wait (state_of conn) e
fin_in-IsPath a h last_ack conn e = same_state last_ack (state_of conn) e
fin_in-IsPath a h closing conn e = same_state closing (state_of conn) e
fin_in-IsPath a h closed conn e = same_state closed (state_of conn) e

close_in-IsPath :
    (a : Cause → Bool)
    → a close ≡ true
    → (now : Timespec) (s : State) (conn : Conn) → state_of conn ≡ s
    → IsPath a s (state_of (close_in now s conn))
unfolding close_in
close_in-IsPath a h now established conn e = via h close_first here
close_in-IsPath a h now syn_sent conn e = same_state syn_sent (state_of conn) e
close_in-IsPath a h now syn_received conn e = same_state syn_received (state_of conn) e
close_in-IsPath a h now fin_wait1 conn e = same_state fin_wait1 (state_of conn) e
close_in-IsPath a h now fin_wait2 conn e = same_state fin_wait2 (state_of conn) e
close_in-IsPath a h now close_wait conn e = via h close_second here
close_in-IsPath a h now last_ack conn e = same_state last_ack (state_of conn) e
close_in-IsPath a h now closing conn e = same_state closing (state_of conn) e
close_in-IsPath a h now closed conn e = same_state closed (state_of conn) e

if-IsPath :
    (a : Cause → Bool) (s : State) (b : Bool) (x y : Conn)
    → (b ≡ true → IsPath a s (state_of x))
    → IsPath a s (state_of y)
    → IsPath a s (state_of (if b then x else y))
if-IsPath a s true x y p q = p refl
if-IsPath a s false x y p q = q

-- The flags of a header are among the causes.
pub record IsFlagged (a : Cause → Bool) (h : Header) : Type 0 where
  pub ack : has_ack h ≡ true → a acks ≡ true
  pub fin_flag : has_fin h ≡ true → a fin ≡ true

module _ (a : Cause → Bool) (h : Header) (flags : IsFlagged a h) where
  fin_part-IsPath : (conn : Conn) → Follows a conn (fin_part conn h)
  unfolding fin_part on_fin send_ack
  fin_part-IsPath conn =
      if-IsPath a (state_of conn) (not conn.left && has_fin h) _ conn
        (λ e. fin_in-IsPath a (flags.fin_flag (ground (arith, e))) (state_of conn) _ refl) here

  teardown-IsPath : (conn : Conn) → Follows a conn (teardown conn h)
  unfolding teardown ack_part
  teardown-IsPath conn =
      IsPath-trans
        (if-IsPath a (state_of conn) (has_ack h) (ack_in (state_of conn) conn) conn
          (λ e. ack_in-IsPath a (flags.ack e) (state_of conn) conn refl) here)
        (fin_part-IsPath (if has_ack h then ack_in (state_of conn) conn else conn))

recv_packet_flags :
    (a : Cause → Bool) (now : Timespec) (ctx : Context) (seg : Segment)
    → IsFlagged a seg.header
    → Ensures (λ (r : Received). IsFlagged a r.header) (recv_packet now ctx seg)
unfolding recv_packet
recv_packet_flags a now ctx seg f =
    elim (Bool-cases (ltb (length (take 596 seg.raw)) header_size)) [
      | inl e ↦ rw e (record { ack = λ t. ground (arith, t); fin_flag = λ t. ground (arith, t) })
      | inr e ↦ rw e (
          then-Ensures (λ (r : Received). IsFlagged a r.header)
            (place_payload ctx seg.header (take 596 seg.raw))
            (λ p. some (finish now ctx seg.header p)) after)
    ]
  where
    after : (p : Placed) → IsFlagged a (finish now ctx seg.header p).header
    after beyond = f
    after (placed c g) = f

-- recv_packet leaves the state as it is.
recv_packet_state :
    (now : Timespec) (ctx : Context) (seg : Segment)
    → Ensures
        (λ (r : Received). r.ctx.connection_state ≡ ctx.connection_state)
        (recv_packet now ctx seg)
unfolding recv_packet
recv_packet_state now ctx seg = elim (Bool-cases (ltb (length (take 596 seg.raw)) header_size)) [
  | inl e ↦ rw e refl
  | inr e ↦ rw e (
      bind-Ensures (IsPlacedSent ctx)
        (λ (r : Received). r.ctx.connection_state ≡ ctx.connection_state)
        (place_payload ctx seg.header (take 596 seg.raw)) (λ p. some (finish now ctx seg.header p))
        (place_payload-HasSent ctx seg.header (take 596 seg.raw)) after)
]
  where
    after :
        (p : Placed)
        → IsPlacedSent ctx p
        → (finish now ctx seg.header p).ctx.connection_state ≡ ctx.connection_state
    after beyond h = refl
    after (placed c g) h = (note_header-IsNoted now c seg.header).state ∙ h.state

app_send_state :
    (ctx : Context) (n : ℕ)
    → Ensures
        (λ (r : List ℕ × Context). r.1.connection_state ≡ ctx.connection_state)
        (app_send ctx n)
unfolding app_send slide
app_send_state ctx n =
    then-Ensures (λ (r : List ℕ × Context). r.1.connection_state ≡ ctx.connection_state)
      (first_gap ctx.recv_indicator) (λ g. some (take n ctx.recv_buffer, slide ctx g)) (λ g. refl)

hand_over_state :
    (conn : Conn) (got : Got)
    → Ensures (λ (c : Conn). state_of c ≡ state_of conn) (hand_over conn got)
unfolding hand_over send_ack
hand_over_state conn bad = refl
hand_over_state conn old = refl
hand_over_state conn (bytes n) = elim (Bool-cases (n == 0)) [
  | inl e ↦ rw e refl
  | inr e ↦ rw e (
      bind-Ensures (λ (r : List ℕ × Context). r.1.connection_state ≡ conn.ctx.connection_state)
        (λ (c : Conn). state_of c ≡ state_of conn) (app_send conn.ctx n) _
        (app_send_state conn.ctx n) (λ r k. k))
]

on_network-IsPath :
    (a : Cause → Bool) (now : Timespec) (conn : Conn) (seg : Segment)
    → IsFlagged a seg.header
    → Ensures (Follows a conn) (on_network now conn seg)
unfolding on_network
on_network-IsPath a now conn seg f =
    bind-Ensures (λ (r : Received). (r.ctx.connection_state ≡ state_of conn) × IsFlagged a r.header)
      (Follows a conn) (recv_packet now conn.ctx seg) _
      (both-Ensures (λ (r : Received). r.ctx.connection_state ≡ state_of conn)
        (λ (r : Received). IsFlagged a r.header) (recv_packet now conn.ctx seg)
        (recv_packet_state now conn.ctx seg) (recv_packet_flags a now conn.ctx seg f))
      (λ r e.
        bind-Ensures (λ (c : Conn). state_of c ≡ r.ctx.connection_state) (Follows a conn)
          (hand_over (record conn { ctx = r.ctx }) r.got) _
          (hand_over_state (record conn { ctx = r.ctx }) r.got)
          (λ c k.
            IsPath-trans (same_state (state_of conn) (state_of c) (k ∙ e.0))
              (teardown-IsPath a r.header e.1 c)))

on_app_state :
    (now : Timespec) (conn : Conn) (written : List ℕ)
    → state_of (on_app now conn written) ≡ state_of conn
unfolding on_app send_kept packet_t_create
on_app_state now conn written = elim (Bool-cases (length (app_payload conn.ctx written) == 0)) [
  | inl e ↦ rw e refl
  | inr e ↦ rw e refl
]

app_part_state :
    (now : Timespec) (conn : Conn) (written : Option (List ℕ))
    → state_of (app_part now conn written) ≡ state_of conn
app_part_state now conn none = refl
app_part_state now conn (some written) = on_app_state now conn written

network_part-IsPath :
    (now : Timespec) (conn : Conn) (e : Event)
    → Ensures (Follows (causes e) conn) (network_part now conn e.network_data)
network_part-IsPath now conn e = from e.network_data refl
  where
    from :
        (o : Option Segment)
        → e.network_data ≡ o
        → Ensures (Follows (causes e) conn) (network_part now conn o)
    from none p = here
    from (some seg) p =
        on_network-IsPath (causes e) now conn seg
          (record { ack = λ t. rw p t; fin_flag = λ t. rw p t })

on_timeout_state : (now : Timespec) (conn : Conn) → state_of (on_timeout now conn) ≡ state_of conn
unfolding on_timeout
on_timeout_state now conn = refl

close_part-IsPath :
    (now : Timespec) (conn : Conn) (e : Event) → Follows (causes e) conn (close_part now conn e)
unfolding on_close
close_part-IsPath now conn e =
    if-IsPath (causes e) (state_of conn) (is_timeout e) _ _
      (λ t. IsPath-trans asked (same_state _ _ (on_timeout_state now _))) asked
  where
    asked : Follows (causes e) conn (if e.close_requested then on_close now conn else conn)
    asked =
        if-IsPath (causes e) (state_of conn) e.close_requested (on_close now conn) conn
          (λ h. close_in-IsPath (causes e) h now (state_of conn) conn refl) here

iterate-IsPath :
    (now : Timespec) (conn : Conn) (e : Event)
    → Ensures (Follows (causes e) conn) (iterate now conn e)
unfolding iterate
iterate-IsPath now conn e = then-Ensures (Follows (causes e) conn) (wait_until conn.ctx) _ (λ t.
    bind-Ensures (Follows (causes e) (app_part now conn e.app_data)) (Follows (causes e) conn)
      (network_part now (app_part now conn e.app_data) e.network_data) _
      (network_part-IsPath now (app_part now conn e.app_data) e)
      (λ c k. IsPath-trans (IsPath-trans (same_state _ _ (app_part_state now conn e.app_data)) k) (
        if-IsPath (causes e) (state_of c) c.left c (close_part now c e) (λ l. here)
          (close_part-IsPath now c e))))

-- Whatever happens, as long as no round faults: in each round the state of the connection moves only
-- along arrows of the diagram behind ESTABLISHED whose cause the round has. From ESTABLISHED a close
-- leads to FIN_WAIT1 and a FIN to CLOSE_WAIT; from FIN_WAIT1 an acknowledgement leads to FIN_WAIT2 and
-- a FIN to CLOSING; from CLOSE_WAIT a close leads to LAST_ACK; and CLOSED is reached by a FIN from
-- FIN_WAIT2 and by an acknowledgement from LAST_ACK and CLOSING.
pub run-Follows :
    (conn : Conn) (es : List (Timespec × Event)) → Ensures (Runs es conn) (run conn es)
unfolding run
run-Follows conn [] = begun
run-Follows conn ((now, e) ∷ es) =
    if-Ensures (Runs ((now, e) ∷ es) conn) conn.left (some conn)
      (iterate now conn e >>= λ c. run c es) (IsCourse-stay ((now, e) ∷ es) (state_of conn))
      (bind-Ensures (Follows (causes e) conn) (Runs ((now, e) ∷ es) conn) (iterate now conn e)
        (λ c. run c es) (iterate-IsPath now conn e)
        (λ c k.
          map-Ensures (Runs es c) (Runs ((now, e) ∷ es) conn) (run c es) (λ d q. round k q)
            (run-Follows c es)))
