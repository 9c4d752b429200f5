-- ===== src/Stcp/Loop/Reader.antt =====
-- stcp/transport.c: control_loop on packets with data: what the application is given.
use uchi_networks.Common.{
  ℕ, ◌+◌, ◌-◌, ◌≤◌, ◌<◌, ◌≡◌, inl, inr, refl, ap, subst, ◌∙◌, arith, Bool, false, ltb, ◌==◌, not,
  ◌&&◌, List, ◌++◌, length, get_or, take, Bool-cases, Ensures, bind-Ensures, length-append, ltb→lt,
}
use uchi_networks.Stcp.Types.{
  Header, Segment, Timespec, Context, Got, bad, old, bytes, has_ack, has_fin, Conn, State,
  established, fin_wait1, fin_wait2, close_wait, last_ack, closing, closed, syn_sent, syn_received,
}
use uchi_networks.Stcp.Window.{slide}
use uchi_networks.Stcp.Window.Arrays.{first_gap-IsGap, get_or-append_left, get_or-append_right}
use uchi_networks.Stcp.Window.Stream.{Source, IsWaiting, IsStored}
use uchi_networks.Stcp.Window.Deliver.{IsHandedOver, app_send_eq, app_send-IsHandedOver}
use uchi_networks.Stcp.Recv.{recv_packet, Received}
use uchi_networks.Stcp.Recv.Window.{IsWaiting-moved, IsFrom, IsGot, recv_packet-IsGot}
use uchi_networks.Stcp.Loop.{send_ack, hand_over, ack_in, ack_part, fin_part, teardown, on_network}

-- The application was given the source's bytes from number `from` up to recv_next.
pub record IsReader (src : Source) (from : ℕ) (conn : Conn) : Type 0 where
  pub waiting : IsWaiting src conn.ctx
  pub upto : conn.ctx.recv_next ≡ from + length conn.delivered
  pub same : (k : ℕ) → k < length conn.delivered → get_or conn.delivered k 0 ≡ src.byte (from + k)

stored-IsWaiting :
    (src : Source) (b c : Context)
    → IsStored src b c 0
    → IsWaiting src c × (c.recv_next ≡ b.recv_next)
stored-IsWaiting src b c s = (
  record {
    window = record {
      room = s.room;
      due = omega (arith, s.due, s.moved);
      buffer_size = s.buffer_size;
      indicator_size = s.indicator_size;
      held = λ i l e. rw at_next (s.held i l e);
    };
    first = (first_gap-IsGap c.recv_indicator 0 s.gap).here;
  },
  at_next,
)
  where
    at_next : c.recv_next ≡ b.recv_next
    at_next = omega (arith, s.moved)

ack_in-delivered : (s : State) (conn : Conn) → (ack_in s conn).delivered ≡ conn.delivered
unfolding ack_in
ack_in-delivered established conn = refl
ack_in-delivered syn_sent conn = refl
ack_in-delivered syn_received conn = refl
ack_in-delivered fin_wait1 conn = refl
ack_in-delivered fin_wait2 conn = refl
ack_in-delivered close_wait conn = refl
ack_in-delivered last_ack conn = refl
ack_in-delivered closing conn = refl
ack_in-delivered closed conn = refl

no_fin_off : (a b : Bool) → b ≡ false → (not a && b) ≡ false
no_fin_off a b q = ground arith

pub teardown-delivered :
    (conn : Conn) (h : Header) → has_fin h ≡ false → (teardown conn h).delivered ≡ conn.delivered
unfolding teardown ack_part fin_part
teardown-delivered conn h e =
    rw (no_fin_off (ack_part conn h).left (has_fin h) e) (elim (Bool-cases (has_ack h)) [
      | inl a ↦ rw a (ack_in-delivered conn.ctx.connection_state conn)
      | inr a ↦ rw a refl
    ])

stay :
    {src : Source} {c : Context} {s : State}
    → IsWaiting src c
    → IsWaiting src (record c { connection_state = s })
stay {src} {c} {s} w =
    IsWaiting-moved src c (record c { connection_state = s })
      (record { next = refl; buffer = refl; indicator = refl }) w

module _ (src : Source) (from : ℕ) where
  -- The connection with another context, whose window has not moved.
  IsReader-with :
      (conn : Conn) (c : Context)
      → IsReader src from conn
      → IsWaiting src c × (c.recv_next ≡ conn.ctx.recv_next)
      → IsReader src from (record conn { ctx = c })
  IsReader-with conn c r h = record { waiting = h.0; upto = h.1 ∙ r.upto; same = r.same }

  more_bytes :
      (xs ds : List ℕ) (n g : ℕ)
      → n ≡ from + length xs
      → length ds ≡ g
      → ((k : ℕ) → k < length xs → get_or xs k 0 ≡ src.byte (from + k))
      → ((k : ℕ) → k < g → get_or ds k 0 ≡ src.byte (n + k))
      → (k : ℕ) → k < length (xs ++ ds)
      → get_or (xs ++ ds) k 0 ≡ src.byte (from + k)
  more_bytes xs ds n g e size a b k h = elim (Bool-cases (ltb k (length xs))) [
    | inl l ↦ get_or-append_left xs ds k 0 (ltb→lt k (length xs) l) ∙ a k (ltb→lt k (length xs) l)
    | inr l ↦ later (ground arith)
  ]
    where
      later : length xs ≤ k → get_or (xs ++ ds) k 0 ≡ src.byte (from + k)
      later l =
          get_or-append_right xs ds k 0 l
          ∙ b (k - length xs) (omega (arith, length-append xs ds, size))
          ∙ ap src.byte (omega (arith, e))

  hand_over-IsReader :
      (conn : Conn) (c : Context) (got : Got)
      → IsReader src from conn
      → IsGot src conn.ctx c got
      → Ensures (IsReader src from) (hand_over (record conn { ctx = c }) got)
  unfolding hand_over send_ack
  hand_over-IsReader conn c bad r h = IsReader-with conn c r h
  hand_over-IsReader conn c old r h = record { waiting = h.0; upto = h.1 ∙ r.upto; same = r.same }
  hand_over-IsReader conn c (bytes n) r h = elim (Bool-cases (n == 0)) [
    | inl e ↦ rw e (
        IsReader-with conn c r (
          stored-IsWaiting src conn.ctx c
            (subst (λ t. IsStored src conn.ctx c t) (ground arith) h)))
    | inr e ↦
        rw (e, app_send_eq src conn.ctx c n h)
          (record {
            waiting = over.waiting;
            upto =
                over.moved
                ∙ omega (
                  arith,
                  r.upto,
                  over.count,
                  length-append conn.delivered (take n c.recv_buffer),
                );
            same =
                more_bytes conn.delivered (take n c.recv_buffer) conn.ctx.recv_next n r.upto
                  over.count r.same over.same;
          })
  ]
    where
      over : IsHandedOver src conn.ctx.recv_next n (take n c.recv_buffer) (slide c n)
      over = app_send-IsHandedOver src conn.ctx c n h

  ack_in-IsReader :
      (s : State) (conn : Conn) → IsReader src from conn → IsReader src from (ack_in s conn)
  unfolding ack_in
  ack_in-IsReader established conn r = r
  ack_in-IsReader syn_sent conn r = r
  ack_in-IsReader syn_received conn r = r
  ack_in-IsReader fin_wait1 conn r = record {
    waiting = stay r.waiting;
    upto = r.upto;
    same = r.same;
  }
  ack_in-IsReader fin_wait2 conn r = r
  ack_in-IsReader close_wait conn r = r
  ack_in-IsReader last_ack conn r = record {
    waiting = stay r.waiting;
    upto = r.upto;
    same = r.same;
  }
  ack_in-IsReader closing conn r = record { waiting = stay r.waiting; upto = r.upto; same = r.same }
  ack_in-IsReader closed conn r = r

  no_fin_part :
      (conn : Conn) (h : Header)
      → has_fin h ≡ false
      → IsReader src from conn
      → IsReader src from (fin_part conn h)
  unfolding fin_part
  no_fin_part conn h e r = rw (no_fin_off conn.left (has_fin h) e) r

  teardown-IsReader :
      (conn : Conn) (h : Header)
      → has_fin h ≡ false
      → IsReader src from conn
      → IsReader src from (teardown conn h)
  unfolding teardown ack_part
  teardown-IsReader conn h e r = elim (Bool-cases (has_ack h)) [
    | inl a ↦ rw a (
        no_fin_part (ack_in conn.ctx.connection_state conn) h e
          (ack_in-IsReader conn.ctx.connection_state conn r))
    | inr a ↦ rw a (no_fin_part conn h e r)
  ]

  -- Packets with the peer's bytes, in any order, doubled or not, keep this of a connection: the
  -- application was given exactly the peer's bytes, in order, up to recv_next. The packets have
  -- neither SYN nor FIN, and the peer's numbers stay below 2^31.
  pub on_network-IsReader :
      (now : Timespec) (conn : Conn) (seg : Segment)
      → IsReader src from conn
      → IsFrom src seg
      → Ensures (IsReader src from) (on_network now conn seg)
  unfolding on_network
  on_network-IsReader now conn seg r f =
      bind-Ensures (λ (g : Received). (has_fin g.header ≡ false) × IsGot src conn.ctx g.ctx g.got)
        (IsReader src from) (recv_packet now conn.ctx seg) _
        (recv_packet-IsGot src now conn.ctx seg r.waiting f)
        (λ g h.
          bind-Ensures (IsReader src from) (IsReader src from)
            (hand_over (record conn { ctx = g.ctx }) g.got) _
            (hand_over-IsReader conn g.ctx g.got r h.1) (λ c k. teardown-IsReader c g.header h.0 k))
