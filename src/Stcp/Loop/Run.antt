-- ===== src/Stcp/Loop/Run.antt =====
-- stcp/transport.c: control_loop from event to event.
use uchi_networks.Common.{
  ℕ, ◌+◌, ◌≡◌, inl, inr, refl, ap, sym, ◌∙◌, Bool, true, false, ◌==◌, if◌then◌else◌, List, [], ◌∷◌,
  Option, none, some, length, ◌>>=◌, All, Bool-cases, Ensures, bind-Ensures, then-Ensures,
  if-Ensures,
}
use uchi_networks.Stcp.Types.{
  Segment, Out, Timespec, Conn, State, established, syn_sent, syn_received, fin_wait1, fin_wait2,
  close_wait, last_ack, closing, closed,
}
use uchi_networks.Stcp.Window.Stream.{Source}
use uchi_networks.Stcp.Rto.{wait_until}
use uchi_networks.Stcp.Recv.{packet_t_create}
use uchi_networks.Stcp.Recv.Window.{HasWindow, IsWaiting-moved, IsFrom}
use uchi_networks.Stcp.Loop.{
  send_kept, app_payload, on_app, close_in, on_close, on_timeout, Event, app_part, network_part,
  close_part, is_timeout, iterate, run,
}
use uchi_networks.Stcp.Loop.Reader.{IsReader, on_network-IsReader}

-- The packet of the round, if there is one, has the peer's bytes.
abbrev pub FromPeer : Source → Option Segment → Type 0
FromPeer src none = Unit {0}
FromPeer src (some seg) = IsFrom src seg

-- What the application was given, and the window, are the same.
record HasRead (c d : Conn) : Type 0 where
  pub window : HasWindow c.ctx d.ctx
  pub delivered : d.delivered ≡ c.delivered

module _ (src : Source) (from : ℕ) where
  read-IsReader : (c d : Conn) → HasRead c d → IsReader src from c → IsReader src from d
  read-IsReader c d h r = record {
    waiting = IsWaiting-moved src c.ctx d.ctx h.window r.waiting;
    upto = h.window.next ∙ r.upto ∙ ap (λ t. from + length t) (sym h.delivered);
    same = rw h.delivered r.same;
  }

same_read : (c : Conn) → HasRead c c
same_read c = record {
  window = record { next = refl; buffer = refl; indicator = refl };
  delivered = refl;
}

send_kept-HasRead :
    (now : Timespec) (conn : Conn) (packet : Out) (n : ℕ)
    → HasRead conn (send_kept now conn packet n)
unfolding send_kept packet_t_create
send_kept-HasRead now conn packet n = record {
  window = record { next = refl; buffer = refl; indicator = refl };
  delivered = refl;
}

on_app-HasRead :
    (now : Timespec) (conn : Conn) (written : List ℕ) → HasRead conn (on_app now conn written)
unfolding on_app
on_app-HasRead now conn written = elim (Bool-cases (length (app_payload conn.ctx written) == 0)) [
  | inl e ↦ rw e (same_read conn)
  | inr e ↦ rw e (send_kept-HasRead now conn _ _)
]

app_part-HasRead :
    (now : Timespec) (conn : Conn) (written : Option (List ℕ))
    → HasRead conn (app_part now conn written)
app_part-HasRead now conn none = same_read conn
app_part-HasRead now conn (some written) = on_app-HasRead now conn written

close_in-HasRead : (now : Timespec) (s : State) (conn : Conn) → HasRead conn (close_in now s conn)
unfolding close_in send_kept packet_t_create
close_in-HasRead now established conn = record {
  window = record { next = refl; buffer = refl; indicator = refl };
  delivered = refl;
}
close_in-HasRead now syn_sent conn = same_read conn
close_in-HasRead now syn_received conn = same_read conn
close_in-HasRead now fin_wait1 conn = same_read conn
close_in-HasRead now fin_wait2 conn = same_read conn
close_in-HasRead now close_wait conn = record {
  window = record { next = refl; buffer = refl; indicator = refl };
  delivered = refl;
}
close_in-HasRead now last_ack conn = same_read conn
close_in-HasRead now closing conn = same_read conn
close_in-HasRead now closed conn = same_read conn

on_timeout-HasRead : (now : Timespec) (conn : Conn) → HasRead conn (on_timeout now conn)
unfolding on_timeout
on_timeout-HasRead now conn = record {
  window = record { next = refl; buffer = refl; indicator = refl };
  delivered = refl;
}

module _ (src : Source) (from : ℕ) where
  if-IsReader :
      (b : Bool) (x y : Conn)
      → IsReader src from x
      → IsReader src from y
      → IsReader src from (if b then x else y)
  if-IsReader true x y h k = h
  if-IsReader false x y h k = k

  close_part-IsReader :
      (now : Timespec) (conn : Conn) (e : Event)
      → IsReader src from conn
      → IsReader src from (close_part now conn e)
  unfolding on_close
  close_part-IsReader now conn e r =
      if-IsReader (is_timeout e) _ _ (read-IsReader src from _ _ (on_timeout-HasRead now _) asked)
        asked
    where
      asked : IsReader src from (if e.close_requested then on_close now conn else conn)
      asked =
          if-IsReader e.close_requested (on_close now conn) conn
            (read-IsReader src from conn (on_close now conn)
              (close_in-HasRead now conn.ctx.connection_state conn) r)
            r

  network_part-IsReader :
      (now : Timespec) (conn : Conn) (seg : Option Segment)
      → FromPeer src seg
      → IsReader src from conn
      → Ensures (IsReader src from) (network_part now conn seg)
  network_part-IsReader now conn none f r = r
  network_part-IsReader now conn (some seg) f r = on_network-IsReader src from now conn seg r f

  iterate-IsReader :
      (now : Timespec) (conn : Conn) (e : Event)
      → FromPeer src e.network_data
      → IsReader src from conn
      → Ensures (IsReader src from) (iterate now conn e)
  unfolding iterate
  iterate-IsReader now conn e f r = then-Ensures (IsReader src from) (wait_until conn.ctx) _ (λ t.
      bind-Ensures (IsReader src from) (IsReader src from)
        (network_part now (app_part now conn e.app_data) e.network_data) _
        (network_part-IsReader now (app_part now conn e.app_data) e.network_data f
          (read-IsReader src from conn _ (app_part-HasRead now conn e.app_data) r))
        (λ c k. if-IsReader c.left c (close_part now c e) k (close_part-IsReader now c e k)))

  -- Whatever the order of the peer's packets, of the application's writes, of a close and of
  -- timeouts, with packets lost, late or doubled: what the application has been given is the
  -- peer's bytes, in order and without a gap, up to recv_next. The packets have neither SYN nor
  -- FIN, no round faults, and the peer's numbers stay below 2^31.
  pub run-IsReader :
      (conn : Conn) (es : List (Timespec × Event))
      → IsReader src from conn
      → All (λ te. FromPeer src te.1.network_data) es
      → Ensures (IsReader src from) (run conn es)
  unfolding run
  run-IsReader conn [] r a = r
  run-IsReader conn ((now, e) ∷ es) r a =
      if-Ensures (IsReader src from) conn.left (some conn) (iterate now conn e >>= λ c. run c es) r
        (bind-Ensures (IsReader src from) (IsReader src from) (iterate now conn e) (λ c. run c es)
          (iterate-IsReader now conn e a.0 r) (λ c k. run-IsReader c es k a.1))
