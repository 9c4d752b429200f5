-- ===== src/Stcp/Loop.antt =====
-- stcp/transport.c: control_loop.
pub mod Reader
pub mod Progress
pub mod Sender
pub mod Window
pub mod Faults
pub mod Run
pub mod States
use uchi_networks.Common.{
  ℕ, ◌+◌, ◌^◌, Bool, true, false, ltb, leb, ◌==◌, ◌&&◌, ◌||◌, not, if◌then◌else◌, List, [], ◌∷◌,
  ◌++◌, Option, none, some, length, take, map, ◌>>=◌,
}
use uchi_networks.Stcp.Types.{
  max_len, th_fin, th_ack, Header, Segment, Out, State, Timespec, Unacked, Context, Got, bad, old,
  bytes, has_ack, has_fin, add32, sub32, Conn, established, fin_wait1, fin_wait2, close_wait,
  last_ack, closing, closed,
}
use uchi_networks.Stcp.Window.{app_send}
use uchi_networks.Stcp.Rto.{wait_until}
use uchi_networks.Stcp.Recv.{make_stcp_packet, packet_t_create, recv_packet}

-- `stcp_network_send`
abbrev pub send : Conn → Out → Conn
send conn packet = record conn { sent = conn.sent ++ (packet ∷ []) }

-- A bare acknowledgement.
unfoldable pub send_ack : Conn → Conn
send_ack conn = send conn (make_stcp_packet th_ack conn.ctx.send_next conn.ctx.recv_next [])

abbrev pub go_to : State → Conn → Conn
go_to s conn = record conn { ctx = record conn.ctx { connection_state = s } }

-- The packet goes out and is remembered; send_next moves by `step`.
unfoldable pub send_kept : (now : Timespec) → Conn → Out → (step : ℕ) → Conn
send_kept now conn packet step =
    let kept = packet_t_create now conn.ctx packet in
    record (send conn packet) { ctx = record kept { send_next = add32 conn.ctx.send_next step } }

-- `int open_window`: what may still be sent, 0 where it is negative.
unfoldable pub open_window : Context → ℕ
open_window ctx =
    let w = sub32 ctx.send_wind (sub32 ctx.send_next ctx.send_unack) in
    if leb (2 ^ 31) w then 0 else w

-- What stcp_app_recv takes of the bytes that the application has written: at most one packet's, and
-- no more than the window has room for.
unfoldable pub app_payload : Context → (written : List ℕ) → List ℕ
app_payload ctx written =
    take (if ltb max_len (open_window ctx) then max_len else open_window ctx) written

-- APP_DATA. The bytes that are not taken stay with the application.
unfoldable pub on_app : (now : Timespec) → Conn → (written : List ℕ) → Conn
on_app now conn written =
    let payload = app_payload conn.ctx written in
    if length payload == 0
    then conn
    else send_kept now conn (make_stcp_packet th_ack conn.ctx.send_next conn.ctx.recv_next payload)
        (length payload)

-- NETWORK_DATA: new bytes are acknowledged and handed over, old ones only acknowledged.
unfoldable pub hand_over : Conn → Got → Option Conn
hand_over conn bad = some conn
hand_over conn old = some (send_ack conn)
hand_over conn (bytes n) =
    if n == 0
    then some conn
    else app_send conn.ctx n >>= λ r.
        some (record (send_ack conn) { ctx = r.1; delivered = conn.delivered ++ (r.0) })

-- The acknowledgement's part in the teardown.
unfoldable pub ack_in : State → Conn → Conn
ack_in fin_wait1 conn = go_to fin_wait2 conn
ack_in last_ack conn = record (go_to closed conn) { left = true }
ack_in closing conn = record (go_to closed conn) { left = true }
ack_in _ conn = conn

-- The FIN's part in the teardown.
unfoldable pub fin_in : State → Conn → Conn
fin_in established conn = record (go_to close_wait conn) { fin_seen = true }
fin_in fin_wait2 conn = record (go_to closed conn) { left = true }
fin_in fin_wait1 conn = record (go_to closing conn) { fin_seen = true }
fin_in _ conn = conn

-- A FIN counts as a byte and is acknowledged.
unfoldable pub on_fin : Conn → Conn
on_fin conn =
    let next = add32 conn.ctx.recv_next 1 in
    let counted = record conn { ctx = record conn.ctx { recv_next = next } } in
    fin_in conn.ctx.connection_state (send_ack counted)

unfoldable pub ack_part : Conn → Header → Conn
ack_part conn h = if has_ack h then ack_in conn.ctx.connection_state conn else conn

-- The `break` of the acknowledgement's part skips the FIN's.
unfoldable pub fin_part : Conn → Header → Conn
fin_part conn h = if not conn.left && has_fin h then on_fin conn else conn

unfoldable pub teardown : Conn → Header → Conn
teardown conn h = fin_part (ack_part conn h) h

unfoldable pub on_network : (now : Timespec) → Conn → Segment → Option Conn
on_network now conn seg = recv_packet now conn.ctx seg >>= λ r.
    hand_over (record conn { ctx = r.ctx }) r.got >>= λ handed. some (teardown handed r.header)

abbrev pub fin_packet : Context → Out
fin_packet ctx = make_stcp_packet th_fin ctx.send_next ctx.recv_next []

-- The branches of APP_CLOSE_REQUESTED. The first moves send_unack, the second send_next.
unfoldable pub close_in : (now : Timespec) → State → Conn → Conn
close_in now established conn =
    let sent = send conn (fin_packet conn.ctx) in
    let moved = record conn.ctx { send_unack = add32 conn.ctx.send_unack 1 } in
    go_to fin_wait1 (record sent { ctx = packet_t_create now moved (fin_packet conn.ctx) })
close_in now close_wait conn = go_to last_ack (send_kept now conn (fin_packet conn.ctx) 1)
close_in now _ conn = conn

-- APP_CLOSE_REQUESTED
unfoldable pub on_close : (now : Timespec) → Conn → Conn
on_close now conn = close_in now conn.ctx.connection_state conn

-- A packet as it is sent again: with a new time and the present acknowledgement.
unfoldable pub resend : (now : Timespec) → (ack : ℕ) → Unacked → Unacked
resend now ack p = record p {
  start_time = now;
  retry_count = p.retry_count + 1;
  packet = record p.packet { header = record p.packet.header { ack = ack } };
}

unfoldable pub too_many : List Unacked → Bool
too_many [] = false
too_many (p ∷ ps) = ltb 6 p.retry_count || too_many ps

-- TIMEOUT: every packet goes out again, also where one of them has been sent too often, which ends
-- the connection.
unfoldable pub on_timeout : (now : Timespec) → Conn → Conn
on_timeout now conn =
    let again = map (resend now conn.ctx.recv_next) conn.ctx.unackd_packets in
    record conn {
      ctx = record conn.ctx { unackd_packets = again };
      sent = conn.sent ++ map (λ p. p.packet) again;
      left = conn.left || too_many conn.ctx.unackd_packets;
    }

-- What stcp_wait_for_event reports: what the application has written, what came from the network,
-- and whether a close was asked for. With none of the three it is a timeout.
pub record Event : Type 0 where
  pub app_data : Option (List ℕ)
  pub network_data : Option Segment
  pub close_requested : Bool

abbrev pub is_timeout : Event → Bool
is_timeout e = elim e.app_data [
  | some _ ↦ false
  | none ↦ elim e.network_data [ some _ ↦ false | none ↦ not e.close_requested ]
]

abbrev pub app_part : (now : Timespec) → Conn → Option (List ℕ) → Conn
app_part now conn none = conn
app_part now conn (some written) = on_app now conn written

abbrev pub network_part : (now : Timespec) → Conn → Option Segment → Option Conn
network_part now conn none = some conn
network_part now conn (some seg) = on_network now conn seg

abbrev pub close_part : (now : Timespec) → Conn → Event → Conn
close_part now conn e =
    let closed_conn = if e.close_requested then on_close now conn else conn in
    if is_timeout e then on_timeout now closed_conn else closed_conn

-- One round of control_loop's loop. A `break` skips the rest.
unfoldable pub iterate : (now : Timespec) → Conn → Event → Option Conn
iterate now conn e = wait_until conn.ctx >>= λ _.
    network_part now (app_part now conn e.app_data) e.network_data >>= λ c.
    some (if c.left then c else close_part now c e)

-- control_loop on the events that come, each with its time, until a `break`.
unfoldable pub run : Conn → List (Timespec × Event) → Option Conn
run conn [] = some conn
run conn ((now, e) ∷ es) = if conn.left then some conn else iterate now conn e >>= λ c. run c es
