-- ===== src/Stcp/Tests.antt =====
-- stcp: the theorems on the transport at concrete inputs.
use uchi_networks.Common.{
  none, some, length, ℕ, zero, suc, ◌+◌, ◌<◌, ◌≡◌, refl, arith, Bool, true, false, ◌==◌,
  if◌then◌else◌, List, [], ◌∷◌, get_or, Ensures, Returns,
}
use uchi_networks.Stcp.Types.{close_wait, Segment, Timespec, Context, Conn, established}
use uchi_networks.Stcp.Window.{replicate}
use uchi_networks.Stcp.Window.Arrays.{length-replicate, get_or-replicate}
use uchi_networks.Stcp.Window.Stream.{Source}
use uchi_networks.Stcp.Recv.Window.{IsFrom}
use uchi_networks.Stcp.Open.{start, send_syn, client_step}
use uchi_networks.Stcp.Open.Handshake.{handshake, IsConnected, handshake-IsConnected}
use uchi_networks.Stcp.Open.Faults.{syn_sent_faults}
use uchi_networks.Stcp.Loop.States.{Runs, run-Follows}
use uchi_networks.Stcp.Loop.Run.{run-IsReader}
use uchi_networks.Stcp.Rto.{wait_until}
use uchi_networks.Stcp.Recv.{Received, recv_packet}
use uchi_networks.Stcp.Recv.Sent.{IsSender, IsLater, recv_packet-IsLater}
use uchi_networks.Stcp.Loop.{on_network, on_app, app_payload, on_close, Event, iterate, run}
use uchi_networks.Stcp.Loop.Sender.{iterate-IsSender}
use uchi_networks.Stcp.Loop.Window.{IsAppSent, on_app-IsAppSent}
use uchi_networks.Stcp.Loop.Faults.{closed_twice_faults, first_close_untimed}
use uchi_networks.Stcp.Loop.Reader.{IsReader}
use uchi_networks.Stcp.Loop.Progress.{IsLonger, on_network_delivers}

abbrev noon : Timespec
noon = record { sec = 43200; nsec = 0 }

-- A context after the handshake: the peer's first byte has number 1.
abbrev fresh : Context
fresh = record {
  connection_state = established;
  send_unack = 1;
  send_next = 1;
  send_wind = 3072;
  recv_next = 1;
  recv_buffer = replicate 3072 0;
  recv_indicator = replicate 3072 false;
  rto = record { sec = 0; nsec = 0 };
  srtt = record { sec = 0; nsec = 0 };
  rttvar_sec = 0;
  rttvar_nsec = 0;
  rto_init = false;
  unackd_packets = [];
}

abbrev opened : Conn
opened = record { ctx = fresh; sent = []; delivered = []; fin_seen = false; left = false }

-- The peer sends 7 and 8.
abbrev two_bytes : Source
two_bytes = record { byte = λ n. if n == 1 then 7 else 8; end = 3 }

abbrev bare_header : List ℕ
bare_header = 0 ∷ 0 ∷ 0 ∷ 0 ∷ 0 ∷ 0 ∷ 0 ∷ 0 ∷ 0 ∷ 0 ∷ 0 ∷ 0 ∷ 0 ∷ 0 ∷ 0 ∷ 0 ∷ 0 ∷ 0 ∷ 0 ∷ 0 ∷ []

abbrev data_segment : Segment
data_segment = record {
  header = record { seq = 1; ack = 1; off = 5; flags = 0x10; win = 3072 };
  raw = 0 ∷ 0 ∷ 0 ∷ 0 ∷ 0 ∷ 0 ∷ 0 ∷ 0 ∷ 0 ∷ 0 ∷ 0 ∷ 0 ∷ 0 ∷ 0 ∷ 0 ∷ 0 ∷ 0 ∷ 0 ∷ 0 ∷ 0 ∷ 7 ∷ 8 ∷ [];
}

data_segment-IsFrom : IsFrom two_bytes data_segment
data_segment-IsFrom = record {
  no_syn = refl;
  no_fin = refl;
  size = omega arith;
  room = omega arith;
  below = omega arith;
  same = here;
}
  where
    here : (k : ℕ) → 20 + k < 22 → get_or data_segment.raw (20 + k) 0 ≡ two_bytes.byte (1 + k)
    here zero h = refl
    here (suc zero) h = refl
    here (suc (suc k)) h = absurd (omega arith)

opened-IsReader : IsReader two_bytes 1 opened
opened-IsReader = record {
  waiting = record {
    window = record {
      room = omega arith;
      due = omega arith;
      buffer_size = length-replicate 3072 0;
      indicator_size = length-replicate 3072 false;
      held = λ i h e. absurd (blank i e);
    };
    first = get_or-replicate 3072 false 0;
  };
  upto = refl;
  same = λ k h. absurd (omega arith);
}
  where
    clash : (b : Bool) → b ≡ false → b ≡ true → ⊥
    clash b p q = ground arith

    blank : (i : ℕ) → get_or (replicate 3072 false) i false ≡ true → ⊥
    blank i e = clash (get_or (replicate 3072 false) i false) (get_or-replicate 3072 false i) e

on_network_delivers_example :
    Returns
      (λ c. IsLonger 2 opened c × IsReader two_bytes 1 c)
      (on_network noon opened data_segment)
on_network_delivers_example =
    on_network_delivers two_bytes 1 noon opened data_segment 600 opened-IsReader data_segment-IsFrom
      (record {
        at_next = refl;
        free = (omega (arith, length-replicate 3072 false), get_or-replicate 3072 false 600);
        short = omega arith;
        some_bytes = omega arith;
        header = omega arith;
      })

fresh-IsSender : IsSender fresh
fresh-IsSender = record { from = 1; chain = refl; acked = omega arith }

recv_packet-IsLater_example :
    Ensures (λ (r : Received). IsLater fresh r.ctx) (recv_packet noon fresh data_segment)
recv_packet-IsLater_example = recv_packet-IsLater noon fresh data_segment fresh-IsSender

-- The application writes two bytes, and two come from the peer.
abbrev both_ways : Event
both_ways = record {
  app_data = some (5 ∷ 6 ∷ []);
  network_data = some data_segment;
  close_requested = false;
}

iterate-IsSender_example :
    Returns (λ t. Unit {0}) (wait_until fresh)
    × Ensures (λ (c : Conn). IsSender c.ctx) (iterate noon opened both_ways)
iterate-IsSender_example = iterate-IsSender noon opened both_ways fresh-IsSender (omega arith) refl

on_app-IsAppSent_example :
    IsAppSent opened
      (on_app noon opened (5 ∷ 6 ∷ []))
      (5 ∷ 6 ∷ [])
      (length (app_payload fresh (5 ∷ 6 ∷ [])))
on_app-IsAppSent_example =
    on_app-IsAppSent noon opened (5 ∷ 6 ∷ []) (omega arith) (omega arith) (omega arith)

-- The peer has closed.
abbrev half_closed : Conn
half_closed = record opened { ctx = record fresh { connection_state = close_wait } }

-- The peer's FIN, without data.
abbrev fin_segment : Segment
fin_segment = record {
  header = record { seq = 1; ack = 0; off = 5; flags = 0x01; win = 3072 };
  raw = bare_header;
}

closed_twice_faults_example :
    Returns
      (λ (c : Conn). wait_until c.ctx ≡ none)
      (on_network noon (on_close noon half_closed) fin_segment)
closed_twice_faults_example =
    closed_twice_faults noon noon half_closed fin_segment refl refl refl (omega arith)
      (record { size = refl; off = refl; no_ack = refl })

first_close_untimed_example :
    (length (on_close noon opened).ctx.unackd_packets ≡ 0 + 1)
    × (wait_until (on_close noon opened).ctx ≡ some none)
first_close_untimed_example = first_close_untimed noon opened refl refl (omega arith)

handshake-IsConnected_example :
    Returns (λ r. IsConnected 7 200 (r.0) r.1) (handshake noon noon noon noon 7 200)
handshake-IsConnected_example = handshake-IsConnected noon noon noon noon 7 200

syn_sent_faults_example :
    Returns
      (λ c. client_step noon c data_segment ≡ none)
      (client_step noon (send_syn noon (start 7)) fin_segment)
syn_sent_faults_example =
    syn_sent_faults noon noon noon 7 fin_segment data_segment (omega arith)
      (record { size = refl; off = refl; no_ack = refl })

run-IsReader_example :
    Ensures (IsReader two_bytes 1) (run opened ((noon, both_ways) ∷ ((noon, both_ways) ∷ [])))
run-IsReader_example =
    run-IsReader two_bytes 1 opened ((noon, both_ways) ∷ ((noon, both_ways) ∷ [])) opened-IsReader
      (data_segment-IsFrom, (data_segment-IsFrom, tt))

-- The peer's FIN, and then a close.
abbrev both_close : List (Timespec × Event)
both_close =
    (noon, record { app_data = none; network_data = some fin_segment; close_requested = true }) ∷ []

run-Follows_example : Ensures (Runs both_close opened) (run opened both_close)
run-Follows_example = run-Follows opened both_close
