-- ===== src/Stcp/Rto.antt =====
-- stcp/transport.c: the timer of unacknowledged packets (update_rto and the top of control_loop).
use uchi_networks.Common.{
  ℕ, ◌+◌, ◌-◌, ◌*◌, ◌/◌, ◌%◌, true, ltb, leb, ◌==◌, not, if◌then◌else◌, [], ◌∷◌, Option, none, some,
  List, [], ◌∷◌,
}
use uchi_networks.Stcp.Types.{Timespec, Context, Unacked}

-- The difference of two numbers, either way.
abbrev pub distance : ℕ → ℕ → ℕ
distance a b = (a - b) + (b - a)

-- `tv_nsec` is below 10^9 after this.
unfoldable pub normalise : Timespec → Timespec
normalise t =
    if leb 1_000_000_000 t.nsec
    then record { sec = t.sec + t.nsec / 1_000_000_000; nsec = t.nsec % 1_000_000_000 }
    else t

-- The retransmission timeout from srtt and rttvar. `max(G, K * rttvar)` is 0.1 where rttvar is 0,
-- which the conversion to an integer cuts off.
unfoldable pub timeout_of : Context → Timespec
unfolding normalise
timeout_of ctx =
    normalise (record {
      sec = ctx.srtt.sec + 4 * ctx.rttvar_sec;
      nsec = ctx.srtt.nsec + 4 * ctx.rttvar_nsec;
    })

-- srtt and rttvar after a round trip. The first one sets them; later ones weigh 1/8 and 1/4, and
-- the products, of doubles, are cut to integers.
unfoldable pub smooth : Context → (rtt_sec rtt_nsec : ℕ) → Context
smooth ctx rtt_sec rtt_nsec =
    if ctx.rto_init
    then record ctx {
      rttvar_sec = (3 * ctx.rttvar_sec + distance ctx.srtt.sec rtt_sec) / 4;
      rttvar_nsec = (3 * ctx.rttvar_nsec + distance ctx.srtt.nsec rtt_nsec) / 4;
      srtt = record {
        sec = (7 * ctx.srtt.sec + rtt_sec) / 8;
        nsec = (7 * ctx.srtt.nsec + rtt_nsec) / 8;
      };
    }
    else record ctx {
      srtt = record { sec = rtt_sec; nsec = rtt_nsec };
      rttvar_sec = rtt_sec / 2;
      rttvar_nsec = rtt_nsec / 2;
      rto_init = true;
    }

unfoldable pub set_rto : Context → Context
set_rto ctx = record ctx { rto = timeout_of ctx }

-- `update_rto`: a packet that has been sent again is no sample. The clock does not go back. Its static
-- `init` is that of a process with one connection.
unfoldable pub update_rto : (now : Timespec) → Context → Unacked → Context
update_rto now ctx p =
    if not (p.retry_count == 0)
    then ctx
    else set_rto (smooth ctx (now.sec - p.start_time.sec) (distance now.nsec p.start_time.nsec))

-- The time of the first packet, and rto later. With no packet control_loop reads through a null
-- pointer: `none`.
unfoldable pub first_timeout : (rto : Timespec) → List Unacked → Option (Option Timespec)
first_timeout rto [] = none
first_timeout rto (p ∷ ps) = some (
    some (
      normalise (record { sec = p.start_time.sec + rto.sec; nsec = p.start_time.nsec + rto.nsec })))

-- The time at which control_loop stops waiting: never, where everything is acknowledged.
unfoldable pub wait_until : Context → Option (Option Timespec)
wait_until ctx =
    if ltb ctx.send_unack ctx.send_next then first_timeout ctx.rto ctx.unackd_packets else some none
