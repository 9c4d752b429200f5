-- ===== src/Stcp/Loop/Window.antt =====
-- stcp/transport.c: control_loop on what the application has written, against the peer's window.
use uchi_networks.Common.{
  ℕ, zero, suc, ◌+◌, ◌-◌, ◌^◌, ◌≤◌, ◌<◌, ◌≡◌, ◌⊎◌, inl, inr, refl, ap, sym, arith, true, ltb, ◌==◌,
  List, [], ◌∷◌, ◌++◌, length, take, Bool-cases, ltb→lt,
}
use uchi_networks.Stcp.Types.{max_len, Out, Timespec, Context, Conn}
use uchi_networks.Stcp.Window.Arrays.{length-take_le}
use uchi_networks.Stcp.Recv.{packet_t_create, make_stcp_packet}
use uchi_networks.Stcp.Loop.{send_kept, open_window, app_payload, on_app}
use uchi_networks.Stcp.Loop.Sender.{length-app_payload}

-- The connection after `n` of the written bytes have gone out.
pub record IsAppSent (before after : Conn) (written : List ℕ) (n : ℕ) : Type 0 where
  pub one_packet : n ≤ 536
  pub in_window : 0 < n → after.ctx.send_next ≤ before.ctx.send_unack + before.ctx.send_wind
  pub next : after.ctx.send_next ≡ before.ctx.send_next + n
  pub sent :
      ((n ≡ 0) × (after.sent ≡ before.sent))
      ⊎ ((p : Out) × (after.sent ≡ before.sent ++ (p ∷ [])) × (p.payload ≡ take n written))
  pub some_sent :
      before.ctx.send_next < before.ctx.send_unack + before.ctx.send_wind
      → 0 < length written
      → 0 < n

take-length-take : (k : ℕ) (xs : List ℕ) → take (length (take k xs)) xs ≡ take k xs
take-length-take zero xs = refl
take-length-take (suc k) [] = refl
take-length-take (suc k) (x ∷ xs) = ap (◌∷◌ x) (take-length-take k xs)

take_some : (k : ℕ) (xs : List ℕ) → 0 < k → 0 < length xs → 0 < length (take k xs)
take_some zero xs a b = absurd (omega arith)
take_some (suc k) [] a b = absurd (omega arith)
take_some (suc k) (x ∷ xs) a b = omega arith

module _ (ctx : Context) (order : ctx.send_unack ≤ ctx.send_next)
    (low : ctx.send_next + 536 < 2 ^ 31) (wind : ctx.send_wind ≤ 3072) where
  open_window_eq : open_window ctx ≡ ctx.send_wind - (ctx.send_next - ctx.send_unack)
  unfolding open_window
  open_window_eq = ground (arith, order, low, wind)

  payload_fits :
      (written : List ℕ)
      → length (app_payload ctx written) ≤ ctx.send_wind - (ctx.send_next - ctx.send_unack)
  unfolding app_payload
  payload_fits written = elim (Bool-cases (ltb max_len (open_window ctx))) [
    | inl e ↦ rw e (
        omega
          (arith, open_window_eq, length-take_le 536 written, ltb→lt max_len (open_window ctx) e))
    | inr e ↦ rw e (omega (arith, open_window_eq, length-take_le (open_window ctx) written))
  ]

  payload_some :
      (written : List ℕ)
      → ctx.send_next < ctx.send_unack + ctx.send_wind
      → 0 < length written
      → 0 < length (app_payload ctx written)
  unfolding app_payload
  payload_some written a b = elim (Bool-cases (ltb max_len (open_window ctx))) [
    | inl e ↦ rw e (take_some 536 written (omega arith) b)
    | inr e ↦ rw e (take_some (open_window ctx) written (omega (arith, open_window_eq, order)) b)
  ]

taken :
    (ctx : Context) (written : List ℕ)
    → take (length (app_payload ctx written)) written ≡ app_payload ctx written
unfolding app_payload
taken ctx written = take-length-take _ written

-- What the application writes goes out in one packet, or in none: at most 536 bytes of it, from its
-- beginning, no byte beyond the peer's window, and some byte where the window is not full. send_unack
-- is not beyond send_next, the peer's window is at most 3072, and the numbers stay below 2^31.
pub on_app-IsAppSent :
    (now : Timespec) (conn : Conn) (written : List ℕ)
    → conn.ctx.send_unack ≤ conn.ctx.send_next
    → conn.ctx.send_next + 536 < 2 ^ 31
    → conn.ctx.send_wind ≤ 3072
    → IsAppSent conn (on_app now conn written) written (length (app_payload conn.ctx written))
unfolding on_app send_kept packet_t_create make_stcp_packet
on_app-IsAppSent now conn written order low wind =
    elim (Bool-cases (length (app_payload conn.ctx written) == 0)) [
      | inl e ↦ rw e (record {
        one_packet = short;
        in_window = λ h. absurd (ground arith);
        next = ground arith;
        sent = inl (empty e, refl);
        some_sent = payload_some conn.ctx order low wind written;
      })
      | inr e ↦ rw e (record {
        one_packet = short;
        in_window =
            λ h. omega (arith, payload_fits conn.ctx order low wind written, low, order, short);
        next = omega (arith, short, low);
        sent = inr (_, refl, sym (taken conn.ctx written));
        some_sent = payload_some conn.ctx order low wind written;
      })
    ]
  where
    short : length (app_payload conn.ctx written) ≤ 536
    short = length-app_payload conn.ctx written

    empty :
        (length (app_payload conn.ctx written) == 0) ≡ true
        → length (app_payload conn.ctx written) ≡ 0
    empty e = ground arith
