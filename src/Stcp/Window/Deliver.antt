-- ===== src/Stcp/Window/Deliver.antt =====
-- stcp/transport.c: what the application gets from the window, and the window after the slide.
use uchi_networks.Common.{
  ℕ, zero, suc, ◌+◌, ◌-◌, ◌≤◌, ◌<◌, ◌≡◌, inl, inr, refl, ap, sym, ◌∙◌, arith, true, false, ltb,
  List, ◌++◌, some, length, get_or, take, drop, Bool-cases, ltb→lt,
}
use uchi_networks.Stcp.Types.{Context}
use uchi_networks.Stcp.Window.{replicate, slide, app_send}
use uchi_networks.Stcp.Window.Arrays.{
  IsGap, first_gap-IsGap, get_or-replicate, get_or-take, get_or-drop, length-take, length-drop,
  length-slide, get_or-append_left, get_or-append_right,
}
use uchi_networks.Stcp.Window.Stream.{Source, IsByte, IsWaiting, IsStored}

-- The bytes that are handed over are the next `g` of the source, and the window waits for the one
-- after them.
pub record IsHandedOver (src : Source) (from g : ℕ) (ds : List ℕ) (after : Context) : Type 0 where
  pub count : length ds ≡ g
  pub same : (k : ℕ) → k < g → get_or ds k 0 ≡ src.byte (from + k)
  pub moved : after.recv_next ≡ from + g
  pub waiting : IsWaiting src after

module _ {ℓ} {A : Type ℓ} (xs : List A) (g : ℕ) (v : A) where
  pub slide_left :
      (i : ℕ) → g + i < length xs → get_or (drop g xs ++ replicate g v) i v ≡ get_or xs (g + i) v
  slide_left i h =
      get_or-append_left (drop g xs) (replicate g v) i v (omega (arith, length-drop g xs))
      ∙ get_or-drop g xs i v

  pub slide_right : (i : ℕ) → length xs ≤ g + i → get_or (drop g xs ++ replicate g v) i v ≡ v
  slide_right i h =
      get_or-append_right (drop g xs) (replicate g v) i v (omega (arith, length-drop g xs))
      ∙ get_or-replicate g v (i - length (drop g xs))

module _ (src : Source) (before ctx : Context) (g : ℕ) (s : IsStored src before ctx g) where
  gap : IsGap ctx.recv_indicator g
  gap = first_gap-IsGap ctx.recv_indicator g s.gap

  slid_held :
      (i : ℕ)
      → i < 3072
      → get_or (drop g ctx.recv_indicator ++ replicate g false) i false ≡ true
      → IsByte src (ctx.recv_next + i) (get_or (drop g ctx.recv_buffer ++ replicate g 0) i 0)
  slid_held i h e = elim (Bool-cases (ltb (g + i) 3072)) [
    | inl l ↦ moved_byte (ltb→lt (g + i) 3072 l) (
        s.held (g + i) (ltb→lt (g + i) 3072 l) (
          sym (
            slide_left ctx.recv_indicator g false i
              (omega (arith, s.indicator_size, ltb→lt (g + i) 3072 l)))
          ∙ e))
    | inr l ↦
        absurd (blank (slide_right ctx.recv_indicator g false i (ground (arith, s.indicator_size))))
  ]
    where
      blank : get_or (drop g ctx.recv_indicator ++ replicate g false) i false ≡ false → ⊥
      blank q = ground arith

      moved_byte :
          g + i < 3072
          → IsByte src (before.recv_next + (g + i)) (get_or ctx.recv_buffer (g + i) 0)
          → IsByte src (ctx.recv_next + i) (get_or (drop g ctx.recv_buffer ++ replicate g 0) i 0)
      moved_byte l (a, b) = (
        omega (arith, s.moved, a),
        slide_left ctx.recv_buffer g 0 i (omega (arith, s.buffer_size))
            ∙ b
            ∙ ap src.byte (omega (arith, s.moved)),
      )

  pub app_send_eq : app_send ctx g ≡ some (take g ctx.recv_buffer, slide ctx g)
  unfolding app_send
  app_send_eq = rw s.gap refl

  IsByte-before : (k : ℕ) → k < g → IsByte src (before.recv_next + k) (get_or ctx.recv_buffer k 0)
  IsByte-before k h = s.held k (omega (arith, h, gap.inside, s.indicator_size)) (gap.before k h)

  still_due : (n : ℕ) → n ≡ g → before.recv_next + n ≤ src.end
  still_due zero e = omega (arith, s.due)
  still_due (suc n) e = omega (arith, (IsByte-before n (omega arith)).0)

  pub app_send-IsHandedOver :
      IsHandedOver src before.recv_next g (take g ctx.recv_buffer) (slide ctx g)
  unfolding slide
  app_send-IsHandedOver = record {
    count =
        length-take g ctx.recv_buffer (omega (arith, gap.inside, s.indicator_size, s.buffer_size));
    same = λ k h. get_or-take g ctx.recv_buffer k 0 h ∙ (IsByte-before k h).1;
    moved = s.moved;
    waiting = record {
      window = record {
        room = s.room;
        due = omega (arith, s.moved, still_due g refl);
        buffer_size =
            length-slide g ctx.recv_buffer 0
              (omega (arith, gap.inside, s.indicator_size, s.buffer_size))
            ∙ s.buffer_size;
        indicator_size =
            length-slide g ctx.recv_indicator false (omega (arith, gap.inside)) ∙ s.indicator_size;
        held = slid_held;
      };
      first =
          slide_left ctx.recv_indicator g false 0 (omega (arith, gap.inside))
          ∙ ap (λ t. get_or ctx.recv_indicator t false) (omega arith)
          ∙ gap.here;
    };
  }
