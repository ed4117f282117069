-- ===== src/Graphics/Line.antt =====
-- `draw_line` of src/hal/vga.hpp. Its `int`s are integers; where a value does not fit the 32 bits of the
-- type the code has no defined behaviour, and the model has no result.
pub mod Counters
pub mod Reach
pub mod Ends
use emergence_os_bare_metal.Base.{
  ℕ, zero, suc, ◌+◌, Bool, true, false, ◌&&◌, Option, none, some, if◌then◌else◌, ℤ, pos, negsuc,
  ◌+ℤ◌, ◌-ℤ◌, neg_ℤ, ltb_ℤ, eqb_ℤ, ltb, word32,
}
use emergence_os_bare_metal.Graphics.{Graphics, put_pixel}

-- What stays the same in the loop.
pub record Segment : Type 0 where
  pub x1 : ℤ
  pub y1 : ℤ
  pub dx : ℤ
  pub dy : ℤ
  pub sx : ℤ
  pub sy : ℤ

-- What a round changes.
pub record Pen : Type 0 where
  pub x : ℤ
  pub y : ℤ
  pub err : ℤ

unfoldable pub segment_of : ℤ → ℤ → ℤ → ℤ → Segment
segment_of x0 y0 x1 y1 = record {
  x1 = x1;
  y1 = y1;
  dx = if ltb_ℤ x0 x1 then x1 -ℤ x0 else x0 -ℤ x1;
  dy = if ltb_ℤ y0 y1 then y1 -ℤ y0 else y0 -ℤ y1;
  sx = if ltb_ℤ x0 x1 then pos 1 else negsuc 0;
  sy = if ltb_ℤ y0 y1 then pos 1 else negsuc 0;
}

-- The first test of a round, with the error from before it, as `e2` is computed before both tests.
unfoldable pub across : Segment → Pen → Pen
across s p =
    if ltb_ℤ (neg_ℤ s.dy) (p.err +ℤ p.err)
    then record p { err = p.err -ℤ s.dy; x = p.x +ℤ s.sx }
    else p

-- Both tests.
unfoldable pub move : Segment → Pen → Pen
move s p =
    let moved = across s p in
    if ltb_ℤ (p.err +ℤ p.err) s.dx
    then record moved { err = moved.err +ℤ s.dx; y = moved.y +ℤ s.sy }
    else moved

-- Does a value fit an `int`?
unfoldable pub is_int : ℤ → Bool
is_int (pos n) = ltb n 2147483648
is_int (negsuc n) = ltb n 2147483648

abbrev pub is_int_pen : Pen → Bool
is_int_pen p = is_int p.err && (is_int p.x && is_int p.y)

-- Does every value that a round computes fit?
unfoldable pub no_overflow : Segment → Pen → Bool
no_overflow s p =
    (is_int (p.err +ℤ p.err) && is_int (neg_ℤ s.dy))
    && (is_int_pen (across s p) && is_int_pen (move s p))

unfoldable pub draw_dot : Graphics → Pen → ℕ → Graphics
draw_dot g p color = put_pixel g (word32 p.x) (word32 p.y) color

-- The endless loop, for as many rounds as `fuel`: `none` if that is not enough, or a value does not fit.
unfoldable pub line_loop : ℕ → Segment → Pen → Graphics → ℕ → Option Graphics
line_loop zero s p g color = none
line_loop (suc fuel) s p g color =
    let drawn = draw_dot g p color in
    let later = line_loop fuel s (move s p) drawn color in
    if eqb_ℤ p.x s.x1 && eqb_ℤ p.y s.y1 then some drawn else if no_overflow s p then later else none

unfoldable pub draw_line : ℕ → Graphics → ℤ → ℤ → ℤ → ℤ → ℕ → Option Graphics
draw_line fuel g x0 y0 x1 y1 color =
    let s = segment_of x0 y0 x1 y1 in
    let drawn = line_loop fuel s (record { x = x0; y = y0; err = s.dx -ℤ s.dy }) g color in
    if is_int s.dx && (is_int s.dy && is_int (s.dx -ℤ s.dy)) then drawn else none
