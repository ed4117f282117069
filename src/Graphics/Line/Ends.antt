-- ===== src/Graphics/Line/Ends.antt =====
-- `draw_line` of src/hal/vga.hpp ends: the ways of a wide, a tall and a slanting line.
use native.Mathlib.Decide.{dec_lt}
use emergence_os_bare_metal.Base.{
  ℕ, suc, ◌+◌, ◌*◌, ◌^◌, ◌<◌, ◌≡◌, refl, sym, ap, subst, arith, Bool, true, false, ◌&&◌, none,
  if◌then◌else◌, ltb, ◌==◌, max, ℤ, pos, ◌-ℤ◌, ltb_ℤ,
}
use emergence_os_bare_metal.Graphics.{Graphics}
use emergence_os_bare_metal.Graphics.Line.{Segment, Pen, segment_of, is_int, line_loop, draw_line}
use emergence_os_bare_metal.Graphics.Line.Counters.{
  goes_across, goes_down, IsNear, start-IsNear, step-IsNear, end-IsNear, within-IsNear,
}
use emergence_os_bare_metal.Graphics.Line.Reach.{
  segment, pen_at, IsWay, IsDrawable, Run, line_loop-Run, dist, along-dist, pos-dist, sub-pos,
  along_zero, pen_eq,
}

module _ (x0 y0 : ℤ) (right down : Bool) (a b : ℕ) where
  abbrev Wide : ℕ → ℕ → ℕ → Type 0
  Wide k i j = (i + k ≡ a) × IsNear a b i j

  Wide-IsWay : b < a → IsWay x0 y0 right down a b Wide
  Wide-IsWay h = record {
    at_end = λ i j good.
        (let all : i ≡ a = omega (arith, good.0) in
          (all, end-IsNear a b j (omega arith) (subst (λ t. IsNear a b t j) all good.1)));
    goes_on = λ k i j good. short i j a b k good.0;
    steps = λ k i j good.
        (let st = step-IsNear a b i j h good.1 in rw st.0 (omega (arith, good.0), st.1));
    near = λ k i j good. (omega (arith, good.1.below), omega (arith, good.1.above));
    inside = λ k i j good.
        (omega (arith, good.0), within-IsNear a b i j (omega arith) (omega (arith, good.0)) good.1);
  }
    where
      short : (i j a b k : ℕ) → i + suc k ≡ a → (i == a && j == b) ≡ false
      short i j a b k e = ground arith

  abbrev Tall : ℕ → ℕ → ℕ → Type 0
  Tall k i j = (j + k ≡ b) × IsNear b a j i

  Tall-IsWay : a < b → IsWay x0 y0 right down a b Tall
  Tall-IsWay h = record {
    at_end = λ i j good.
        (let all : j ≡ b = omega (arith, good.0) in
          (end-IsNear b a i (omega arith) (subst (λ t. IsNear b a t i) all good.1), all));
    goes_on = λ k i j good. short i j a b k good.0;
    steps = λ k i j good.
        (let st = step-IsNear b a j i h good.1 in rw st.0 (omega (arith, good.0), st.1));
    near = λ k i j good. (omega (arith, good.1.above), omega (arith, good.1.below));
    inside = λ k i j good.
        (within-IsNear b a j i (omega arith) (omega (arith, good.0)) good.1, omega (arith, good.0));
  }
    where
      short : (i j a b k : ℕ) → j + suc k ≡ b → (i == a && j == b) ≡ false
      short i j a b k e = ground arith

module _ (x0 y0 : ℤ) (right down : Bool) (a : ℕ) where
  abbrev Slanting : ℕ → ℕ → ℕ → Type 0
  Slanting k i j = (i + k ≡ a) × (i ≡ j)

  Slanting-IsWay : IsWay x0 y0 right down a a Slanting
  Slanting-IsWay = record {
    at_end = λ i j good. (omega (arith, good.0), omega (arith, good.0, good.1));
    goes_on = λ k i j good. short i j a k good.0;
    steps = λ k i j good.
        (let both = both_ways k i j good in
          rw (both.0, both.1) (omega (arith, good.0), omega (arith, good.1)));
    near = λ k i j good.
        (let same : i * a ≡ j * a = ap (λ t. t * a) good.1 in
          (omega (arith, same), omega (arith, same)));
    inside = λ k i j good. (omega (arith, good.0), omega (arith, good.0, good.1));
  }
    where
      short : (i j a k : ℕ) → i + suc k ≡ a → (i == a && j == a) ≡ false
      short i j a k e = ground arith

      more : (x a : ℕ) → 0 < a → ltb (2 * x) (2 * x + a) ≡ true
      more x a h = ground arith

      both_ways :
          (k i j : ℕ)
          → Slanting (suc k) i j
          → (goes_across a a i j ≡ true) × (goes_down a a i j ≡ true)
      both_ways k i j good =
          let some_left : 0 < a = omega (arith, good.0) in
          (
            subst (λ t. goes_across a a i t ≡ true) good.1 (more ((i + 1) * a) a some_left),
            subst (λ t. goes_down a a i t ≡ true) good.1 (more ((i + 1) * a) a some_left),
          )

-- A segment from its ends.
segment_eq :
    {x1 y1 dx dy sx sy x1' y1' dx' dy' : ℤ}
    → x1 ≡ x1'
    → y1 ≡ y1'
    → dx ≡ dx'
    → dy ≡ dy'
    → (let s : Segment = record { x1 = x1; y1 = y1; dx = dx; dy = dy; sx = sx; sy = sy } in s)
      ≡ record { x1 = x1'; y1 = y1'; dx = dx'; dy = dy'; sx = sx; sy = sy }
segment_eq p q r t = rw (p, q, r, t) refl

segment_of_lem :
    (x0 y0 x1 y1 : ℤ)
    → segment_of x0 y0 x1 y1 ≡ segment x0 y0 (ltb_ℤ x0 x1) (ltb_ℤ y0 y1) (dist x0 x1) (dist y0 y1)
unfolding segment_of
segment_of_lem x0 y0 x1 y1 =
    segment_eq (sym (along-dist x0 x1)) (sym (along-dist y0 y1)) (pos-dist x0 x1) (pos-dist y0 y1)

all_ways :
    (x0 y0 : ℤ) (right down : Bool) (a b fuel : ℕ) (g : Graphics) (color : ℕ)
    → max a b < fuel
    → IsDrawable x0 y0 right down a b
    → Run x0 y0 right down a b
        (line_loop fuel (segment x0 y0 right down a b) (pen_at x0 y0 right down a b 0 0) g color)
        g
        color
        (max a b + 1)
all_ways x0 y0 right down a b fuel g color h ok = elim (dec_lt b a) [
  | yes wide ↦
      let n : max a b + 1 ≡ suc a = omega arith in
      rw n (
        line_loop-Run x0 y0 right down a b (Wide-IsWay x0 y0 right down a b wide) ok fuel a 0 0 g
          color (omega arith) (omega arith, start-IsNear a b (omega arith)))
  | no flat ↦ elim (dec_lt a b) [
    | yes tall ↦
        let n : max a b + 1 ≡ suc b = omega arith in
        rw n (
          line_loop-Run x0 y0 right down a b (Tall-IsWay x0 y0 right down a b tall) ok fuel b 0 0 g
            color (omega arith) (omega arith, start-IsNear b a (omega arith)))
    | no slanting ↦
        let same : a ≡ b = omega arith in
        let n : max a a + 1 ≡ suc a = omega arith in
        subst
          (λ t.
            Run x0 y0 right down a t
              (line_loop fuel (segment x0 y0 right down a t) (pen_at x0 y0 right down a t 0 0) g
                color)
              g color (max a t + 1))
          same
          (rw n (
            line_loop-Run x0 y0 right down a a (Slanting-IsWay x0 y0 right down a)
              (subst (λ t. IsDrawable x0 y0 right down a t) (sym same) ok) fuel a 0 0 g color
              (omega arith) (omega arith, refl)))
  ]
]

start_ints :
    (a b : ℕ)
    → a < 2 ^ 29
    → b < 2 ^ 29
    → (is_int (pos a) && (is_int (pos b) && is_int (pos a -ℤ pos b))) ≡ true
unfolding is_int ◌-ℤ◌
start_ints a b h k = ground arith

-- `draw_line` between two places whose coordinates fit an `int`, with sides below 2 ^ 29, computes no value
-- that does not fit, and ends after as many rounds as the longer side of the line has steps, and one more.
-- It draws one dot in each, and no dot is more than half a step of the longer side off the line.
pub draw_line_lem :
    (x0 y0 x1 y1 : ℤ) (fuel : ℕ) (g : Graphics) (color : ℕ)
    → is_int x0 ≡ true
    → is_int y0 ≡ true
    → is_int x1 ≡ true
    → is_int y1 ≡ true
    → max (dist x0 x1) (dist y0 y1) < 2 ^ 29
    → max (dist x0 x1) (dist y0 y1) < fuel
    → Run x0 y0
        (ltb_ℤ x0 x1)
        (ltb_ℤ y0 y1)
        (dist x0 x1)
        (dist y0 y1)
        (draw_line fuel g x0 y0 x1 y1 color)
        g
        color
        (max (dist x0 x1) (dist y0 y1) + 1)
unfolding draw_line
draw_line_lem x0 y0 x1 y1 fuel g color ix0 iy0 ix1 iy1 short h =
    let right = ltb_ℤ x0 x1 in
    let down = ltb_ℤ y0 y1 in
    let a = dist x0 x1 in
    let b = dist y0 y1 in
    let start : (let p : Pen = record { x = x0; y = y0; err = pos a -ℤ pos b } in p)
        ≡ pen_at x0 y0 right down a b 0 0 =
      pen_eq (sym (along_zero x0 right)) (sym (along_zero y0 down)) (sub-pos a b) in
    let ok : IsDrawable x0 y0 right down a b = record {
      x0_int = ix0;
      y0_int = iy0;
      x1_int = subst (λ z. is_int z ≡ true) (sym (along-dist x0 x1)) ix1;
      y1_int = subst (λ z. is_int z ≡ true) (sym (along-dist y0 y1)) iy1;
      short = short;
    } in
    subst
      (λ (s : Segment).
        Run x0 y0 right down a b
          (if is_int s.dx && (is_int s.dy && is_int (s.dx -ℤ s.dy))
            then line_loop fuel s (record { x = x0; y = y0; err = s.dx -ℤ s.dy }) g color
            else none)
          g color (max a b + 1))
      (sym (segment_of_lem x0 y0 x1 y1))
      (rw (start_ints a b (omega (arith, short)) (omega (arith, short))) (
        subst
          (λ p.
            Run x0 y0 right down a b (line_loop fuel (segment x0 y0 right down a b) p g color) g
              color (max a b + 1))
          (sym start) (all_ways x0 y0 right down a b fuel g color h ok)))
