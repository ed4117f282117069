-- ===== src/Graphics/Line/Reach.antt =====
-- That `draw_line` of src/hal/vga.hpp reaches its end, and where it draws.
use emergence_os_bare_metal.Base.{
  ℕ, zero, suc, ◌+◌, ◌*◌, ◌^◌, ◌≤◌, ◌<◌, ◌≡◌, refl, sym, ap, ap₂, ◌∙◌, arith, Bool, true, false,
  Bool-cases, inl, inr, ◌&&◌, Option, some, List, [], ◌∷◌, ltb, ◌==◌, if◌then◌else◌, length, max, ℤ,
  pos, negsuc, sub_ℕ, pos_part, neg_part, ◌+ℤ◌, ◌-ℤ◌, neg_ℤ, ltb_ℤ, eqb_ℤ,
}
use emergence_os_bare_metal.Graphics.{Graphics}
use emergence_os_bare_metal.Graphics.Line.{
  Segment, Pen, across, move, is_int, no_overflow, draw_dot, line_loop,
}
use emergence_os_bare_metal.Graphics.Line.Counters.{goes_across, goes_down, times_suc}

-- The tests and the error of a round, with the two products as numbers.
test_across : (b x y : ℕ) → ltb_ℤ (neg_ℤ (pos b)) (sub_ℕ x y +ℤ sub_ℕ x y) ≡ ltb (2 * y) (2 * x + b)
unfolding ◌+ℤ◌
test_across b x y = ground arith

test_down : (a x y : ℕ) → ltb_ℤ (sub_ℕ x y +ℤ sub_ℕ x y) (pos a) ≡ ltb (2 * x) (2 * y + a)
unfolding ◌+ℤ◌
test_down a x y = ground arith

err_across : (b x y : ℕ) → sub_ℕ x y -ℤ pos b ≡ sub_ℕ x (y + b)
unfolding ◌-ℤ◌
err_across b x y = ground arith

err_down : (a x y : ℕ) → sub_ℕ x y +ℤ pos a ≡ sub_ℕ (x + a) y
unfolding ◌+ℤ◌
err_down a x y = ground arith

-- `i` steps from `z`, forward or back.
abbrev pub step_of : Bool → ℤ
step_of fwd = if fwd then pos 1 else negsuc 0

pub along : ℤ → Bool → ℕ → ℤ
along z fwd i = if fwd then z +ℤ pos i else z -ℤ pos i

along_suc : (z : ℤ) (fwd : Bool) (i : ℕ) → along z fwd i +ℤ step_of fwd ≡ along z fwd (i + 1)
unfolding along ◌+ℤ◌ ◌-ℤ◌
along_suc z true i = ground arith
along_suc z false i = ground arith

pub along_zero : (z : ℤ) (fwd : Bool) → along z fwd 0 ≡ z
unfolding along ◌+ℤ◌ ◌-ℤ◌
along_zero z true = ground arith
along_zero z false = ground arith

test_along : (z : ℤ) (fwd : Bool) (i n : ℕ) → eqb_ℤ (along z fwd i) (along z fwd n) ≡ (i == n)
unfolding along ◌+ℤ◌ ◌-ℤ◌
test_along z true i n = ground arith
test_along z false i n = ground arith

-- How far two coordinates are apart.
abbrev pub dist : ℤ → ℤ → ℕ
dist z w = pos_part (w -ℤ z) + neg_part (w -ℤ z)

pub along-dist : (z w : ℤ) → along z (ltb_ℤ z w) (dist z w) ≡ w
unfolding along ◌+ℤ◌ ◌-ℤ◌
along-dist z w = ground arith

pub pos-dist : (z w : ℤ) → (if ltb_ℤ z w then w -ℤ z else z -ℤ w) ≡ pos (dist z w)
unfolding ◌-ℤ◌
pos-dist z w = ground arith

pub sub-pos : (a b : ℕ) → pos a -ℤ pos b ≡ sub_ℕ ((0 + 1) * a) ((0 + 1) * b)
unfolding ◌-ℤ◌
sub-pos a b = ground arith

-- The pens of a run, drawn one after the other.
abbrev pub draw_dots : Graphics → ℕ → List Pen → Graphics
draw_dots g color [] = g
draw_dots g color (p ∷ ps) = draw_dots (draw_dot g p color) color ps

at_both : {i j a b : ℕ} → i ≡ a → j ≡ b → (i == a && j == b) ≡ true
at_both p q = ground arith

pub pen_eq :
    {x y e x' y' e' : ℤ}
    → x ≡ x'
    → y ≡ y'
    → e ≡ e'
    → (let p : Pen = record { x = x; y = y; err = e } in p) ≡ record { x = x'; y = y'; err = e' }
pen_eq p q r = rw (p, q, r) refl

-- A difference below 2 ^ 31, or twice one below 2 ^ 30, fits.
sub_int : (x y : ℕ) → x < y + 2 ^ 31 → y < x + 2 ^ 31 → is_int (sub_ℕ x y) ≡ true
unfolding is_int
sub_int x y h k = ground arith

twice_int : (x y : ℕ) → x < y + 2 ^ 30 → y < x + 2 ^ 30 → is_int (sub_ℕ x y +ℤ sub_ℕ x y) ≡ true
unfolding is_int ◌+ℤ◌
twice_int x y h k = ground arith

neg_int : (b : ℕ) → b < 2 ^ 31 → is_int (neg_ℤ (pos b)) ≡ true
unfolding is_int
neg_int b h = ground arith

-- What lies between two coordinates that fit does too.
along_int :
    (z : ℤ) (fwd : Bool) (n i : ℕ)
    → is_int z ≡ true
    → is_int (along z fwd n) ≡ true
    → i ≤ n
    → is_int (along z fwd i) ≡ true
unfolding is_int along ◌+ℤ◌ ◌-ℤ◌
along_int z true n i h e l = ground arith
along_int z false n i h e l = ground arith

either_int :
    (p : Bool) (x y : ℤ) → is_int x ≡ true → is_int y ≡ true → is_int (if p then x else y) ≡ true
either_int true x y h k = h
either_int false x y h k = k

all_true :
    {p q r s : Bool} → p ≡ true → q ≡ true → r ≡ true → s ≡ true → ((p && q) && (r && s)) ≡ true
all_true h k l m = rw (h, k, l, m) refl

pen_int : {p q r : Bool} → p ≡ true → q ≡ true → r ≡ true → (p && (q && r)) ≡ true
pen_int h k l = rw (h, k, l) refl

module _ (x0 y0 : ℤ) (right down : Bool) (a b : ℕ) where
  abbrev pub segment : Segment
  segment = record {
    x1 = along x0 right a;
    y1 = along y0 down b;
    dx = pos a;
    dy = pos b;
    sx = step_of right;
    sy = step_of down;
  }

  abbrev pub pen_at : ℕ → ℕ → Pen
  pen_at i j = record {
    x = along x0 right i;
    y = along y0 down j;
    err = sub_ℕ ((j + 1) * a) ((i + 1) * b);
  }

  abbrev pub next_i : ℕ → ℕ → ℕ
  next_i i j = if goes_across a b i j then i + 1 else i

  abbrev pub next_j : ℕ → ℕ → ℕ
  next_j i j = if goes_down a b i j then j + 1 else j

  move-pen_at : (i j : ℕ) → move segment (pen_at i j) ≡ pen_at (next_i i j) (next_j i j)
  unfolding move across
  move-pen_at i j =
      let ja = (j + 1) * a in
      let ib = (i + 1) * b in
      let forward = test_across b ja ib in
      let downward = test_down a ja ib in
      elim (Bool-cases (goes_across a b i j)) [
        | inl x ↦ elim (Bool-cases (goes_down a b i j)) [
          | inl y ↦
              rw (forward, downward, x, y)
                (pen_eq (along_suc x0 right i) (along_suc y0 down j) (
                  ap (λ e. e +ℤ pos a) (err_across b ja ib)
                  ∙ err_down a ja (ib + b)
                  ∙ ap₂ sub_ℕ (sym (times_suc (j + 1) a)) (sym (times_suc (i + 1) b))))
          | inr y ↦
              rw (forward, downward, x, y)
                (pen_eq (along_suc x0 right i) refl
                  (err_across b ja ib ∙ ap (sub_ℕ ja) (sym (times_suc (i + 1) b))))
        ]
        | inr x ↦ elim (Bool-cases (goes_down a b i j)) [
          | inl y ↦
              rw (forward, downward, x, y)
                (pen_eq refl (along_suc y0 down j)
                  (err_down a ja ib ∙ ap (λ t. sub_ℕ t ib) (sym (times_suc (j + 1) a))))
          | inr y ↦ rw (forward, downward, x, y) refl
        ]
      ]

  across-pen_at :
      (i j : ℕ)
      → across segment (pen_at i j) ≡ record {
        x = along x0 right (next_i i j);
        y = along y0 down j;
        err =
            if goes_across a b i j
            then sub_ℕ ((j + 1) * a) ((i + 1) * b + b)
            else sub_ℕ ((j + 1) * a) ((i + 1) * b);
      }
  unfolding across
  across-pen_at i j =
      let ja = (j + 1) * a in
      let ib = (i + 1) * b in
      let forward = test_across b ja ib in
      elim (Bool-cases (goes_across a b i j)) [
        | inl x ↦ rw (forward, x) (pen_eq (along_suc x0 right i) refl (err_across b ja ib))
        | inr x ↦ rw (forward, x) refl
      ]

  -- A way of counters to the end: `Good k i j` with `k` rounds to go.
  pub record IsWay (Good : ℕ → ℕ → ℕ → Type 0) : Type 0 where
    pub at_end : (i j : ℕ) → Good 0 i j → (i ≡ a) × (j ≡ b)
    pub goes_on : (k i j : ℕ) → Good (suc k) i j → (i == a && j == b) ≡ false
    pub steps : (k i j : ℕ) → Good (suc k) i j → Good k (next_i i j) (next_j i j)
    pub near :
        (k i j : ℕ)
        → Good k i j
        → (2 * (i * b) ≤ 2 * (j * a) + max a b) × (2 * (j * a) ≤ 2 * (i * b) + max a b)
    pub inside : (k i j : ℕ) → Good k i j → (i ≤ a) × (j ≤ b)

  -- Ends that fit an `int`, and sides short enough for twice the error.
  pub record IsDrawable : Type 0 where
    pub x0_int : is_int x0 ≡ true
    pub y0_int : is_int y0 ≡ true
    pub x1_int : is_int (along x0 right a) ≡ true
    pub y1_int : is_int (along y0 down b) ≡ true
    pub short : max a b < 2 ^ 29

  no_overflow-pen_at :
      {Good : ℕ → ℕ → ℕ → Type 0}
      → IsWay Good
      → IsDrawable
      → (k i j : ℕ) → Good (suc k) i j
      → no_overflow segment (pen_at i j) ≡ true
  unfolding no_overflow
  no_overflow-pen_at way ok k i j good =
      let here = way.near (suc k) i j good in
      let next = way.steps k i j good in
      let near = way.near k (next_i i j) (next_j i j) next in
      let place = way.inside (suc k) i j good in
      let further = way.inside k (next_i i j) (next_j i j) next in
      let x_int = along_int x0 right a (next_i i j) ok.x0_int ok.x1_int further.0 in
      let ja = times_suc j a in
      let ib = times_suc i b in
      rw (across-pen_at i j, move-pen_at i j)
        (all_true
          (twice_int ((j + 1) * a) ((i + 1) * b) (omega (arith, ja, ib, here.0, here.1, ok.short))
            (omega (arith, ja, ib, here.0, here.1, ok.short)))
          (neg_int b (omega (arith, ok.short)))
          (pen_int
            (either_int (goes_across a b i j) (sub_ℕ ((j + 1) * a) ((i + 1) * b + b))
              (sub_ℕ ((j + 1) * a) ((i + 1) * b))
              (sub_int ((j + 1) * a) ((i + 1) * b + b)
                (omega (arith, ja, ib, here.0, here.1, ok.short))
                (omega (arith, ja, ib, here.0, here.1, ok.short)))
              (sub_int ((j + 1) * a) ((i + 1) * b) (omega (arith, ja, ib, here.0, here.1, ok.short))
                (omega (arith, ja, ib, here.0, here.1, ok.short))))
            x_int (along_int y0 down b j ok.y0_int ok.y1_int place.1))
          (pen_int
            (sub_int ((next_j i j + 1) * a) ((next_i i j + 1) * b)
              (omega (
                arith,
                times_suc (next_j i j) a,
                times_suc (next_i i j) b,
                near.0,
                near.1,
                ok.short,
              ))
              (omega (
                arith,
                times_suc (next_j i j) a,
                times_suc (next_i i j) b,
                near.0,
                near.1,
                ok.short,
              )))
            x_int (along_int y0 down b (next_j i j) ok.y0_int ok.y1_int further.1)))

  -- The pen is at most half a step of the longer side off the line, counted along the shorter side.
  abbrev pub IsOnLine : Pen → Type 0
  IsOnLine p =
      (i : ℕ) × (j : ℕ) × (p.x ≡ along x0 right i)
      × (p.y ≡ along y0 down j)
      × (2 * (i * b) ≤ 2 * (j * a) + max a b)
      × (2 * (j * a) ≤ 2 * (i * b) + max a b)

  abbrev pub AreOnLine : List Pen → Type 0
  AreOnLine [] = Unit {0}
  AreOnLine (p ∷ ps) = IsOnLine p × AreOnLine ps

  -- A run of the loop that ends: what it draws.
  abbrev pub Run : Option Graphics → Graphics → ℕ → ℕ → Type 0
  Run result g color n =
      (ps : List Pen) × (result ≡ some (draw_dots g color ps)) × (length ps ≡ n) × AreOnLine ps

  on_line :
      {Good : ℕ → ℕ → ℕ → Type 0} → IsWay Good → (k i j : ℕ) → Good k i j → IsOnLine (pen_at i j)
  on_line way k i j good = let n = way.near k i j good in (i, j, refl, refl, n.0, n.1)

  pub line_loop-Run :
      {Good : ℕ → ℕ → ℕ → Type 0}
      → IsWay Good
      → IsDrawable
      → (fuel k i j : ℕ) (g : Graphics) (color : ℕ) → k < fuel
      → Good k i j
      → Run (line_loop fuel segment (pen_at i j) g color) g color (suc k)
  unfolding line_loop
  line_loop-Run way ok zero k i j g color h good = absurd (omega arith)
  line_loop-Run way ok (suc fuel) zero i j g color h good =
      let ends = way.at_end i j good in
      let stop : (eqb_ℤ (along x0 right i) (along x0 right a)
            && eqb_ℤ (along y0 down j) (along y0 down b))
          ≡ true =
        rw (test_along x0 right i a, test_along y0 down j b) (at_both ends.0 ends.1) in
      rw stop (pen_at i j ∷ [], refl, refl, (on_line way zero i j good, tt))
  line_loop-Run way ok (suc fuel) (suc k) i j g color h good =
      let stop : (eqb_ℤ (along x0 right i) (along x0 right a)
            && eqb_ℤ (along y0 down j) (along y0 down b))
          ≡ false =
        rw (test_along x0 right i a, test_along y0 down j b) (way.goes_on k i j good) in
      let drawn = draw_dot g (pen_at i j) color in
      let rest =
        line_loop-Run way ok fuel k (next_i i j) (next_j i j) drawn color (omega arith)
          (way.steps k i j good) in
      rw (stop, no_overflow-pen_at way ok k i j good, move-pen_at i j)
        (pen_at i j ∷ rest.0, rest.1, ap suc rest.2, (on_line way (suc k) i j good, rest.3))
