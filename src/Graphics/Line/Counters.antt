-- ===== src/Graphics/Line/Counters.antt =====
-- How far the pen of src/hal/vga.hpp has come: `i` steps across and `j` down, of `a` and `b`. The tests
-- of a round are those of `draw_line` with the error `(j + 1) * a - (i + 1) * b`.
use native.Mathlib.Nat.{mul-le-mul_right, mul_comm}
use native.Mathlib.Decide.{dec_lt}
use emergence_os_bare_metal.Base.{
  ℕ, ◌+◌, ◌*◌, ◌≤◌, ◌<◌, ◌≡◌, arith, Bool, true, false, Bool-cases, inl, inr, ltb, if◌then◌else◌,
}

-- `2 * err > -b`, and `2 * err < a`.
abbrev pub goes_across : ℕ → ℕ → ℕ → ℕ → Bool
goes_across a b i j = ltb (2 * ((i + 1) * b)) (2 * ((j + 1) * a) + b)

abbrev pub goes_down : ℕ → ℕ → ℕ → ℕ → Bool
goes_down a b i j = ltb (2 * ((j + 1) * a)) (2 * ((i + 1) * b) + a)

-- The point is within half a step of the line: `j` is next to `i * b / a`, and the lower of two.
pub record IsNear (a b i j : ℕ) : Type 0 where
  pub above : 2 * (j * a) < 2 * (i * b) + a
  pub below : 2 * (i * b) ≤ 2 * (j * a) + a

pub times_suc : (n m : ℕ) → (n + 1) * m ≡ n * m + m
times_suc n m = grind arith

pub start-IsNear : (a b : ℕ) → 0 < a → IsNear a b 0 0
start-IsNear a b h = record { above = omega arith; below = omega arith }

across_lem : (a b x y : ℕ) → b < a → 2 * y ≤ 2 * x + a → ltb (2 * (y + b)) (2 * (x + a) + b) ≡ true
across_lem a b x y h n = ground arith

down_lem :
    (a b x y : ℕ) → ltb (2 * (x + a)) (2 * (y + b) + a) ≡ true → 2 * (x + a) < 2 * (y + b) + a
down_lem a b x y e = ground arith

level_lem : (a b x y : ℕ) → ltb (2 * (x + a)) (2 * (y + b) + a) ≡ false → 2 * (y + b) ≤ 2 * x + a
level_lem a b x y e = ground arith

-- With more to go across than down every round goes across, and down where the line is nearer there.
pub step-IsNear :
    (a b i j : ℕ)
    → b < a
    → IsNear a b i j
    → (goes_across a b i j ≡ true) × IsNear a b (i + 1) (if goes_down a b i j then j + 1 else j)
step-IsNear a b i j h n =
    let x = times_suc j a in
    let y = times_suc i b in
    let across : goes_across a b i j ≡ true =
      rw (x, y) (across_lem a b (j * a) (i * b) h n.below) in
    (
      across,
      elim (Bool-cases (goes_down a b i j)) [
        | inl down ↦
            let d : 2 * (j * a + a) < 2 * (i * b + b) + a =
              down_lem a b (j * a) (i * b) (rw (← x, ← y) down) in
            rw down (record { above = rw (x, y) d; below = rw (x, y) (omega (arith, n.below)) })
        | inr level ↦
            let l : 2 * (i * b + b) ≤ 2 * (j * a) + a =
              level_lem a b (j * a) (i * b) (rw (← x, ← y) level) in
            rw level (record { above = rw y (omega (arith, n.above)); below = rw y l })
      ],
    )

-- Across to the end is down to the end.
pub end-IsNear : (a b j : ℕ) → 0 < a → IsNear a b a j → j ≡ b
end-IsNear a b j h n =
    let turned : a * b ≡ b * a = mul_comm a b in
    elim (dec_lt j b) [
      | yes less ↦ absurd (
          omega
            (arith, turned, times_suc j a, mul-le-mul_right {m = j + 1} {n = b} a (omega arith)))
      | no ge ↦ elim (dec_lt b j) [
        | yes more ↦ absurd (
            omega
              (arith, turned, times_suc b a, mul-le-mul_right {m = b + 1} {n = j} a (omega arith)))
        | no le ↦ omega arith
      ]
    ]

-- Not beyond the end across is not beyond the end down.
pub within-IsNear : (a b i j : ℕ) → 0 < a → i ≤ a → IsNear a b i j → j ≤ b
within-IsNear a b i j h le n =
    let turned : a * b ≡ b * a = mul_comm a b in
    elim (dec_lt b j) [
      | yes more ↦ absurd (
          omega (
            arith,
            turned,
            times_suc b a,
            mul-le-mul_right {m = i} {n = a} b le,
            mul-le-mul_right {m = b + 1} {n = j} a (omega arith),
            n.above,
          ))
      | no le ↦ omega arith
    ]
