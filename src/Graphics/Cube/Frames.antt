-- ===== src/Graphics/Cube/Frames.antt =====
-- The lines of the cube of src/hal/vga.hpp, for all frames: the table repeats after 64 of them.
use emergence_os_bare_metal.Base.{
  ℕ, zero, suc, ◌+◌, ◌%◌, ◌^◌, ◌≤◌, ◌<◌, ◌≡◌, refl, ap₂, subst, arith, List, [], ◌∷◌, Bool, true,
  ◌&&◌, and_both, ltb, lt→ltb, max, map, get_or, some, if◌then◌else◌, ℤ, pos_part, ◌+ℤ◌, ◌-ℤ◌, ◌*ℤ◌,
}
use native.Mathlib.Decide.{ℕ_discrete}
use emergence_os_bare_metal.Graphics.{Graphics, print_at}
use emergence_os_bare_metal.Graphics.Line.{is_int}
use emergence_os_bare_metal.Graphics.Line.Reach.{dist, draw_dots}
use emergence_os_bare_metal.Graphics.Line.Ends.{draw_line_lem}
use emergence_os_bare_metal.Graphics.Cube.{
  Vertex, vertices, Point, sin_of, cos_of, turned_x, turned_y, turned_z, dist_of, project, proj,
  edges_at, all_edges, no_point, draw_edges, draw_spinning_cube, phase_label, no_frame,
}

-- Lines shorter than 512 steps, between places that fit.
abbrev are_short : (ℕ → Point) → List (ℕ × ℕ) → Bool
are_short at [] = true
are_short at (e ∷ es) =
    (ltb (max (dist (at e.0).px (at e.1).px) (dist (at e.0).py (at e.1).py)) 512
      && ((is_int (at e.0).px && is_int (at e.0).py) && (is_int (at e.1).px && is_int (at e.1).py)))
    && are_short at es

abbrev pub are_far : ℤ → ℤ → List Vertex → Bool
are_far sin_a cos_a [] = true
are_far sin_a cos_a (v ∷ vs) = ltb 0 (pos_part (dist_of sin_a cos_a v)) && are_far sin_a cos_a vs

-- Frames from `frame` on.
abbrev all_fine : ℕ → ℕ → Bool
all_fine frame zero = true
all_fine frame (suc n) =
    (are_short (proj frame) all_edges && are_far (sin_of frame) (cos_of frame) vertices)
    && all_fine (frame + 1) n

-- By computing all of them.
fine : all_fine 0 64 ≡ true
unfolding is_int sin_of cos_of turned_x turned_y turned_z dist_of project proj edges_at ◌+ℤ◌ ◌-ℤ◌
    ◌*ℤ◌
fine = refl

fine_at :
    (n frame k : ℕ)
    → all_fine frame n ≡ true
    → frame ≤ k
    → k < frame + n
    → (are_short (proj k) all_edges ≡ true) × (are_far (sin_of k) (cos_of k) vertices ≡ true)
fine_at zero frame k e l h = absurd (omega arith)
fine_at (suc n) frame k e l h =
    let parts =
      and_both (are_short (proj frame) all_edges && are_far (sin_of frame) (cos_of frame) vertices)
        (all_fine (frame + 1) n) e in
    let here =
      and_both (are_short (proj frame) all_edges) (are_far (sin_of frame) (cos_of frame) vertices)
        parts.0 in
    elim (ℕ_discrete frame k) [
      | yes at ↦
          subst
            (λ k.
              (are_short (proj k) all_edges ≡ true)
              × (are_far (sin_of k) (cos_of k) vertices ≡ true))
            at here
      | no other ↦ fine_at n (frame + 1) k parts.1 (omega (arith, other)) (omega arith)
    ]

sin_of-mod : (frame : ℕ) → sin_of (frame % 64) ≡ sin_of frame
unfolding sin_of
sin_of-mod frame = let same : frame % 64 % 64 ≡ frame % 64 = omega arith in rw same refl

cos_of-mod : (frame : ℕ) → cos_of (frame % 64) ≡ cos_of frame
unfolding cos_of
cos_of-mod frame =
    let same : (frame % 64 + 16) % 64 ≡ (frame + 16) % 64 = omega arith in rw same refl

proj-mod : (frame : ℕ) → proj (frame % 64) ≡ proj frame
unfolding proj
proj-mod frame =
    ap₂ (λ s c i. get_or (map (project s c) vertices) i no_point) (sin_of-mod frame)
      (cos_of-mod frame)

draw_edges_ends :
    (fuel : ℕ) (g : Graphics) (at : ℕ → Point) (col : ℕ) (es : List (ℕ × ℕ))
    → 512 ≤ fuel
    → are_short at es ≡ true
    → (g' : Graphics) × (draw_edges fuel g at col es ≡ some g')
unfolding draw_edges
draw_edges_ends fuel g at col [] f e = (g, refl)
draw_edges_ends fuel g at col (e ∷ es) f short =
    let longest = max (dist (at e.0).px (at e.1).px) (dist (at e.0).py (at e.1).py) in
    let from_int = is_int (at e.0).px && is_int (at e.0).py in
    let to_int = is_int (at e.1).px && is_int (at e.1).py in
    let parts = and_both (ltb longest 512 && (from_int && to_int)) (are_short at es) short in
    let line_parts = and_both (ltb longest 512) (from_int && to_int) parts.0 in
    let ends = and_both from_int to_int line_parts.1 in
    let from_ = and_both (is_int (at e.0).px) (is_int (at e.0).py) ends.0 in
    let to_ = and_both (is_int (at e.1).px) (is_int (at e.1).py) ends.1 in
    let line =
      draw_line_lem (at e.0).px (at e.0).py (at e.1).px (at e.1).py fuel g col from_.0 from_.1 to_.0
        to_.1 (small longest line_parts.0) (below longest fuel f line_parts.0) in
    rw (draw_edges, line.1) (draw_edges_ends fuel (draw_dots g col line.0) at col es f parts.1)
  where
    below : (n fuel : ℕ) → 512 ≤ fuel → ltb n 512 ≡ true → n < fuel
    below n fuel f e = ground arith

    small : (n : ℕ) → ltb n 512 ≡ true → n < 2 ^ 29
    small n e = ground arith

-- Every frame of the cube below `no_frame` is drawn to the end with 512 rounds for a line, and the distance that each
-- corner is divided by is positive.
pub draw_spinning_cube_ends :
    (fuel : ℕ) (g : Graphics) (frame : ℕ) (lock : Bool)
    → 512 ≤ fuel
    → frame < no_frame
    → ((g' : Graphics) × (draw_spinning_cube fuel g frame lock ≡ some g'))
      × (are_far (sin_of frame) (cos_of frame) vertices ≡ true)
unfolding draw_spinning_cube
draw_spinning_cube_ends fuel g frame lock f h =
    let good = fine_at 64 0 (frame % 64) fine (omega arith) (omega arith) in
    let short : are_short (proj frame) all_edges ≡ true =
      subst (λ at. are_short at all_edges ≡ true) (proj-mod frame) good.0 in
    let drawn =
      draw_edges_ends fuel g (proj frame) (if lock then 0x00FF0000 else 0x0000FFFF) all_edges f
        short in
    (
      rw (draw_spinning_cube, lt→ltb frame no_frame h, drawn.1)
          (
            print_at drawn.0 phase_label 760 760 300 (if lock then 0x00FF0000 else 0x0000FFFF),
            refl,
          ),
      subst (λ s. are_far s (cos_of frame) vertices ≡ true) (sin_of-mod frame)
          (subst (λ c. are_far (sin_of (frame % 64)) c vertices ≡ true) (cos_of-mod frame) good.1),
    )
