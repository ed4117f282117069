-- ===== src/Graphics/Cube.antt =====
-- `draw_spinning_cube` of src/hal/vga.hpp, for the frame as a 32-bit word.
pub mod Frames
use emergence_os_bare_metal.Base.{
  ℕ, zero, suc, ◌+◌, ◌-◌, ◌*◌, ◌%◌, List, [], ◌∷◌, ◌++◌, Bool, true, false, Option, none, some,
  if◌then◌else◌, ltb, get_or, map, ℤ, pos, negsuc, pos_part, ◌+ℤ◌, ◌-ℤ◌, ◌*ℤ◌, quot_ℤ, shift_right,
}
use emergence_os_bare_metal.Graphics.{Graphics, print_at}
use emergence_os_bare_metal.Graphics.Line.{draw_line}

abbrev pub s_tbl : List ℤ
s_tbl =
    pos 0
    ∷ pos 25
    ∷ pos 50
    ∷ pos 74
    ∷ pos 98
    ∷ pos 120
    ∷ pos 142
    ∷ pos 162
    ∷ pos 180
    ∷ pos 197
    ∷ pos 212
    ∷ pos 225
    ∷ pos 236
    ∷ pos 244
    ∷ pos 250
    ∷ pos 254
    ∷ pos 255
    ∷ pos 254
    ∷ pos 250
    ∷ pos 244
    ∷ pos 236
    ∷ pos 225
    ∷ pos 212
    ∷ pos 197
    ∷ pos 180
    ∷ pos 162
    ∷ pos 142
    ∷ pos 120
    ∷ pos 98
    ∷ pos 74
    ∷ pos 50
    ∷ pos 25
    ∷ pos 0
    ∷ negsuc 24
    ∷ negsuc 49
    ∷ negsuc 73
    ∷ negsuc 97
    ∷ negsuc 119
    ∷ negsuc 141
    ∷ negsuc 161
    ∷ negsuc 179
    ∷ negsuc 196
    ∷ negsuc 211
    ∷ negsuc 224
    ∷ negsuc 235
    ∷ negsuc 243
    ∷ negsuc 249
    ∷ negsuc 253
    ∷ negsuc 254
    ∷ negsuc 253
    ∷ negsuc 249
    ∷ negsuc 243
    ∷ negsuc 235
    ∷ negsuc 224
    ∷ negsuc 211
    ∷ negsuc 196
    ∷ negsuc 179
    ∷ negsuc 161
    ∷ negsuc 141
    ∷ negsuc 119
    ∷ negsuc 97
    ∷ negsuc 73
    ∷ negsuc 49
    ∷ negsuc 24
    ∷ []

pub record Vertex : Type 0 where
  pub vx : ℤ
  pub vy : ℤ
  pub vz : ℤ

abbrev pub vertex : ℤ → ℤ → ℤ → Vertex
vertex x y z = record { vx = x; vy = y; vz = z }

abbrev pub vertices : List Vertex
vertices =
    vertex (negsuc 0) (negsuc 0) (negsuc 0)
    ∷ vertex (pos 1) (negsuc 0) (negsuc 0)
    ∷ vertex (pos 1) (pos 1) (negsuc 0)
    ∷ vertex (negsuc 0) (pos 1) (negsuc 0)
    ∷ vertex (negsuc 0) (negsuc 0) (pos 1)
    ∷ vertex (pos 1) (negsuc 0) (pos 1)
    ∷ vertex (pos 1) (pos 1) (pos 1)
    ∷ vertex (negsuc 0) (pos 1) (pos 1)
    ∷ []

-- A place on the screen.
pub record Point : Type 0 where
  pub px : ℤ
  pub py : ℤ

abbrev pub size : ℤ
size = pos 80

unfoldable pub sin_of : ℕ → ℤ
sin_of frame = get_or s_tbl (frame % 64) (pos 0)

unfoldable pub cos_of : ℕ → ℤ
cos_of frame = get_or s_tbl ((frame + 16) % 64) (pos 0)

unfoldable pub turned_x : ℤ → ℤ → Vertex → ℤ
turned_x sin_a cos_a v = shift_right (v.vx *ℤ size *ℤ cos_a -ℤ v.vz *ℤ size *ℤ sin_a) 8

-- The first `rz`.
unfoldable pub turned_z : ℤ → ℤ → Vertex → ℤ
turned_z sin_a cos_a v = shift_right (v.vx *ℤ size *ℤ sin_a +ℤ v.vz *ℤ size *ℤ cos_a) 8

unfoldable pub turned_y : ℤ → ℤ → Vertex → ℤ
turned_y sin_a cos_a v = shift_right (v.vy *ℤ size *ℤ cos_a -ℤ turned_z sin_a cos_a v *ℤ sin_a) 8

unfoldable pub dist_of : ℤ → ℤ → Vertex → ℤ
dist_of sin_a cos_a v =
    pos 300 +ℤ shift_right (v.vy *ℤ size *ℤ sin_a +ℤ turned_z sin_a cos_a v *ℤ cos_a) 8

-- Division is by the distance, which is positive.
unfoldable pub project : ℤ → ℤ → Vertex → Point
project sin_a cos_a v =
    let dist = pos_part (dist_of sin_a cos_a v) in
    record {
      px = pos 800 +ℤ quot_ℤ (turned_x sin_a cos_a v *ℤ pos 512) dist;
      py = pos 200 +ℤ quot_ℤ (turned_y sin_a cos_a v *ℤ pos 512) dist;
    }

abbrev pub no_point : Point
no_point = record { px = pos 0; py = pos 0 }

unfoldable pub proj : ℕ → ℕ → Point
proj frame i = get_or (map (project (sin_of frame) (cos_of frame)) vertices) i no_point

-- The ends of the three lines of round `i`.
unfoldable pub edges_at : ℕ → List (ℕ × ℕ)
edges_at i = (i, (i + 1) % 4) ∷ (i + 4, (i + 1) % 4 + 4) ∷ (i, i + 4) ∷ []

unfoldable pub draw_edges : ℕ → Graphics → (ℕ → Point) → ℕ → List (ℕ × ℕ) → Option Graphics
draw_edges fuel g at col [] = some g
draw_edges fuel g at col (e ∷ es) =
    elim (draw_line fuel g (at e.0).px (at e.0).py (at e.1).px (at e.1).py col) [
      | none ↦ none
      | some g' ↦ draw_edges fuel g' at col es
    ]

abbrev pub all_edges : List (ℕ × ℕ)
all_edges = edges_at 0 ++ (edges_at 1 ++ (edges_at 2 ++ edges_at 3))

-- "MANIFOLD_PHASE"
abbrev pub phase_label : List ℕ
phase_label = 77 ∷ 65 ∷ 78 ∷ 73 ∷ 70 ∷ 79 ∷ 76 ∷ 68 ∷ 95 ∷ 80 ∷ 72 ∷ 65 ∷ 83 ∷ 69 ∷ []

-- The first frame for which `frame + 16` is no `int`; from 2 ^ 31 on the frame is negative, and the table
-- would be read before its start.
abbrev pub no_frame : ℕ
no_frame = 2147483632

-- `fuel` is for each line; `none` also where the code has no defined behaviour.
unfoldable pub draw_spinning_cube : ℕ → Graphics → ℕ → Bool → Option Graphics
draw_spinning_cube fuel g frame lock =
    let col = if lock then 0x00FF0000 else 0x0000FFFF in
    let drawn : Option Graphics = elim (draw_edges fuel g (proj frame) col all_edges) [
      | none ↦ none
      | some g' ↦ some (print_at g' phase_label 760 760 300 col)
    ] in
    if ltb frame no_frame then drawn else none
