-- ===== src/Graphics/Tests.antt =====
-- Runs of src/hal/vga.hpp on a small screen.
use emergence_os_bare_metal.Base.{
  true, ℕ, ◌+◌, ◌-◌, ◌/◌, ◌≡◌, ◌<◌, arith, ◌&&◌, if◌then◌else◌, max, pos, ◌-ℤ◌, ltb_ℤ,
}
use emergence_os_bare_metal.Manifold.{Manifold, construct}
use emergence_os_bare_metal.Graphics.{Graphics, draw_rect}
use emergence_os_bare_metal.Graphics.Line.{draw_line, is_int}
use emergence_os_bare_metal.Graphics.Line.Reach.{Run, dist}
use emergence_os_bare_metal.Graphics.Line.Ends.{draw_line_lem}
use emergence_os_bare_metal.Graphics.Quad.{Quadrant, cell_color, draw_cell_rows}
use emergence_os_bare_metal.Graphics.Quad.Cells.{on_cells, draw_cell_rows_lem}
use emergence_os_bare_metal.Graphics.Rect.{IsScreen, SameSize, pixel, on_rect, draw_rect_lem}

abbrev small_screen : Graphics
small_screen = record {
  lfb = λ a. 0;
  back_buffer = λ a. 0;
  width = 64;
  height = 48;
  pitch = 320;
  cursor_x = 56;
  cursor_y = 12;
}

small-IsScreen : IsScreen small_screen
small-IsScreen = record { rows_fit = omega arith; indexed = omega arith; narrow = omega arith }

draw_rect_lem_example :
    (pixel (draw_rect small_screen 60 40 20 20 7) 63 47
      ≡ (if on_rect 60 40 20 20 63 47 then 7 else pixel small_screen 63 47))
    × SameSize small_screen (draw_rect small_screen 60 40 20 20 7)
draw_rect_lem_example =
    draw_rect_lem small_screen 60 40 20 20 7 63 47 small-IsScreen (omega arith) (omega arith)

small_dist : max (dist (pos 60) (pos 10)) (dist (pos 5) (pos 25)) ≡ 50
unfolding ◌-ℤ◌
small_dist = omega arith

small_int : (n : ℕ) → n < 100 → is_int (pos n) ≡ true
unfolding is_int
small_int n h = ground arith

draw_line_lem_example :
    Run
      (pos 60)
      (pos 5)
      (ltb_ℤ (pos 60) (pos 10))
      (ltb_ℤ (pos 5) (pos 25))
      (dist (pos 60) (pos 10))
      (dist (pos 5) (pos 25))
      (draw_line 60 small_screen (pos 60) (pos 5) (pos 10) (pos 25) 9)
      small_screen
      9
      (max (dist (pos 60) (pos 10)) (dist (pos 5) (pos 25)) + 1)
draw_line_lem_example =
    draw_line_lem (pos 60) (pos 5) (pos 10) (pos 25) 60 small_screen 9 (small_int 60 (omega arith))
      (small_int 5 (omega arith)) (small_int 10 (omega arith)) (small_int 25 (omega arith))
      (omega (arith, small_dist)) (omega (arith, small_dist))

abbrev fresh_manifold : Manifold
fresh_manifold = construct (λ a. 0) (λ a. 0)

abbrev corner : Quadrant
corner = record { qx = 0; qy = 0; master_frame = 1000; offset = 512 }

draw_cell_rows_lem_example :
    (pixel (draw_cell_rows fresh_manifold corner small_screen 0 8) 33 46 ≡ (
      if on_cells 10 0 8 33 && on_cells 25 0 8 46
      then cell_color fresh_manifold 1000 512 ((46 - 25) / 10) ((33 - 10) / 10)
      else pixel small_screen 33 46))
    × SameSize small_screen (draw_cell_rows fresh_manifold corner small_screen 0 8)
draw_cell_rows_lem_example =
    draw_cell_rows_lem fresh_manifold corner (omega arith) (omega arith) small_screen 33 46
      small-IsScreen (omega arith) (omega arith)
