-- ===== src/Panel/Tests.antt =====
-- A ring of src/hal/neumann_control_panel.hpp on a screen of 1024 times 768 pixels.
use emergence_os_bare_metal.Base.{◌≡◌, arith}
use emergence_os_bare_metal.Graphics.{Graphics}
use emergence_os_bare_metal.Panel.{draw_ring}
use emergence_os_bare_metal.Panel.Rotors.{IsRoom, draw_ring_lem}

abbrev wide_screen : Graphics
wide_screen = record {
  lfb = λ a. 0;
  back_buffer = λ a. 0;
  width = 1024;
  height = 768;
  pitch = 4096;
  cursor_x = 0;
  cursor_y = 0;
}

wide-IsRoom : IsRoom wide_screen 150 620
wide-IsRoom = record {
  center_x = omega arith;
  center_y = omega arith;
  width_fits = omega arith;
  height_fits = omega arith;
}

draw_ring_lem_example :
    draw_ring wide_screen 150 620 3 0 12 0x3333 ≡ draw_ring wide_screen 150 620 3 0 4 0x3333
draw_ring_lem_example = draw_ring_lem 150 620 3 0x3333 (omega arith) wide_screen wide-IsRoom
