-- ===== src/Kernel/Screen/Tests.antt =====
-- Runs of src/boot/kmain.cpp with its drawing.
use emergence_os_bare_metal.Base.{ℕ, refl, arith, List, [], ◌∷◌, true, replicate}
use emergence_os_bare_metal.Manifold.{Manifold, construct}
use emergence_os_bare_metal.Resources.{start}
use emergence_os_bare_metal.Graphics.{Graphics}
use emergence_os_bare_metal.Kernel.{Shell, sovereign_shell}
use emergence_os_bare_metal.Kernel.Screen.Bounds.{IsShell, sovereign_shell-IsShell}

abbrev full_screen : Graphics
full_screen = record {
  lfb = λ a. 0;
  back_buffer = λ a. 0;
  width = 1024;
  height = 768;
  pitch = 4096;
  cursor_x = 0;
  cursor_y = 0;
}

abbrev no_blocks : Manifold
no_blocks = construct (λ a. 0) (λ a. 0)

abbrev at_start : Shell
at_start = record {
  cmd = replicate 128 0;
  cmd_idx = 0;
  focus = 2;
  in_shell = true;
  hypercube_frame = 2147483626;
  res = start 4096;
}

-- Down and Enter in the menu, then "back", Tab and Enter.
abbrev menu_codes : List ℕ
menu_codes = 0x50 ∷ 0x1C ∷ []

abbrev shell_codes : List ℕ
shell_codes = 0x30 ∷ 0x1E ∷ 0x2E ∷ 0x25 ∷ 0x0F ∷ 0x1C ∷ []

at_start_ranges : IsShell at_start
at_start_ranges = record {
  cells = refl;
  index = omega arith;
  region = omega arith;
  word = omega arith;
}

sovereign_shell-IsShell_example : IsShell (sovereign_shell at_start shell_codes)
sovereign_shell-IsShell_example = sovereign_shell-IsShell shell_codes at_start at_start_ranges
