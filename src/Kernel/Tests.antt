-- ===== src/Kernel/Tests.antt =====
-- Runs of src/boot/kmain.cpp.
use emergence_os_bare_metal.Base.{ℕ, ◌≡◌, arith, List, [], ◌∷◌, true}
use emergence_os_bare_metal.Resources.{start}
use emergence_os_bare_metal.Kernel.{sovereign_shell}
use emergence_os_bare_metal.Kernel.Line.{Line, press_keys, shell_of, Fits, sovereign_shell-shell_of}

abbrev at_start : Line
at_start = record { text = []; running = true; region = 2; resources = start 4096 }

-- "foldx", backspace, Enter, Tab.
abbrev typed_codes : List ℕ
typed_codes = 0x21 ∷ 0xA1 ∷ 0x18 ∷ 0x26 ∷ 0x20 ∷ 0x2D ∷ 0x0E ∷ 0x1C ∷ 0x0F ∷ []

sovereign_shell-shell_of_example :
    (frame' : ℕ) × (sovereign_shell (shell_of 0 at_start) typed_codes
      ≡ shell_of frame' (press_keys at_start typed_codes))
    × Fits (press_keys at_start typed_codes)
sovereign_shell-shell_of_example = sovereign_shell-shell_of 0 at_start typed_codes (omega arith)
