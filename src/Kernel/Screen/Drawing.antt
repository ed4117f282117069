-- ===== src/Kernel/Screen/Drawing.antt =====
-- That drawing does not keep the shell of src/boot/kmain.cpp from its work.
use emergence_os_bare_metal.Base.{ℕ, ◌+◌, ◌≤◌, ◌≡◌, Bool, false, ◌⊎◌}
use emergence_os_bare_metal.Graphics.Cube.{no_frame}
use emergence_os_bare_metal.Manifold.{Manifold}
use emergence_os_bare_metal.Graphics.{Graphics}

-- The cube is drawn at no more pulses than there are frames that fit.
abbrev pub HasFrames : Bool → ℕ → ℕ → Type 0
HasFrames in_control_panel frame pulses = (in_control_panel ≡ false) ⊎ (frame + pulses ≤ no_frame)
