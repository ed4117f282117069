-- ===== src/Kernel/Screen.antt =====
-- src/boot/kmain.cpp: what the shell, the menu and the request for the access key draw. There always is a
-- screen; `fuel` is for each line of the cube.
pub mod Drawing
pub mod Bounds
mod Tests
use emergence_os_bare_metal.Base.{
  ℕ, zero, suc, ◌+◌, ◌*◌, ◌/◌, ◌%◌, List, [], ◌∷◌, Bool, true, false, ◌&&◌, not, Option, none, some,
  ◌==◌, if◌then◌else◌, u32,
}
use emergence_os_bare_metal.Keyboard.{key_up, key_down}
use emergence_os_bare_metal.Resources.{get_active_cores}
use emergence_os_bare_metal.Manifold.{Manifold}
use emergence_os_bare_metal.Graphics.{
  Graphics, background, clear, draw_rect, draw_border, set_cursor, swap_buffers,
}
use emergence_os_bare_metal.Graphics.Cube.{draw_spinning_cube}
use emergence_os_bare_metal.Panel.{
  Region, scheduling, manifold, console, Build, sovereign, evaluation, release, print_line,
  draw_panel,
}
use emergence_os_bare_metal.Kernel.{Shell, enter, key, menu}

-- "[PHOENIX]> "
abbrev pub prompt_text : List ℕ
prompt_text = 91 ∷ 80 ∷ 72 ∷ 79 ∷ 69 ∷ 78 ∷ 73 ∷ 88 ∷ 93 ∷ 62 ∷ 32 ∷ []

-- "_"
abbrev pub cursor_text : List ℕ
cursor_text = 95 ∷ []

-- "=== CONSENSUS SOVEREIGN WORKSPACE ==="
abbrev pub workspace_text : List ℕ
workspace_text =
    61 ∷ 61 ∷ 61 ∷ 32 ∷ 67 ∷ 79 ∷ 78 ∷ 83 ∷ 69 ∷ 78 ∷ 83 ∷ 85 ∷ 83 ∷ 32 ∷ 83 ∷ 79 ∷ 86 ∷ 69 ∷ 82
    ∷ 69 ∷ 73 ∷ 71 ∷ 78 ∷ 32 ∷ 87 ∷ 79 ∷ 82 ∷ 75 ∷ 83 ∷ 80 ∷ 65 ∷ 67 ∷ 69 ∷ 32 ∷ 61 ∷ 61 ∷ 61 ∷ []

-- "[Sovereign]> "
abbrev pub shell_text : List ℕ
shell_text = 91 ∷ 83 ∷ 111 ∷ 118 ∷ 101 ∷ 114 ∷ 101 ∷ 105 ∷ 103 ∷ 110 ∷ 93 ∷ 62 ∷ 32 ∷ []

-- "CONSENSUS SOVEREIGN ACCESS"
abbrev pub access_text : List ℕ
access_text =
    67 ∷ 79 ∷ 78 ∷ 83 ∷ 69 ∷ 78 ∷ 83 ∷ 85 ∷ 83 ∷ 32 ∷ 83 ∷ 79 ∷ 86 ∷ 69 ∷ 82 ∷ 69 ∷ 73 ∷ 71 ∷ 78
    ∷ 32 ∷ 65 ∷ 67 ∷ 67 ∷ 69 ∷ 83 ∷ 83 ∷ []

-- "ENTER ACCESS KEY: "
abbrev pub key_text : List ℕ
key_text =
    69 ∷ 78 ∷ 84 ∷ 69 ∷ 82 ∷ 32 ∷ 65 ∷ 67 ∷ 67 ∷ 69 ∷ 83 ∷ 83 ∷ 32 ∷ 75 ∷ 69 ∷ 89 ∷ 58 ∷ 32 ∷ []

-- "=== CONSENSUS ENTERPRISE HYPERVISOR ==="
abbrev pub hypervisor_text : List ℕ
hypervisor_text =
    61 ∷ 61 ∷ 61 ∷ 32 ∷ 67 ∷ 79 ∷ 78 ∷ 83 ∷ 69 ∷ 78 ∷ 83 ∷ 85 ∷ 83 ∷ 32 ∷ 69 ∷ 78 ∷ 84 ∷ 69 ∷ 82
    ∷ 80 ∷ 82 ∷ 73 ∷ 83 ∷ 69 ∷ 32 ∷ 72 ∷ 89 ∷ 80 ∷ 69 ∷ 82 ∷ 86 ∷ 73 ∷ 83 ∷ 79 ∷ 82 ∷ 32 ∷ 61 ∷ 61
    ∷ 61 ∷ []

-- "VMX_ACCELERATION: [ENABLED]"
abbrev pub vmx_text : List ℕ
vmx_text =
    86 ∷ 77 ∷ 88 ∷ 95 ∷ 65 ∷ 67 ∷ 67 ∷ 69 ∷ 76 ∷ 69 ∷ 82 ∷ 65 ∷ 84 ∷ 73 ∷ 79 ∷ 78 ∷ 58 ∷ 32 ∷ 91
    ∷ 69 ∷ 78 ∷ 65 ∷ 66 ∷ 76 ∷ 69 ∷ 68 ∷ 93 ∷ []

-- "PHOENIX vX [SOVEREIGN] | CAPACITY: UNLIMITED", "PHOENIX v0.5 [OPEN] | CAPACITY: 1 TB" and
-- "PHOENIX v1.0 [RELEASE] | CAPACITY: 10 TB".
abbrev pub capacity_text : Build → List ℕ
capacity_text sovereign =
    80 ∷ 72 ∷ 79 ∷ 69 ∷ 78 ∷ 73 ∷ 88 ∷ 32 ∷ 118 ∷ 88 ∷ 32 ∷ 91 ∷ 83 ∷ 79 ∷ 86 ∷ 69 ∷ 82 ∷ 69 ∷ 73
    ∷ 71 ∷ 78 ∷ 93 ∷ 32 ∷ 124 ∷ 32 ∷ 67 ∷ 65 ∷ 80 ∷ 65 ∷ 67 ∷ 73 ∷ 84 ∷ 89 ∷ 58 ∷ 32 ∷ 85 ∷ 78 ∷ 76
    ∷ 73 ∷ 77 ∷ 73 ∷ 84 ∷ 69 ∷ 68 ∷ []
capacity_text evaluation =
    80 ∷ 72 ∷ 79 ∷ 69 ∷ 78 ∷ 73 ∷ 88 ∷ 32 ∷ 118 ∷ 48 ∷ 46 ∷ 53 ∷ 32 ∷ 91 ∷ 79 ∷ 80 ∷ 69 ∷ 78 ∷ 93
    ∷ 32 ∷ 124 ∷ 32 ∷ 67 ∷ 65 ∷ 80 ∷ 65 ∷ 67 ∷ 73 ∷ 84 ∷ 89 ∷ 58 ∷ 32 ∷ 49 ∷ 32 ∷ 84 ∷ 66 ∷ []
capacity_text release =
    80 ∷ 72 ∷ 79 ∷ 69 ∷ 78 ∷ 73 ∷ 88 ∷ 32 ∷ 118 ∷ 49 ∷ 46 ∷ 48 ∷ 32 ∷ 91 ∷ 82 ∷ 69 ∷ 76 ∷ 69 ∷ 65
    ∷ 83 ∷ 69 ∷ 93 ∷ 32 ∷ 124 ∷ 32 ∷ 67 ∷ 65 ∷ 80 ∷ 65 ∷ 67 ∷ 73 ∷ 84 ∷ 89 ∷ 58 ∷ 32 ∷ 49 ∷ 48 ∷ 32
    ∷ 84 ∷ 66 ∷ []

abbrev pub capacity_color : Build → ℕ
capacity_color sovereign = 0x00FF00FF
capacity_color evaluation = 0x00FF0000
capacity_color release = 0x00FFFF00

-- "> 1. Launch Sovereign Workspace", or with two spaces in front.
abbrev pub launch_text : Bool → List ℕ
launch_text true =
    62 ∷ 32 ∷ 49 ∷ 46 ∷ 32 ∷ 76 ∷ 97 ∷ 117 ∷ 110 ∷ 99 ∷ 104 ∷ 32 ∷ 83 ∷ 111 ∷ 118 ∷ 101 ∷ 114 ∷ 101
    ∷ 105 ∷ 103 ∷ 110 ∷ 32 ∷ 87 ∷ 111 ∷ 114 ∷ 107 ∷ 115 ∷ 112 ∷ 97 ∷ 99 ∷ 101 ∷ []
launch_text false =
    32 ∷ 32 ∷ 49 ∷ 46 ∷ 32 ∷ 76 ∷ 97 ∷ 117 ∷ 110 ∷ 99 ∷ 104 ∷ 32 ∷ 83 ∷ 111 ∷ 118 ∷ 101 ∷ 114 ∷ 101
    ∷ 105 ∷ 103 ∷ 110 ∷ 32 ∷ 87 ∷ 111 ∷ 114 ∷ 107 ∷ 115 ∷ 112 ∷ 97 ∷ 99 ∷ 101 ∷ []

-- "> 2. Neumann Control Panel", or with two spaces in front.
abbrev pub panel_text : Bool → List ℕ
panel_text true =
    62 ∷ 32 ∷ 50 ∷ 46 ∷ 32 ∷ 78 ∷ 101 ∷ 117 ∷ 109 ∷ 97 ∷ 110 ∷ 110 ∷ 32 ∷ 67 ∷ 111 ∷ 110 ∷ 116 ∷ 114
    ∷ 111 ∷ 108 ∷ 32 ∷ 80 ∷ 97 ∷ 110 ∷ 101 ∷ 108 ∷ []
panel_text false =
    32 ∷ 32 ∷ 50 ∷ 46 ∷ 32 ∷ 78 ∷ 101 ∷ 117 ∷ 109 ∷ 97 ∷ 110 ∷ 110 ∷ 32 ∷ 67 ∷ 111 ∷ 110 ∷ 116 ∷ 114
    ∷ 111 ∷ 108 ∷ 32 ∷ 80 ∷ 97 ∷ 110 ∷ 101 ∷ 108 ∷ []

-- The text in an array, up to its terminator.
abbrev pub c_string : List ℕ → List ℕ
c_string [] = []
c_string (c ∷ str) = let rest = c_string str in if c == 0 then [] else c ∷ rest

abbrev pub phase_lock_divisor : ℕ
phase_lock_divisor = 1

-- The value of `g_focus`.
abbrev pub region_of : ℕ → Region
region_of focus = if focus == 0 then scheduling else if focus == 1 then manifold else console

-- The command line of the panel.
unfoldable pub draw_prompt : Graphics → Shell → Graphics
draw_prompt g s =
    let color = if s.focus == 2 then 0x0000FF00 else 0x00003333 in
    let prompt = print_line g prompt_text 320 520 color in
    let typed = print_line prompt (c_string s.cmd) 410 520 0x00FFFFFF in
    if s.focus == 2 && not (s.hypercube_frame / 16 % 2 == 0)
    then print_line typed cursor_text (u32 (410 + s.cmd_idx * 8)) 520 0x0000FF00
    else typed

-- The shell without the panel.
unfoldable pub draw_workspace : Graphics → Shell → Graphics
draw_workspace g s =
    let top = draw_rect g 0 0 1024 60 background in
    let title = print_line top workspace_text 10 10 0x0000FFFF in
    let line = draw_rect title 0 480 1024 40 background in
    let prompt = print_line line shell_text 10 500 0x0000FF00 in
    print_line prompt (c_string s.cmd) 120 500 0x00FFFFFF

-- What is drawn at a pulse; `in_control_panel` as the panel was chosen.
unfoldable pub draw_shell : ℕ → Build → Bool → Manifold → Graphics → Shell → Option Graphics
draw_shell fuel build in_control_panel m g s =
    let lock = s.hypercube_frame % (60 * phase_lock_divisor) == 0 in
    let panel =
      draw_panel build g m (get_active_cores s.res) s.res.active_nodes (region_of s.focus)
        s.hypercube_frame in
    let shown : Option Graphics = elim (draw_spinning_cube fuel panel s.hypercube_frame lock) [
      | none ↦ none
      | some g' ↦ some (swap_buffers (draw_prompt g' s))
    ] in
    if in_control_panel then shown else some (swap_buffers (draw_workspace g s))

-- The loop with its drawing, one scan code at each pulse.
unfoldable pub run_pulses :
    ℕ → Build → Bool → Manifold → Graphics → Shell → List ℕ → Option (Graphics × Shell)
run_pulses fuel build in_control_panel m g s [] = some (g, s)
run_pulses fuel build in_control_panel m g s (sc ∷ codes) =
    let after : Option (Graphics × Shell) = elim (draw_shell fuel build in_control_panel m g s) [
      | none ↦ none
      | some g' ↦
          run_pulses fuel build in_control_panel m g'
            (key (record s { hypercube_frame = u32 (s.hypercube_frame + 1) }) sc) codes
    ] in
    if s.in_shell then after else some (g, s)

unfoldable pub run_shell :
    ℕ → Build → Bool → Manifold → Graphics → Shell → List ℕ → Option (Graphics × Shell)
run_shell fuel build in_control_panel m g s codes =
    run_pulses fuel build in_control_panel m (clear g background) (enter s) codes

unfoldable pub draw_access : Graphics → Graphics
draw_access g =
    let framed = draw_border (clear g background) 200 200 600 200 0x00222222 1 in
    let title = print_line framed access_text 350 220 0x0000FFFF in
    let asked = print_line title key_text 250 280 0x00FFFFFF in
    swap_buffers (set_cursor asked 400 280)

unfoldable pub draw_menu : Build → Bool → Graphics → ℕ → Graphics
draw_menu build vmx_ready g selection =
    let title = print_line (clear g background) hypervisor_text 300 200 0x0000FFFF in
    let capacity = print_line title (capacity_text build) 250 130 (capacity_color build) in
    let vmx = if vmx_ready then print_line capacity vmx_text 300 150 0x0000FF00 else capacity in
    let first = selection == 0 in
    let launch =
      print_line vmx (launch_text first) 250 240 (if first then 0x0000FF00 else 0x00FFFFFF) in
    let second = selection == 1 in
    let panel =
      print_line launch (panel_text second) 250 260 (if second then 0x0000FF00 else 0x00FFFFFF) in
    swap_buffers panel

-- The menu with its drawing, until Enter is pressed or the codes end.
unfoldable pub run_menu : Build → Bool → Graphics → ℕ → List ℕ → Graphics × ℕ
run_menu build vmx_ready g selection [] = (g, selection)
run_menu build vmx_ready g selection (sc ∷ codes) =
    let drawn = draw_menu build vmx_ready g selection in
    let selection' = if sc == key_up then 0 else if sc == key_down then 1 else selection in
    let after = run_menu build vmx_ready drawn selection' codes in
    if sc == 0x1C then (drawn, selection') else after

-- A round of the last loop of `kmain`: the codes for the menu, then those for the shell.
unfoldable pub run_round :
    ℕ → Build → Bool → Manifold → Graphics → Shell → List ℕ → List ℕ → Option (Graphics × Shell)
run_round fuel build vmx_ready m g s menu_codes codes =
    let (shown, selection) = run_menu build vmx_ready g 0 menu_codes in
    run_shell fuel build (not (selection == 0)) m shown s codes
