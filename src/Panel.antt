-- ===== src/Panel.antt =====
-- src/hal/neumann_control_panel.hpp: the panel of the shell, drawn into the back buffer.
pub mod Rotors
mod Tests
use emergence_os_bare_metal.Base.{
  ℕ, zero, suc, ◌+◌, ◌-◌, ◌*◌, ◌/◌, ◌%◌, List, [], ◌∷◌, Bool, true, false, ◌==◌, if◌then◌else◌,
  get_or, u32, ℤ, pos, negsuc, word32,
}
use emergence_os_bare_metal.Manifold.{Manifold, get_used_blocks}
use emergence_os_bare_metal.Graphics.{
  Graphics, background, clear, draw_rect, draw_border, print_at, int_to_str,
}
use emergence_os_bare_metal.Graphics.Quad.{draw_quad_resolve}

pub data Region : Type 0 where
  scheduling manifold console : Region

-- The macro of the build, if one is set.
pub data Build : Type 0 where
  sovereign evaluation release : Build

-- A text at its place: `print_at` goes back to the same column in each line.
abbrev pub print_line : Graphics → List ℕ → ℕ → ℕ → ℕ → Graphics
print_line g str x y color = print_at g str x x y color

-- "SOVEREIGN STATE COMPLEXITY"
abbrev pub complexity_text : List ℕ
complexity_text =
    83 ∷ 79 ∷ 86 ∷ 69 ∷ 82 ∷ 69 ∷ 73 ∷ 71 ∷ 78 ∷ 32 ∷ 83 ∷ 84 ∷ 65 ∷ 84 ∷ 69 ∷ 32 ∷ 67 ∷ 79 ∷ 77
    ∷ 80 ∷ 76 ∷ 69 ∷ 88 ∷ 73 ∷ 84 ∷ 89 ∷ []

-- "8-HOP RESOLVE: 1.2e24 COMBINATIONS"
abbrev pub hops_text : List ℕ
hops_text =
    56 ∷ 45 ∷ 72 ∷ 79 ∷ 80 ∷ 32 ∷ 82 ∷ 69 ∷ 83 ∷ 79 ∷ 76 ∷ 86 ∷ 69 ∷ 58 ∷ 32 ∷ 49 ∷ 46 ∷ 50 ∷ 101
    ∷ 50 ∷ 52 ∷ 32 ∷ 67 ∷ 79 ∷ 77 ∷ 66 ∷ 73 ∷ 78 ∷ 65 ∷ 84 ∷ 73 ∷ 79 ∷ 78 ∷ 83 ∷ []

abbrev pub s_tbl : List ℤ
s_tbl =
    pos 0
    ∷ pos 50
    ∷ pos 86
    ∷ pos 100
    ∷ pos 86
    ∷ pos 50
    ∷ pos 0
    ∷ negsuc 49
    ∷ negsuc 85
    ∷ negsuc 99
    ∷ negsuc 85
    ∷ negsuc 49
    ∷ []

abbrev pub c_tbl : List ℤ
c_tbl =
    pos 100
    ∷ pos 86
    ∷ pos 50
    ∷ pos 0
    ∷ negsuc 49
    ∷ negsuc 85
    ∷ negsuc 99
    ∷ negsuc 85
    ∷ negsuc 49
    ∷ pos 0
    ∷ pos 50
    ∷ pos 86
    ∷ []

-- `(radius * tbl[i % 12]) / 100`: `radius` is unsigned, and so are the product and the quotient.
unfoldable pub scaled : ℕ → List ℤ → ℕ → ℕ
scaled radius tbl i = u32 (radius * word32 (get_or tbl (i % 12) (pos 0))) / 100

abbrev pub radius_of : ℕ → ℕ
radius_of r = 20 + r * 15

unfoldable pub draw_rotor : Graphics → ℕ → ℕ → ℕ → ℕ → ℕ → Graphics
draw_rotor g cx cy r i color =
    draw_rect g (u32 (cx + scaled (radius_of r) c_tbl i)) (u32 (cy + scaled (radius_of r) s_tbl i))
      4 4 color

-- `n` rotors of ring `r` from rotor `i` on.
unfoldable pub draw_ring : Graphics → ℕ → ℕ → ℕ → ℕ → ℕ → ℕ → Graphics
draw_ring g cx cy r i zero color = g
draw_ring g cx cy r i (suc n) color =
    draw_ring (draw_rotor g cx cy r i color) cx cy r (i + 1) n color

-- `n` rings from ring `r` on.
unfoldable pub draw_rings : Graphics → ℕ → ℕ → ℕ → ℕ → ℕ → Graphics
draw_rings g cx cy frame r zero = g
draw_rings g cx cy frame r (suc n) =
    let color = if u32 (frame + r) % 8 == 0 then 0x0000FFFF else 0x00003333 in
    draw_rings (draw_ring g cx cy r 0 12 color) cx cy frame (r + 1) n

unfoldable pub draw_enigma_surpass : Graphics → ℕ → ℕ → ℕ → ℕ → ℕ → Graphics
draw_enigma_surpass g x y w h frame =
    let framed = draw_border g x y w h 0x00333333 1 in
    let titled = print_line framed complexity_text (u32 (x + 10)) (u32 (y + 10)) 0x0000AAAA in
    let counted = print_line titled hops_text (u32 (x + 10)) (u32 (y + 25)) 0x0000FFFF in
    draw_rings counted (u32 (x + w / 2)) (u32 (y + h / 2 + 20)) frame 0 8

-- "PHOENIX vX [SOVEREIGN] | LITERAL RESOLVE | [TAB] REGIONS", with "v0.5 [OPEN]" or "v1.0 [RELEASE]" in
-- the other builds.
abbrev pub status_text : Build → List ℕ
status_text sovereign =
    80 ∷ 72 ∷ 79 ∷ 69 ∷ 78 ∷ 73 ∷ 88 ∷ 32 ∷ 118 ∷ 88 ∷ 32 ∷ 91 ∷ 83 ∷ 79 ∷ 86 ∷ 69 ∷ 82 ∷ 69 ∷ 73
    ∷ 71 ∷ 78 ∷ 93 ∷ 32 ∷ 124 ∷ 32 ∷ 76 ∷ 73 ∷ 84 ∷ 69 ∷ 82 ∷ 65 ∷ 76 ∷ 32 ∷ 82 ∷ 69 ∷ 83 ∷ 79 ∷ 76
    ∷ 86 ∷ 69 ∷ 32 ∷ 124 ∷ 32 ∷ 91 ∷ 84 ∷ 65 ∷ 66 ∷ 93 ∷ 32 ∷ 82 ∷ 69 ∷ 71 ∷ 73 ∷ 79 ∷ 78 ∷ 83 ∷ []
status_text evaluation =
    80 ∷ 72 ∷ 79 ∷ 69 ∷ 78 ∷ 73 ∷ 88 ∷ 32 ∷ 118 ∷ 48 ∷ 46 ∷ 53 ∷ 32 ∷ 91 ∷ 79 ∷ 80 ∷ 69 ∷ 78 ∷ 93
    ∷ 32 ∷ 124 ∷ 32 ∷ 76 ∷ 73 ∷ 84 ∷ 69 ∷ 82 ∷ 65 ∷ 76 ∷ 32 ∷ 82 ∷ 69 ∷ 83 ∷ 79 ∷ 76 ∷ 86 ∷ 69 ∷ 32
    ∷ 124 ∷ 32 ∷ 91 ∷ 84 ∷ 65 ∷ 66 ∷ 93 ∷ 32 ∷ 82 ∷ 69 ∷ 71 ∷ 73 ∷ 79 ∷ 78 ∷ 83 ∷ []
status_text release =
    80 ∷ 72 ∷ 79 ∷ 69 ∷ 78 ∷ 73 ∷ 88 ∷ 32 ∷ 118 ∷ 49 ∷ 46 ∷ 48 ∷ 32 ∷ 91 ∷ 82 ∷ 69 ∷ 76 ∷ 69 ∷ 65
    ∷ 83 ∷ 69 ∷ 93 ∷ 32 ∷ 124 ∷ 32 ∷ 76 ∷ 73 ∷ 84 ∷ 69 ∷ 82 ∷ 65 ∷ 76 ∷ 32 ∷ 82 ∷ 69 ∷ 83 ∷ 79 ∷ 76
    ∷ 86 ∷ 69 ∷ 32 ∷ 124 ∷ 32 ∷ 91 ∷ 84 ∷ 65 ∷ 66 ∷ 93 ∷ 32 ∷ 82 ∷ 69 ∷ 71 ∷ 73 ∷ 79 ∷ 78 ∷ 83 ∷ []

unfoldable pub draw_status_bar : Build → Graphics → Graphics
draw_status_bar build g =
    print_line (draw_rect g 0 0 g.width 25 0x00003333) (status_text build) 10 8 0x0000FFFF

-- "[ SILICON CONTROL ]"
abbrev pub silicon_text : List ℕ
silicon_text =
    91 ∷ 32 ∷ 83 ∷ 73 ∷ 76 ∷ 73 ∷ 67 ∷ 79 ∷ 78 ∷ 32 ∷ 67 ∷ 79 ∷ 78 ∷ 84 ∷ 82 ∷ 79 ∷ 76 ∷ 32 ∷ 93
    ∷ []

-- "Bypass Cores: "
abbrev pub cores_text : List ℕ
cores_text = 66 ∷ 121 ∷ 112 ∷ 97 ∷ 115 ∷ 115 ∷ 32 ∷ 67 ∷ 111 ∷ 114 ∷ 101 ∷ 115 ∷ 58 ∷ 32 ∷ []

-- "[ MANIFOLD STORAGE ]"
abbrev pub storage_text : List ℕ
storage_text =
    91 ∷ 32 ∷ 77 ∷ 65 ∷ 78 ∷ 73 ∷ 70 ∷ 79 ∷ 76 ∷ 68 ∷ 32 ∷ 83 ∷ 84 ∷ 79 ∷ 82 ∷ 65 ∷ 71 ∷ 69 ∷ 32
    ∷ 93 ∷ []

-- "Active Nodes: "
abbrev pub nodes_text : List ℕ
nodes_text = 65 ∷ 99 ∷ 116 ∷ 105 ∷ 118 ∷ 101 ∷ 32 ∷ 78 ∷ 111 ∷ 100 ∷ 101 ∷ 115 ∷ 58 ∷ 32 ∷ []

-- "Substrate Blocks: "
abbrev pub blocks_text : List ℕ
blocks_text =
    83 ∷ 117 ∷ 98 ∷ 115 ∷ 116 ∷ 114 ∷ 97 ∷ 116 ∷ 101 ∷ 32 ∷ 66 ∷ 108 ∷ 111 ∷ 99 ∷ 107 ∷ 115 ∷ 58
    ∷ 32 ∷ []

-- "SOVEREIGN COMMAND CONSOLE"
abbrev pub console_text : List ℕ
console_text =
    83 ∷ 79 ∷ 86 ∷ 69 ∷ 82 ∷ 69 ∷ 73 ∷ 71 ∷ 78 ∷ 32 ∷ 67 ∷ 79 ∷ 77 ∷ 77 ∷ 65 ∷ 78 ∷ 68 ∷ 32 ∷ 67
    ∷ 79 ∷ 78 ∷ 83 ∷ 79 ∷ 76 ∷ 69 ∷ []

-- "ACTIVE_RESOLVE_PHASE: "
abbrev pub phase_text : List ℕ
phase_text =
    65 ∷ 67 ∷ 84 ∷ 73 ∷ 86 ∷ 69 ∷ 95 ∷ 82 ∷ 69 ∷ 83 ∷ 79 ∷ 76 ∷ 86 ∷ 69 ∷ 95 ∷ 80 ∷ 72 ∷ 65 ∷ 83
    ∷ 69 ∷ 58 ∷ 32 ∷ []

abbrev pub sched_color : Region → ℕ
sched_color scheduling = 0x0000FFFF
sched_color _ = 0x00222222

abbrev pub console_color : Region → ℕ
console_color console = 0x0000FF00
console_color _ = 0x00222222

-- The first column of the panel.
unfoldable pub draw_metrics : Graphics → Manifold → ℕ → ℕ → Region → Graphics
draw_metrics g m active_cores active_nodes focused =
    let framed = draw_border g 10 40 280 700 (sched_color focused) 1 in
    let title = print_line framed silicon_text 20 60 0x00FFFF00 in
    let cores = print_line title cores_text 20 85 0x00FFFFFF in
    let cores_number = print_line cores (int_to_str active_cores) 150 85 0x0000FF00 in
    let storage = print_line cores_number storage_text 20 130 0x00FFFF00 in
    let nodes = print_line storage nodes_text 20 155 0x00FFFFFF in
    let nodes_number = print_line nodes (int_to_str active_nodes) 150 155 0x0000FF00 in
    let blocks = print_line nodes_number blocks_text 20 180 0x00FFFFFF in
    print_line blocks (int_to_str (get_used_blocks m)) 150 180 0x0000FF00

-- The area of the command line.
unfoldable pub draw_console : Graphics → ℕ → Region → Graphics
draw_console g frame focused =
    let framed = draw_border g 310 460 680 280 (console_color focused) 1 in
    let title = print_line framed console_text 320 470 0x0000AAAA in
    let phase = print_line title phase_text 320 490 0x00FFFFFF in
    print_line phase (int_to_str (frame % 2048)) 500 490 0x00FFFF00

unfoldable pub draw_panel : Build → Graphics → Manifold → ℕ → ℕ → Region → ℕ → Graphics
draw_panel build g m active_cores active_nodes focused frame =
    let bar = draw_status_bar build (clear g background) in
    let metrics = draw_metrics bar m active_cores active_nodes focused in
    let resolved = draw_quad_resolve metrics 310 40 680 400 frame m in
    let rings = draw_enigma_surpass resolved 10 460 280 280 frame in
    draw_console rings frame focused
