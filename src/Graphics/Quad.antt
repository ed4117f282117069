-- ===== src/Graphics/Quad.antt =====
-- `draw_quad_resolve` of src/hal/vga_render.cpp: which blocks of the manifold are resident, in four
-- quadrants of 64 cells.
pub mod Cells
use emergence_os_bare_metal.Base.{
  ℕ, zero, suc, ◌+◌, ◌*◌, ◌/◌, ◌%◌, List, [], ◌∷◌, Bool, true, false, if◌then◌else◌, get_or, u32,
}
use emergence_os_bare_metal.Manifold.{Manifold, is_block_resident}
use emergence_os_bare_metal.Graphics.{Graphics, draw_rect, draw_border, print_at}

abbrev pub offsets : List ℕ
offsets = 0 ∷ 512 ∷ 1024 ∷ 1536 ∷ []

-- "PHASE: 0", "PHASE: 512", "PHASE: 1024" and "PHASE: 1536".
abbrev pub labels : List (List ℕ)
labels =
    (80 ∷ 72 ∷ 65 ∷ 83 ∷ 69 ∷ 58 ∷ 32 ∷ 48 ∷ [])
    ∷ (80 ∷ 72 ∷ 65 ∷ 83 ∷ 69 ∷ 58 ∷ 32 ∷ 53 ∷ 49 ∷ 50 ∷ [])
    ∷ (80 ∷ 72 ∷ 65 ∷ 83 ∷ 69 ∷ 58 ∷ 32 ∷ 49 ∷ 48 ∷ 50 ∷ 52 ∷ [])
    ∷ (80 ∷ 72 ∷ 65 ∷ 83 ∷ 69 ∷ 58 ∷ 32 ∷ 49 ∷ 53 ∷ 51 ∷ 54 ∷ [])
    ∷ []

-- `b_idx` of the cell in row `r` and column `c`.
abbrev pub block_index : ℕ → ℕ → ℕ → ℕ → ℕ
block_index master_frame offset r c = u32 (master_frame + offset + r * 8 + c) % 1024

unfoldable pub cell_color : Manifold → ℕ → ℕ → ℕ → ℕ → ℕ
cell_color m master_frame offset r c =
    if is_block_resident m (block_index master_frame offset r c) then 0x0000FF00 else 0x00002222

-- What the cells of a quadrant have in common: its corner, its frame and its offset.
pub record Quadrant : Type 0 where
  pub qx : ℕ
  pub qy : ℕ
  pub master_frame : ℕ
  pub offset : ℕ

unfoldable pub draw_cell : Manifold → Quadrant → Graphics → ℕ → ℕ → Graphics
draw_cell m q g r c =
    draw_rect g (u32 (q.qx + 10 + c * 10)) (u32 (q.qy + 25 + r * 10)) 8 8
      (cell_color m q.master_frame q.offset r c)

-- `n` cells of row `r` from column `c` on.
unfoldable pub draw_cells : Manifold → Quadrant → Graphics → ℕ → ℕ → ℕ → Graphics
draw_cells m q g r c zero = g
draw_cells m q g r c (suc n) = draw_cells m q (draw_cell m q g r c) r (c + 1) n

-- `n` rows from row `r` on.
unfoldable pub draw_cell_rows : Manifold → Quadrant → Graphics → ℕ → ℕ → Graphics
draw_cell_rows m q g r zero = g
draw_cell_rows m q g r (suc n) = draw_cell_rows m q (draw_cells m q g r 0 8) (r + 1) n

-- Round `i` of the loop.
unfoldable pub draw_quadrant : Manifold → Graphics → ℕ → ℕ → ℕ → ℕ → ℕ → ℕ → Graphics
draw_quadrant m g x y qw qh master_frame i =
    let qx = u32 (x + i % 2 * qw) in
    let qy = u32 (y + i / 2 * qh) in
    let framed = draw_border g qx qy qw qh 0x00222222 1 in
    let labelled =
      print_at framed (get_or labels i []) (u32 (qx + 5)) (u32 (qx + 5)) (u32 (qy + 5))
        0x0000AAAA in
    let q : Quadrant = record {
      qx = qx;
      qy = qy;
      master_frame = master_frame;
      offset = get_or offsets i 0;
    } in
    draw_cell_rows m q labelled 0 8

unfoldable pub draw_quad_resolve : Graphics → ℕ → ℕ → ℕ → ℕ → ℕ → Manifold → Graphics
draw_quad_resolve g x y w h master_frame m =
    let first = draw_quadrant m g x y (w / 2) (h / 2) master_frame 0 in
    let second = draw_quadrant m first x y (w / 2) (h / 2) master_frame 1 in
    let third = draw_quadrant m second x y (w / 2) (h / 2) master_frame 2 in
    draw_quadrant m third x y (w / 2) (h / 2) master_frame 3
