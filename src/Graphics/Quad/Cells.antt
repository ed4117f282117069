-- ===== src/Graphics/Quad/Cells.antt =====
-- What a quadrant of src/hal/vga_render.cpp shows.
use emergence_os_bare_metal.Base.{
  ℕ, zero, suc, ◌+◌, ◌-◌, ◌*◌, ◌/◌, ◌%◌, ◌^◌, ◌≤◌, ◌<◌, ◌≡◌, refl, sym, ap, ◌∙◌, arith, Bool, true,
  false, ◌&&◌, Bool-cases, inl, inr, ltb, if◌then◌else◌, u32,
}
use emergence_os_bare_metal.Manifold.{Manifold}
use emergence_os_bare_metal.Graphics.{Graphics}
use emergence_os_bare_metal.Graphics.Rect.{
  IsScreen, SameSize, pixel, within, on_rect, draw_rect_lem, size-draw_rect,
}
use emergence_os_bare_metal.Graphics.Quad.{
  Quadrant, cell_color, draw_cell, draw_cells, draw_cell_rows,
}

-- The first and the third quadrant show the same blocks, and so do the second and the fourth: the
-- offset of a quadrant is taken modulo 1024.
pub cell_color_again :
    (m : Manifold) (master_frame offset r c : ℕ)
    → cell_color m master_frame (offset + 1024) r c ≡ cell_color m master_frame offset r c
unfolding cell_color
cell_color_again m master_frame offset r c =
    let same : u32 (master_frame + (offset + 1024) + r * 8 + c) % 1024
        ≡ u32 (master_frame + offset + r * 8 + c) % 1024 =
      omega arith in
    rw same refl

-- A place on one of `n` cells of a row or a column from cell `c` on; the first cell is at `low`.
abbrev pub on_cells : ℕ → ℕ → ℕ → ℕ → Bool
on_cells low c n px = within (low + c * 10) (n * 10) px && ltb ((px - low) % 10) 8

on_first : (low c px : ℕ) → within (low + c * 10) 8 px ≡ true → (px - low) / 10 ≡ c
on_first low c px e = ground arith

merge_none :
    (low c n px : ℕ)
    → within (low + c * 10) 8 px ≡ false
    → on_cells low c (suc n) px ≡ on_cells low (c + 1) n px
merge_none low c n px e = ground arith

merge_first :
    (low c n px : ℕ)
    → within (low + c * 10) 8 px ≡ true
    → (on_cells low c (suc n) px ≡ true) × (on_cells low (c + 1) n px ≡ false)
merge_first low c n px e = (ground arith, ground arith)

merge_cells :
    (f : ℕ → ℕ) (row : Bool) (o low c n px : ℕ)
    → (if row && on_cells low (c + 1) n px
        then f ((px - low) / 10)
        else if row && within (low + c * 10) 8 px
        then f c
        else o)
      ≡ (if row && on_cells low c (suc n) px then f ((px - low) / 10) else o)
merge_cells f false o low c n px = refl
merge_cells f true o low c n px = elim (Bool-cases (within (low + c * 10) 8 px)) [
  | inl e ↦
      let first = merge_first low c n px e in
      rw (first.0, first.1, e) (ap f (sym (on_first low c px e)))
  | inr e ↦ rw (merge_none low c n px e, e) refl
]

-- A rectangle of eight pixels without an overflow.
plain_rect :
    (x y px py : ℕ)
    → x + 8 < 2 ^ 32
    → y + 8 < 2 ^ 32
    → on_rect (u32 x) (u32 y) 8 8 px py ≡ (within y 8 py && within x 8 px)
plain_rect x y px py h k = ground arith

IsScreen-same : (g g' : Graphics) → SameSize g g' → IsScreen g → IsScreen g'
IsScreen-same g g' same s = record {
  rows_fit = rw (same.0, same.2) s.rows_fit;
  indexed = rw (same.1, same.2) s.indexed;
  narrow = rw same.0 s.narrow;
}

trans_size : (g g' h : Graphics) → SameSize g g' → SameSize g' h → SameSize g h
trans_size g g' h one more = (more.0 ∙ one.0, more.1 ∙ one.1, more.2 ∙ one.2)

module _ (m : Manifold) (q : Quadrant) (across : q.qx + 90 < 2 ^ 32)
    (down : q.qy + 105 < 2 ^ 32) where
  abbrev color_at : ℕ → ℕ → ℕ
  color_at r c = cell_color m q.master_frame q.offset r c

  SameSize-draw_cells : (g : Graphics) (r c n : ℕ) → SameSize g (draw_cells m q g r c n)
  unfolding draw_cells draw_cell
  SameSize-draw_cells g r c zero = (refl, refl, refl)
  SameSize-draw_cells g r c (suc n) =
      trans_size g (draw_cell m q g r c) (draw_cells m q (draw_cell m q g r c) r (c + 1) n)
        (size-draw_rect g (u32 (q.qx + 10 + c * 10)) (u32 (q.qy + 25 + r * 10)) 8 8 (color_at r c))
        (SameSize-draw_cells (draw_cell m q g r c) r (c + 1) n)

  pixel-draw_cell :
      (g : Graphics) (r c px py : ℕ)
      → IsScreen g
      → r < 8
      → c < 8
      → px < g.width
      → py < g.height
      → pixel (draw_cell m q g r c) px py ≡ (
          if within (q.qy + 25 + r * 10) 8 py && within (q.qx + 10 + c * 10) 8 px
          then color_at r c
          else pixel g px py)
  unfolding draw_cell
  pixel-draw_cell g r c px py s hr hc a b =
      (draw_rect_lem g (u32 (q.qx + 10 + c * 10)) (u32 (q.qy + 25 + r * 10)) 8 8 (color_at r c) px
        py s a b).0
      ∙ ap (λ t. if t then color_at r c else pixel g px py)
          (plain_rect (q.qx + 10 + c * 10) (q.qy + 25 + r * 10) px py (omega (arith, across, hc))
            (omega (arith, down, hr)))

  pixel-draw_cells :
      (g : Graphics) (r c n px py : ℕ)
      → IsScreen g
      → r < 8
      → c + n ≤ 8
      → px < g.width
      → py < g.height
      → pixel (draw_cells m q g r c n) px py ≡ (
          if within (q.qy + 25 + r * 10) 8 py && on_cells (q.qx + 10) c n px
          then color_at r ((px - (q.qx + 10)) / 10)
          else pixel g px py)
  unfolding draw_cells
  pixel-draw_cells g r c zero px py s hr hc a b = ground arith
  pixel-draw_cells g r c (suc n) px py s hr hc a b =
      let one = draw_cell m q g r c in
      let size : SameSize g one = SameSize-draw_cells g r c 1 in
      let row = within (q.qy + 25 + r * 10) 8 py in
      pixel-draw_cells one r (c + 1) n px py (IsScreen-same g one size s) hr (omega arith)
        (rw size.0 a) (rw size.1 b)
      ∙ ap
          (λ t.
            if row && on_cells (q.qx + 10) (c + 1) n px
            then color_at r ((px - (q.qx + 10)) / 10)
            else t)
          (pixel-draw_cell g r c px py s hr (omega arith) a b)
      ∙ merge_cells (λ c. color_at r c) row (pixel g px py) (q.qx + 10) c n px

  SameSize-draw_cell_rows : (g : Graphics) (r n : ℕ) → SameSize g (draw_cell_rows m q g r n)
  unfolding draw_cell_rows
  SameSize-draw_cell_rows g r zero = (refl, refl, refl)
  SameSize-draw_cell_rows g r (suc n) =
      trans_size g (draw_cells m q g r 0 8) (draw_cell_rows m q (draw_cells m q g r 0 8) (r + 1) n)
        (SameSize-draw_cells g r 0 8) (SameSize-draw_cell_rows (draw_cells m q g r 0 8) (r + 1) n)

  pixel-draw_cell_rows :
      (g : Graphics) (r n px py : ℕ)
      → IsScreen g
      → r + n ≤ 8
      → px < g.width
      → py < g.height
      → pixel (draw_cell_rows m q g r n) px py ≡ (
          if on_cells (q.qx + 10) 0 8 px && on_cells (q.qy + 25) r n py
          then color_at ((py - (q.qy + 25)) / 10) ((px - (q.qx + 10)) / 10)
          else pixel g px py)
  unfolding draw_cell_rows
  pixel-draw_cell_rows g r zero px py s hr a b = ground arith
  pixel-draw_cell_rows g r (suc n) px py s hr a b =
      let one = draw_cells m q g r 0 8 in
      let size : SameSize g one = SameSize-draw_cells g r 0 8 in
      let col = on_cells (q.qx + 10) 0 8 px in
      let c = (px - (q.qx + 10)) / 10 in
      pixel-draw_cell_rows one (r + 1) n px py (IsScreen-same g one size s) (omega arith)
        (rw size.0 a) (rw size.1 b)
      ∙ ap
          (λ t.
            if col && on_cells (q.qy + 25) (r + 1) n py
            then color_at ((py - (q.qy + 25)) / 10) c
            else t)
          (pixel-draw_cells g r 0 8 px py s (omega arith) (omega arith) a b
            ∙ and_swap (within (q.qy + 25 + r * 10) 8 py) col (color_at r c) (pixel g px py))
      ∙ merge_cells (λ r. color_at r c) col (pixel g px py) (q.qy + 25) r n py
    where
      and_swap : (p q : Bool) (x y : ℕ) → (if p && q then x else y) ≡ (if q && p then x else y)
      and_swap true true x y = refl
      and_swap true false x y = refl
      and_swap false true x y = refl
      and_swap false false x y = refl

  -- The rows of cells of a quadrant, whose coordinates do not overflow: each pixel of the screen that
  -- lies on one of the 64 cells gets the color of that cell, green if its block is resident, and every
  -- other pixel stays as it was.
  pub draw_cell_rows_lem :
      (g : Graphics) (px py : ℕ)
      → IsScreen g
      → px < g.width
      → py < g.height
      → (pixel (draw_cell_rows m q g 0 8) px py ≡ (
          if on_cells (q.qx + 10) 0 8 px && on_cells (q.qy + 25) 0 8 py
          then cell_color m q.master_frame q.offset
              ((py - (q.qy + 25)) / 10)
              ((px - (q.qx + 10)) / 10)
          else pixel g px py))
        × SameSize g (draw_cell_rows m q g 0 8)
  draw_cell_rows_lem g px py s a b =
      (pixel-draw_cell_rows g 0 8 px py s (omega arith) a b, SameSize-draw_cell_rows g 0 8)
