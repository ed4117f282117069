-- ===== src/Graphics/Cursor.antt =====
-- The cursor of src/hal/vga.hpp.
use emergence_os_bare_metal.Base.{
  ℕ, zero, suc, ◌+◌, ◌-◌, ◌/◌, ◌%◌, ◌^◌, ◌<◌, ◌≡◌, refl, ap₂, ◌∙◌, arith, List, [], ◌∷◌, Bool-cases,
  inl, inr, ◌||◌, leb, ◌==◌, if◌then◌else◌, min, u32,
}
use emergence_os_bare_metal.Graphics.{
  Graphics, put_pixel, draw_bits, draw_glyph, glyph_of, draw_rect, fill_row, fill_rows, advance,
  step_back, put_char,
}

-- The cursor and the size, which drawing leaves alone.
abbrev pub Kept : Graphics → Graphics → Type 0
Kept g g' =
    (g'.cursor_x ≡ g.cursor_x)
    × (g'.cursor_y ≡ g.cursor_y)
    × (g'.width ≡ g.width)
    × (g'.height ≡ g.height)
    × (g'.pitch ≡ g.pitch)

Kept-put_pixel : (g : Graphics) (x y color : ℕ) → Kept g (put_pixel g x y color)
unfolding put_pixel
Kept-put_pixel g x y color = ground arith

Kept-trans : (g h k : Graphics) → Kept g h → Kept h k → Kept g k
Kept-trans g h k a b = (b.0 ∙ a.0, b.1 ∙ a.1, b.2 ∙ a.2, b.3 ∙ a.3, b.4 ∙ a.4)

Kept-draw_bits :
    (n : ℕ) (g : Graphics) (row x y gx color : ℕ) → Kept g (draw_bits g row x y gx n color)
unfolding draw_bits
Kept-draw_bits zero g row x y gx color = (refl, refl, refl, refl, refl)
Kept-draw_bits (suc n) g row x y gx color =
    let drawn = put_pixel g (u32 (x + gx)) y color in
    elim (Bool-cases (row / 2 ^ (7 - gx) % 2 == 1)) [
      | inl set_ ↦
          rw (set_, draw_bits)
            (Kept-trans g drawn (draw_bits drawn row x y (gx + 1) n color)
              (Kept-put_pixel g (u32 (x + gx)) y color)
              (Kept-draw_bits n drawn row x y (gx + 1) color))
      | inr unset ↦ rw (unset, draw_bits) (Kept-draw_bits n g row x y (gx + 1) color)
    ]

Kept-draw_glyph :
    (rows : List ℕ) (g : Graphics) (x y gy color : ℕ) → Kept g (draw_glyph g rows x y gy color)
unfolding draw_glyph
Kept-draw_glyph [] g x y gy color = (refl, refl, refl, refl, refl)
Kept-draw_glyph (row ∷ rows) g x y gy color =
    let drawn = draw_bits g row x (u32 (y + gy)) 0 8 color in
    Kept-trans g drawn (draw_glyph drawn rows x y (gy + 1) color)
      (Kept-draw_bits 8 g row x (u32 (y + gy)) 0 color)
      (Kept-draw_glyph rows drawn x y (gy + 1) color)

Kept-fill_row : (n : ℕ) (g : Graphics) (i j color : ℕ) → Kept g (fill_row g i j n color)
unfolding fill_row
Kept-fill_row zero g i j color = (refl, refl, refl, refl, refl)
Kept-fill_row (suc n) g i j color = Kept-fill_row n _ i (j + 1) color

Kept-fill_rows : (n : ℕ) (g : Graphics) (x m i color : ℕ) → Kept g (fill_rows g x m i n color)
unfolding fill_rows
Kept-fill_rows zero g x m i color = (refl, refl, refl, refl, refl)
Kept-fill_rows (suc n) g x m i color =
    let drawn = fill_row g i x m color in
    Kept-trans g drawn (fill_rows drawn x m (i + 1) n color) (Kept-fill_row m g i x color)
      (Kept-fill_rows n drawn x m (i + 1) color)

pub Kept-draw_rect : (g : Graphics) (x y w h color : ℕ) → Kept g (draw_rect g x y w h color)
unfolding draw_rect
Kept-draw_rect g x y w h color = elim (Bool-cases (leb g.width x || leb g.height y)) [
  | inl outside ↦ rw outside (refl, refl, refl, refl, refl)
  | inr inside ↦
      rw inside (
        Kept-fill_rows (min (u32 (y + h)) g.height - y) g x (min (u32 (x + w)) g.width - x) y color)
]

-- The cursor is on the screen from left to right, and on a column of characters.
abbrev pub IsColumn : Graphics → Type 0
IsColumn g = (g.cursor_x < g.width) × (g.cursor_x % 8 ≡ 0)

-- Where the cursor is after a character.
abbrev pub column_after : ℕ → ℕ → ℕ → ℕ
column_after width x c =
    if c == 10
    then 0
    else if c == 8
    then if leb 8 x then x - 8 else x
    else if leb width (x + 8)
    then 0
    else x + 8

-- The cursor's column and the width after a step.
abbrev Moved : Graphics → ℕ → Graphics → Type 0
Moved g x g' = (g'.cursor_x ≡ x) × (g'.width ≡ g.width)

step_back_lem :
    (g : Graphics) → Moved g (if leb 8 g.cursor_x then g.cursor_x - 8 else g.cursor_x) (step_back g)
unfolding step_back
step_back_lem g = ground arith

advance_lem :
    (g : Graphics)
    → g.cursor_x < 2 ^ 31
    → Moved g (if leb g.width (g.cursor_x + 8) then 0 else g.cursor_x + 8) (advance g)
unfolding advance
advance_lem g small =
    let sum : u32 (g.cursor_x + 8) ≡ g.cursor_x + 8 = omega arith in rw sum (ground arith)

put_char-Moved :
    (g : Graphics) (c color : ℕ)
    → g.cursor_x < 2 ^ 31
    → Moved g (column_after g.width g.cursor_x c) (put_char g c color)
unfolding put_char
put_char-Moved g c color small = elim (Bool-cases (c == 10)) [
  | inl line ↦ rw (line, put_char) (refl, refl)
  | inr other ↦ elim (Bool-cases (c == 8)) [
    | inl back ↦
        let b = step_back_lem g in
        let k =
          Kept-draw_rect (step_back g) (step_back g).cursor_x (step_back g).cursor_y 8 8 526344 in
        rw (other, back, put_char) (k.0 ∙ b.0, k.2 ∙ b.1)
    | inr glyph ↦
        let drawn = draw_glyph g (glyph_of c) g.cursor_x g.cursor_y 0 color in
        let k = Kept-draw_glyph (glyph_of c) g g.cursor_x g.cursor_y 0 color in
        let a = advance_lem drawn (omega (arith, k.0)) in
        rw (other, glyph, put_char)
          (a.0 ∙ ap₂ (λ w x. if leb w (x + 8) then 0 else x + 8) k.2 k.0, a.1 ∙ k.2)
  ]
]

column_after-IsColumn :
    (width x c : ℕ)
    → x < width
    → x % 8 ≡ 0
    → (column_after width x c < width) × (column_after width x c % 8 ≡ 0)
column_after-IsColumn width x c h k = (ground arith, ground arith)

-- `put_char` moves the cursor by one column of eight pixels, back by one for a backspace, and to the
-- start of the next line, twelve pixels down, for a new line or at the right edge. It never leaves the
-- screen to the right.
pub put_char_lem :
    (g : Graphics) (c color : ℕ)
    → IsColumn g
    → g.width < 2 ^ 31
    → ((put_char g c color).cursor_x ≡ column_after g.width g.cursor_x c)
      × IsColumn (put_char g c color)
put_char_lem g c color col small =
    let m = put_char-Moved g c color (omega (arith, col.0)) in
    let stays = column_after-IsColumn g.width g.cursor_x c col.0 col.1 in
    (m.0, (omega (arith, m.0, m.1, stays.0), omega (arith, m.0, stays.1)))
