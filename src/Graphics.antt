-- ===== src/Graphics.antt =====
-- src/hal/vga.hpp: the class `Graphics`, which draws into a back buffer. Coordinates are 32-bit words;
-- the buffer is a pixel for each index.
pub mod Font
pub mod Rect
pub mod Number
pub mod Cursor
pub mod Line
pub mod Cube
pub mod Quad
mod Tests
use emergence_os_bare_metal.Base.{
  ℕ, zero, suc, ◌+◌, ◌-◌, ◌*◌, ◌/◌, ◌%◌, ◌^◌, List, [], ◌∷◌, ◌++◌, Bool, true, false, ◌||◌, Option,
  none, some, ltb, leb, ◌==◌, if◌then◌else◌, get_or, min, bit_or, u32, u64, ◌<<<◌, ◌>>>◌,
}
use emergence_os_bare_metal.Graphics.Font.{font8x8_basic}
use emergence_os_bare_metal.Memory.{PhysicalMemory, allocate}

abbrev pub Buffer : Type 0
Buffer = ℕ → ℕ

-- The address of the back buffer is left out; `lfb` is what the screen shows.
pub record Graphics : Type 0 where
  pub lfb : Buffer
  pub back_buffer : Buffer
  pub width : ℕ
  pub height : ℕ
  pub pitch : ℕ
  pub cursor_x : ℕ
  pub cursor_y : ℕ

-- The constructor: no screen yet. What the buffers hold is left open.
unfoldable pub construct : Buffer → Buffer → Graphics
construct lfb back_buffer = record {
  lfb = lfb;
  back_buffer = back_buffer;
  width = 0;
  height = 0;
  pitch = 0;
  cursor_x = 0;
  cursor_y = 0;
}

abbrev pub background : ℕ
background = 0x00080808

-- Two pixels are written at a time, `size_t count = (height_ * pitch_) / 8` of them.
abbrev pub pixels : Graphics → ℕ
pixels g = u32 (g.height * g.pitch) / 8 * 2

unfoldable pub clear : Graphics → ℕ → Graphics
clear g color = record g {
  back_buffer = λ a. if ltb a (pixels g) then color else g.back_buffer a;
  cursor_x = 0;
  cursor_y = 0;
}

unfoldable pub swap_buffers : Graphics → Graphics
swap_buffers g = record g { lfb = λ a. if ltb a (pixels g) then g.back_buffer a else g.lfb a }

-- The allocator gives the back buffer; its address is not kept here.
unfoldable pub initialize : Graphics → ℕ → ℕ → ℕ → PhysicalMemory → Graphics × PhysicalMemory
initialize g w h p memory =
    let sized : Graphics = record g { width = w; height = h; pitch = p } in
    (swap_buffers (clear sized background), (allocate memory (u32 (h * p))).1)

abbrev pub index_of : Graphics → ℕ → ℕ → ℕ
index_of g x y = u32 (y * (g.pitch / 4) + x)

abbrev pub plot : Buffer → ℕ → ℕ → Buffer
plot buf i color a = if a == i then color else buf a

unfoldable pub put_pixel : Graphics → ℕ → ℕ → ℕ → Graphics
put_pixel g x y color =
    if leb g.width x || leb g.height y
    then g
    else record g { back_buffer = plot g.back_buffer (index_of g x y) color }

-- `n` pixels of row `i` from `j` on.
unfoldable pub fill_row : Graphics → ℕ → ℕ → ℕ → ℕ → Graphics
fill_row g i j zero color = g
fill_row g i j (suc n) color =
    fill_row (record g { back_buffer = plot g.back_buffer (index_of g j i) color }) i (j + 1) n
      color

-- `n` rows from `i` on, each `m` pixels from `x` on.
unfoldable pub fill_rows : Graphics → ℕ → ℕ → ℕ → ℕ → ℕ → Graphics
fill_rows g x m i zero color = g
fill_rows g x m i (suc n) color = fill_rows (fill_row g i x m color) x m (i + 1) n color

-- The loops run up to the 32-bit sums `y + h` and `x + w`.
unfoldable pub draw_rect : Graphics → ℕ → ℕ → ℕ → ℕ → ℕ → Graphics
draw_rect g x y w h color =
    if leb g.width x || leb g.height y
    then g
    else fill_rows g x (min (u32 (x + w)) g.width - x) y (min (u32 (y + h)) g.height - y) color

-- A difference on 32 bits.
abbrev pub minus32 : ℕ → ℕ → ℕ
minus32 a b = u32 (a + (4294967296 - b))

unfoldable pub draw_border : Graphics → ℕ → ℕ → ℕ → ℕ → ℕ → ℕ → Graphics
draw_border g x y w h color thickness =
    let top = draw_rect g x y w thickness color in
    let bottom = draw_rect top x (minus32 (u32 (y + h)) thickness) w thickness color in
    let left = draw_rect bottom x y thickness h color in
    draw_rect left (minus32 (u32 (x + w)) thickness) y thickness h color

-- The glyph of a character from the space to the tilde; the table has no other.
unfoldable pub glyph_of : ℕ → List ℕ
glyph_of c = get_or font8x8_basic (c - 32) []

-- Pixels `gx` and on of row `gy`, `n` of them: bit 7 is the leftmost.
unfoldable pub draw_bits : Graphics → ℕ → ℕ → ℕ → ℕ → ℕ → ℕ → Graphics
draw_bits g row x y gx zero color = g
draw_bits g row x y gx (suc n) color =
    let g' = if row / 2 ^ (7 - gx) % 2 == 1 then put_pixel g (u32 (x + gx)) y color else g in
    draw_bits g' row x y (gx + 1) n color

unfoldable pub draw_glyph : Graphics → List ℕ → ℕ → ℕ → ℕ → ℕ → Graphics
draw_glyph g [] x y gy color = g
draw_glyph g (row ∷ rows) x y gy color =
    draw_glyph (draw_bits g row x (u32 (y + gy)) 0 8 color) rows x y (gy + 1) color

-- The text from `cx` and `y` on; a new line goes back to `x`.
unfoldable pub print_at : Graphics → List ℕ → ℕ → ℕ → ℕ → ℕ → Graphics
print_at g [] x cx y color = g
print_at g (c ∷ str) x cx y color =
    if c == 10
    then print_at g str x x (u32 (y + 12)) color
    else print_at (draw_glyph g (glyph_of c) cx y 0 color) str x (u32 (cx + 8)) y color

abbrev pub set_cursor : Graphics → ℕ → ℕ → Graphics
set_cursor g x y = record g { cursor_x = x; cursor_y = y }

-- Behind a glyph.
unfoldable pub advance : Graphics → Graphics
advance g =
    if leb g.width (u32 (g.cursor_x + 8))
    then record g { cursor_x = 0; cursor_y = u32 (g.cursor_y + 12) }
    else record g { cursor_x = u32 (g.cursor_x + 8) }

unfoldable pub step_back : Graphics → Graphics
step_back g = if leb 8 g.cursor_x then record g { cursor_x = g.cursor_x - 8 } else g

unfoldable pub put_char : Graphics → ℕ → ℕ → Graphics
put_char g c color =
    if c == 10
    then record g { cursor_x = 0; cursor_y = u32 (g.cursor_y + 12) }
    else if c == 8
    then draw_rect (step_back g) (step_back g).cursor_x (step_back g).cursor_y 8 8 background
    else advance (draw_glyph g (glyph_of c) g.cursor_x g.cursor_y 0 color)

-- `tmp` from the last digit stored back: the digits of `n`, highest first, before `str`.
unfoldable pub digits_of : ℕ → ℕ → List ℕ → List ℕ
digits_of zero n str = str
digits_of (suc fuel) n str =
    let more = digits_of fuel (n / 10) ((n % 10 + 48) ∷ str) in if ltb 0 n then more else str

-- A 64-bit number has at most 20 digits.
unfoldable pub int_to_str : ℕ → List ℕ
unfolding digits_of
int_to_str n = if n == 0 then 48 ∷ [] else digits_of 20 n []
