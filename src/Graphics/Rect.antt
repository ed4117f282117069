-- ===== src/Graphics/Rect.antt =====
-- Which pixels `draw_rect` of src/hal/vga.hpp sets.
use native.Mathlib.Nat.{mul-le-mul_right}
use native.Mathlib.Decide.{dec_lt, ℕ_discrete}
use emergence_os_bare_metal.Base.{
  ℕ, zero, suc, ◌+◌, ◌-◌, ◌*◌, ◌/◌, ◌^◌, ◌≤◌, ◌<◌, ◌≡◌, refl, sym, ap, ap₂, ◌∙◌, arith, Bool, true,
  false, Bool-cases, inl, inr, ◌&&◌, ◌||◌, ltb, leb, ◌==◌, if◌then◌else◌, min, u32,
}
use emergence_os_bare_metal.Graphics.{
  Graphics, Buffer, index_of, plot, fill_row, fill_rows, draw_rect,
}

-- A screen whose rows fit their pitch and whose pixels have 32-bit indices.
pub record IsScreen (g : Graphics) : Type 0 where
  pub rows_fit : g.width ≤ g.pitch / 4
  pub indexed : g.height * (g.pitch / 4) < 2 ^ 32
  pub narrow : g.width < 2 ^ 32

-- The pixel of the back buffer at a place.
abbrev pub pixel : Graphics → ℕ → ℕ → ℕ
pixel g x y = g.back_buffer (y * (g.pitch / 4) + x)

-- Only the back buffer changes.
abbrev pub SameSize : Graphics → Graphics → Type 0
SameSize g g' = (g'.width ≡ g.width) × (g'.height ≡ g.height) × (g'.pitch ≡ g.pitch)

abbrev pub within : ℕ → ℕ → ℕ → Bool
within low n a = leb low a && ltb a (low + n)

below : (p y py : ℕ) → y < py → y * p + p ≤ py * p
below p y py h = omega (arith, mul-le-mul_right {m = y + 1} {n = py} p (omega arith))

-- Places in different rows, or different columns, have different indices.
index_inj : (p x y px py : ℕ) → x < p → px < p → y * p + x ≡ py * p + px → (x ≡ px) × (y ≡ py)
index_inj p x y px py a b e = elim (dec_lt y py) [
  | yes less ↦ absurd (omega (arith, below p y py less))
  | no ge ↦ elim (dec_lt py y) [
    | yes more ↦ absurd (omega (arith, below p py y more))
    | no le ↦ let same : y ≡ py = omega arith in (omega (arith, ap (λ t. t * p) same), same)
  ]
]

not_both : (a b c d : ℕ) → ((a ≡ c) → (b ≡ d) → ⊥) → (b == d && a == c) ≡ false
not_both a b c d ne = elim (ℕ_discrete b d) [
  | no f ↦ ground (arith, f)
  | yes e ↦ elim (ℕ_discrete a c) [ no f ↦ ground (arith, f) | yes h ↦ absurd (ne h e) ]
]

module _ (g : Graphics) (screen : IsScreen g) (color : ℕ) where
  index_of_lem : (x y : ℕ) → x < g.width → y < g.height → index_of g x y ≡ y * (g.pitch / 4) + x
  index_of_lem x y h k =
      omega (arith, below (g.pitch / 4) y g.height k, screen.rows_fit, screen.indexed)

  -- One pixel.
  pixel-plot :
      (x y px py : ℕ)
      → x < g.width
      → y < g.height
      → px < g.width
      → py < g.height
      → plot g.back_buffer (index_of g x y) color (py * (g.pitch / 4) + px)
        ≡ (if py == y && px == x then color else pixel g px py)
  pixel-plot x y px py a b h k =
      rw (index_of_lem x y a b)
        (elim (ℕ_discrete (py * (g.pitch / 4) + px) (y * (g.pitch / 4) + x)) [
          | yes e ↦
              let same =
                index_inj (g.pitch / 4) px py x y (omega (arith, screen.rows_fit))
                  (omega (arith, screen.rows_fit)) e in
              ground (arith, same.0, same.1, e)
          | no ne ↦
              let off : (py == y && px == x) ≡ false =
                not_both px py x y (λ e f. ne (ap₂ (λ s t. t * (g.pitch / 4) + s) e f)) in
              let apart : (py * (g.pitch / 4) + px == y * (g.pitch / 4) + x) ≡ false =
                ground (arith, ne) in
              rw (off, apart) refl
        ])

unfolding_size :
    (g : Graphics) (buf : Buffer) → IsScreen g → IsScreen (record g { back_buffer = buf })
unfolding_size g buf s = record { rows_fit = s.rows_fit; indexed = s.indexed; narrow = s.narrow }

size-fill_row : (g : Graphics) (i j n color : ℕ) → SameSize g (fill_row g i j n color)
unfolding fill_row
size-fill_row g i j zero color = (refl, refl, refl)
size-fill_row g i j (suc n) color =
    size-fill_row (record g { back_buffer = plot g.back_buffer (index_of g j i) color }) i (j + 1) n
      color

-- A row of `n` pixels.
pixel-fill_row :
    (g : Graphics) (i j n color px py : ℕ)
    → IsScreen g
    → i < g.height
    → j + n ≤ g.width
    → px < g.width
    → py < g.height
    → (fill_row g i j n color).back_buffer (py * (g.pitch / 4) + px)
      ≡ (if py == i && within j n px then color else pixel g px py)
unfolding fill_row
pixel-fill_row g i j zero color px py s a b h k = ground arith
pixel-fill_row g i j (suc n) color px py s a b h k =
    pixel-fill_row (record g { back_buffer = plot g.back_buffer (index_of g j i) color }) i (j + 1)
      n color px py (unfolding_size g _ s) a (omega arith) h k
    ∙ ap (λ t. if py == i && within (j + 1) n px then color else t)
        (pixel-plot g s color j i px py (omega arith) a h k)
    ∙ ground arith

size-fill_rows : (g : Graphics) (x m i n color : ℕ) → SameSize g (fill_rows g x m i n color)
unfolding fill_rows
size-fill_rows g x m i zero color = (refl, refl, refl)
size-fill_rows g x m i (suc n) color =
    let one = size-fill_row g i x m color in
    let more = size-fill_rows (fill_row g i x m color) x m (i + 1) n color in
    (more.0 ∙ one.0, more.1 ∙ one.1, more.2 ∙ one.2)

IsScreen-fill_row :
    (g : Graphics) (i j n color : ℕ) → IsScreen g → IsScreen (fill_row g i j n color)
IsScreen-fill_row g i j n color s =
    let same = size-fill_row g i j n color in
    record {
      rows_fit = rw (same.0, same.2) s.rows_fit;
      indexed = rw (same.1, same.2) s.indexed;
      narrow = rw same.0 s.narrow;
    }

rows_merge :
    (i n py : ℕ) (inside : Bool) (c o : ℕ)
    → (if within (i + 1) n py && inside then c else if py == i && inside then c else o)
      ≡ (if within i (suc n) py && inside then c else o)
rows_merge i n py inside c o = ground arith

pixel-fill_rows :
    (g : Graphics) (x m i n color px py : ℕ)
    → IsScreen g
    → x + m ≤ g.width
    → i + n ≤ g.height
    → px < g.width
    → py < g.height
    → (fill_rows g x m i n color).back_buffer (py * (g.pitch / 4) + px)
      ≡ (if within i n py && within x m px then color else pixel g px py)
unfolding fill_rows
pixel-fill_rows g x m i zero color px py s a b h k = ground arith
pixel-fill_rows g x m i (suc n) color px py s a b h k =
    let one = size-fill_row g i x m color in
    ap
      (λ p.
        (fill_rows (fill_row g i x m color) x m (i + 1) n color).back_buffer (py * (p / 4) + px))
      (sym one.2)
    ∙ pixel-fill_rows (fill_row g i x m color) x m (i + 1) n color px py
        (IsScreen-fill_row g i x m color s) (rw one.0 a) (rw one.1 (omega arith)) (rw one.0 h)
        (rw one.1 k)
    ∙ ap
        (λ p.
          if within (i + 1) n py && within x m px
          then color
          else (fill_row g i x m color).back_buffer (py * (p / 4) + px))
        one.2
    ∙ ap (λ t. if within (i + 1) n py && within x m px then color else t)
        (pixel-fill_row g i x m color px py s (omega arith) a h k)
    ∙ rows_merge i n py (within x m px) color (pixel g px py)

-- Is a place on the rectangle? Its right and lower ends are sums on 32 bits: one that wraps is at or before
-- the start, and no place is on the rectangle.
abbrev pub on_rect : ℕ → ℕ → ℕ → ℕ → ℕ → ℕ → Bool
on_rect x y w h px py = (leb y py && ltb py (u32 (y + h))) && (leb x px && ltb px (u32 (x + w)))

pub size-draw_rect : (g : Graphics) (x y w h color : ℕ) → SameSize g (draw_rect g x y w h color)
unfolding draw_rect
size-draw_rect g x y w h color = elim (Bool-cases (leb g.width x || leb g.height y)) [
  | inl outside ↦ rw outside (refl, refl, refl)
  | inr inside ↦
      rw inside (
        size-fill_rows g x (min (u32 (x + w)) g.width - x) y (min (u32 (y + h)) g.height - y) color)
]

clipped :
    (low high size a : ℕ)
    → a < size
    → within low (min high size - low) a ≡ (leb low a && ltb a high)
clipped low high size a h = ground arith

off_rect :
    (width height x y px py right bottom : ℕ)
    → (leb width x || leb height y) ≡ true
    → px < width
    → py < height
    → ((leb y py && ltb py bottom) && (leb x px && ltb px right)) ≡ false
off_rect width height x y px py right bottom o a b = ground arith

-- `draw_rect` gives the pixels of the screen that lie on the rectangle its color and leaves every other
-- pixel of the screen as it was. The right end `x + w` and the lower end `y + h` are sums on 32 bits, as in
-- the code: where one does not wrap, a rectangle that runs out of the screen is cut off there; one that
-- wraps lies before the start, and nothing is drawn. A rectangle that starts outside draws nothing. The
-- size of the screen stays.
pub draw_rect_lem :
    (g : Graphics) (x y w h color px py : ℕ)
    → IsScreen g
    → px < g.width
    → py < g.height
    → (pixel (draw_rect g x y w h color) px py
        ≡ (if on_rect x y w h px py then color else pixel g px py))
      × SameSize g (draw_rect g x y w h color)
unfolding draw_rect
draw_rect_lem g x y w h color px py s a b = (
  ap (λ p. (draw_rect g x y w h color).back_buffer (py * (p / 4) + px))
        (size-draw_rect g x y w h color).2
      ∙ elim (Bool-cases (leb g.width x || leb g.height y)) [
        | inl outside ↦
            rw
              (
                outside,
                draw_rect,
                off_rect g.width g.height x y px py (u32 (x + w)) (u32 (y + h)) outside a b,
              )
              refl
        | inr inside ↦
            rw (inside, draw_rect)
              (pixel-fill_rows g x (min (u32 (x + w)) g.width - x) y
                  (min (u32 (y + h)) g.height - y) color px py s (ground arith) (ground arith) a b
                ∙ ap₂ (λ s t. if s && t then color else pixel g px py)
                    (clipped y (u32 (y + h)) g.height py b) (clipped x (u32 (x + w)) g.width px a))
      ],
  size-draw_rect g x y w h color,
)
