-- ===== src/Panel/Rotors.antt =====
-- The rings that src/hal/neumann_control_panel.hpp draws.
use native.Mathlib.Decide.{ℕ_discrete}
use emergence_os_bare_metal.Base.{
  ℕ, zero, suc, ◌+◌, ◌%◌, ◌^◌, ◌≤◌, ◌<◌, ◌≡◌, refl, sym, ◌∙◌, subst, and_both, arith, List, Bool,
  true, false, Bool-cases, inl, inr, not, ◌&&◌, ◌||◌, ltb, leb, get_or, u32, ℤ, pos, negsuc,
}
use emergence_os_bare_metal.Graphics.{Graphics, draw_rect}
use emergence_os_bare_metal.Graphics.Rect.{SameSize, size-draw_rect}
use emergence_os_bare_metal.Panel.{s_tbl, c_tbl, scaled, radius_of, draw_rotor, draw_ring}

-- A rotor is to the left of the center, or above it.
abbrev pub is_negative : ℤ → Bool
is_negative (pos n) = false
is_negative (negsuc n) = true

-- The quotient that stands for a negative table value is far larger than any screen.
abbrev is_huge : ℕ → Bool
is_huge n = leb 42949547 n && ltb n 42949673

abbrev all_huge : List ℤ → ℕ → ℕ → Bool
all_huge tbl r zero = true
all_huge tbl r (suc n) =
    (not (is_negative (get_or tbl (n % 12) (pos 0))) || is_huge (scaled (radius_of r) tbl n))
    && all_huge tbl r n

all_huge_all : ℕ → Bool
all_huge_all zero = true
all_huge_all (suc r) = (all_huge c_tbl r 12 && all_huge s_tbl r 12) && all_huge_all r

huge : all_huge_all 8 ≡ true
unfolding all_huge_all scaled
huge = refl

all_huge_at :
    (tbl : List ℤ) (r n k : ℕ)
    → k < n
    → all_huge tbl r n ≡ true
    → is_negative (get_or tbl (k % 12) (pos 0)) ≡ true
    → is_huge (scaled (radius_of r) tbl k) ≡ true
all_huge_at tbl r zero k h e neg = absurd (omega arith)
all_huge_at tbl r (suc n) k h e neg =
    let here =
      not (is_negative (get_or tbl (n % 12) (pos 0))) || is_huge (scaled (radius_of r) tbl n) in
    let parts = and_both here (all_huge tbl r n) e in
    elim (ℕ_discrete k n) [
      | yes at ↦
          implied (is_negative (get_or tbl (k % 12) (pos 0))) (is_huge (scaled (radius_of r) tbl k))
            neg
            (subst
              (λ t.
                (not (is_negative (get_or tbl (t % 12) (pos 0)))
                  || is_huge (scaled (radius_of r) tbl t))
                ≡ true)
              (sym at) parts.0)
      | no other ↦ all_huge_at tbl r n k (omega (arith, other)) parts.1 neg
    ]
  where
    implied : (p q : Bool) → p ≡ true → (not p || q) ≡ true → q ≡ true
    implied true q e f = f
    implied false q e f = cc

all_huge_rows :
    (n r : ℕ)
    → r < n
    → all_huge_all n ≡ true
    → (all_huge c_tbl r 12 ≡ true) × (all_huge s_tbl r 12 ≡ true)
unfolding all_huge_all
all_huge_rows zero r h e = absurd (omega arith)
all_huge_rows (suc n) r h e =
    let parts = and_both (all_huge c_tbl n 12 && all_huge s_tbl n 12) (all_huge_all n) e in
    elim (ℕ_discrete n r) [
      | yes at ↦
          subst (λ t. (all_huge c_tbl t 12 ≡ true) × (all_huge s_tbl t 12 ≡ true)) at
            (and_both (all_huge c_tbl n 12) (all_huge s_tbl n 12) parts.0)
      | no other ↦ all_huge_rows n r (omega (arith, other)) parts.1
    ]

draw_rect_off :
    (g : Graphics) (x y w h color : ℕ)
    → (leb g.width x || leb g.height y) ≡ true
    → draw_rect g x y w h color ≡ g
unfolding draw_rect
draw_rect_off g x y w h color e = rw e refl

-- A center and a screen as they may be.
pub record IsRoom (g : Graphics) (cx cy : ℕ) : Type 0 where
  pub center_x : cx < 2 ^ 31
  pub center_y : cy < 2 ^ 31
  pub width_fits : g.width ≤ 42949547
  pub height_fits : g.height ≤ 42949547

off_right :
    (width cx n : ℕ)
    → width ≤ 42949547
    → cx < 2 ^ 31
    → is_huge n ≡ true
    → leb width (u32 (cx + n)) ≡ true
off_right width cx n w c e = ground arith

module _ (cx cy r color : ℕ) (ring : r < 8) where
  draw_rotor_negative :
      (g : Graphics) (i : ℕ)
      → IsRoom g cx cy
      → i < 12
      → (is_negative (get_or c_tbl (i % 12) (pos 0)) || is_negative (get_or s_tbl (i % 12) (pos 0)))
        ≡ true
      → draw_rotor g cx cy r i color ≡ g
  unfolding draw_rotor
  draw_rotor_negative g i room h neg =
      let rows = all_huge_rows 8 r ring huge in
      draw_rect_off g (u32 (cx + scaled (radius_of r) c_tbl i))
        (u32 (cy + scaled (radius_of r) s_tbl i)) 4 4 color
        (elim (Bool-cases (is_negative (get_or c_tbl (i % 12) (pos 0)))) [
          | inl left ↦
              rw
                (off_right g.width cx (scaled (radius_of r) c_tbl i) room.width_fits room.center_x
                  (all_huge_at c_tbl r 12 i h rows.0 left))
                refl
          | inr right ↦ or_right (leb g.width (u32 (cx + scaled (radius_of r) c_tbl i))) (
              off_right g.height cy (scaled (radius_of r) s_tbl i) room.height_fits room.center_y (
                all_huge_at s_tbl r 12 i h rows.1 (
                  second (is_negative (get_or c_tbl (i % 12) (pos 0)))
                    (is_negative (get_or s_tbl (i % 12) (pos 0))) right neg)))
        ])
    where
      or_right : (p : Bool) {q : Bool} → q ≡ true → (p || q) ≡ true
      or_right true e = refl
      or_right false e = e

      second : (p q : Bool) → p ≡ false → (p || q) ≡ true → q ≡ true
      second true q e f = cc
      second false q e f = f

  SameSize-draw_ring : (g : Graphics) (i n : ℕ) → SameSize g (draw_ring g cx cy r i n color)
  unfolding draw_ring draw_rotor
  SameSize-draw_ring g i zero = (refl, refl, refl)
  SameSize-draw_ring g i (suc n) =
      let here =
        size-draw_rect g (u32 (cx + scaled (radius_of r) c_tbl i))
          (u32 (cy + scaled (radius_of r) s_tbl i)) 4 4 color in
      let rest = SameSize-draw_ring (draw_rotor g cx cy r i color) (i + 1) n in
      (rest.0 ∙ here.0, rest.1 ∙ here.1, rest.2 ∙ here.2)

  draw_ring_negative : (g : Graphics) → IsRoom g cx cy → draw_ring g cx cy r 4 8 color ≡ g
  unfolding draw_ring
  draw_ring_negative g room =
      let off = draw_rotor_negative g in
      rw
        (
          off 4 room (omega arith) refl,
          off 5 room (omega arith) refl,
          off 6 room (omega arith) refl,
          off 7 room (omega arith) refl,
          off 8 room (omega arith) refl,
          off 9 room (omega arith) refl,
          off 10 room (omega arith) refl,
          off 11 room (omega arith) refl,
        )
        refl

  -- Of the twelve rotors of a ring only the four to the right of the center and below it are drawn: the
  -- product with a negative table value wraps around, and the rotor is off any screen of up to 42949547
  -- pixels in width and height.
  pub draw_ring_lem :
      (g : Graphics)
      → IsRoom g cx cy
      → draw_ring g cx cy r 0 12 color ≡ draw_ring g cx cy r 0 4 color
  draw_ring_lem g room =
      let four = draw_ring g cx cy r 0 4 color in
      let size = SameSize-draw_ring g 0 4 in
      split g
      ∙ draw_ring_negative four (record {
        center_x = room.center_x;
        center_y = room.center_y;
        width_fits = omega (arith, size.0, room.width_fits);
        height_fits = omega (arith, size.1, room.height_fits);
      })
    where
      split :
          (g : Graphics)
          → draw_ring g cx cy r 0 12 color
            ≡ draw_ring (draw_ring g cx cy r 0 4 color) cx cy r 4 8 color
      split g = unfold draw_ring in refl
