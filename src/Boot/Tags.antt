-- ===== src/Boot/Tags.antt =====
-- When the walk of src/boot/kmain.cpp over the boot tags ends.
use emergence_os_bare_metal.Base.{
  ℕ, zero, suc, ◌+◌, ◌-◌, ◌*◌, ◌^◌, ◌<◌, ◌≤◌, ◌≡◌, refl, arith, Bool, true, false, Bool-cases, inl,
  inr, Option, none, some, ltb, ◌&&◌, ◌==◌, if◌then◌else◌,
}
use emergence_os_bare_metal.Boot.{Framebuffer, framebuffer_of, number_at, padded, walk_tags}

-- The next `fuel` tags have sizes that can be padded on 32 bits.
abbrev pub are_sized : ℕ → (ℕ → ℕ) → ℕ → ℕ → Bool
are_sized zero memory end tag = true
are_sized (suc fuel) memory end tag =
    let size = number_at memory 4 (tag + 4) in
    let later = are_sized fuel memory end (tag + padded size) in
    if ltb tag end
    then (if number_at memory 4 tag == 0
        then true
        else (ltb 0 size && ltb size 4294967289) && later)
    else true

is_sized :
    (inside last sized later : Bool)
    → inside ≡ true
    → last ≡ false
    → (if inside then (if last then true else sized && later) else true) ≡ true
    → (sized ≡ true) × (later ≡ true)
is_sized true false true later i l e = (refl, e)
is_sized true false false later i l e = cc
is_sized true true sized later i l e = cc
is_sized false last sized later i l e = cc

in_range :
    (size : ℕ) → (ltb 0 size && ltb size 4294967289) ≡ true → (0 < size) × (size < 2 ^ 32 - 7)
in_range size e = (ground arith, ground arith)

padded_pos : (size : ℕ) → 0 < size → size < 2 ^ 32 - 7 → 8 ≤ padded size
padded_pos size z h = omega arith

not_below : (a b : ℕ) → b ≤ a → ltb a b ≡ false
not_below a b h = ground arith

-- The walk ends if the tags that it comes to have sizes: one round for each eight bytes and one more
-- are enough.
pub walk_tags_ends :
    (fuel : ℕ) (memory : ℕ → ℕ) (end tag : ℕ) (found : Option Framebuffer)
    → are_sized fuel memory end tag ≡ true
    → end ≤ tag + 8 * fuel
    → (result : Option Framebuffer) × (walk_tags (suc fuel) memory end tag found ≡ some result)
unfolding walk_tags
walk_tags_ends zero memory end tag found sized h =
    let over : ltb tag end ≡ false = not_below tag end (omega arith) in rw over (found, refl)
walk_tags_ends (suc fuel) memory end tag found sized h = elim (Bool-cases (ltb tag end)) [
  | inr over ↦ rw over (found, refl)
  | inl inside ↦ elim (Bool-cases (number_at memory 4 tag == 0)) [
    | inl last ↦ rw (inside, last) (found, refl)
    | inr other ↦
        let parts =
          is_sized (ltb tag end) (number_at memory 4 tag == 0)
            (ltb 0 (number_at memory 4 (tag + 4)) && ltb (number_at memory 4 (tag + 4)) 4294967289)
            (are_sized fuel memory end (tag + padded (number_at memory 4 (tag + 4)))) inside other
            sized in
        let size = in_range (number_at memory 4 (tag + 4)) parts.0 in
        let step = padded_pos (number_at memory 4 (tag + 4)) size.0 size.1 in
        rw (inside, other)
          (walk_tags_ends fuel memory end (tag + padded (number_at memory 4 (tag + 4)))
            (if number_at memory 4 tag == 8 then some (framebuffer_of memory tag) else found)
            parts.1 (omega (arith, step)))
  ]
]

positive : (n : ℕ) → 0 < n → (n == 0) ≡ false
positive n z = ground arith

-- A tag of size zero that is not the last keeps the walk in place for good.
pub walk_tags_stuck :
    (fuel : ℕ) (memory : ℕ → ℕ) (end tag : ℕ) (found : Option Framebuffer)
    → tag < end
    → 0 < number_at memory 4 tag
    → number_at memory 4 (tag + 4) ≡ 0
    → walk_tags fuel memory end tag found ≡ none
unfolding walk_tags
walk_tags_stuck zero memory end tag found l z e = refl
walk_tags_stuck (suc fuel) memory end tag found l z e =
    let inside : ltb tag end ≡ true = ground arith in
    let other : (number_at memory 4 tag == 0) ≡ false = positive (number_at memory 4 tag) z in
    let stay : tag + padded (number_at memory 4 (tag + 4)) ≡ tag = omega (arith, e) in
    rw (inside, other, stay)
      (walk_tags_stuck fuel memory end tag
        (if number_at memory 4 tag == 8 then some (framebuffer_of memory tag) else found) l z e)
