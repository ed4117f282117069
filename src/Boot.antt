-- ===== src/Boot.antt =====
-- src/boot/kmain.cpp: the walk over the tags that the boot loader leaves, for the frame buffer.
pub mod Tags
mod Tests
use emergence_os_bare_metal.Base.{
  ℕ, zero, suc, ◌+◌, ◌*◌, ◌/◌, Bool, true, false, Option, none, some, ltb, ◌==◌, if◌then◌else◌, u32,
  le_value,
}
use emergence_os_bare_metal.Manifold.{peek}

pub record Framebuffer : Type 0 where
  pub lfb : ℕ
  pub p : ℕ
  pub w : ℕ
  pub h : ℕ

-- A little-endian number of `n` bytes in memory.
abbrev pub number_at : (ℕ → ℕ) → ℕ → ℕ → ℕ
number_at memory n a = le_value (peek memory a n)

unfoldable pub framebuffer_of : (ℕ → ℕ) → ℕ → Framebuffer
framebuffer_of memory tag = record {
  lfb = number_at memory 8 (tag + 8);
  p = number_at memory 4 (tag + 16);
  w = number_at memory 4 (tag + 20);
  h = number_at memory 4 (tag + 24);
}

-- `(size + 7) & ~7` on 32 bits.
abbrev pub padded : ℕ → ℕ
padded size = u32 (size + 7) / 8 * 8

-- The loop from `tag` on, for as many tags as `fuel`: `none` if that is not enough, else the last frame
-- buffer, where there was one.
unfoldable pub walk_tags : ℕ → (ℕ → ℕ) → ℕ → ℕ → Option Framebuffer → Option (Option Framebuffer)
walk_tags zero memory end tag found = none
walk_tags (suc fuel) memory end tag found =
    let kind = number_at memory 4 tag in
    let size = number_at memory 4 (tag + 4) in
    let found' = if kind == 8 then some (framebuffer_of memory tag) else found in
    let later = walk_tags fuel memory end (tag + padded size) found' in
    if ltb tag end then (if kind == 0 then some found else later) else some found

-- `magic` and `info_addr` come from the boot loader.
unfoldable pub find_framebuffer : ℕ → (ℕ → ℕ) → ℕ → ℕ → Option (Option Framebuffer)
find_framebuffer fuel memory magic info_addr =
    if magic == 0x36d76289
    then walk_tags fuel memory (u32 (info_addr + number_at memory 4 info_addr))
        (u32 (info_addr + 8)) none
    else some none
