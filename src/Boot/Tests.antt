-- ===== src/Boot/Tests.antt =====
-- A walk of src/boot/kmain.cpp over two tags.
use emergence_os_bare_metal.Base.{
  ℕ, ◌≡◌, refl, arith, List, [], ◌∷◌, true, Option, none, some, get_or,
}
use emergence_os_bare_metal.Manifold.{peek}
use emergence_os_bare_metal.Boot.{Framebuffer, walk_tags}
use emergence_os_bare_metal.Boot.Tags.{are_sized, walk_tags_ends}

-- A frame buffer of 1024 by 768 at 0xE0000000, and the tag that ends the list.
abbrev tag_bytes : List ℕ
tag_bytes =
    8 ∷ 0 ∷ 0 ∷ 0 ∷ 28 ∷ 0 ∷ 0 ∷ 0 ∷ 0 ∷ 0 ∷ 0 ∷ 0xE0 ∷ 0 ∷ 0 ∷ 0 ∷ 0 ∷ 0 ∷ 16 ∷ 0 ∷ 0 ∷ 0 ∷ 4 ∷ 0
    ∷ 0 ∷ 0 ∷ 3 ∷ 0 ∷ 0 ∷ 0 ∷ 0 ∷ 0 ∷ 0 ∷ 0 ∷ 0 ∷ 0 ∷ 0 ∷ 8 ∷ 0 ∷ 0 ∷ 0 ∷ []

abbrev memory : ℕ → ℕ
memory a = get_or tag_bytes a 0

tags_are_sized : are_sized 5 memory 40 0 ≡ true
unfolding peek
tags_are_sized = refl

walk_tags_ends_example :
    (result : Option Framebuffer) × (walk_tags 6 memory 40 0 none ≡ some result)
walk_tags_ends_example = walk_tags_ends 5 memory 40 0 none tags_are_sized (omega arith)
