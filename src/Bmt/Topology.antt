-- ===== src/Bmt/Topology.antt =====
-- `Topology` of src/vdev/bmt_topology.hpp: the blocks behind their lenses, written and read singly or
-- as a chain. A pointer and a length are the list of the bytes there.
pub mod Store
pub mod Chain
use emergence_os_bare_metal.Base.{
  ℕ, zero, suc, ◌+◌, ◌-◌, ◌*◌, ◌≡◌, List, [], ◌∷◌, ◌++◌, Bool, true, false, ltb, if◌then◌else◌,
  length, get_or, set, take, drop, Option, none, some,
}
use emergence_os_bare_metal.Bmt.Block.{
  Block, IsBlock, Written, write_block, read_block, clear_block, fresh_block, bytes_per_block,
}

abbrev pub lens_count : ℕ
lens_count = 1024

pub record Seed : Type 0 where
  pub hi : ℕ
  pub lo : ℕ

pub record LensKey : Type 0 where
  pub hi : ℕ
  pub lo : ℕ

-- `none` in `level1` is a null pointer.
pub record Topology : Type 0 where
  pub seed : Seed
  pub lens_keys : List LensKey
  pub root : Block
  pub level1 : List (Option Block)
  pub dirty : Bool

-- `idx >= LENS_COUNT || !level1_[idx]` is the `none`.
unfoldable pub block_at : Topology → ℕ → Option Block
block_at t idx = if ltb idx lens_count then get_or t.level1 idx none else none

unfoldable pub write_block_data : Topology → ℕ → List ℕ → ℕ × Topology
write_block_data t idx data_ = elim (block_at t idx) [
  | none ↦ (0, t)
  | some block ↦
      let out = write_block block data_ in
      (out.written, record t { level1 = set t.level1 idx (some out.block); dirty = true })
]

unfoldable pub read_block_data : Topology → ℕ → ℕ → List ℕ
read_block_data t idx max_len = elim (block_at t idx) [
  | none ↦ []
  | some block ↦ read_block block max_len
]

-- From the first of `blocks` on, with `data_` still to be written.
unfoldable pub write_chain : Topology → List ℕ → List ℕ → ℕ × Topology
write_chain t [] data_ = (0, t)
write_chain t (b ∷ blocks) [] = (0, t)
write_chain t (b ∷ blocks) (x ∷ xs) =
    let (n, t') = write_block_data t b (take bytes_per_block (x ∷ xs)) in
    let (m, t'') = write_chain t' blocks (drop n (x ∷ xs)) in (n + m, t'')

-- Stops at the first block that gives less than a full block's bytes.
unfoldable pub read_chain : Topology → List ℕ → ℕ → List ℕ
read_chain t [] room = []
read_chain t (b ∷ blocks) room =
    let part = read_block_data t b room in
    let rest = read_chain t blocks (room - length part) in
    if ltb 0 room then if ltb (length part) bytes_per_block then part else part ++ rest else []

clear_at : List (Option Block) → ℕ → List (Option Block)
clear_at [] i = []
clear_at (none ∷ bs) zero = none ∷ bs
clear_at (some b ∷ bs) zero = some (clear_block b) ∷ bs
clear_at (b ∷ bs) (suc i) = b ∷ clear_at bs i

clear_all : List (Option Block) → List ℕ → List (Option Block)
clear_all level1 [] = level1
clear_all level1 (idx ∷ blocks) =
    clear_all (if ltb idx lens_count then clear_at level1 idx else level1) blocks

unfoldable pub clear_blocks : Topology → List ℕ → Topology
unfolding clear_at clear_all
clear_blocks t blocks = record t { level1 = clear_all t.level1 blocks; dirty = true }

-- The overloads for one block.
unfoldable pub write_single : Topology → ℕ → List ℕ → ℕ × Topology
write_single t idx data_ = write_chain t (idx ∷ []) data_

unfoldable pub read_single : Topology → ℕ → ℕ → List ℕ
read_single t idx max_len = read_chain t (idx ∷ []) max_len
