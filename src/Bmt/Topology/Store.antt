-- ===== src/Bmt/Topology/Store.antt =====
-- One block behind its lens: `write_block_data` and `read_block_data` of src/vdev/bmt_topology.hpp.
use mathlib.Core.Path.{subst}
use emergence_os_bare_metal.Base.{
  ℕ, zero, suc, ◌≤◌, ◌≡◌, ◌≢◌, refl, ap, ◌∙◌, arith, min, List, [], ◌∷◌, true, Option, none, some,
  length, take, get_or, set, length-set, get_or-set_self, get_or-set_ne, Option-cases, Bool-cases,
  inl, inr, IsBytes, ltb, if◌then◌else◌,
}
use emergence_os_bare_metal.Bmt.Block.{Block, IsBlock, write_block}
use emergence_os_bare_metal.Bmt.Block.RoundTrip.{read_block-write_block}
use emergence_os_bare_metal.Bmt.Block.Shape.{write_block_lem}
use emergence_os_bare_metal.Bmt.Topology.{Topology, block_at, write_block_data, read_block_data}

-- A lens has no block, or one of 1024 words.
abbrev pub MaybeBlock : Option Block → Type 0
MaybeBlock none = Unit {0}
MaybeBlock (some b) = IsBlock b

abbrev pub AreBlocks : List (Option Block) → Type 0
AreBlocks [] = Unit {0}
AreBlocks (o ∷ os) = MaybeBlock o × AreBlocks os

-- What `initialize` and `load_image` set up, and every operation keeps.
pub record IsTopology (t : Topology) : Type 0 where
  pub lenses : length t.level1 ≡ 1024
  pub blocks : AreBlocks t.level1

AreBlocks-set :
    (bs : List (Option Block)) (i : ℕ) (b : Block)
    → AreBlocks bs
    → IsBlock b
    → AreBlocks (set bs i (some b))
AreBlocks-set [] i b bs h = tt
AreBlocks-set (o ∷ os) zero b bs h = (h, bs.1)
AreBlocks-set (o ∷ os) (suc i) b bs h = (bs.0, AreBlocks-set os i b bs.1 h)

MaybeBlock-get_or :
    (bs : List (Option Block)) (i : ℕ) → AreBlocks bs → MaybeBlock (get_or bs i none)
MaybeBlock-get_or [] i bs = tt
MaybeBlock-get_or (o ∷ os) zero bs = bs.0
MaybeBlock-get_or (o ∷ os) (suc i) bs = MaybeBlock-get_or os i bs.1

MaybeBlock-block_at : (t : Topology) (idx : ℕ) → IsTopology t → MaybeBlock (block_at t idx)
unfolding block_at
MaybeBlock-block_at t idx valid = elim (Bool-cases (ltb idx 1024)) [
  | inl in_range ↦ rw (in_range, block_at) (MaybeBlock-get_or t.level1 idx valid.blocks)
  | inr out ↦ rw (out, block_at) tt
]

module _ (t : Topology) (valid : IsTopology t) (idx : ℕ) (block : Block) (data_ : List ℕ)
    (there : block_at t idx ≡ some block) (bytes : IsBytes data_) where
  pub block-IsBlock : IsBlock block
  block-IsBlock = subst MaybeBlock there (MaybeBlock-block_at t idx valid)

  -- The write in one equation.
  pub write_block_data_lem : write_block_data t idx data_ ≡ (
    (write_block block data_).written,
    record t { level1 = set t.level1 idx (some (write_block block data_).block); dirty = true },
  )
  unfolding write_block_data
  write_block_data_lem = rw (there, write_block_data) refl

  pub write_block_data-IsTopology : IsTopology (write_block_data t idx data_).1
  write_block_data-IsTopology = rw write_block_data_lem (record {
    lenses = length-set t.level1 idx (some (write_block block data_).block) ∙ valid.lenses;
    blocks =
        AreBlocks-set t.level1 idx (write_block block data_).block valid.blocks
          (write_block_lem block data_ block-IsBlock bytes).1;
  })

  pub block_at-write_self :
      block_at (write_block_data t idx data_).1 idx ≡ some (write_block block data_).block
  unfolding block_at
  block_at-write_self = rw write_block_data_lem (
      ground (
        arith,
        get_or-set_self t.level1 idx (some (write_block block data_).block) none,
        valid.lenses,
      ))

block_at-set_ne :
    (t : Topology) (idx j : ℕ) (o : Option Block)
    → idx ≢ j
    → block_at (record t { level1 = set t.level1 idx o; dirty = true }) j ≡ block_at t j
unfolding block_at
block_at-set_ne t idx j o ne =
    ap (λ x. if ltb j 1024 then x else none) (get_or-set_ne t.level1 idx j o none ne)

pub block_at-write_ne :
    (t : Topology) (idx j : ℕ) (data_ : List ℕ)
    → idx ≢ j
    → block_at (write_block_data t idx data_).1 j ≡ block_at t j
unfolding write_block_data
block_at-write_ne t idx j data_ ne = elim (Option-cases (block_at t idx)) [
  | inl e ↦ rw (e, write_block_data) refl
  | inr (block, e) ↦ rw (e, write_block_data) (block_at-set_ne t idx j _ ne)
]

-- A null lens, or an index past the lenses: nothing is written and nothing is read.
pub write_block_data-none :
    (t : Topology) (idx : ℕ) (data_ : List ℕ)
    → block_at t idx ≡ none
    → write_block_data t idx data_ ≡ (0, t)
unfolding write_block_data
write_block_data-none t idx data_ e = rw (e, write_block_data) refl

pub write-IsTopology :
    (t : Topology) (idx : ℕ) (data_ : List ℕ)
    → IsTopology t
    → IsBytes data_
    → IsTopology (write_block_data t idx data_).1
write-IsTopology t idx data_ valid bytes = elim (Option-cases (block_at t idx)) [
  | inl e ↦ rw (write_block_data-none t idx data_ e) valid
  | inr (block, e) ↦ write_block_data-IsTopology t valid idx block data_ e bytes
]

-- The same for any length and any lens that is read afterwards.
pub write_block_data_laws :
    (t : Topology) (idx : ℕ) (block : Block) (data_ : List ℕ)
    → IsTopology t
    → block_at t idx ≡ some block
    → IsBytes data_
    → let (n, t') = write_block_data t idx data_ in
      (n ≡ min (length data_) 13312)
      × ((max_len : ℕ)
          → min max_len 13273 ≤ length data_
          → read_block_data t' idx max_len ≡ take (min max_len 13273) data_)
      × ((j max_len : ℕ) → idx ≢ j → read_block_data t' j max_len ≡ read_block_data t j max_len)
      × IsTopology t'
unfolding read_block_data
write_block_data_laws t idx block data_ valid there bytes = (
  rw (write_block_data_lem t valid idx block data_ there bytes)
      ((write_block_lem block data_ (block-IsBlock t valid idx block data_ there bytes) bytes).0),
  λ max_len le.
      rw (block_at-write_self t valid idx block data_ there bytes, read_block_data)
        (read_block-write_block block data_ max_len
          (block-IsBlock t valid idx block data_ there bytes) bytes le),
  λ j max_len ne. rw (block_at-write_ne t idx j data_ ne, read_block_data) refl,
  write_block_data-IsTopology t valid idx block data_ there bytes,
)

-- A block that is written is read back up to its first 13273 bytes, the count returned is that of the
-- bytes that fit its 13312, no other lens reads anything else than before, and the topology stays
-- well-formed. The data has at least the bytes that are asked for.
pub read_block_data-write_block_data :
    (t : Topology) (idx : ℕ) (block : Block) (data_ : List ℕ) (max_len j other_len : ℕ)
    → IsTopology t
    → block_at t idx ≡ some block
    → IsBytes data_
    → min max_len 13273 ≤ length data_
    → idx ≢ j
    → let (n, t') = write_block_data t idx data_ in
      (n ≡ min (length data_) 13312)
      × (read_block_data t' idx max_len ≡ take (min max_len 13273) data_)
      × (read_block_data t' j other_len ≡ read_block_data t j other_len)
      × IsTopology t'
read_block_data-write_block_data t idx block data_ max_len j other_len valid there bytes le ne =
    let laws = write_block_data_laws t idx block data_ valid there bytes in
    (laws.0, laws.1 max_len le, laws.2 j other_len ne, laws.3)
