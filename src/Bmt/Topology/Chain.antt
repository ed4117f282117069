-- ===== src/Bmt/Topology/Chain.antt =====
-- Data over several blocks: `write_chain` and `read_chain` of src/vdev/bmt_topology.hpp.
use emergence_os_bare_metal.Base.{
  ℕ, zero, suc, ◌*◌, ◌<◌, ◌≤◌, ◌≡◌, ◌≢◌, refl, ap, ◌∙◌, arith, min, List, [], ◌∷◌, some, length,
  take, drop, length-take, length-drop, take-take, if◌then◌else◌, ltb, lt→ltb, IsBytes,
  IsBytes-take, IsBytes-drop,
}
use native.Mathlib.Decide.{ℕ_discrete}
use emergence_os_bare_metal.Bmt.Block.{Block, write_block}
use emergence_os_bare_metal.Bmt.Topology.{
  Topology, block_at, write_block_data, read_block_data, write_chain, read_chain,
}
use emergence_os_bare_metal.Bmt.Topology.Store.{
  IsTopology, block_at-write_ne, block_at-write_self, write_block_data_laws,
}

-- The index is none of the chain's.
abbrev pub Avoids : ℕ → List ℕ → Type 0
Avoids i [] = Unit {0}
Avoids i (j ∷ js) = (j ≢ i) × Avoids i js

-- Each index of the chain names a block.
abbrev pub AreThere : Topology → List ℕ → Type 0
AreThere t [] = Unit {0}
AreThere t (i ∷ is) = ((block : Block) × (block_at t i ≡ some block)) × AreThere t is

block_at-write_chain :
    (t : Topology) (is : List ℕ) (data_ : List ℕ) (i : ℕ)
    → Avoids i is
    → block_at (write_chain t is data_).1 i ≡ block_at t i
unfolding write_chain
block_at-write_chain t [] data_ i away = refl
block_at-write_chain t (j ∷ js) [] i away = refl
block_at-write_chain t (j ∷ js) (x ∷ xs) i away =
    let step = write_block_data t j (take 13312 (x ∷ xs)) in
    block_at-write_chain step.1 js (drop step.0 (x ∷ xs)) i away.1
    ∙ block_at-write_ne t j i (take 13312 (x ∷ xs)) away.0

read_block_data-block_at :
    (t t' : Topology) (i max_len : ℕ)
    → block_at t i ≡ block_at t' i
    → read_block_data t i max_len ≡ read_block_data t' i max_len
unfolding read_block_data
read_block_data-block_at t t' i max_len e = rw (e, read_block_data) refl

-- Less than a full block ends the chain.
read_chain_short :
    (t : Topology) (i : ℕ) (is : List ℕ) (room : ℕ)
    → length (read_block_data t i room) < 13312
    → read_chain t (i ∷ is) room ≡ (if ltb 0 room then read_block_data t i room else [])
unfolding read_chain
read_chain_short t i is room h = ground arith

if_wanted :
    (room : ℕ) (bs : List ℕ)
    → (if ltb 0 room then take (min room 13273) bs else []) ≡ take (min room 13273) bs
if_wanted zero bs = refl
if_wanted (suc room) bs = rw (lt→ltb 0 (suc room) (omega arith)) refl

-- A chain of blocks is written, but of what was written only the start of its first block, at most
-- 13273 bytes, is ever read back: the first block never gives its full 13312 bytes, which is the
-- condition for going on to the second.
pub read_chain-write_chain :
    (t : Topology) (i : ℕ) (is : List ℕ) (data_ : List ℕ) (max_len : ℕ)
    → IsTopology t
    → AreThere t (i ∷ [])
    → Avoids i is
    → IsBytes data_
    → max_len ≤ length data_
    → read_chain (write_chain t (i ∷ is) data_).1 (i ∷ is) max_len ≡ take (min max_len 13273) data_
unfolding read_chain write_chain
read_chain-write_chain t i is [] max_len valid there away bytes le =
    let none_wanted : max_len ≡ 0 = omega arith in rw none_wanted refl
read_chain-write_chain t i is (x ∷ xs) max_len valid there away bytes le =
    rw (read_chain_short after i is max_len short, found) (if_wanted max_len (x ∷ xs))
  where
    first : List ℕ
    first = take 13312 (x ∷ xs)

    step : ℕ × Topology
    step = write_block_data t i first

    after : Topology
    after = (write_chain step.1 is (drop step.0 (x ∷ xs))).1

    laws :
        (max_len : ℕ)
        → min max_len 13273 ≤ length first
        → read_block_data step.1 i max_len ≡ take (min max_len 13273) first
    laws =
        (write_block_data_laws t i there.0.0 first valid there.0.1
          (IsBytes-take 13312 (x ∷ xs) bytes)).1

    found : read_block_data after i max_len ≡ take (min max_len 13273) (x ∷ xs)
    found =
        read_block_data-block_at after step.1 i max_len
          (block_at-write_chain step.1 is (drop step.0 (x ∷ xs)) i away)
        ∙ laws max_len (omega (arith, length-take 13312 (x ∷ xs)))
        ∙ take-take (min max_len 13273) 13312 (x ∷ xs)
        ∙ ap (λ n. take n (x ∷ xs)) (omega arith)

    short : length (read_block_data after i max_len) < 13312
    short = omega (arith, ap length found, length-take (min max_len 13273) (x ∷ xs))

-- A write keeps every block of a chain in its place.
AreThere-write :
    (t : Topology) (i : ℕ) (data_ : List ℕ) (js : List ℕ)
    → IsTopology t
    → IsBytes data_
    → AreThere t (i ∷ [])
    → AreThere t js
    → AreThere (write_block_data t i data_).1 js
AreThere-write t i data_ [] valid bytes here there = tt
AreThere-write t i data_ (j ∷ js) valid bytes here there = (
  elim (ℕ_discrete i j) [
    | yes e ↦
        let block = here.0.0 in
        (
          (write_block block data_).block,
          rw (← e) (block_at-write_self t valid i block data_ here.0.1 bytes),
        )
    | no ne ↦ (there.0.0, block_at-write_ne t i j data_ ne ∙ there.0.1)
  ],
  AreThere-write t i data_ js valid bytes here there.1,
)

-- The count that `write_chain` returns is that of the bytes that fit its blocks, all 13312 of each,
-- and the topology stays well-formed.
pub write_chain_count :
    (t : Topology) (is : List ℕ) (data_ : List ℕ)
    → IsTopology t
    → AreThere t is
    → IsBytes data_
    → ((write_chain t is data_).0 ≡ min (length data_) (13312 * length is))
      × IsTopology (write_chain t is data_).1
unfolding write_chain
write_chain_count t [] data_ valid there bytes = (omega arith, valid)
write_chain_count t (i ∷ is) [] valid there bytes = (omega arith, valid)
write_chain_count t (i ∷ is) (x ∷ xs) valid there bytes =
    let ih =
      write_chain_count step.1 is (drop step.0 (x ∷ xs)) (laws.3)
        (AreThere-write t i first is valid first_bytes (there.0, tt) there.1)
        (IsBytes-drop step.0 (x ∷ xs) bytes) in
    (omega (arith, ih.0, laws.0, length-take 13312 (x ∷ xs), length-drop step.0 (x ∷ xs)), ih.1)
  where
    first : List ℕ
    first = take 13312 (x ∷ xs)

    first_bytes : IsBytes first
    first_bytes = IsBytes-take 13312 (x ∷ xs) bytes

    step : ℕ × Topology
    step = write_block_data t i first

    laws :
        (step.0 ≡ min (length first) 13312)
        × ((max_len : ℕ)
            → min max_len 13273 ≤ length first
            → read_block_data step.1 i max_len ≡ take (min max_len 13273) first)
        × ((j max_len : ℕ) → i ≢ j → read_block_data step.1 j max_len ≡ read_block_data t j max_len)
        × IsTopology step.1
    laws = write_block_data_laws t i there.0.0 first valid there.0.1 first_bytes
