-- ===== src/Bmt/Tests.antt =====
-- Runs of src/vdev/bmt_topology.hpp: a topology with a fresh block behind each lens.
use emergence_os_bare_metal.Base.{
  ℕ, zero, suc, ◌*◌, ◌≡◌, ◌≢◌, refl, arith, List, [], ◌∷◌, Option, some, replicate, take, length,
  min, true, false, length-replicate,
}
use emergence_os_bare_metal.Bmt.Block.{Block, IsBlock, fresh_block}
use emergence_os_bare_metal.Bmt.Topology.{
  Seed, Topology, block_at, write_block_data, read_block_data, write_chain, read_chain,
}
use emergence_os_bare_metal.Bmt.Topology.Store.{
  IsTopology, AreBlocks, read_block_data-write_block_data,
}
use emergence_os_bare_metal.Bmt.Topology.Chain.{read_chain-write_chain, write_chain_count}
use emergence_os_bare_metal.Bmt.Keys.{generate}
use emergence_os_bare_metal.Bmt.Image.{image_tag, initialize, save_image, load_image}
use emergence_os_bare_metal.Bmt.Image.RoundTrip.{
  ArePresent, load_image-save_image, load_image_wrong_seed,
}
use emergence_os_bare_metal.Bmt.Image.Initialize.{AreFree, AllFree, initialize_lem, fresh_block_lem}

abbrev a_seed : Seed
a_seed = record { hi = 5; lo = 7 }

abbrev other_seed : Seed
other_seed = record { hi = 5; lo = 8 }

abbrev some_bytes : List ℕ
some_bytes = 1 ∷ 2 ∷ 3 ∷ []

abbrev all_fresh : ℕ → List (Option Block)
all_fresh n = replicate n (some fresh_block)

abbrev sample : Topology
sample = record {
  seed = a_seed;
  lens_keys = [];
  root = fresh_block;
  level1 = all_fresh 1024;
  dirty = false;
}

all_fresh-AreBlocks : (n : ℕ) → AreBlocks (all_fresh n)
all_fresh-AreBlocks zero = tt
all_fresh-AreBlocks (suc n) = (fresh_block_lem.0, all_fresh-AreBlocks n)

all_fresh-ArePresent : (n : ℕ) → ArePresent (all_fresh n)
all_fresh-ArePresent zero = tt
all_fresh-ArePresent (suc n) = all_fresh-ArePresent n

sample-IsTopology : IsTopology sample
sample-IsTopology = record {
  lenses = length-replicate 1024 (some fresh_block);
  blocks = all_fresh-AreBlocks 1024;
}

sample_block : block_at sample 3 ≡ some fresh_block
unfolding block_at
sample_block = refl

read_block_data-write_block_data_example :
    let (n, t') = write_block_data sample 3 some_bytes in
    (n ≡ min (length some_bytes) 13312)
    × (read_block_data t' 3 2 ≡ take (min 2 13273) some_bytes)
    × (read_block_data t' 4 9 ≡ read_block_data sample 4 9)
    × IsTopology t'
read_block_data-write_block_data_example =
    read_block_data-write_block_data sample 3 fresh_block some_bytes 2 4 9 sample-IsTopology
      sample_block (omega arith) (omega arith) (omega arith)

read_chain-write_chain_example :
    read_chain (write_chain sample (3 ∷ 4 ∷ []) some_bytes).1 (3 ∷ 4 ∷ []) 2
    ≡ take (min 2 13273) some_bytes
read_chain-write_chain_example =
    read_chain-write_chain sample 3 (4 ∷ []) some_bytes 2 sample-IsTopology
      ((fresh_block, sample_block), tt) (omega arith, tt) (omega arith) (omega arith)

write_chain_count_example :
    ((write_chain sample (3 ∷ []) some_bytes).0 ≡ min (length some_bytes) (13312 * 1))
    × IsTopology (write_chain sample (3 ∷ []) some_bytes).1
write_chain_count_example =
    write_chain_count sample (3 ∷ []) some_bytes sample-IsTopology ((fresh_block, sample_block), tt)
      (omega arith)

initialize_lem_example :
    IsTopology (initialize sample other_seed)
    × IsBlock (initialize sample other_seed).root
    × AreFree (initialize sample other_seed).root
    × AllFree (initialize sample other_seed).level1
initialize_lem_example = initialize_lem sample other_seed (omega arith)

load_image-save_image_example :
    load_image sample (save_image sample true).1 a_seed
    ≡ (true, record sample { lens_keys = generate a_seed; dirty = false })
load_image-save_image_example =
    load_image-save_image sample sample sample-IsTopology fresh_block_lem.0 (omega arith)
      (length-replicate 1024 (some fresh_block)) (all_fresh-ArePresent 1024)

tags_differ : image_tag other_seed ≢ image_tag a_seed
unfolding image_tag
tags_differ e = absurd (omega arith)

load_image_wrong_seed_example :
    load_image sample (save_image sample true).1 other_seed
    ≡ (false, record sample { seed = other_seed; lens_keys = generate other_seed })
load_image_wrong_seed_example =
    load_image_wrong_seed sample other_seed sample (omega arith) (λ e. tags_differ e)
