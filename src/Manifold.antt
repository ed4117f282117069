-- ===== src/Manifold.antt =====
-- src/vdev/topology.hpp: `Value128` and `SubstrateManifold`, the cache of virtual blocks that the
-- kernel runs on. `cache_pool_` is memory: a byte for each offset from its start.
pub mod Memory
pub mod Lookup
pub mod Fetch
pub mod Slots
mod Tests
use emergence_os_bare_metal.Base.{
  ℕ, zero, suc, ◌+◌, ◌-◌, ◌*◌, ◌/◌, ◌%◌, bit_and, bit_or, List, [], ◌∷◌, ◌++◌, Bool, true, false,
  not, ◌&&◌, Option, none, some, ltb, leb, ◌==◌, if◌then◌else◌, u16, u32, u64, ◌<<<◌, ◌>>>◌, length,
  get_or, take, drop, le_bytes, le_value, min,
}

abbrev pub lens_mask : ℕ
lens_mask = 0x3FF

abbrev pub halt_route : ℕ
halt_route = 0x3FF

abbrev pub error_route : ℕ
error_route = 0x3FE

abbrev pub free_route : ℕ
free_route = 0x3FD

abbrev pub phi_lo : ℕ
phi_lo = 0x517CC1B727220A95

pub record Value128 : Type 0 where
  pub hi : ℕ
  pub lo : ℕ

unfoldable pub route : Value128 → ℕ
route v = bit_and (u16 (v.hi >>> 54)) lens_mask

unfoldable pub pack_route : Value128 → ℕ → Value128
pack_route v r = record {
  hi = bit_or (bit_and v.hi 0x000FFFFFFFFFFFFF) (u64 (bit_and r lens_mask <<< 54));
  lo = v.lo;
}

-- The 16 bytes of the structure, `hi` first; the target is little-endian.
unfoldable pub image : Value128 → List ℕ
image v = le_bytes 8 v.hi ++ le_bytes 8 v.lo

unfoldable pub value_of : List ℕ → Value128
value_of bytes = record { hi = le_value (take 8 bytes); lo = le_value (take 8 (drop 8 bytes)) }

abbrev pub Pool : Type 0
Pool = ℕ → ℕ

-- `kmemcpy(pool + off, data, length data)`.
unfoldable pub poke : Pool → ℕ → List ℕ → Pool
poke pool off data_ a =
    if ltb a off
    then pool a
    else if ltb (a - off) (length data_)
    then get_or data_ (a - off) 0
    else pool a

-- The `n` bytes at `off`.
unfoldable pub peek : Pool → ℕ → ℕ → List ℕ
peek pool off zero = []
peek pool off (suc n) = pool off ∷ peek pool (off + 1) n

pub data BlockState : Type 0 where
  empty resident dirty : BlockState

abbrev pub cache_pool_size : ℕ
cache_pool_size = 1024

abbrev pub block_bytes : ℕ
block_bytes = 1024 * 16

abbrev pub no_block : ℕ
no_block = 0xFFFFFFFF

-- The two tables are indexed below `cache_pool_size`.
pub record Manifold : Type 0 where
  pub pool : Pool
  pub cache_state : ℕ → BlockState
  pub vblock_map : ℕ → ℕ
  pub vblock_counter : ℕ

abbrev pub update {ℓ} : {A : Type ℓ} → (ℕ → A) → ℕ → A → ℕ → A
update f i v j = if i == j then v else f j

abbrev pub is_empty : BlockState → Bool
is_empty empty = true
is_empty _ = false

-- Does slot `i` hold the block?
abbrev pub holds : Manifold → ℕ → ℕ → Bool
holds m vblock i = not (is_empty (m.cache_state i)) && m.vblock_map i == vblock

-- The first of `n` indices from `i` on that passes the test: the loop with its early return.
unfoldable pub first : (ℕ → Bool) → ℕ → ℕ → Option ℕ
first test i zero = none
first test i (suc n) = let rest = first test (i + 1) n in if test i then some i else rest

unfoldable pub found : Manifold → ℕ → Option ℕ
found m vblock = first (holds m vblock) 0 cache_pool_size

abbrev pub victim : Manifold → ℕ
victim m = m.vblock_counter % cache_pool_size

-- The slot is the old `vblock_counter_` modulo the pool size; whoever was there is forgotten.
unfoldable pub claim : Manifold → ℕ → Manifold
claim m vblock = record m {
  cache_state = update m.cache_state (victim m) resident;
  vblock_map = update m.vblock_map (victim m) vblock;
  vblock_counter = u32 (m.vblock_counter + 1);
}

unfoldable pub get_physical_block : Manifold → ℕ → Bool → ℕ × Manifold
get_physical_block m vblock create = elim (found m vblock) [
  | some i ↦ (i, m)
  | none ↦ if create then (victim m, claim m vblock) else (no_block, m)
]

-- Where the value of `vaddr` lies in slot `phys`.
abbrev pub place : ℕ → ℕ → ℕ
place phys vaddr = phys * block_bytes + vaddr / 16 % 1024 * 16

unfoldable pub holographic_fetch : Manifold → ℕ → Value128
holographic_fetch m vaddr =
    let phys = (get_physical_block m (vaddr / block_bytes) false).0 in
    if phys == no_block
    then record { hi = 0; lo = 0 }
    else value_of (peek m.pool (place phys vaddr) 16)

-- Nothing bounds the copy: it runs on into the slots behind this one.
unfoldable pub materialize_range : Manifold → ℕ → List ℕ → Manifold
materialize_range m vaddr data_ =
    let (phys, m') = get_physical_block m (vaddr / block_bytes) true in
    record m' { pool = poke m'.pool (place phys vaddr) data_ }

abbrev pub slot_of : ℕ → ℕ
slot_of slot = slot % cache_pool_size

-- The bytes copied to `out`.
unfoldable pub read_slot : Manifold → ℕ → ℕ → List ℕ
read_slot m slot max_len =
    if is_empty (m.cache_state (slot_of slot))
    then []
    else peek m.pool (slot_of slot * block_bytes) (if ltb max_len 16 then max_len else 16)

-- `vblock_map_` keeps what it had for the slot.
unfoldable pub write_slot : Manifold → ℕ → List ℕ → ℕ × Manifold
write_slot m slot data_ =
    let to_write = if ltb (length data_) 16 then length data_ else 16 in
    (
      to_write,
      record m {
        cache_state = update m.cache_state (slot_of slot) resident;
        pool = poke m.pool (slot_of slot * block_bytes) (take to_write data_);
      },
    )

unfoldable pub clear_slot : Manifold → ℕ → Manifold
clear_slot m slot = record m { cache_state = update m.cache_state (slot_of slot) empty }

unfoldable pub is_block_resident : Manifold → ℕ → Bool
is_block_resident m block_idx =
    if leb cache_pool_size block_idx
    then false
    else elim (m.cache_state block_idx) [ resident ↦ true | _ ↦ false ]

-- The constructor: the pool and the map hold what was in memory.
unfoldable pub construct : Pool → (ℕ → ℕ) → Manifold
construct pool map_ = record {
  pool = pool;
  cache_state = λ _. empty;
  vblock_map = map_;
  vblock_counter = 0;
}

-- `get_used_blocks`, `total_l2_blocks` and `get_l2_count` all return the counter.
unfoldable pub get_used_blocks : Manifold → ℕ
get_used_blocks m = m.vblock_counter
