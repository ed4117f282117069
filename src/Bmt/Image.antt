-- ===== src/Bmt/Image.antt =====
-- `initialize`, `save_image` and `load_image` of src/vdev/bmt_topology.hpp. A file is the list of its
-- bytes; `none` is an `fopen` that fails, and a short `fread` reads nothing.
pub mod Obfuscate
pub mod RoundTrip
pub mod Initialize
use emergence_os_bare_metal.Base.{
  ℕ, zero, suc, ◌+◌, ◌-◌, ◌*◌, ◌%◌, ◌^◌, bit_xor, List, [], ◌∷◌, ◌++◌, Bool, true, false, not,
  Option, none, some, ltb, ◌==◌, if◌then◌else◌, u8, u64, ◌>>>◌, length, take, drop, replicate, set,
  map, le_bytes, le_value,
}
use emergence_os_bare_metal.Bmt.Value.{Value128, pack_route, free_route}
use emergence_os_bare_metal.Bmt.Block.{
  Block, serialize, deserialize, fresh_block, block_size_bytes, entries_per_block,
}
use emergence_os_bare_metal.Bmt.Topology.{Seed, LensKey, Topology, lens_count}
use emergence_os_bare_metal.Bmt.Keys.{Pair, mix, phi_hi, phi_lo, generate}

-- `data[i + j] ^= (uint8_t)(sl >> (j * 8))` from `j` on.
mask_word : ℕ → ℕ → List ℕ → List ℕ
mask_word j sl [] = []
mask_word j sl (b ∷ bs) = bit_xor b (u8 (sl >>> (j * 8))) ∷ mask_word (j + 1) sl bs

-- Eight bytes to a round. `rounds` is at least the number of rounds that the data takes.
mask_loop : ℕ → Pair → List ℕ → List ℕ
mask_loop zero p data_ = data_
mask_loop (suc rounds) p [] = []
mask_loop (suc rounds) p (b ∷ bs) =
    let q = mix 13 17 p in mask_word 0 q.b (take 8 (b ∷ bs)) ++ mask_loop rounds q (drop 8 (b ∷ bs))

pub obfuscate : List ℕ → Seed → ℕ → List ℕ
obfuscate data_ s bi =
    mask_loop (length data_)
      (record { a = bit_xor s.hi (u64 (bi * phi_hi)); b = bit_xor s.lo (u64 (bi * phi_lo)) }) data_

-- The values of a fresh block, each mixed from the one before.
expand_entries : ℕ → Pair → Block
expand_entries zero p = []
expand_entries (suc n) p =
    let q = mix 13 17 p in
    pack_route (record { hi = q.a; lo = q.b }) free_route ∷ expand_entries n q

pub expand_block : LensKey → Block
expand_block k = expand_entries entries_per_block (record { a = k.hi; b = k.lo })

-- `level1_` has its `LENS_COUNT` pointers from the constructor on, and each gets a block.
pub initialize : Topology → Seed → Topology
initialize t s =
    let keys = generate s in
    record {
      seed = s;
      lens_keys = keys;
      root = fresh_block;
      level1 = map (λ k. some (expand_block k)) keys;
      dirty = true;
    }

unfoldable pub image_tag : Seed → ℕ
image_tag s = bit_xor (bit_xor s.hi s.lo) 0xA5A5A5A5A5A5A5A5

-- What `buf` holds for a lens before it is obfuscated: zeros where there is no block.
pub lens_bytes : Option Block → List ℕ
lens_bytes none = replicate block_size_bytes 0
lens_bytes (some b) = serialize b

-- The lenses from `i` on.
image_lenses : Seed → ℕ → List (Option Block) → List ℕ
image_lenses s i [] = []
image_lenses s i (o ∷ os) = obfuscate (lens_bytes o) s (i + 1) ++ image_lenses s (i + 1) os

-- The bytes written to the file, in order.
pub image_bytes : Topology → List ℕ
image_bytes t =
    le_bytes 8 (image_tag t.seed)
    ++ (le_bytes 8 4 ++ (obfuscate (serialize t.root) t.seed 0 ++ image_lenses t.seed 0 t.level1))

-- Whether the file could be opened goes in; the result and the file come out.
pub save_image : Topology → Bool → Bool × Option (List ℕ)
save_image t opened = if opened then (true, some (image_bytes t)) else (false, none)

fread : ℕ → List ℕ → Option (List ℕ × List ℕ)
fread n file = if ltb (length file) n then none else some (take n file, drop n file)

-- `n` lenses from `i` on; a short read leaves the later ones as they were.
load_lenses : Seed → ℕ → ℕ → List ℕ → List (Option Block) → Bool × List (Option Block)
load_lenses s i zero file level1 = (true, level1)
load_lenses s i (suc n) file level1 = elim (fread block_size_bytes file) [
  | none ↦ (false, level1)
  | some (buf, rest) ↦
      load_lenses s (i + 1) n rest (set level1 i (some (deserialize (obfuscate buf s (i + 1)))))
]

resize : List (Option Block) → List (Option Block)
resize os = take lens_count os ++ replicate (lens_count - length os) none

-- After the tag and the version: the root and the lenses.
load_body : Topology → List ℕ → Bool × Topology
load_body t file = elim (fread block_size_bytes file) [
  | none ↦ (false, t)
  | some (buf, rest) ↦
      let (ok, level1) = load_lenses t.seed 0 lens_count rest (resize t.level1) in
      let loaded : Topology = record t {
        root = deserialize (obfuscate buf t.seed 0);
        level1 = level1;
      } in
      if ok then (true, record loaded { dirty = false }) else (false, loaded)
]

-- Once the file is open the seed and the lens keys are replaced, whatever comes after.
pub load_image : Topology → Option (List ℕ) → Seed → Bool × Topology
load_image t none s = (false, t)
load_image t (some file) s =
    let t' : Topology = record t { seed = s; lens_keys = generate s } in
    elim (fread 8 file) [
      | none ↦ (false, t')
      | some (tag, rest) ↦ elim (fread 8 rest) [
        | none ↦ (false, t')
        | some (ver, body) ↦ if le_value tag == image_tag s then load_body t' body else (false, t')
      ]
    ]
