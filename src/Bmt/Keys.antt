-- ===== src/Bmt/Keys.antt =====
-- Key material of src/vdev/bmt_topology.hpp: `KeyDerivation::derive`, `LensGenerator::generate`, and
-- the two mixing steps that these and the blocks share in shape.
pub mod Bounds
use emergence_os_bare_metal.Base.{
  ℕ, zero, suc, ◌+◌, ◌*◌, ◌%◌, ◌^◌, bit_xor, List, [], ◌∷◌, u8, u64, ◌<<<◌, rotl64, get_or, set,
}
use emergence_os_bare_metal.Bmt.Topology.{Seed, LensKey, lens_count}

abbrev pub phi_hi : ℕ
phi_hi = 0x9E3779B97F4A7C15

abbrev pub phi_lo : ℕ
phi_lo = 0x517CC1B727220A95

abbrev pub kdf_rounds : ℕ
kdf_rounds = 250000

abbrev pub kdf_mem_blocks : ℕ
kdf_mem_blocks = 1024

abbrev pub kdf_mem_passes : ℕ
kdf_mem_passes = 4

-- `Cell` of `derive`, and every other pair of running words.
pub record Pair : Type 0 where
  pub a : ℕ
  pub b : ℕ

-- `a = rotl(a, r) ^ (b * PHI_HI); b = rotl(b, s) ^ (a * PHI_LO);`, with the new `a` in the second.
unfoldable pub mix : ℕ → ℕ → Pair → Pair
mix r s p =
    let a' = bit_xor (rotl64 p.a r) (u64 (p.b * phi_hi)) in
    let b' = bit_xor (rotl64 p.b s) (u64 (a' * phi_lo)) in record { a = a'; b = b' }

-- One character of the password or of the hardware key; `char` is cast to `uint8_t`.
absorb : List ℕ → Pair → Pair
absorb [] p = p
absorb (c ∷ cs) p = absorb cs (record {
  a = u64 (bit_xor p.a (u8 c) * 0x00000100000001B3);
  b = u64 (bit_xor p.b (u8 c) * 0x01000193);
})

-- `mem[i]` is made from the old `a` and `b` of `mem[i-1]`, so both words use the cell before.
next_cell : Pair → Pair
next_cell p = record {
  a = bit_xor (rotl64 p.a 13) (u64 (p.b * phi_hi));
  b = bit_xor (rotl64 p.b 17) (u64 (p.a * phi_lo));
}

fill : ℕ → Pair → List Pair
fill zero p = []
fill (suc n) p = p ∷ fill n (next_cell p)

pub record Walk : Type 0 where
  pub mem : List Pair
  pub s : Pair

abbrev pub zero_cell : Pair
zero_cell = record { a = 0; b = 0 }

-- One round of the random walk.
walk_step : Walk → Walk
walk_step w =
    let idx = w.s.a % kdf_mem_blocks in
    let cell = get_or w.mem idx zero_cell in
    let s' = mix 31 29 (record { a = bit_xor w.s.a cell.a; b = bit_xor w.s.b cell.b }) in
    record {
      mem = set w.mem idx (record { a = bit_xor cell.a s'.a; b = bit_xor cell.b s'.b });
      s = s';
    }

walk : ℕ → Walk → Walk
walk zero w = w
walk (suc n) w = walk n (walk_step w)

mix_rounds : ℕ → ℕ → ℕ → Pair → Pair
mix_rounds r s zero p = p
mix_rounds r s (suc n) p = mix_rounds r s n (mix r s p)

-- `KeyDerivation::derive`; the texts are their characters up to the terminator. The passes of 1024
-- rounds each follow one another, so they are one walk.
pub derive : List ℕ → List ℕ → Seed
derive password hwkey =
    let start =
      absorb hwkey (absorb password (record { a = 0xCBF29CE484222325; b = 0x00000100000001B3 })) in
    let walked =
      walk (kdf_mem_passes * kdf_mem_blocks)
        (record { mem = fill kdf_mem_blocks start; s = start }) in
    let out = mix_rounds 31 29 kdf_rounds walked.s in record { hi = out.a; lo = out.b }

-- The 64 rounds of one lens; `i` is added to the first word after each.
lens_rounds : ℕ → ℕ → Pair → Pair
lens_rounds i zero p = p
lens_rounds i (suc n) p =
    let q = mix 7 11 p in lens_rounds i n (record { a = u64 (q.a + i); b = q.b })

pub lens_key : Seed → ℕ → LensKey
lens_key master i =
    let p =
      lens_rounds i 64
        (record { a = bit_xor master.hi i; b = bit_xor master.lo (u64 (i <<< 32)) }) in
    record { hi = p.a; lo = p.b }

-- `n` lenses from `i` on.
generate_from : Seed → ℕ → ℕ → List LensKey
generate_from master i zero = []
generate_from master i (suc n) = lens_key master i ∷ generate_from master (i + 1) n

pub generate : Seed → List LensKey
generate master = generate_from master 0 lens_count
