-- ===== src/Bmt/Keys/Bounds.antt =====
-- The keys of src/vdev/bmt_topology.hpp are 64-bit words.
use native.Mathlib.Nat.{div-le_self}
use emergence_os_bare_metal.Base.{
  ℕ, zero, suc, ◌+◌, ◌-◌, ◌*◌, ◌/◌, ◌%◌, ◌^◌, ◌≤◌, ◌<◌, ◌≡◌, refl, ap, arith, bit_xor, xor-lt,
  or-lt, rotl64, u64, List, [], ◌∷◌, length, length-set, get_or, set, ◌∙◌, ◌<<<◌,
}
use emergence_os_bare_metal.Bmt.Topology.{Seed, LensKey}
use emergence_os_bare_metal.Bmt.Keys.{
  Pair, zero_cell, walk_step, next_cell, mix, kdf_rounds, kdf_mem_blocks, kdf_mem_passes,
  mix_rounds, derive, lens_key, lens_rounds, generate, generate_from, absorb, walk, Walk, fill,
}

abbrev pub IsPair : Pair → Type 0
IsPair p = (p.a < 2 ^ 64) × (p.b < 2 ^ 64)

rotl64-lt : (x k : ℕ) → x < 2 ^ 64 → rotl64 x k < 2 ^ 64
rotl64-lt x k h =
    or-lt 64 (u64 (x * 2 ^ k)) (x / 2 ^ (64 - k)) (omega arith)
      (omega (arith, div-le_self x (2 ^ (64 - k))))

pub mix-IsPair : (r s : ℕ) (p : Pair) → IsPair p → IsPair (mix r s p)
unfolding mix
mix-IsPair r s p h = (
  xor-lt 64 (rotl64 p.a r) _ (rotl64-lt p.a r h.0) (omega arith),
  xor-lt 64 (rotl64 p.b s) _ (rotl64-lt p.b s h.1) (omega arith),
)

mix_rounds-IsPair : (r s n : ℕ) (p : Pair) → IsPair p → IsPair (mix_rounds r s n p)
unfolding mix_rounds
mix_rounds-IsPair r s zero p h = h
mix_rounds-IsPair r s (suc n) p h = mix_rounds-IsPair r s n (mix r s p) (mix-IsPair r s p h)

absorb-IsPair : (cs : List ℕ) (p : Pair) → IsPair p → IsPair (absorb cs p)
unfolding absorb
absorb-IsPair [] p h = h
absorb-IsPair (c ∷ cs) p h = absorb-IsPair cs _ (omega arith, omega arith)

next_cell-IsPair : (p : Pair) → IsPair p → IsPair (next_cell p)
unfolding next_cell
next_cell-IsPair p h = (
  xor-lt 64 (rotl64 p.a 13) _ (rotl64-lt p.a 13 h.0) (omega arith),
  xor-lt 64 (rotl64 p.b 17) _ (rotl64-lt p.b 17 h.1) (omega arith),
)

abbrev ArePairs : List Pair → Type 0
ArePairs [] = Unit {0}
ArePairs (p ∷ ps) = IsPair p × ArePairs ps

fill-ArePairs : (n : ℕ) (p : Pair) → IsPair p → ArePairs (fill n p)
unfolding fill
fill-ArePairs zero p h = tt
fill-ArePairs (suc n) p h = (h, fill-ArePairs n (next_cell p) (next_cell-IsPair p h))

length-fill : (n : ℕ) (p : Pair) → length (fill n p) ≡ n
unfolding fill
length-fill zero p = refl
length-fill (suc n) p = ap suc (length-fill n (next_cell p))

IsPair-get_or : (ps : List Pair) (i : ℕ) → ArePairs ps → IsPair (get_or ps i zero_cell)
IsPair-get_or [] i h = (omega arith, omega arith)
IsPair-get_or (p ∷ ps) zero h = h.0
IsPair-get_or (p ∷ ps) (suc i) h = IsPair-get_or ps i h.1

ArePairs-set : (ps : List Pair) (i : ℕ) (p : Pair) → ArePairs ps → IsPair p → ArePairs (set ps i p)
ArePairs-set [] i p hs h = tt
ArePairs-set (q ∷ ps) zero p hs h = (h, hs.1)
ArePairs-set (q ∷ ps) (suc i) p hs h = (hs.0, ArePairs-set ps i p hs.1 h)

-- The memory of the walk keeps its 1024 cells, so that its index, a remainder by 1024, is in range.
record IsWalk (w : Walk) : Type 0 where
  cells : length w.mem ≡ 1024
  words : ArePairs w.mem
  state : IsPair w.s

xor_pair :
    (p q : Pair)
    → IsPair p
    → IsPair q
    → IsPair (record { a = bit_xor p.a q.a; b = bit_xor p.b q.b })
xor_pair p q h k = (xor-lt 64 p.a q.a h.0 k.0, xor-lt 64 p.b q.b h.1 k.1)

walk_step-IsWalk : (w : Walk) → IsWalk w → IsWalk (walk_step w)
unfolding walk_step
walk_step-IsWalk w h = record {
  cells = length-set w.mem _ _ ∙ h.cells;
  words = ArePairs-set w.mem (w.s.a % 1024) _ h.words (xor_pair cell s' cell_ok s'_ok);
  state = s'_ok;
}
  where
    cell : Pair
    cell = get_or w.mem (w.s.a % 1024) zero_cell

    cell_ok : IsPair cell
    cell_ok = IsPair-get_or w.mem (w.s.a % 1024) h.words

    s' : Pair
    s' = mix 31 29 (record { a = bit_xor w.s.a cell.a; b = bit_xor w.s.b cell.b })

    s'_ok : IsPair s'
    s'_ok = mix-IsPair 31 29 _ (xor_pair w.s cell h.state cell_ok)

walk-IsWalk : (n : ℕ) (w : Walk) → IsWalk w → IsWalk (walk n w)
unfolding walk
walk-IsWalk zero w h = h
walk-IsWalk (suc n) w h = walk-IsWalk n (walk_step w) (walk_step-IsWalk w h)

abbrev pub IsSeed : Seed → Type 0
IsSeed s = (s.hi < 2 ^ 64) × (s.lo < 2 ^ 64)

-- Whatever the password and the hardware key, `derive` gives a seed of two 64-bit words.
pub derive-IsSeed : (password hwkey : List ℕ) → IsSeed (derive password hwkey)
unfolding derive
derive-IsSeed password hwkey =
    mix_rounds-IsPair 31 29 kdf_rounds _
      (walk-IsWalk (kdf_mem_passes * kdf_mem_blocks) _ (record {
        cells = length-fill kdf_mem_blocks start;
        words = fill-ArePairs kdf_mem_blocks start start_ok;
        state = start_ok;
      })).state
  where
    start : Pair
    start =
        absorb hwkey (absorb password (record { a = 0xCBF29CE484222325; b = 0x00000100000001B3 }))

    start_ok : IsPair start
    start_ok = absorb-IsPair hwkey _ (absorb-IsPair password _ (omega arith, omega arith))

lens_rounds-IsPair : (i n : ℕ) (p : Pair) → IsPair p → IsPair (lens_rounds i n p)
unfolding lens_rounds
lens_rounds-IsPair i zero p h = h
lens_rounds-IsPair i (suc n) p h = lens_rounds-IsPair i n _ (omega arith, (mix-IsPair 7 11 p h).1)

abbrev pub AreKeys : List LensKey → Type 0
AreKeys [] = Unit {0}
AreKeys (k ∷ ks) = (k.hi < 2 ^ 64) × (k.lo < 2 ^ 64) × AreKeys ks

generate_from-AreKeys :
    (master : Seed) (i n : ℕ) → IsSeed master → i + n ≤ 1024 → AreKeys (generate_from master i n)
unfolding generate_from lens_key
generate_from-AreKeys master i zero h le = tt
generate_from-AreKeys master i (suc n) h le =
    let ok =
      lens_rounds-IsPair i 64
        (record { a = bit_xor master.hi i; b = bit_xor master.lo (u64 (i <<< 32)) })
        (
          xor-lt 64 master.hi i h.0 (omega arith),
          xor-lt 64 master.lo (u64 (i <<< 32)) h.1 (omega arith),
        ) in
    (ok.0, ok.1, generate_from-AreKeys master (i + 1) n h (omega arith))

length-generate_from : (master : Seed) (i n : ℕ) → length (generate_from master i n) ≡ n
unfolding generate_from
length-generate_from master i zero = refl
length-generate_from master i (suc n) = ap suc (length-generate_from master (i + 1) n)

-- A seed of two words gives 1024 lens keys of two words each.
pub generate_lem :
    (master : Seed) → IsSeed master → (length (generate master) ≡ 1024) × AreKeys (generate master)
unfolding generate
generate_lem master h =
    (length-generate_from master 0 1024, generate_from-AreKeys master 0 1024 h (omega arith))
