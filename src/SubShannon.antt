-- ===== src/SubShannon.antt =====
-- src/vdev/context_driven_engine.hpp: `SubShannonEngine`, which keeps of a buffer the bytes that its
-- search does not find, and folds the rest three times.
pub mod Healing
pub mod Stream
mod Tests
use emergence_os_bare_metal.Base.{
  ℕ, zero, suc, ◌+◌, ◌-◌, ◌*◌, ◌/◌, ◌%◌, List, [], ◌∷◌, ◌++◌, Bool, true, false, ◌&&◌, ◌||◌, Option,
  none, some, ltb, ◌==◌, if◌then◌else◌, length, bit_and, bit_or, bit_xor, u8, u16, u32, u64, ◌<<<◌,
  ◌>>>◌, rotl64, le_bytes,
}
use emergence_os_bare_metal.Bmt.Keys.{Pair, mix, phi_hi, phi_lo}

pub record ContextAccumulator : Type 0 where
  pub hi : ℕ
  pub lo : ℕ

abbrev pub start_context : ContextAccumulator
start_context = record { hi = 0; lo = 0 }

unfoldable pub absorb : ContextAccumulator → ℕ → ContextAccumulator
absorb ctx byte =
    let hi' = rotl64 (bit_xor ctx.hi (u64 (byte * phi_hi))) 7 in
    let lo' = rotl64 (bit_xor ctx.lo (u64 (byte * phi_lo))) 11 in
    let hi'' = bit_xor hi' (lo' >>> 32) in record { hi = hi''; lo = bit_xor lo' (hi'' >>> 32) }

abbrev pub basis : ContextAccumulator → ℕ → ℕ
basis ctx n = u8 (ctx.hi % n)

abbrev pub slot : ContextAccumulator → ℕ → ℕ
slot ctx n = u16 (ctx.lo % n)

abbrev pub candidates : ℕ
candidates = 2048

-- The last steps of both checksums.
abbrev pub finish : ℕ → ℕ → ℕ
finish mixed factor =
    let once = u64 (bit_xor mixed (mixed >>> 33) * factor) in
    bit_and (bit_xor once (once >>> 33)) 0xFF

unfoldable pub position_crc : Pair → ContextAccumulator → ℕ → ℕ
position_crc seed ctx position =
    finish
      (bit_xor (bit_xor (bit_xor (bit_xor ctx.hi ctx.lo) (u64 (position * phi_hi))) seed.a) seed.b)
      0xFF51AFD7ED558CCD

unfoldable pub candidate_crc : Pair → ℕ → ℕ → ℕ → ℕ → ℕ → ContextAccumulator → ℕ
candidate_crc seed slot_ basis_ entry byte_pos position ctx =
    let seeded = bit_xor seed.a seed.b in
    let slotted = bit_xor seeded (u64 (slot_ * phi_hi)) in
    let based = bit_xor slotted (u64 (basis_ * phi_lo)) in
    let entered = bit_xor (bit_xor based (u64 (entry <<< 16))) byte_pos in
    let placed = bit_xor entered (u64 (position * 0x94D049BB133111EB)) in
    finish (bit_xor (bit_xor placed ctx.hi) (u64 (ctx.lo <<< 3))) 0xC4CEB9FE1A85EC53

noise_rounds : ℕ → Pair → Pair
noise_rounds zero p = p
noise_rounds (suc n) p = noise_rounds n (mix 13 17 p)

-- The 16-bit counter passes `entry` only below 65535, which holds for up to 917490 bytes.
pub noise_at : Pair → ℕ → ℕ → ℕ → ℕ → ℕ
noise_at seed slot_ basis_ entry byte_pos =
    let p = noise_rounds (entry + 1) (record {
      a = bit_xor (bit_xor seed.a (u64 (slot_ * phi_lo))) (u64 (basis_ * 0xBF58476D1CE4E5B9));
      b = bit_xor (bit_xor seed.b (u64 (slot_ * phi_hi))) (u64 (basis_ * 0x94D049BB133111EB));
    }) in
    if ltb byte_pos 8 then u8 (p.b >>> (byte_pos * 8)) else u8 (p.a >>> ((byte_pos - 8) * 8))

pub record Correction : Type 0 where
  pub delta : ℕ
  pub value : ℕ
  pub ecc_parity : ℕ

-- `x ^ (delta & 0xFF) ^ ((delta >> 8) & 0xFF)`.
abbrev pub with_delta : ℕ → ℕ → ℕ
with_delta delta x = u8 (bit_xor (bit_xor x (bit_and delta 0xFF)) (bit_and (delta >>> 8) 0xFF))

unfoldable pub generate_ecc : Correction → Correction
generate_ecc c = record c { ecc_parity = with_delta c.delta c.value }

unfoldable pub verify_and_heal : Correction → Bool × Correction
verify_and_heal c =
    if with_delta c.delta c.value == c.ecc_parity
    then (true, c)
    else (false, record c { value = with_delta c.delta c.ecc_parity })

-- The search for the byte at position `i`, from candidate `k` on with `n` left.
search : Pair → ContextAccumulator → ℕ → ℕ → ℕ → ContextAccumulator → ℕ → Bool
search seed ctx i byte zero probe k = false
search seed ctx i byte (suc n) probe k =
    let entry = u16 (i / 14) in
    let basis_ = basis probe 64 in
    let slot_ = slot probe 1024 in
    let rest = search seed ctx i byte n (absorb probe (bit_and k 0xFF)) (k + 1) in
    if noise_at seed slot_ basis_ entry (i % 14) == byte
      && candidate_crc seed slot_ basis_ entry (i % 14) i ctx == position_crc seed ctx i
    then true
    else rest

pub is_found : Pair → ContextAccumulator → ℕ → ℕ → Bool
is_found seed ctx i byte = search seed ctx i byte candidates ctx 0

-- The loop from position `i` on.
unfoldable pub evaporate_from : Pair → ContextAccumulator → ℕ → ℕ → List ℕ → List Correction
evaporate_from seed ctx i since_last [] = []
evaporate_from seed ctx i since_last (byte ∷ bytes) =
    let hit = evaporate_from seed (absorb ctx byte) (i + 1) (u32 (since_last + 1)) bytes in
    let miss = evaporate_from seed (absorb ctx byte) (i + 1) 0 bytes in
    if is_found seed ctx i byte
    then hit
    else generate_ecc (record { delta = since_last; value = byte; ecc_parity = 0 }) ∷ miss

unfoldable pub evaporate_layer : Pair → List ℕ → List Correction
evaporate_layer seed data_ = evaporate_from seed start_context 0 0 data_

-- The packed structures in memory, six bytes each.
unfoldable pub packed : List Correction → List ℕ
packed [] = []
packed (c ∷ cs) = le_bytes 4 c.delta ++ (c.value ∷ c.ecc_parity ∷ packed cs)

abbrev pub layer_seed : Pair → ℕ → Pair
layer_seed seed tag = record { a = bit_xor seed.a tag; b = seed.b }

-- The bytes stored in `final_residue`, which has `room` of them; `none` where one of the three static
-- arrays, with 4096, 1024 and 256 places, or `final_residue` is written past its end.
unfoldable pub phase_fold : Pair → ℕ → List ℕ → Option (List ℕ)
phase_fold seed room data_ =
    let layer1 = evaporate_layer (layer_seed seed 0x1111111111111111) data_ in
    let layer2 = evaporate_layer (layer_seed seed 0x2222222222222222) (packed layer1) in
    let layer3 = evaporate_layer (layer_seed seed 0x3333333333333333) (packed layer2) in
    if ltb 4096 (length layer1)
    then none
    else if length layer1 == 0
    then some []
    else if ltb 1024 (length layer2)
    then none
    else if length layer2 == 0
    then some []
    else if ltb 256 (length layer3) || ltb room (length (packed layer3))
    then none
    else some (packed layer3)
