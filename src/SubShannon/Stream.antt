-- ===== src/SubShannon/Stream.antt =====
-- What the correction stream of src/vdev/context_driven_engine.hpp says of the data.
use emergence_os_bare_metal.Base.{
  ℕ, suc, ◌+◌, ◌*◌, ◌^◌, ◌<◌, ◌≤◌, ◌≡◌, refl, ap, ◌∙◌, arith, List, [], ◌∷◌, true, Bool-cases, inl,
  inr, some, get_elem?, length, u32, Bool, false, none, ◌||◌, ltb, ◌==◌, if◌then◌else◌,
}
use emergence_os_bare_metal.Bmt.Keys.{Pair}
use emergence_os_bare_metal.SubShannon.{
  ContextAccumulator, start_context, absorb, Correction, generate_ecc, verify_and_heal, is_found,
  evaporate_from, evaporate_layer, packed, phase_fold, layer_seed,
}

-- Each correction has the byte of the data that its delta leads to, counted from behind the one before.
abbrev pub AreAt : List ℕ → ℕ → List Correction → Type 0
AreAt data_ at_ [] = Unit {0}
AreAt data_ at_ (c ∷ cs) =
    (get_elem? data_ (at_ + c.delta) ≡ some c.value)
    × ((verify_and_heal c).0 ≡ true)
    × AreAt data_ (at_ + c.delta + 1) cs

ecc_ok : (c : Correction) → (verify_and_heal (generate_ecc c)).0 ≡ true
unfolding verify_and_heal generate_ecc
ecc_ok c = ground arith

-- `data_` is what was read before `bytes`, up to `i`; the corrections so far end `since` before it.
evaporate_from-AreAt :
    (seed : Pair) (ctx : ContextAccumulator) (i since at_ : ℕ) (data_ bytes : List ℕ)
    → ((k : ℕ) → get_elem? data_ (i + k) ≡ get_elem? bytes k)
    → at_ + since ≡ i
    → i + length bytes < 2 ^ 32
    → AreAt data_ at_ (evaporate_from seed ctx i since bytes)
      × (length (evaporate_from seed ctx i since bytes) ≤ length bytes)
unfolding evaporate_from generate_ecc
evaporate_from-AreAt seed ctx i since at_ data_ [] same e h = (tt, omega arith)
evaporate_from-AreAt seed ctx i since at_ data_ (b ∷ bs) same e h =
    elim (Bool-cases (is_found seed ctx i b)) [
      | inl hit ↦
          let counted : u32 (since + 1) ≡ since + 1 = omega arith in
          let rest =
            evaporate_from-AreAt seed (absorb ctx b) (i + 1) (since + 1) at_ data_ bs shifted
              (omega arith) (omega arith) in
          rw (hit, counted) (rest.0, omega (arith, rest.1))
      | inr miss ↦
          let rest =
            evaporate_from-AreAt seed (absorb ctx b) (i + 1) 0 (at_ + since + 1) data_ bs shifted
              (omega arith) (omega arith) in
          rw miss (
            (
              ap (get_elem? data_) (omega arith) ∙ same 0,
              ecc_ok (record { delta = since; value = b; ecc_parity = 0 }),
              rest.0,
            ),
            omega (arith, rest.1),
          )
    ]
  where
    shifted : (k : ℕ) → get_elem? data_ (i + 1 + k) ≡ get_elem? bs k
    shifted k = ap (get_elem? data_) (omega arith) ∙ same (suc k)

-- Of a buffer of at most 917490 bytes a layer keeps no more corrections than bytes; each is intact,
-- and has the byte that is in the buffer where its delta leads, counted from behind the one before.
pub evaporate_layer-AreAt :
    (seed : Pair) (data_ : List ℕ)
    → length data_ ≤ 917490
    → AreAt data_ 0 (evaporate_layer seed data_)
      × (length (evaporate_layer seed data_) ≤ length data_)
unfolding evaporate_layer
evaporate_layer-AreAt seed data_ h =
    evaporate_from-AreAt seed start_context 0 0 0 data_ data_
      (λ k. ap (get_elem? data_) (omega arith)) refl (omega arith)

length-packed : (cs : List Correction) → length (packed cs) ≡ 6 * length cs
unfolding packed
length-packed [] = omega arith
length-packed (c ∷ cs) = omega (arith, length-packed cs)

-- The three layers of `phase_fold`.
abbrev pub layer1 : Pair → List ℕ → List Correction
layer1 seed data_ = evaporate_layer (layer_seed seed 0x1111111111111111) data_

abbrev pub layer2 : Pair → List ℕ → List Correction
layer2 seed data_ =
    evaporate_layer (layer_seed seed 0x2222222222222222) (packed (layer1 seed data_))

abbrev pub layer3 : Pair → List ℕ → List Correction
layer3 seed data_ =
    evaporate_layer (layer_seed seed 0x3333333333333333) (packed (layer2 seed data_))

fold_of :
    (n1 n2 n3 room size : ℕ) (bytes : List ℕ)
    → n1 ≤ 7
    → n2 ≤ 42
    → n3 ≤ 252
    → size ≤ room
    → ((if ltb 4096 n1
          then none
          else if n1 == 0
          then some []
          else if ltb 1024 n2
          then none
          else if n2 == 0
          then some []
          else if ltb 256 n3 || ltb room size
          then none
          else some bytes)
        ≡ some (if n1 == 0 || n2 == 0 then [] else bytes))
fold_of n1 n2 n3 room size bytes a b c d =
    let one : ltb 4096 n1 ≡ false = ground arith in
    let two : ltb 1024 n2 ≡ false = ground arith in
    let three : (ltb 256 n3 || ltb room size) ≡ false = ground arith in
    rw (one, two, three) (either (n1 == 0) (n2 == 0))
  where
    either :
        (p q : Bool)
        → (if p then some [] else if q then some [] else some bytes)
          ≡ some (if p || q then [] else bytes)
    either true q = refl
    either false true = refl
    either false false = refl

-- For a buffer of at most 7 bytes no array of `phase_fold` is written past its end if `final_residue` has
-- room for 1512 bytes.
pub phase_fold_fits :
    (seed : Pair) (room : ℕ) (data_ : List ℕ)
    → length data_ ≤ 7
    → 1512 ≤ room
    → phase_fold seed room data_
      ≡ some (
          if length (layer1 seed data_) == 0 || length (layer2 seed data_) == 0
          then []
          else packed (layer3 seed data_))
unfolding phase_fold
phase_fold_fits seed room data_ h r =
    fold_of (length (layer1 seed data_)) (length (layer2 seed data_)) (length (layer3 seed data_))
      room (length (packed (layer3 seed data_))) (packed (layer3 seed data_)) one two three
      (omega (arith, three, length-packed (layer3 seed data_), r))
  where
    one : length (layer1 seed data_) ≤ 7
    one =
        omega (
          arith,
          (evaporate_layer-AreAt (layer_seed seed 0x1111111111111111) data_ (omega arith)).1,
        )

    two : length (layer2 seed data_) ≤ 42
    two = omega (
      arith,
      one,
      length-packed (layer1 seed data_),
      (evaporate_layer-AreAt (layer_seed seed 0x2222222222222222) (packed (layer1 seed data_))
          (omega (arith, one, length-packed (layer1 seed data_)))).1,
    )

    three : length (layer3 seed data_) ≤ 252
    three = omega (
      arith,
      two,
      length-packed (layer2 seed data_),
      (evaporate_layer-AreAt (layer_seed seed 0x3333333333333333) (packed (layer2 seed data_))
          (omega (arith, two, length-packed (layer2 seed data_)))).1,
    )
