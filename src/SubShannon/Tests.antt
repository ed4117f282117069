-- ===== src/SubShannon/Tests.antt =====
-- Runs of src/vdev/context_driven_engine.hpp.
use emergence_os_bare_metal.Base.{ℕ, ◌≡◌, ◌≢◌, ◌≤◌, arith, List, [], ◌∷◌, ◌==◌, length}
use emergence_os_bare_metal.Bmt.Keys.{Pair}
use emergence_os_bare_metal.SubShannon.{Correction, generate_ecc, verify_and_heal, evaporate_layer}
use emergence_os_bare_metal.SubShannon.Healing.{verify_and_heal-generate_ecc}
use emergence_os_bare_metal.SubShannon.Stream.{AreAt, evaporate_layer-AreAt}

abbrev a_seed : Pair
a_seed = record { a = 5; b = 7 }

abbrev some_bytes : List ℕ
some_bytes = 1 ∷ 2 ∷ 3 ∷ []

abbrev a_correction : Correction
a_correction = record { delta = 300; value = 9; ecc_parity = 0 }

verify_and_heal-generate_ecc_example :
    verify_and_heal (record (generate_ecc a_correction) { value = 8 })
    ≡ (8 == 9, generate_ecc a_correction)
verify_and_heal-generate_ecc_example =
    verify_and_heal-generate_ecc a_correction 8 (omega arith) (omega arith)

other_parity : 3 ≢ (generate_ecc a_correction).ecc_parity
unfolding generate_ecc
other_parity e = absurd (omega arith)

evaporate_layer-AreAt_example :
    AreAt some_bytes 0 (evaporate_layer a_seed some_bytes)
    × (length (evaporate_layer a_seed some_bytes) ≤ length some_bytes)
evaporate_layer-AreAt_example = evaporate_layer-AreAt a_seed some_bytes (omega arith)
