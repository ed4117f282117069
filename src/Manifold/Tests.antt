-- ===== src/Manifold/Tests.antt =====
-- Runs of src/vdev/topology.hpp on a manifold with blocks 0 and 1 in its first two slots.
use emergence_os_bare_metal.Base.{
  ℕ, ◌≡◌, inr, refl, arith, List, replicate, ltb, if◌then◌else◌, ◌++◌,
}
use emergence_os_bare_metal.Manifold.{
  Manifold, empty, resident, value_of, found, first, holographic_fetch, materialize_range,
  construct, clear_slot,
}
use emergence_os_bare_metal.Manifold.Fetch.{fetch-materialize_self, fetch-materialize_other}
use emergence_os_bare_metal.Manifold.Slots.{
  AreDistinct, construct-AreDistinct, materialize-AreDistinct, clear_slot-AreDistinct,
}

abbrev two_slots : Manifold
two_slots = record {
  pool = λ a. 0;
  cache_state = λ i. if ltb i 2 then resident else empty;
  vblock_map = λ i. i;
  vblock_counter = 2;
}

abbrev one_value : List ℕ
one_value = replicate 16 3

abbrev two_values : List ℕ
two_values = one_value ++ replicate 16 4

abbrev blank : Manifold
blank = construct (λ a. 0) (λ i. 0)

fetch-materialize_self_example :
    holographic_fetch (materialize_range two_slots 32 two_values) 48 ≡ value_of (replicate 16 4)
fetch-materialize_self_example =
    fetch-materialize_self two_slots 32 1 two_values (omega arith) (omega arith)

fetch-materialize_other_example :
    holographic_fetch (materialize_range two_slots 32 one_value) 16384
    ≡ holographic_fetch two_slots 16384
unfolding found first
fetch-materialize_other_example =
    fetch-materialize_other two_slots 32 16384 1 one_value (omega arith) refl (omega arith)
      (inr (0, refl))

materialize-AreDistinct_example : AreDistinct (materialize_range blank 32 one_value)
materialize-AreDistinct_example =
    materialize-AreDistinct blank 32 one_value (construct-AreDistinct (λ a. 0) (λ i. 0))

clear_slot-AreDistinct_example : AreDistinct (clear_slot blank 1030)
clear_slot-AreDistinct_example =
    clear_slot-AreDistinct blank 1030 (construct-AreDistinct (λ a. 0) (λ i. 0))

-- Slot 0 had block 1 before it was cleared; block 1 is in slot 1 now.
abbrev moved : Manifold
moved = record two_slots {
  cache_state = λ i. if ltb i 1 then empty else if ltb i 2 then resident else empty;
  vblock_map = λ i. 1;
}
