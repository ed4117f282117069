-- ===== src/Predictive/Tests.antt =====
-- Runs of src/core/predictive_topology.hpp over an empty manifold.
use emergence_os_bare_metal.Base.{◌+◌, ◌%◌, ◌≡◌, arith, if◌then◌else◌}
use emergence_os_bare_metal.Manifold.{construct}
use emergence_os_bare_metal.Predictive.{PredictiveEngine, verify_consensus}
use emergence_os_bare_metal.Predictive.Ring.{IsRing, queue, all_hold, holding, verify_consensus_lem}

abbrev some_engine : PredictiveEngine
some_engine = record {
  substrate = construct (λ a. 0) (λ i. 0);
  spec_ring = λ i. record { vaddr = i; predicted = record { hi = 0; lo = 0 } };
  head = 3;
  tail = 250;
  rollbacks = 0;
}

some-IsRing : IsRing some_engine
some-IsRing = record { head_in = omega arith; tail_in = omega arith }

verify_consensus_lem_example :
    ((verify_consensus some_engine).tail ≡ (verify_consensus some_engine).head)
    × IsRing (verify_consensus some_engine)
    × ((verify_consensus some_engine).rollbacks
        ≡ 0 + (if all_hold some_engine.substrate (queue some_engine) then 0 else 1))
    × ((verify_consensus some_engine).head
        ≡ (250 + holding some_engine.substrate (queue some_engine)) % 256)
verify_consensus_lem_example = verify_consensus_lem some_engine some-IsRing
