-- ===== src/StateEngine/Tests.antt =====
-- Runs of src/core/state_engine.hpp over an empty manifold.
use emergence_os_bare_metal.Base.{ℕ, ◌≡◌, arith, List, [], ◌∷◌, not, ◌&&◌, ◌==◌, if◌then◌else◌}
use emergence_os_bare_metal.Manifold.{construct, route, free_route, error_route, holographic_fetch}
use emergence_os_bare_metal.StateEngine.{StateEngine, step, run, folded_state, vaddr_of}
use emergence_os_bare_metal.StateEngine.Period.{fold_inputs, run_resolved}

abbrev fresh : StateEngine
fresh = record { topo = construct (λ a. 0) (λ i. 0); current_state = 3; chaos_accumulator = 62 }

abbrev two_inputs : List (ℕ × ℕ)
two_inputs = (5, 0) ∷ (9, 0) ∷ []

run_resolved_example :
    let state = fold_inputs 3 two_inputs in
    let next =
      route (holographic_fetch fresh.topo (vaddr_of (record fresh { current_state = state }) 7)) in
    (step (run fresh two_inputs) 7 0).1 ≡ record fresh {
      current_state =
          if not (next == free_route) && not (next == error_route)
          then next
          else folded_state state 7;
      chaos_accumulator = 0;
    }
run_resolved_example = run_resolved two_inputs fresh 7 0 (omega arith)
