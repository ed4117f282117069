-- ===== src/StateEngine/Period.antt =====
-- When the steps of src/core/state_engine.hpp look into the manifold, and where they lead.
use emergence_os_bare_metal.Base.{
  ℕ, ◌+◌, ◌%◌, ◌^◌, ◌<◌, ◌≤◌, ◌≡◌, ◌⊎◌, refl, ap, ◌∙◌, arith, List, [], ◌∷◌, true, not, ◌&&◌, ltb,
  ◌==◌, if◌then◌else◌, length, bit_xor, and_low, u16, ◌>>>◌,
}
use emergence_os_bare_metal.Manifold.{Value128, holographic_fetch, route, free_route, error_route}
use emergence_os_bare_metal.StateEngine.{StateEngine, folded_state, vaddr_of, step, run}

folded_state-lt : (s i : ℕ) → folded_state s i < 1024
folded_state-lt s i = rw (and_low 10 (bit_xor s i)) (omega arith)

route-lt : (v : Value128) → route v < 1024
unfolding route
route-lt v = rw (and_low 10 (u16 (v.hi >>> 54))) (omega arith)

-- Every step leads to one of the 1024 states, the one that its result names, keeps the counter at 64
-- or below and the manifold as it is; a result is refused only if its value has the free or the error
-- route.
pub step_lem :
    (e : StateEngine) (input junk : ℕ)
    → e.chaos_accumulator ≤ 64
    → let (res, e') = step e input junk in
      (e'.current_state < 1024)
      × (res.next_state ≡ e'.current_state)
      × (e'.chaos_accumulator ≤ 64)
      × (e'.topo ≡ e.topo)
      × ((res.valid ≡ true) ⊎ ((route res.value ≡ free_route) ⊎ (route res.value ≡ error_route)))
unfolding step
step_lem e input junk h = (
  ground (
    arith,
    folded_state-lt e.current_state input,
    route-lt (holographic_fetch e.topo (vaddr_of e input)),
  ),
  ground arith,
  ground arith,
  ground arith,
  ground arith,
)

-- One step below the threshold.
first :
    (e : StateEngine) (input junk : ℕ)
    → e.chaos_accumulator < 64
    → (step e input junk).1 ≡ record e {
      current_state = folded_state e.current_state input;
      chaos_accumulator = e.chaos_accumulator + 1;
    }
unfolding step
first e input junk h =
    let speculative : ltb e.chaos_accumulator 64 ≡ true = ground arith in
    let counted : (e.chaos_accumulator + 1) % 2 ^ 32 ≡ e.chaos_accumulator + 1 = omega arith in
    rw (speculative, counted) refl

-- The state after inputs that are only folded in.
unfoldable pub fold_inputs : ℕ → List (ℕ × ℕ) → ℕ
fold_inputs state [] = state
fold_inputs state ((input, junk) ∷ inputs) = fold_inputs (folded_state state input) inputs

-- Up to 64 steps after a reset do not depend on the manifold: the state is the inputs folded into it.
pub run_speculative :
    (inputs : List (ℕ × ℕ)) (e : StateEngine)
    → e.chaos_accumulator + length inputs ≤ 64
    → run e inputs ≡ record e {
      current_state = fold_inputs e.current_state inputs;
      chaos_accumulator = e.chaos_accumulator + length inputs;
    }
unfolding run fold_inputs
run_speculative [] e h =
    ap (λ n. let f : StateEngine = record e { chaos_accumulator = n } in f) (omega arith)
run_speculative ((input, junk) ∷ inputs) e h = rw (first e input junk (omega arith)) (
    run_speculative inputs _ (omega arith)
    ∙ ap
        (λ n.
          let f : StateEngine = record e {
            current_state = fold_inputs (folded_state e.current_state input) inputs;
            chaos_accumulator = n;
          } in
          f)
        (omega arith))

-- The step after 64 goes where the value in the manifold says, unless its route is free or an error,
-- and the counter starts again.
pub run_resolved :
    (inputs : List (ℕ × ℕ)) (e : StateEngine) (input junk : ℕ)
    → e.chaos_accumulator + length inputs ≡ 64
    → let state = fold_inputs e.current_state inputs in
      let next =
        route (holographic_fetch e.topo (vaddr_of (record e { current_state = state }) input)) in
      (step (run e inputs) input junk).1 ≡ record e {
        current_state =
            if not (next == free_route) && not (next == error_route)
            then next
            else folded_state state input;
        chaos_accumulator = 0;
      }
unfolding step
run_resolved inputs e input junk h =
    rw (run_speculative inputs e (omega arith), h) (unfold step in ground arith)
