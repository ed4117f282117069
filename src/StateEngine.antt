-- ===== src/StateEngine.antt =====
-- src/core/state_engine.hpp: the state machine that asks the manifold once in 65 steps.
pub mod Period
mod Tests
use emergence_os_bare_metal.Base.{
  ℕ, ◌+◌, ◌*◌, ◌%◌, List, [], ◌∷◌, Bool, true, false, not, ◌&&◌, ltb, ◌==◌, if◌then◌else◌, bit_and,
  bit_or, bit_xor, u32, u64, ◌<<<◌,
}
use emergence_os_bare_metal.Manifold.{
  Manifold, Value128, holographic_fetch, route, pack_route, phi_lo, lens_mask, free_route,
  error_route,
}

abbrev pub entropy_threshold : ℕ
entropy_threshold = 64

pub record StateEngine : Type 0 where
  pub topo : Manifold
  pub current_state : ℕ
  pub chaos_accumulator : ℕ

pub record ExecutionResult : Type 0 where
  pub prev_state : ℕ
  pub input : ℕ
  pub next_state : ℕ
  pub value : Value128
  pub valid : Bool

abbrev pub reset : StateEngine → ℕ → StateEngine
reset e initial_state = record e { current_state = initial_state; chaos_accumulator = 0 }

abbrev pub folded_state : ℕ → ℕ → ℕ
folded_state state input = bit_and (bit_xor state input) lens_mask

abbrev pub vaddr_of : StateEngine → ℕ → ℕ
vaddr_of e input = bit_or (u64 (e.current_state <<< 10)) (bit_and input lens_mask)

abbrev pub result : StateEngine → ℕ → ℕ → Value128 → Bool → ExecutionResult
result e input next_state value valid = record {
  prev_state = e.current_state;
  input = input;
  next_state = next_state;
  value = value;
  valid = valid;
}

-- `junk` is what `res.value.hi` happens to hold: nothing sets it on the speculative path.
unfoldable pub step : StateEngine → ℕ → ℕ → ExecutionResult × StateEngine
step e input junk =
    let vaddr = vaddr_of e input in
    let folded = folded_state e.current_state input in
    let v = holographic_fetch e.topo vaddr in
    if ltb e.chaos_accumulator entropy_threshold
    then (
      result e input folded
          (pack_route (record { hi = junk; lo = bit_xor (u64 (vaddr * phi_lo)) input }) free_route)
          true,
      record e { current_state = folded; chaos_accumulator = u32 (e.chaos_accumulator + 1) },
    )
    else if not (route v == free_route) && not (route v == error_route)
    then (
      result e input (route v) v true,
      record e { current_state = route v; chaos_accumulator = 0 },
    )
    else (result e input folded v false, record e { current_state = folded; chaos_accumulator = 0 })

-- The inputs one after the other, each with what its result's memory holds.
unfoldable pub run : StateEngine → List (ℕ × ℕ) → StateEngine
run e [] = e
run e ((input, junk) ∷ inputs) = run (step e input junk).1 inputs
