-- ===== src/Predictive.antt =====
-- src/core/predictive_topology.hpp: guesses at values of the manifold, kept in a ring until they are
-- verified. The header names `SPECULATIVE_ROUTE`, which no file declares: it is a parameter.
pub mod Ring
mod Tests
use emergence_os_bare_metal.Base.{
  ℕ, zero, suc, ◌+◌, ◌*◌, ◌%◌, List, [], ◌∷◌, Bool, true, false, not, ◌||◌, ◌==◌, if◌then◌else◌,
  set, bit_xor, u64,
}
use emergence_os_bare_metal.Bmt.Keys.{phi_hi}
use emergence_os_bare_metal.Manifold.{
  Manifold, Value128, holographic_fetch, route, pack_route, phi_lo, update,
}

pub record SpeculativeRecord : Type 0 where
  pub vaddr : ℕ
  pub predicted : Value128

-- The ring is indexed below 256. `rollbacks` counts the interrupts that were sent.
pub record PredictiveEngine : Type 0 where
  pub substrate : Manifold
  pub spec_ring : ℕ → SpeculativeRecord
  pub head : ℕ
  pub tail : ℕ
  pub rollbacks : ℕ

unfoldable pub start : Manifold → (ℕ → SpeculativeRecord) → PredictiveEngine
start m ring = record { substrate = m; spec_ring = ring; head = 0; tail = 0; rollbacks = 0 }

-- `junk` is what `guess.hi` happens to hold: nothing sets it.
unfoldable pub guess_of : ℕ → ℕ → ℕ → Value128
guess_of speculative_route junk vaddr =
    pack_route (record { hi = junk; lo = bit_xor (u64 (vaddr * phi_lo)) phi_hi }) speculative_route

unfoldable pub speculative_fetch : ℕ → PredictiveEngine → ℕ → ℕ → Value128 × PredictiveEngine
speculative_fetch speculative_route e vaddr junk =
    let guess = guess_of speculative_route junk vaddr in
    (
      guess,
      record e {
        spec_ring = update e.spec_ring e.head (record { vaddr = vaddr; predicted = guess });
        head = (e.head + 1) % 256;
      },
    )

-- `actual.lo != predicted.lo || actual.route() != predicted.route()`.
abbrev pub differs : Manifold → SpeculativeRecord → Bool
differs m r =
    let actual = holographic_fetch m r.vaddr in
    not (actual.lo == r.predicted.lo) || not (route actual == route r.predicted)

-- The loop of `verify_consensus`, for at most `fuel` records.
unfoldable pub verify_loop : ℕ → PredictiveEngine → PredictiveEngine
verify_loop zero e = e
verify_loop (suc fuel) e =
    let later = verify_loop fuel (record e { tail = (e.tail + 1) % 256 }) in
    if e.tail == e.head
    then e
    else if differs e.substrate (e.spec_ring e.tail)
    then record e { head = e.tail; rollbacks = e.rollbacks + 1 }
    else later

unfoldable pub verify_consensus : PredictiveEngine → PredictiveEngine
unfolding verify_loop
verify_consensus e = verify_loop 256 e
