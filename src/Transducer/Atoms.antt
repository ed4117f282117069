-- ===== src/Transducer/Atoms.antt =====
-- What is burnt into the manifold by src/core/logic_transducer.hpp is what its lookups resolve to.
use emergence_os_bare_metal.Base.{
  ℕ, ◌+◌, ◌*◌, ◌/◌, ◌^◌, ◌<◌, ◌≡◌, refl, ap, ◌∙◌, arith, [], ◌∷◌, ◌++◌, true, false, ◌==◌,
  if◌then◌else◌, take, bit_xor, xor_comm, xor_zero,
}
use emergence_os_bare_metal.Manifold.{Manifold, Value128, image, value_of, holographic_fetch}
use emergence_os_bare_metal.Manifold.Memory.{value_of-image}
use emergence_os_bare_metal.Manifold.Fetch.{fetch-materialize_self}
use emergence_os_bare_metal.Transducer.{
  burn_atom, resolve_spatial, intent_of, resolve_chain, resolve_from,
}

-- A fetch does not see the low four bits of its address.
fetch_aligned :
    (m : Manifold) (v w : ℕ) → v / 16 ≡ w / 16 → holographic_fetch m v ≡ holographic_fetch m w
unfolding holographic_fetch
fetch_aligned m v w e = let block : v / 16384 ≡ w / 16384 = omega arith in rw (block, e) refl

-- A value that is burnt is fetched from any address in the same 16 bytes.
pub fetch-burn_atom :
    (m : Manifold) (intent other r : ℕ)
    → r < 2 ^ 64
    → other / 16 ≡ intent / 16
    → holographic_fetch (burn_atom m intent r) other ≡ record { hi = 0; lo = r }
unfolding burn_atom
fetch-burn_atom m intent other r h near =
    fetch_aligned (burn_atom m intent r) other (intent + 16 * 0) (omega arith)
    ∙ fetch-materialize_self m intent 0 (image atom) (omega arith) (unfold image in omega arith)
    ∙ ap value_of whole
    ∙ value_of-image atom [] (omega arith) h
  where
    atom : Value128
    atom = record { hi = 0; lo = r }

    whole : take 16 (image atom) ≡ image atom ++ []
    whole = unfold image in refl

-- A burnt result is what its opcode and operands resolve to.
pub resolve_spatial-burn_atom :
    (m : Manifold) (opcode a b r : ℕ)
    → r < 2 ^ 64
    → resolve_spatial (burn_atom m (intent_of opcode a b) r) opcode a b ≡ r
unfolding resolve_spatial
resolve_spatial-burn_atom m opcode a b r h =
    ap (λ v. v.lo) (fetch-burn_atom m (intent_of opcode a b) (intent_of opcode a b) r h refl)

-- A chain of one word from the start resolves to what was burnt at any coordinate in the same 16
-- bytes as the word, and a burnt zero is taken for a fault.
pub resolve_chain-burn_atom :
    (m : Manifold) (intent word r : ℕ)
    → r < 2 ^ 64
    → word / 16 ≡ intent / 16
    → resolve_chain (burn_atom m intent r) (word ∷ []) ≡ (
        if r == 0
        then record { last_resolve = 0; fault = true }
        else record { last_resolve = r; fault = false })
unfolding resolve_chain resolve_from
resolve_chain-burn_atom m intent word r h near =
    let from_zero : bit_xor 0 word ≡ word = xor_comm 0 word ∙ xor_zero word in
    rw (from_zero, fetch-burn_atom m intent word r h near) refl

-- Intents that differ in their low four bits only share one atom: the later of two burns replaces the
-- result of the earlier.
pub burn_atom_shared :
    (m : Manifold) (first second r s : ℕ)
    → r < 2 ^ 64
    → s < 2 ^ 64
    → second / 16 ≡ first / 16
    → (holographic_fetch (burn_atom m first r) first).lo ≡ r
      × ((holographic_fetch (burn_atom (burn_atom m first r) second s) first).lo ≡ s)
burn_atom_shared m first second r s hr hs near = (
  ap (λ v. v.lo) (fetch-burn_atom m first first r hr refl),
  ap (λ v. v.lo) (fetch-burn_atom (burn_atom m first r) second first s hs (omega arith)),
)
