-- ===== src/Transducer.antt =====
-- src/core/logic_transducer.hpp: named coordinates, and results looked up in the manifold. A C string
-- is the list of its characters up to the terminator.
pub mod Symbols
pub mod Atoms
mod Tests
use emergence_os_bare_metal.Base.{
  ℕ, ◌+◌, ◌*◌, ◌%◌, List, [], ◌∷◌, ◌++◌, Bool, true, false, ◌&&◌, ltb, ◌==◌, if◌then◌else◌, length,
  take, bit_or, bit_xor, u64, ◌<<<◌,
}
use emergence_os_bare_metal.Manifold.{
  Manifold, Value128, image, holographic_fetch, materialize_range,
}

pub record Symbol : Type 0 where
  pub name : List ℕ
  pub coordinate : ℕ

-- The first `symbol_count` entries of `symbol_table`.
pub record LogicTransducer : Type 0 where
  pub manifold : Manifold
  pub symbols : List Symbol

-- `char` is cast to `uint64_t`; the characters are below 128, so the sign does not matter.
unfoldable pub hash_mnemonic : ℕ → List ℕ → ℕ
hash_mnemonic h [] = h
hash_mnemonic h (c ∷ cs) = hash_mnemonic (u64 (bit_xor h c * 0x9E3779B97F4A7C15)) cs

-- At most 31 characters are kept.
unfoldable pub register_hook : List Symbol → List ℕ → ℕ → List Symbol
register_hook symbols name coord =
    if ltb (length symbols) 64
    then symbols ++ record { name = take 31 name; coordinate = coord } ∷ []
    else symbols

-- The inner loop: both names up to their terminators.
unfoldable pub matches : List ℕ → List ℕ → Bool
matches [] [] = true
matches [] (d ∷ ds) = false
matches (c ∷ cs) [] = false
matches (c ∷ cs) (d ∷ ds) = let rest = matches cs ds in if c == d then rest else false

unfoldable pub get_hook_coordinate : List Symbol → List ℕ → ℕ
get_hook_coordinate [] name = 0
get_hook_coordinate (s ∷ ss) name =
    let rest = get_hook_coordinate ss name in if matches name s.name then s.coordinate else rest

unfoldable pub burn_atom : Manifold → ℕ → ℕ → Manifold
burn_atom m intent result_lo =
    materialize_range m intent (image (record { hi = 0; lo = result_lo }))

pub record ExecutionState : Type 0 where
  pub last_resolve : ℕ
  pub fault : Bool

-- The loop of `resolve_chain` from `last_resolve` on.
unfoldable pub resolve_from : Manifold → ℕ → List ℕ → ExecutionState
resolve_from m last_resolve [] = record { last_resolve = last_resolve; fault = false }
resolve_from m last_resolve (word ∷ script) =
    let terminal = holographic_fetch m (bit_xor last_resolve word) in
    let rest = resolve_from m terminal.lo script in
    if terminal.hi == 0 && terminal.lo == 0
    then record { last_resolve = last_resolve; fault = true }
    else rest

unfoldable pub resolve_chain : Manifold → List ℕ → ExecutionState
resolve_chain m script = resolve_from m 0 script

abbrev pub intent_of : ℕ → ℕ → ℕ → ℕ
intent_of opcode a b = bit_or (u64 (opcode <<< 56)) (bit_xor a b)

unfoldable pub resolve_spatial : Manifold → ℕ → ℕ → ℕ → ℕ
resolve_spatial m opcode a b = (holographic_fetch m (intent_of opcode a b)).lo

-- The two words of the state; the key stays as it is.
unfoldable pub topological_aes_round : Manifold → ℕ × ℕ → ℕ × ℕ → ℕ × ℕ
topological_aes_round m state key =
    (resolve_spatial m 0xAE state.0 key.0, resolve_spatial m 0xAE state.1 key.1)
