-- ===== src/Identity.antt =====
-- src/crypto/argon2_hardener.hpp and src/crypto/consensus_keygen.hpp: the seed from a password and the
-- identity of the device.
pub mod Collide
pub mod DeviceId
mod Tests
use emergence_os_bare_metal.Base.{
  ℕ, zero, suc, ◌+◌, ◌-◌, ◌*◌, ◌/◌, ◌%◌, ◌^◌, List, [], ◌∷◌, ◌++◌, Bool, true, false, Option, none,
  some, ltb, ◌==◌, if◌then◌else◌, get_or, bit_or, bit_xor, u32, u64, ◌<<<◌, ◌>>>◌, rotl64,
}
use emergence_os_bare_metal.Bmt.Topology.{Seed}
use emergence_os_bare_metal.Bmt.Keys.{phi_hi}
use emergence_os_bare_metal.Manifold.{Manifold, holographic_fetch, phi_lo}

-- `hash ^= (uint64_t)s[i] << ((i % 8) * 8)` from `i` on; the characters are below 128, so that the
-- sign of `char` does not matter.
unfoldable pub mix_text : ℕ → ℕ → List ℕ → ℕ
mix_text hash i [] = hash
mix_text hash i (c ∷ cs) = mix_text (bit_xor hash (u64 (c <<< (i % 8 * 8)))) (i + 1) cs

-- One iteration over the manifold.
harden_step : Manifold → Seed → Seed
harden_step m s =
    let noise = holographic_fetch m (bit_xor s.hi s.lo) in
    record {
      hi = rotl64 (bit_xor (u64 (s.hi * phi_hi)) noise.hi) 13;
      lo = rotl64 (bit_xor (u64 (s.lo * phi_lo)) noise.lo) 17;
    }

harden : ℕ → Manifold → Seed → Seed
harden zero m s = s
harden (suc n) m s = harden n m (harden_step m s)

-- `Argon2Sovereign::derive`; `none` is the null pointer.
unfoldable pub derive : List ℕ → List ℕ → Option Manifold → Seed
unfolding harden harden_step
derive password hwid manifold =
    let mixed : Seed = record {
      hi = mix_text 0x736f6d6570736575 0 password;
      lo = mix_text 0x646f72616e646f6d 0 hwid;
    } in
    elim manifold [ none ↦ mixed | some m ↦ harden 1024 m mixed ]

-- What the four registers hold after `cpuid` of a leaf.
pub record Cpuid : Type 0 where
  pub eax : ℕ
  pub ebx : ℕ
  pub ecx : ℕ
  pub edx : ℕ

-- On x86-64.
unfoldable pub hardware_id : Cpuid → Cpuid → ℕ
hardware_id basic brand =
    bit_or (u64 (basic.eax <<< 32))
      (bit_xor basic.edx (bit_xor (bit_xor (bit_xor brand.eax brand.ebx) brand.ecx) brand.edx))

abbrev pub hex_chars : List ℕ
hex_chars = 48 ∷ 49 ∷ 50 ∷ 51 ∷ 52 ∷ 53 ∷ 54 ∷ 55 ∷ 56 ∷ 57 ∷ 65 ∷ 66 ∷ 67 ∷ 68 ∷ 69 ∷ 70 ∷ []

-- A difference on 64 bits.
abbrev pub minus64 : ℕ → ℕ → ℕ
minus64 a b = u64 (a + (18446744073709551616 - b))

unfoldable pub next_x : ℕ → ℕ → ℕ
next_x id x =
    let y = u64 (u64 (4085 * (x >>> 8)) * (minus64 0xFFFFFFFF x >>> 8)) >>> 16 in
    if ltb y 0x1000 then bit_xor y id else y

-- `n` characters.
unfoldable pub id_chars : ℕ → ℕ → ℕ → List ℕ
id_chars id x zero = []
id_chars id x (suc n) = get_or hex_chars (next_x id x % 16) 0 ∷ id_chars id (next_x id x) n

-- `generate_device_id`, without the terminator.
unfoldable pub generate_device_id : Cpuid → Cpuid → List ℕ
generate_device_id basic brand =
    let id = hardware_id basic brand in
    let x = id % 0xFFFFFFFF in id_chars id (if x == 0 then 0x12345678 else x) 15
