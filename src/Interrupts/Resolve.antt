-- ===== src/Interrupts/Resolve.antt =====
-- The instruction that src/hal/idt.cpp resolves in the manifold.
use emergence_os_bare_metal.Base.{ℕ, ◌+◌, ◌/◌, ◌^◌, ◌<◌, ◌≡◌, refl, false, some, bit_xor, u64}
use emergence_os_bare_metal.Manifold.{Manifold}
use emergence_os_bare_metal.Transducer.{burn_atom}
use emergence_os_bare_metal.Transducer.Atoms.{fetch-burn_atom}
use emergence_os_bare_metal.Interrupts.{Cpu, resumed, resolve_hic}

-- The bytes 0F FF that `rip` points to.
abbrev pub IsHic : (ℕ → ℕ) → Cpu → Type 0
IsHic memory c = (memory c.rip ≡ 0x0F) × (memory (u64 (c.rip + 1)) ≡ 0xFF)

-- The instruction 0F FF puts into `rax` what was burnt at the exclusive or of `rax` and `rbx`, or at any
-- address in the same 16 bytes, and goes on behind itself.
pub resolve_hic-burn_atom :
    (memory : ℕ → ℕ) (m : Manifold) (c : Cpu) (intent r : ℕ)
    → IsHic memory c
    → r < 2 ^ 64
    → bit_xor c.rax c.rbx / 16 ≡ intent / 16
    → resolve_hic memory false (some (burn_atom m intent r)) c
      ≡ resumed (record c { rip = u64 (c.rip + 2); rax = r })
unfolding resolve_hic
resolve_hic-burn_atom memory m c intent r code h near =
    let got = fetch-burn_atom m intent (bit_xor c.rax c.rbx) r h near in
    rw (code.0, code.1, got) refl
