-- ===== src/Interrupts.antt =====
-- src/hal/idt.cpp, src/hal/idt.hpp and src/hal/timer.hpp: the gates, the timer and the instruction that
-- the kernel resolves in the manifold. Port writes come out as a list; prints are left out.
pub mod Gates
pub mod Resolve
pub mod Faults
mod Tests
use emergence_os_bare_metal.Base.{
  ℕ, ◌+◌, ◌*◌, ◌/◌, ◌%◌, List, [], ◌∷◌, Bool, true, false, ◌&&◌, Option, none, some, ◌==◌,
  if◌then◌else◌, bit_xor, u64, ◌>>>◌, le_bytes,
}
use emergence_os_bare_metal.Manifold.{Manifold, holographic_fetch, update}

pub record IdtEntry : Type 0 where
  pub offset_low : ℕ
  pub selector : ℕ
  pub ist : ℕ
  pub type_attr : ℕ
  pub offset_mid : ℕ
  pub offset_high : ℕ
  pub reserved : ℕ

abbrev pub Idt : Type 0
Idt = ℕ → IdtEntry

unfoldable pub gate_of : ℕ → IdtEntry
gate_of handler = record {
  offset_low = handler % 0x10000;
  selector = 0x08;
  ist = 0;
  type_attr = 0x8E;
  offset_mid = (handler >>> 16) % 0x10000;
  offset_high = (handler >>> 32) % 0x100000000;
  reserved = 0;
}

unfoldable pub set_idt_gate : Idt → ℕ → ℕ → Idt
set_idt_gate idt n handler i = if i == n then gate_of handler else idt i

-- The addresses of the handlers, which are assembly.
pub record Handlers : Type 0 where
  pub ud : ℕ
  pub nm : ℕ
  pub df : ℕ
  pub gp : ℕ
  pub timer : ℕ

-- A byte and the port that it goes to.
abbrev pub PortWrite : Type 0
PortWrite = ℕ × ℕ

unfoldable pub init_pic : List PortWrite
init_pic =
    (0x11, 0x20)
    ∷ (0x11, 0xA0)
    ∷ (0x20, 0x21)
    ∷ (0x28, 0xA1)
    ∷ (0x04, 0x21)
    ∷ (0x02, 0xA1)
    ∷ (0x01, 0x21)
    ∷ (0x01, 0xA1)
    ∷ (0xFE, 0x21)
    ∷ (0xFF, 0xA1)
    ∷ []

unfoldable pub init_idt : Handlers → Idt → Idt × List PortWrite
init_idt h idt =
    let ud = set_idt_gate idt 6 h.ud in
    let nm = set_idt_gate ud 7 h.nm in
    let df = set_idt_gate nm 8 h.df in
    let gp = set_idt_gate df 13 h.gp in (set_idt_gate gp 32 h.timer, init_pic)

unfoldable pub handle_timer_pulse : ℕ → ℕ
handle_timer_pulse temporal_pulse = u64 (temporal_pulse + 1)

-- `Timer::initialize`.
unfoldable pub initialize_timer : ℕ → List PortWrite
initialize_timer frequency =
    let divisor = 1193180 / frequency in
    (0x36, 0x43) ∷ (divisor % 256, 0x40) ∷ ((divisor >>> 8) % 256, 0x40) ∷ []

-- What `resolve_hic` may change.
pub record Cpu : Type 0 where
  pub rip : ℕ
  pub rax : ℕ
  pub rbx : ℕ
  pub fault_detected : ℕ

-- Back to the program, or the dump that ends in an endless halt.
pub data Resolved : Type 0 where
  resumed : Cpu → Resolved
  dumped : Cpu → Resolved

abbrev pub skip : Cpu → Cpu
skip c = record c { rip = u64 (c.rip + 2) }

-- `memory` is what `rip` points into; no manifold is `none`.
unfoldable pub resolve_hic : (ℕ → ℕ) → Bool → Option Manifold → Cpu → Resolved
resolve_hic memory fuzz_active manifold c =
    if fuzz_active
    then resumed (record (skip c) { fault_detected = 1 })
    else if memory c.rip == 0x0F && memory (u64 (c.rip + 1)) == 0xFF
    then elim manifold [
      | none ↦ resumed (record (skip c) { rax = 0x0A })
      | some m ↦ resumed (record (skip c) { rax = (holographic_fetch m (bit_xor c.rax c.rbx)).lo })
    ]
    else dumped c
