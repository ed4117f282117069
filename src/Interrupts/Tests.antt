-- ===== src/Interrupts/Tests.antt =====
-- Runs of src/hal/idt.cpp and src/hal/timer.hpp.
use emergence_os_bare_metal.Base.{
  ℕ, ◌+◌, ◌/◌, ◌≡◌, refl, arith, bit_xor, false, some, ◌==◌, if◌then◌else◌, u64,
}
use emergence_os_bare_metal.Manifold.{Manifold, construct}
use emergence_os_bare_metal.Transducer.{burn_atom}
use emergence_os_bare_metal.Interrupts.{
  Handlers, Idt, gate_of, initialize_timer, Cpu, resumed, resolve_hic,
}
use emergence_os_bare_metal.Interrupts.Gates.{counter_of, initialize_timer_lem}
use emergence_os_bare_metal.Interrupts.Resolve.{resolve_hic-burn_atom}

abbrev handlers : Handlers
handlers = record {
  ud = 0x100000;
  nm = 0x100100;
  df = 0x100200;
  gp = 0x100300;
  timer = 0xFFFFFFFF80000000;
}

abbrev no_gates : Idt
no_gates i = gate_of 0

initialize_timer_lem_example : counter_of (initialize_timer 100) ≡ 1193180 / 100
initialize_timer_lem_example = initialize_timer_lem 100 (omega arith)

abbrev blank : Manifold
blank = construct (λ a. 0) (λ i. 0)

-- The two bytes of the instruction at 0x1000.
abbrev code : ℕ → ℕ
code a = if a == 0x1000 then 0x0F else 0xFF

abbrev cpu : Cpu
cpu = record { rip = 0x1000; rax = 33; rbx = 0; fault_detected = 0 }

thirty_three : bit_xor 33 0 / 16 ≡ 32 / 16
thirty_three = ground arith

resolve_hic-burn_atom_example :
    resolve_hic code false (some (burn_atom blank 32 77)) cpu
    ≡ resumed (record cpu { rip = u64 (0x1000 + 2); rax = 77 })
resolve_hic-burn_atom_example =
    resolve_hic-burn_atom code blank cpu 32 77 (refl, refl) (omega arith) thirty_three
