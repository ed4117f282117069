-- ===== src/Interrupts/Gates.antt =====
-- The gates and the timer of src/hal/idt.cpp and src/hal/timer.hpp, as the hardware reads them.
use native.Mathlib.Nat.{mul-le-mul_left, div-mul-le_self}
use emergence_os_bare_metal.Base.{
  ℕ, ◌+◌, ◌*◌, ◌/◌, ◌^◌, ◌<◌, ◌≤◌, ◌≡◌, refl, arith, List, [], ◌∷◌, Bool, true, false, ◌||◌, ◌==◌,
}
use emergence_os_bare_metal.Interrupts.{
  IdtEntry, Idt, gate_of, set_idt_gate, Handlers, init_idt, PortWrite, initialize_timer,
}

-- Where the processor goes at a gate.
abbrev pub target : IdtEntry → ℕ
target e = e.offset_low + 2 ^ 16 * e.offset_mid + 2 ^ 32 * e.offset_high

abbrev pub AreTargets : Handlers → Idt → Type 0
AreTargets h idt =
    (target (idt 6) ≡ h.ud)
    × (target (idt 7) ≡ h.nm)
    × (target (idt 8) ≡ h.df)
    × (target (idt 13) ≡ h.gp)
    × (target (idt 32) ≡ h.timer)

-- What the counter of the timer takes from the writes: low byte first.
abbrev pub counter_of : List PortWrite → ℕ
counter_of ((c, p) ∷ (lo, q) ∷ (hi, r) ∷ []) = lo + 256 * hi
counter_of writes = 0

fits : (frequency : ℕ) → 19 ≤ frequency → 1193180 / frequency < 65536
fits frequency h =
    omega (arith, mul-le-mul_left (1193180 / frequency) h, div-mul-le_self 1193180 frequency)

target-gate_of : (handler : ℕ) → handler < 2 ^ 64 → target (gate_of handler) ≡ handler
unfolding gate_of
target-gate_of handler h = omega arith

-- The vectors that `init_idt` sets.
abbrev pub is_set : ℕ → Bool
is_set i = i == 6 || (i == 7 || (i == 8 || (i == 13 || i == 32)))

or_false : (p q : Bool) → (p || q) ≡ false → (p ≡ false) × (q ≡ false)
or_false true q e = cc
or_false false q e = (refl, e)

-- `init_idt` sends the five vectors to their handlers, and leaves every other gate as it was.
pub init_idt_lem :
    (h : Handlers) (idt : Idt) (i : ℕ)
    → h.ud < 2 ^ 64
    → h.nm < 2 ^ 64
    → h.df < 2 ^ 64
    → h.gp < 2 ^ 64
    → h.timer < 2 ^ 64
    → is_set i ≡ false
    → AreTargets h (init_idt h idt).0 × ((init_idt h idt).0 i ≡ idt i)
unfolding init_idt set_idt_gate
init_idt_lem h idt i u n d g t other =
    let (ud, after_ud) = or_false (i == 6) (i == 7 || (i == 8 || (i == 13 || i == 32))) other in
    let (nm, after_nm) = or_false (i == 7) (i == 8 || (i == 13 || i == 32)) after_ud in
    let (df, after_df) = or_false (i == 8) (i == 13 || i == 32) after_nm in
    let (gp, timer) = or_false (i == 13) (i == 32) after_df in
    (
      (
        target-gate_of h.ud u,
        target-gate_of h.nm n,
        target-gate_of h.df d,
        target-gate_of h.gp g,
        target-gate_of h.timer t,
      ),
      rw (ud, nm, df, gp, timer) refl,
    )

-- The two bytes that `Timer::initialize` sends to the counter stand for the divisor, as long as that
-- fits: from a frequency of 19 on.
pub initialize_timer_lem :
    (frequency : ℕ) → 19 ≤ frequency → counter_of (initialize_timer frequency) ≡ 1193180 / frequency
unfolding initialize_timer
initialize_timer_lem frequency h =
    let small : 1193180 / frequency < 65536 = fits frequency h in ground (arith, small)
