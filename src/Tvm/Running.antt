-- ===== src/Tvm/Running.antt =====
-- A guest of src/core/tvm.hpp that idles and then asks for something that ends it.
use emergence_os_bare_metal.Base.{
  ℕ, zero, suc, ◌+◌, ◌<◌, ◌≡◌, refl, ap, ◌∙◌, arith, Bool, true, false, ◌||◌, some, ◌==◌,
  if◌then◌else◌, u64,
}
use emergence_os_bare_metal.Manifold.{Manifold}
use emergence_os_bare_metal.Service.{SubstrateService, utilize_idle_cycles}
use emergence_os_bare_metal.Tvm.{
  GuestContext, TopologicalVm, Processor, hlt, handler_state, is_terminal, dispatch, answer, run,
}

-- The service after `n` idle exits.
abbrev pub idled : ℕ → SubstrateService → SubstrateService
idled zero srv = srv
idled (suc n) srv = idled n (utilize_idle_cycles srv 128)

either :
    (a b : Bool) (s t : TopologicalVm) → (a || b) ≡ true → (if a then s else if b then s else t) ≡ s
either true b s t e = refl
either false true s t e = refl
either false false s t e = cc

module _ (p : Processor) where
  -- The context and the world after the guest was entered `n` times and each time left alone.
  abbrev pub entered : ℕ → GuestContext → p.World → GuestContext × p.World
  entered zero c w = (c, w)
  entered (suc n) c w = let (c', w') = p.vmx_enter_guest w c in entered n c' w'

  -- The reason of exit `n`.
  abbrev pub reason : ℕ → GuestContext → p.World → ℕ
  reason n c w = (entered (suc n) c w).0.exit_reason

  abbrev pub running : Manifold → SubstrateService → GuestContext → ℕ → TopologicalVm
  running m srv c exits = record {
    substrate = m;
    preemption_service = some srv;
    context = c;
    vmexits = exits;
    is_active = true;
  }

  abbrev halted : Manifold → SubstrateService → GuestContext → ℕ → TopologicalVm
  halted m srv c exits = record (running m srv c exits) { is_active = false }

  run_stopped :
      (fuel : ℕ) (w : p.World) (vm : TopologicalVm)
      → vm.is_active ≡ false
      → run p fuel w vm ≡ (w, vm)
  unfolding run
  run_stopped zero w vm e = refl
  run_stopped (suc fuel) w vm e = rw e refl

  dispatch_ends :
      (m : Manifold) (srv : SubstrateService) (c : GuestContext) (exits : ℕ)
      → (is_terminal (handler_state m c.exit_reason) || (handler_state m c.exit_reason).lo == 0)
        ≡ true
      → dispatch p (running m srv c exits) ≡ halted m srv c (u64 (exits + 1))
  unfolding dispatch
  dispatch_ends m srv c exits ends =
      either (is_terminal (handler_state m c.exit_reason)) ((handler_state m c.exit_reason).lo == 0)
        (halted m srv c (u64 (exits + 1)))
        (record (halted m srv handled.0 (u64 (exits + 1))) {
          substrate = handled.1;
          is_active = true;
        })
        ends
    where
      handled : GuestContext × Manifold
      handled = p.handler (handler_state m c.exit_reason).lo c m

  -- A guest that halts `n` times and then exits for a reason whose entry in the manifold has the halt or
  -- the error route, or no handler, ends the run: that exit is counted and no other, and the service has
  -- had the `n` pauses. One round for each exit is enough.
  pub run_lem :
      (n fuel : ℕ) (m : Manifold) (srv : SubstrateService) (c : GuestContext) (exits : ℕ)
      (w : p.World)
      → n < fuel
      → ((k : ℕ) → k < n → (reason k c w == hlt) ≡ true)
      → (reason n c w == hlt) ≡ false
      → (is_terminal (handler_state m (reason n c w)) || (handler_state m (reason n c w)).lo == 0)
        ≡ true
      → run p fuel w (running m srv c exits) ≡ (
        (entered (suc n) c w).1,
        record (running m (idled n srv) (entered (suc n) c w).0 (u64 (exits + 1))) {
          is_active = false;
        },
      )
  unfolding run answer dispatch
  run_lem n zero m srv c exits w l idle asks ends = absurd (omega arith)
  run_lem zero (suc fuel) m srv c exits w l idle asks ends =
      let (c', w') = p.vmx_enter_guest w c in
      rw asks (
        ap (run p fuel w') (dispatch_ends m srv c' exits ends)
        ∙ run_stopped fuel w' (halted m srv c' (u64 (exits + 1))) refl)
  run_lem (suc n) (suc fuel) m srv c exits w l idle asks ends =
      let (c', w') = p.vmx_enter_guest w c in
      let now : (reason 0 c w == hlt) ≡ true = idle 0 (omega arith) in
      rw now (
        run_lem n fuel m (utilize_idle_cycles srv 128) c' exits w' (omega arith)
          (λ k h. idle (suc k) (omega arith)) asks ends)
