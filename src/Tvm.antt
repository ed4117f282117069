-- ===== src/Tvm.antt =====
-- src/core/tvm.hpp: running a guest and answering its exits out of the manifold, on x86-64. What the
-- processor does until a guest exits, and the code of a handler, are parameters.
pub mod Running
mod Tests
use emergence_os_bare_metal.Base.{
  ℕ, zero, suc, ◌+◌, ◌*◌, List, Bool, true, false, ◌&&◌, ◌||◌, Option, none, some, ◌==◌,
  if◌then◌else◌, bit_or, u64, ◌<<<◌, replicate,
}
use emergence_os_bare_metal.Manifold.{
  Manifold, Value128, route, halt_route, error_route, holographic_fetch, materialize_range,
}
use emergence_os_bare_metal.Service.{SubstrateService, utilize_idle_cycles}

pub record GuestContext : Type 0 where
  pub gprs : List ℕ
  pub rip : ℕ
  pub rsp : ℕ
  pub exit_reason : ℕ
  pub exit_qual : ℕ

-- A service works on its own manifold here.
pub record TopologicalVm : Type 0 where
  pub substrate : Manifold
  pub preemption_service : Option SubstrateService
  pub context : GuestContext
  pub vmexits : ℕ
  pub is_active : Bool

-- `vmx_enter_guest` returns when the guest exits; `handler` is the code at an address.
pub record Processor : Type 1 where
  pub World : Type 0
  pub vmx_enter_guest : World → GuestContext → GuestContext × World
  pub handler : ℕ → GuestContext → Manifold → GuestContext × Manifold

abbrev pub hypervisor_dispatch_root : ℕ
hypervisor_dispatch_root = 0x8000000000

abbrev pub hlt : ℕ
hlt = 12

-- The construction, without the preparation of the hardware.
unfoldable pub start : Manifold → Option SubstrateService → TopologicalVm
start topo srv = record {
  substrate = topo;
  preemption_service = srv;
  context = record { gprs = replicate 32 0; rip = 0; rsp = 0; exit_reason = 0; exit_qual = 0 };
  vmexits = 0;
  is_active = false;
}

unfoldable pub load_guest : TopologicalVm → List ℕ → ℕ → TopologicalVm
load_guest vm image entry_point = record vm {
  substrate = materialize_range vm.substrate 0x1000 image;
  context = record vm.context { rip = entry_point };
  is_active = true;
}

unfoldable pub handler_state : Manifold → ℕ → Value128
handler_state m exit_reason =
    holographic_fetch m (bit_or hypervisor_dispatch_root (u64 (exit_reason <<< 10)))

unfoldable pub is_terminal : Value128 → Bool
is_terminal v = route v == halt_route || route v == error_route

module _ (p : Processor) where
  -- What `run` does about an exit that is not idle.
  unfoldable pub dispatch : TopologicalVm → TopologicalVm
  unfolding is_terminal
  dispatch vm =
      let counted : TopologicalVm = record vm { vmexits = u64 (vm.vmexits + 1) } in
      let state = handler_state vm.substrate vm.context.exit_reason in
      let (context, substrate) = p.handler state.lo vm.context vm.substrate in
      if is_terminal state
      then record counted { is_active = false }
      else if state.lo == 0
      then record counted { is_active = false }
      else record counted { context = context; substrate = substrate }

  -- What `run` does after the guest has exited.
  unfoldable pub answer : TopologicalVm → TopologicalVm
  unfolding dispatch
  answer vm = elim vm.preemption_service [
    | none ↦ dispatch vm
    | some srv ↦
        if vm.context.exit_reason == hlt
        then record vm { preemption_service = some (utilize_idle_cycles srv 128) }
        else dispatch vm
  ]

  -- The loop of `run`, for as many rounds as `fuel`.
  unfoldable pub run : ℕ → p.World → TopologicalVm → p.World × TopologicalVm
  unfolding answer
  run zero w vm = (w, vm)
  run (suc fuel) w vm =
      let (context, w') = p.vmx_enter_guest w vm.context in
      let later = run fuel w' (answer (record vm { context = context })) in
      if vm.is_active then later else (w, vm)
