-- ===== src/Tvm/Tests.antt =====
-- A run of src/core/tvm.hpp: a guest that halts twice and then exits for reason 1.
use emergence_os_bare_metal.Base.{
  ℕ, zero, suc, ◌+◌, ◌<◌, ◌≡◌, refl, arith, Bool, true, false, ◌||◌, ltb, ◌==◌, if◌then◌else◌,
  bit_or, u64, ◌<<<◌, replicate,
}
use emergence_os_bare_metal.Manifold.{Manifold, construct, route, halt_route, error_route}
use emergence_os_bare_metal.Service
use emergence_os_bare_metal.Service.{SubstrateService}
use emergence_os_bare_metal.Transducer.{burn_atom}
use emergence_os_bare_metal.Transducer.Atoms.{fetch-burn_atom}
use emergence_os_bare_metal.Tvm.{
  GuestContext, Processor, hypervisor_dispatch_root, handler_state, is_terminal, run,
}
use emergence_os_bare_metal.Tvm.Running.{idled, entered, reason, running, run_lem}

abbrev two_halts : Processor
two_halts = record {
  World = ℕ;
  vmx_enter_guest = λ w c. (record c { exit_reason = if ltb w 2 then 12 else 1 }, w + 1);
  handler = λ address c m. (c, m);
}

abbrev dispatch_address : ℕ
dispatch_address = bit_or hypervisor_dispatch_root (u64 (1 <<< 10))

-- A manifold with no handler for reason 1.
abbrev no_handler : Manifold
no_handler = burn_atom (construct (λ a. 0) (λ i. 0)) dispatch_address 0

abbrev service : SubstrateService
service = Service.start no_handler false 4096

abbrev guest : GuestContext
guest = record { gprs = replicate 32 0; rip = 0x7C00; rsp = 0; exit_reason = 0; exit_qual = 0 }

or_true : (a : Bool) → (a || true) ≡ true
or_true true = refl
or_true false = refl

is_terminal_or_none :
    (is_terminal (handler_state no_handler 1) || (handler_state no_handler 1).lo == 0) ≡ true
unfolding handler_state is_terminal
is_terminal_or_none =
    rw
      (fetch-burn_atom (construct (λ a. 0) (λ i. 0)) dispatch_address dispatch_address 0
        (omega arith) refl)
      (or_true (
        route (record { hi = 0; lo = 0 }) == halt_route
        || route (record { hi = 0; lo = 0 }) == error_route))

halts_first : (k : ℕ) → k < 2 → (reason two_halts k guest 0 == 12) ≡ true
halts_first zero l = refl
halts_first (suc zero) l = refl
halts_first (suc (suc k)) l = absurd (omega arith)

run_lem_example : run two_halts 10 0 (running two_halts no_handler service guest 0) ≡ (
  (entered two_halts 3 guest 0).1,
  record (running two_halts no_handler
      (idled 2 service)
      (entered two_halts 3 guest 0).0
      (u64 (0 + 1))) { is_active = false },
)
run_lem_example =
    run_lem two_halts 2 10 no_handler service guest 0 0 (omega arith) halts_first refl
      is_terminal_or_none
