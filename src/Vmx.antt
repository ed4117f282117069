-- ===== src/Vmx.antt =====
-- src/core/vmx_impl.hpp: turning the virtual machine extensions on. The privileged instructions are
-- hardware: an interface says what they do; memory is a function from addresses to bytes.
pub mod Fixed
pub mod Regions
mod Tests
use emergence_os_bare_metal.Base.{
  ℕ, zero, suc, ◌+◌, List, [], ◌∷◌, Bool, true, false, not, Option, none, some, ◌==◌, if◌then◌else◌,
  bit_and, bit_or, u32, u64, le_bytes,
}
use emergence_os_bare_metal.Manifold.{poke}
use emergence_os_bare_metal.Memory.{PhysicalMemory, allocate}
use emergence_os_bare_metal.Memory.Bytes.{Bytes, kmemset}

-- The encodings of `VMXField`.
abbrev pub guest_rsp : ℕ
guest_rsp = 0x681C

abbrev pub guest_rip : ℕ
guest_rip = 0x681E

abbrev pub host_cr0 : ℕ
host_cr0 = 0x6C00

abbrev pub host_cr3 : ℕ
host_cr3 = 0x6C02

abbrev pub host_cr4 : ℕ
host_cr4 = 0x6C04

abbrev pub vmcs_link_pointer : ℕ
vmcs_link_pointer = 0x2800

-- The processor. Reading a register changes nothing; `rdmsr` gives the low and the high half, `cpuid_ecx`
-- is `ecx` of `cpuid`. `vmxon` and `vmptrld` get the memory and the address, and set the error flag.
pub record Cpu : Type 1 where
  pub State : Type 0
  pub rdmsr : State → ℕ → ℕ × ℕ
  pub wrmsr : State → ℕ → ℕ → ℕ → State
  pub cpuid_ecx : State → ℕ → ℕ
  pub cr0 : State → ℕ
  pub cr3 : State → ℕ
  pub cr4 : State → ℕ
  pub set_cr0 : State → ℕ → State
  pub set_cr4 : State → ℕ → State
  pub vmxon : State → Bytes → ℕ → Bool × State
  pub vmptrld : State → Bytes → ℕ → Bool × State
  pub vmwrite : State → ℕ → ℕ → State
  pub vmlaunch : State → Bool × State

-- The two regions by their addresses; 0 is the null pointer.
pub record VmxController : Type 0 where
  pub vmxon_region : ℕ
  pub vmcs_region : ℕ

abbrev pub address_of : Option ℕ → ℕ
address_of none = 0
address_of (some a) = a

-- The constructor: it does not test what the allocator returns.
unfoldable pub construct : PhysicalMemory → Bytes → VmxController × PhysicalMemory × Bytes
construct p mem =
    let first = allocate p 4096 in
    let second = allocate first.1 4096 in
    let controller : VmxController = record {
      vmxon_region = address_of first.0;
      vmcs_region = address_of second.0;
    } in
    (
      controller,
      second.1,
      kmemset (kmemset mem controller.vmxon_region 0 4096) controller.vmcs_region 0 4096,
    )

-- The bits that must be set, then those that may be; the second mask is 32 bits wide.
unfoldable pub fix : ℕ → ℕ → ℕ → ℕ
fix cr fixed0 fixed1 = bit_and (bit_or cr fixed0) fixed1

-- `*(uint32_t*)at = word`.
abbrev pub store_word : Bytes → ℕ → ℕ → Bytes
store_word mem at_ word = poke mem at_ (le_bytes 4 word)

module _ (c : Cpu) where
  open c use {
    State, rdmsr, wrmsr, cpuid_ecx, cr0, cr3, cr4, set_cr0, set_cr4, vmxon, vmptrld, vmwrite,
    vmlaunch,
  }

  -- Step 0: `false` if the feature is locked without it.
  unfoldable pub unlock : State → Bool × State
  unlock s =
      let (lo, hi) = rdmsr s 0x3A in
      if bit_and lo 1 == 0
      then (true, wrmsr s 0x3A (bit_or lo 5) hi)
      else if bit_and lo 4 == 0
      then (false, s)
      else (true, s)

  -- Step 2: both control registers.
  unfoldable pub fix_cr4 : State → State
  fix_cr4 s = set_cr4 s (fix (bit_or (cr4 s) 0x2000) (rdmsr s 0x488).0 (rdmsr s 0x489).0)

  unfoldable pub fix_cr0 : State → State
  fix_cr0 s = set_cr0 s (fix (cr0 s) (rdmsr s 0x486).0 (rdmsr s 0x487).0)

  -- Steps 3 and 4: the revision goes to the start of each region.
  unfoldable pub start_vmx : VmxController → State → Bytes → Bool × State × Bytes
  start_vmx v s mem =
      let revision = (rdmsr s 0x480).0 in
      let with_on = store_word mem v.vmxon_region revision in
      let (off, on) = vmxon s with_on v.vmxon_region in
      let with_vmcs = store_word with_on v.vmcs_region revision in
      let (refused, loaded) = vmptrld on with_vmcs v.vmcs_region in
      if off then (false, on, with_on) else (not refused, loaded, with_vmcs)

  unfoldable pub enable : VmxController → State → Bytes → Bool × State × Bytes
  enable v s mem =
      let (allowed, unlocked) = unlock s in
      if allowed
      then if bit_and (cpuid_ecx unlocked 1) 32 == 0
        then (false, unlocked, mem)
        else start_vmx v (fix_cr0 (fix_cr4 unlocked)) mem
      else (false, unlocked, mem)

  unfoldable pub setup_guest : State → ℕ → ℕ → State
  setup_guest s entry_point stack_ptr =
      let linked = vmwrite s vmcs_link_pointer 0xFFFFFFFFFFFFFFFF in
      let entered = vmwrite linked guest_rip entry_point in
      let stacked = vmwrite entered guest_rsp stack_ptr in
      let first = vmwrite stacked host_cr0 (cr0 stacked) in
      let second = vmwrite first host_cr3 (cr3 stacked) in vmwrite second host_cr4 (cr4 stacked)

  -- It returns only if the instruction failed; the error is not looked at.
  unfoldable pub launch : State → State
  launch s = (vmlaunch s).1
