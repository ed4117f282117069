-- ===== src/Vmx/Tests.antt =====
-- A run of src/core/vmx_impl.hpp on a processor with the extensions.
use emergence_os_bare_metal.Base.{
  ◌<◌, ℕ, ◌+◌, ◌%◌, ◌≤◌, ◌≡◌, ◌⊎◌, refl, arith, true, false, ◌||◌, ◌==◌, if◌then◌else◌, digit,
}
use emergence_os_bare_metal.Memory.{PhysicalMemory}
use emergence_os_bare_metal.Memory.Bytes.{Bytes, is_in}
use emergence_os_bare_metal.Vmx.{Cpu, VmxController, unlock, enable, construct}
use emergence_os_bare_metal.Vmx.Fixed.{IsFixed, IsCpu, AreKept, passes, enable_lem}
use emergence_os_bare_metal.Vmx.Regions.{construct_lem}

-- The two control registers.
record Registers : Type 0 where
  zero_ : ℕ
  four : ℕ

abbrev capabilities : ℕ → ℕ × ℕ
capabilities n =
    if n == 0x3A
    then (5, 0)
    else if n == 0x480
    then (1, 0)
    else if n == 0x486
    then (0x80000021, 0)
    else if n == 0x487
    then (0xFFFFFFFF, 0)
    else if n == 0x488
    then (0x2000, 0)
    else (0x3767FF, 0)

abbrev guest_cpu : Cpu
guest_cpu = record {
  State = Registers;
  rdmsr = λ s n. capabilities n;
  wrmsr = λ s n lo hi. s;
  cpuid_ecx = λ s n. 0x20;
  cr0 = λ s. s.zero_;
  cr3 = λ s. 0;
  cr4 = λ s. s.four;
  set_cr0 = λ s v. record s { zero_ = v };
  set_cr4 = λ s v. record s { four = v };
  vmxon = λ s mem a. (false, s);
  vmptrld = λ s mem a. (false, s);
  vmwrite = λ s field v. s;
  vmlaunch = λ s. (true, s);
}

guest-IsCpu : IsCpu guest_cpu
guest-IsCpu = record {
  cr4_set = λ s v. refl;
  cr0_set = λ s v. refl;
  cr4_apart = λ s v. refl;
  cr4_wrmsr = λ s n lo hi. refl;
  cr0_wrmsr = λ s n lo hi. refl;
  rdmsr_wrmsr = λ s n m lo hi h. refl;
  rdmsr_cr4 = λ s v m. refl;
  cr4_vmxon = λ s mem a. refl;
  cr0_vmxon = λ s mem a. refl;
  cr4_vmptrld = λ s mem a. refl;
  cr0_vmptrld = λ s mem a. refl;
}

abbrev regions : VmxController
regions = record { vmxon_region = 0x2000000; vmcs_region = 0x2004000 }

abbrev booted : Registers
booted = record { zero_ = 0x80000011; four = 0x20 }

abbrev no_bytes : Bytes
no_bytes a = 0

enable_lem_example :
    ((passes guest_cpu booted ≡ false)
      × (enable guest_cpu regions booted no_bytes ≡ (false, (unlock guest_cpu booted).1, no_bytes))
      × AreKept guest_cpu guest-IsCpu booted (unlock guest_cpu booted).1)
    ⊎ ((passes guest_cpu booted ≡ true)
        × IsFixed (enable guest_cpu regions booted no_bytes).1.four 0x2000 0x3767FF
        × IsFixed (enable guest_cpu regions booted no_bytes).1.zero_ 0x80000021 0xFFFFFFFF
        × (digit 13 (enable guest_cpu regions booted no_bytes).1.four ≡ digit 13 0x3767FF))
enable_lem_example = enable_lem guest_cpu guest-IsCpu regions booted no_bytes refl refl

abbrev boot_memory : PhysicalMemory
boot_memory = record { current_address = 0x2000000; max_address = 0x42000000 }

construct_lem_example :
    (let v = (construct boot_memory no_bytes).0 in
      (v.vmxon_region % 16384 ≡ 0)
      × (0x2000000 ≤ v.vmxon_region)
      × (v.vmxon_region < 0x2000000 + 16384)
      × (v.vmcs_region ≡ v.vmxon_region + 16384)
      × ((construct boot_memory no_bytes).2 7
          ≡ (if is_in v.vmxon_region 4096 7 || is_in v.vmcs_region 4096 7 then 0 else 0)))
construct_lem_example =
    construct_lem boot_memory no_bytes 7 (record { room = omega arith; end = omega arith })
