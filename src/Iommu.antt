-- ===== src/Iommu.antt =====
-- src/hal/iommu_hybrid.hpp on x86-64: the faults of devices. Writes of registers come out as a list.
pub mod Route
mod Tests
use emergence_os_bare_metal.Base.{
  ℕ, List, [], ◌∷◌, Bool, true, false, Option, ◌==◌, if◌then◌else◌, bit_and, bit_xor,
}
use emergence_os_bare_metal.Memory.{PhysicalMemory, allocate}
use emergence_os_bare_metal.Vmx.{address_of}

abbrev pub phi_hi : ℕ
phi_hi = 0x9E3779B97F4A7C15

-- The registers by their addresses; 0 is the null pointer.
pub record IommuController : Type 0 where
  pub root_table_phys : ℕ
  pub spoofing_active : Bool
  pub dmar_fault_status : ℕ
  pub dmar_fault_clear : ℕ

-- The constructor leaves the two pointers as memory held them.
unfoldable pub construct : ℕ → ℕ → IommuController
construct status clear = record {
  root_table_phys = 0;
  spoofing_active = true;
  dmar_fault_status = status;
  dmar_fault_clear = clear;
}

-- `enable_dmar` has an empty body, and the print is left out.
unfoldable pub initialize : IommuController → PhysicalMemory → IommuController × PhysicalMemory
initialize c p =
    let (got, p') = allocate p 4096 in
    (
      record c {
        root_table_phys = address_of got;
        dmar_fault_status = 0xFED91034;
        dmar_fault_clear = 0xFED91038;
      },
      p',
    )

unfoldable pub calculate_emergent_route : ℕ → ℕ
calculate_emergent_route vaddr = bit_and (bit_xor vaddr phi_hi) 0xFFFFFFFFFFFFF000

-- A write of a 32-bit register: its address and the value.
unfoldable pub resume_dma_transaction : IommuController → List (ℕ × ℕ)
resume_dma_transaction c =
    if c.dmar_fault_clear == 0 then [] else (c.dmar_fault_clear, 0x80000000) ∷ []

-- `map_page` has an empty body, so the route that it gets has no effect.
unfoldable pub handle_dma_fault : IommuController → List (ℕ × ℕ)
handle_dma_fault c = if c.spoofing_active then resume_dma_transaction c else []
