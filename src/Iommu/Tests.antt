-- ===== src/Iommu/Tests.antt =====
-- A fault in src/hal/iommu_hybrid.hpp.
use emergence_os_bare_metal.Base.{◌*◌, ◌/◌, ◌%◌, ◌^◌, ◌<◌, ◌≡◌, arith}
use emergence_os_bare_metal.Iommu.{calculate_emergent_route}
use emergence_os_bare_metal.Iommu.Route.{calculate_emergent_route_twice}

calculate_emergent_route_twice_example :
    (calculate_emergent_route 0x12345678 % 4096 ≡ 0)
    × (calculate_emergent_route 0x12345678 < 2 ^ 64)
    × (calculate_emergent_route (calculate_emergent_route 0x12345678) ≡ 0x12345678 / 4096 * 4096)
calculate_emergent_route_twice_example = calculate_emergent_route_twice 0x12345678 (omega arith)
