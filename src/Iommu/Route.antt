-- ===== src/Iommu/Route.antt =====
-- The route of a fault in src/hal/iommu_hybrid.hpp.
use emergence_os_bare_metal.Base.{
  ℕ, ◌-◌, ◌*◌, ◌/◌, ◌%◌, ◌^◌, ◌<◌, ◌≡◌, ap, ◌∙◌, arith, bit_xor, and_high, and_low, xor_cancel,
  xor-lt, xor_upper,
}
use emergence_os_bare_metal.Iommu.{phi_hi, calculate_emergent_route}

route_page :
    (vaddr : ℕ)
    → vaddr < 2 ^ 64
    → calculate_emergent_route vaddr ≡ bit_xor (vaddr / 4096) (phi_hi / 4096) * 4096
unfolding calculate_emergent_route
route_page vaddr h =
    let low : bit_xor vaddr phi_hi < 2 ^ 64 = xor-lt 64 vaddr phi_hi h (omega arith) in
    and_high 12 (bit_xor vaddr phi_hi) (2 ^ 52 - 1)
    ∙ ap (λ t. t * 4096) (and_low 52 (bit_xor vaddr phi_hi / 4096))
    ∙ omega (arith, xor_upper 12 vaddr phi_hi)

-- The route of an address is the start of a page, below 2 ^ 64, and the route of a route is the start of
-- the page of the address: no two pages have the same route.
pub calculate_emergent_route_twice :
    (vaddr : ℕ)
    → vaddr < 2 ^ 64
    → (calculate_emergent_route vaddr % 4096 ≡ 0)
      × (calculate_emergent_route vaddr < 2 ^ 64)
      × (calculate_emergent_route (calculate_emergent_route vaddr) ≡ vaddr / 4096 * 4096)
calculate_emergent_route_twice vaddr h =
    let page = bit_xor (vaddr / 4096) (phi_hi / 4096) in
    let once = route_page vaddr h in
    let low : page < 2 ^ 52 =
      xor-lt 52 (vaddr / 4096) (phi_hi / 4096) (omega arith) (omega arith) in
    let back : page * 4096 / 4096 ≡ page = omega arith in
    (
      omega (arith, once),
      omega (arith, once),
      ap calculate_emergent_route once
          ∙ route_page (page * 4096) (omega arith)
          ∙ ap (λ t. bit_xor t (phi_hi / 4096) * 4096) back
          ∙ ap (λ t. t * 4096) (xor_cancel (vaddr / 4096) (phi_hi / 4096)),
    )
