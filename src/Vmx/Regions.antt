-- ===== src/Vmx/Regions.antt =====
-- The regions that the constructor of src/core/vmx_impl.hpp sets up.
use emergence_os_bare_metal.Base.{
  ℕ, ◌+◌, ◌%◌, ◌^◌, ◌≤◌, ◌<◌, ◌≡◌, refl, ap, ◌∙◌, arith, Bool, true, false, ◌||◌, if◌then◌else◌,
}
use emergence_os_bare_metal.Memory.{PhysicalMemory, aligned}
use emergence_os_bare_metal.Memory.Bump.{allocate-some}
use emergence_os_bare_metal.Memory.Bytes.{Bytes, kmemset, is_in, kmemset_lem}
use emergence_os_bare_metal.Vmx.{construct}

-- There is room for both regions.
pub record HasRoom (p : PhysicalMemory) : Type 0 where
  pub room : p.current_address + 40960 < p.max_address
  pub end : p.max_address < 2 ^ 62

-- With room for them, the first region is at the next multiple of 16384 from the current address of the
-- allocator on, less than 16384 bytes further, and the second is at the multiple behind it. Both are
-- filled with zeros, and nothing else in memory changes.
pub construct_lem :
    (p : PhysicalMemory) (mem : Bytes) (a : ℕ)
    → HasRoom p
    → (let v = (construct p mem).0 in
        (v.vmxon_region % 16384 ≡ 0)
        × (p.current_address ≤ v.vmxon_region)
        × (v.vmxon_region < p.current_address + 16384)
        × (v.vmcs_region ≡ v.vmxon_region + 16384)
        × ((construct p mem).2 a
            ≡ (if is_in v.vmxon_region 4096 a || is_in v.vmcs_region 4096 a then 0 else mem a)))
unfolding construct
construct_lem p mem a room =
    let on = aligned p.current_address in
    let first = allocate-some p 4096 (omega (arith, room.room)) room.end in
    let next : PhysicalMemory = record p { current_address = on + 4096 } in
    let ok : on + 4096 + 16384 + 4096 < p.max_address =
      near p.current_address p.max_address room.room room.end in
    let second = allocate-some next 4096 ok room.end in
    let place : aligned (on + 4096) ≡ on + 16384 =
      following p.current_address p.max_address room.room room.end in
    rw (construct, first, second, place)
      (
        on_boundary p.current_address p.max_address room.room room.end,
        behind p.current_address p.max_address room.room room.end,
        near_by p.current_address p.max_address room.room room.end,
        refl,
        kmemset_lem (kmemset mem on 0 4096) (on + 16384) 0 4096 a
            ∙ ap (λ t. if is_in (on + 16384) 4096 a then 0 else t) (kmemset_lem mem on 0 4096 a)
            ∙ either (is_in (on + 16384) 4096 a) (is_in on 4096 a) (mem a),
      )
  where
    near : (c m : ℕ) → c + 40960 < m → m < 2 ^ 62 → aligned c + 4096 + 16384 + 4096 < m
    near c m h k = ground arith

    following :
        (c m : ℕ) → c + 40960 < m → m < 2 ^ 62 → aligned (aligned c + 4096) ≡ aligned c + 16384
    following c m h k = ground arith

    on_boundary : (c m : ℕ) → c + 40960 < m → m < 2 ^ 62 → aligned c % 16384 ≡ 0
    on_boundary c m h k = ground arith

    behind : (c m : ℕ) → c + 40960 < m → m < 2 ^ 62 → c ≤ aligned c
    behind c m h k = ground arith

    either :
        (x y : Bool) (m : ℕ) → (if x then 0 else if y then 0 else m) ≡ (if y || x then 0 else m)
    either true true m = refl
    either true false m = refl
    either false true m = refl
    either false false m = refl

    near_by : (c m : ℕ) → c + 40960 < m → m < 2 ^ 62 → aligned c < c + 16384
    near_by c m h k = ground arith
