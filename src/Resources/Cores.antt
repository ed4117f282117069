-- ===== src/Resources/Cores.antt =====
-- The count of active cores of src/mm/dynamic_allocator.hpp.
use emergence_os_bare_metal.Base.{
  ℕ, ◌+◌, ◌≡◌, ◌≢◌, refl, arith, min, max, List, ltb, ◌==◌, if◌then◌else◌,
}
use emergence_os_bare_metal.Resources.{
  AluMode, unused, available, force, invisible, DynamicResourceAllocator, isolate_core,
  set_active_cores, get_active_cores, count_one, isolated,
}

counted : (mode : AluMode) → mode ≢ unused → count_one mode ≡ 1
counted unused ne = absurd (ne refl)
counted available ne = refl
counted force ne = refl
counted invisible ne = refl

-- After `set_active_cores` as many cores are active as asked for, at most two. Setting a core aside
-- in a mode other than unused then counts it as active, and touches no other core.
pub get_active_cores_lem :
    (r : DynamicResourceAllocator) (n core_id : ℕ) (task : List ℕ) (mode : AluMode) (ram : ℕ)
    → mode ≢ unused
    → (get_active_cores (set_active_cores r n) ≡ min n 2)
      × (get_active_cores (isolate_core (set_active_cores r n) core_id task mode ram) ≡ (
          if ltb 1 core_id then min n 2 else if core_id == 1 then min n 1 + 1 else max 1 (min n 2)))
unfolding get_active_cores set_active_cores isolate_core isolated
get_active_cores_lem r n core_id task mode ram used =
    (ground arith, ground (arith, counted mode used))
