-- ===== src/Resources.antt =====
-- src/mm/dynamic_allocator.hpp: the two cores and what they are set aside for. The prints to the
-- console are left out.
pub mod Cores
use emergence_os_bare_metal.Base.{
  ℕ, ◌+◌, List, [], ◌∷◌, Bool, true, false, ltb, leb, ◌==◌, if◌then◌else◌, u32,
}

pub data AluMode : Type 0 where
  unused available force invisible : AluMode

-- The task is a text, as its characters.
pub record CpuCore : Type 0 where
  pub id : ℕ
  pub topological_mode : AluMode
  pub ram_allocated_mb : ℕ
  pub is_isolated : Bool
  pub current_task : List ℕ

-- `cores` has the two fields of the array.
pub record DynamicResourceAllocator : Type 0 where
  pub core0 : CpuCore
  pub core1 : CpuCore
  pub total_ram_mb : ℕ
  pub active_nodes : ℕ

-- "System".
abbrev pub system_task : List ℕ
system_task = 83 ∷ 121 ∷ 115 ∷ 116 ∷ 101 ∷ 109 ∷ []

unfoldable pub start : ℕ → DynamicResourceAllocator
start total_ram = record {
  core0 = record {
    id = 0;
    topological_mode = available;
    ram_allocated_mb = 0;
    is_isolated = false;
    current_task = system_task;
  };
  core1 = record {
    id = 1;
    topological_mode = available;
    ram_allocated_mb = 0;
    is_isolated = false;
    current_task = system_task;
  };
  total_ram_mb = total_ram;
  active_nodes = 1;
}

unfoldable pub isolated : CpuCore → List ℕ → AluMode → ℕ → CpuCore
isolated core task mode ram = record core {
  is_isolated = true;
  topological_mode = mode;
  ram_allocated_mb = ram;
  current_task = task;
}

unfoldable pub isolate_core :
    DynamicResourceAllocator → ℕ → List ℕ → AluMode → ℕ → DynamicResourceAllocator
isolate_core r core_id task mode ram =
    if ltb 1 core_id
    then r
    else if core_id == 0
    then record r { core0 = isolated r.core0 task mode ram }
    else record r { core1 = isolated r.core1 task mode ram }

abbrev pub mode_below : ℕ → ℕ → AluMode
mode_below i num_cores = if ltb i num_cores then available else unused

unfoldable pub set_active_cores : DynamicResourceAllocator → ℕ → DynamicResourceAllocator
set_active_cores r num_cores =
    let n = if ltb 2 num_cores then 2 else num_cores in
    record r {
      core0 = record r.core0 { topological_mode = mode_below 0 n };
      core1 = record r.core1 { topological_mode = mode_below 1 n };
    }

abbrev pub count_one : AluMode → ℕ
count_one unused = 0
count_one _ = 1

unfoldable pub get_active_cores : DynamicResourceAllocator → ℕ
get_active_cores r = count_one r.core0.topological_mode + count_one r.core1.topological_mode

unfoldable pub fold_manifold : DynamicResourceAllocator → DynamicResourceAllocator
fold_manifold r = record r { active_nodes = u32 (r.active_nodes + 1) }
