-- ===== src/Memory.antt =====
-- src/mm/memory.cpp: the allocator of physical memory, which only moves forward.
pub mod Bump
pub mod Bytes
mod Tests
use emergence_os_bare_metal.Base.{
  ℕ, suc, zero, ◌+◌, ◌-◌, ◌%◌, List, [], ◌∷◌, Bool, true, false, not, Option, none, some, ltb, leb,
  ◌==◌, if◌then◌else◌, u64,
}

pub record PhysicalMemory : Type 0 where
  pub current_address : ℕ
  pub max_address : ℕ

unfoldable pub start : ℕ → ℕ → PhysicalMemory
start first total = record { current_address = first; max_address = u64 (first + total) }

-- The next multiple of 16384.
abbrev pub aligned : ℕ → ℕ
aligned a = if a % 16384 == 0 then a else u64 (a + (16384 - a % 16384))

-- `none` is the null pointer; the alignment stays even then.
unfoldable pub allocate : PhysicalMemory → ℕ → Option ℕ × PhysicalMemory
allocate p size =
    let at_ = aligned p.current_address in
    if leb p.max_address (u64 (at_ + size))
    then (none, record p { current_address = at_ })
    else (some at_, record p { current_address = u64 (at_ + size) })

-- The addresses that a run of requests got, with their sizes, the failed ones left out.
unfoldable pub allocate_all : PhysicalMemory → List ℕ → List (ℕ × ℕ)
allocate_all p [] = []
allocate_all p (size ∷ sizes) =
    let (got, p') = allocate p size in
    let later = allocate_all p' sizes in elim got [ none ↦ later | some a ↦ (a, size) ∷ later ]
