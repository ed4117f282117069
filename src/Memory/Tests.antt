-- ===== src/Memory/Tests.antt =====
-- A run of src/mm/memory.cpp with a request in the middle that is too large.
use emergence_os_bare_metal.Base.{ℕ, arith, List, [], ◌∷◌, inl}
use emergence_os_bare_metal.Memory.Bytes.{Bytes}
use emergence_os_bare_metal.Memory.{PhysicalMemory, allocate_all}
use emergence_os_bare_metal.Memory.Bump.{AreApart, allocate_all-AreApart}

abbrev small : PhysicalMemory
small = record { current_address = 100; max_address = 100000 }

abbrev sizes : List ℕ
sizes = 20000 ∷ 90000 ∷ 300 ∷ []

allocate_all-AreApart_example : AreApart 100 100000 (allocate_all small sizes)
allocate_all-AreApart_example =
    allocate_all-AreApart sizes small (inl (omega arith), omega arith)
      (omega arith, (omega arith, (omega arith, tt)))

abbrev counted : Bytes
counted a = a
