-- ===== src/Ahci/Setup.antt =====
-- `setup_port` of src/hal/ahci.hpp: a port is stopped, gets its structures in memory, and is started. The
-- registers of a port are hardware, with an interface for reading and writing them.
pub mod Structures
use emergence_os_bare_metal.Base.{
  ℕ, zero, suc, List, Bool, true, false, not, ◌||◌, Option, none, some, ◌==◌, if◌then◌else◌,
  bit_and, bit_or, u32,
}
use emergence_os_bare_metal.Memory.{PhysicalMemory, allocate}
use emergence_os_bare_metal.Memory.Bytes.{Bytes, kmemset}
use emergence_os_bare_metal.Vmx.{address_of}

pub record HbaPort : Type 1 where
  pub State : Type 0
  pub cmd : State → ℕ × State
  pub set_cmd : State → ℕ → State
  pub set_clb : State → ℕ → State
  pub set_clbu : State → ℕ → State
  pub set_fb : State → ℕ → State
  pub set_fbu : State → ℕ → State

-- The pointers that the driver keeps, as addresses; 0 is the null pointer.
pub record PortMemory : Type 0 where
  pub cmd_list_ : ℕ
  pub cmd_table_ : ℕ
  pub fis_base_ : ℕ

-- `sizeof(HBACommandTable)`.
abbrev pub table_bytes : ℕ
table_bytes = 144

-- The allocator is asked three times, and each piece is cleared; the result is never tested.
unfoldable pub make_structures : PhysicalMemory → Bytes → PortMemory × PhysicalMemory × Bytes
make_structures p mem =
    let first = allocate p 1024 in
    let second = allocate first.1 256 in
    let third = allocate second.1 table_bytes in
    let made : PortMemory = record {
      cmd_list_ = address_of first.0;
      fis_base_ = address_of second.0;
      cmd_table_ = address_of third.0;
    } in
    (
      made,
      third.1,
      kmemset (kmemset (kmemset mem made.cmd_list_ 0 1024) made.fis_base_ 0 256) made.cmd_table_ 0
          table_bytes,
    )

module _ (h : HbaPort) where
  open h use {State, cmd, set_cmd, set_clb, set_clbu, set_fb, set_fbu}

  -- `port->cmd &= mask`, then `port->cmd |= mask`.
  abbrev pub clear_bits : State → ℕ → State
  clear_bits s mask = let (word, s') = cmd s in set_cmd s' (bit_and word mask)

  abbrev pub set_bits : State → ℕ → State
  set_bits s mask = let (word, s') = cmd s in set_cmd s' (bit_or word mask)

  -- The endless wait, for as many rounds as `fuel`; the second bit is read only if the first is clear.
  unfoldable pub wait_stopped : ℕ → State → Option State
  wait_stopped zero s = none
  wait_stopped (suc fuel) s =
      let (first, s') = cmd s in
      let (second, s'') = cmd s' in
      let again = wait_stopped fuel s' in
      let later = wait_stopped fuel s'' in
      if bit_and first 0x8000 == 0
      then (if bit_and second 0x4000 == 0 then some s'' else later)
      else again

  unfoldable pub setup_port :
      ℕ → State → PhysicalMemory → Bytes → Option (State × PortMemory × PhysicalMemory × Bytes)
  setup_port fuel s p mem =
      let (made, p', mem') = make_structures p mem in
      elim (wait_stopped fuel (clear_bits (clear_bits s 0xFFFFFFFE) 0xFFFFFFEF)) [
        | none ↦ none
        | some stopped ↦
            let list = set_clbu (set_clb stopped (u32 made.cmd_list_)) 0 in
            let received = set_fbu (set_fb list (u32 made.fis_base_)) 0 in
            some (set_bits (set_bits received 0x10) 1, made, p', mem')
      ]
