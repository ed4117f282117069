-- ===== src/Ahci.antt =====
-- src/hal/ahci.hpp: finding the port of a disk and sending it a command. The registers of the controller
-- are hardware: an interface says what reading and writing them does. Prints are left out.
pub mod Command
pub mod Waiting
pub mod Setup
mod Tests
use emergence_os_bare_metal.Base.{
  ℕ, zero, suc, ◌+◌, ◌-◌, ◌*◌, ◌/◌, ◌%◌, ◌^◌, List, [], ◌∷◌, ◌++◌, Bool, true, false, not, ◌&&◌,
  ◌||◌, Option, none, some, ◌==◌, if◌then◌else◌, replicate, bit_and, bit_or, u32, ◌<<<◌, ◌>>>◌,
}

pub record HbaPrdtEntry : Type 0 where
  pub dba : ℕ
  pub dbau : ℕ
  pub dbc : ℕ
  pub i : ℕ

-- `cfis` has its 64 bytes.
pub record HbaCommandTable : Type 0 where
  pub cfis : List ℕ
  pub prdt_entry : HbaPrdtEntry

-- The fields that the driver sets.
pub record HbaCommandHeader : Type 0 where
  pub cfl : ℕ
  pub w : ℕ
  pub prdtl : ℕ
  pub ctba : ℕ
  pub ctbau : ℕ

-- `(count << 9) - 1` on 32 bits, in a field of 31.
unfoldable pub byte_count : ℕ → ℕ
byte_count count = u32 (u32 (count <<< 9) + 4294967295) % 2 ^ 31

unfoldable pub command_fis : ℕ → ℕ → Bool → List ℕ
command_fis lba count write =
    (0x27
      ∷ 0x80
      ∷ (if write then 0x35 else 0x25)
      ∷ 0
      ∷ lba % 256
      ∷ (lba >>> 8) % 256
      ∷ (lba >>> 16) % 256
      ∷ 0x40
      ∷ (lba >>> 24) % 256
      ∷ (lba >>> 32) % 256
      ∷ (lba >>> 40) % 256
      ∷ 0
      ∷ count % 256
      ∷ (count >>> 8) % 256
      ∷ [])
    ++ replicate 50 0

-- `buffer` and `cmd_table` are addresses.
unfoldable pub command_table : ℕ → ℕ → ℕ → Bool → HbaCommandTable
command_table lba count buffer write = record {
  cfis = command_fis lba count write;
  prdt_entry = record { dba = u32 buffer; dbau = 0; dbc = byte_count count; i = 1 };
}

unfoldable pub command_header : ℕ → Bool → HbaCommandHeader
command_header cmd_table write = record {
  cfl = 5;
  w = if write then 1 else 0;
  prdtl = 1;
  ctba = u32 cmd_table;
  ctbau = 0;
}

-- The ports of the controller: reads of `tfd`, `ci`, `is` and `ssts` of a port, and `ci = 1` with the
-- header and the table that the controller then finds in memory.
pub record Hba : Type 1 where
  pub State : Type 0
  pub ports_implemented : State → ℕ
  pub ssts : State → ℕ → ℕ
  pub tfd : State → ℕ → ℕ × State
  pub ci : State → ℕ → ℕ × State
  pub is_status : State → ℕ → ℕ × State
  pub issue : State → ℕ → HbaCommandHeader → HbaCommandTable → State

module _ (h : Hba) where
  open h use {State, ports_implemented, ssts, tfd, ci, is_status, issue}

  -- The loop of `initialize`, `n` ports from `i` on: the port that becomes active.
  unfoldable pub find_port : State → ℕ → ℕ → Option ℕ
  find_port s i zero = none
  find_port s i (suc n) =
      let rest = find_port s (i + 1) n in
      if (ports_implemented s >>> i) % 2 == 1 && ssts s i % 16 == 3 then some i else rest

  unfoldable pub active_port : State → Option ℕ
  active_port s = find_port s 0 32

  abbrev pub is_busy : ℕ → Bool
  is_busy word = not (bit_and word 0x88 == 0)

  -- The wait for the port with `n` more polls: whether it came to be ready before the last.
  unfoldable pub wait_ready : State → ℕ → ℕ → Bool × State
  wait_ready s port zero = (false, (tfd s port).1)
  wait_ready s port (suc n) =
      let (word, s') = tfd s port in
      let later = wait_ready s' port n in if is_busy word then later else (true, s')

  -- The endless wait for the end of the command, for as many rounds as `fuel`.
  unfoldable pub wait_done : State → ℕ → ℕ → Option Bool × State
  wait_done s port zero = (none, s)
  wait_done s port (suc fuel) =
      let (pending, s') = ci s port in
      let (status, s'') = is_status s' port in
      let later = wait_done s'' port fuel in
      if pending % 2 == 0
      then (some true, s')
      else if (status >>> 30) % 2 == 1
      then (some false, s'')
      else later

  -- `none` as the port is no active port.
  unfoldable pub issue_command : ℕ → ℕ → State → Option ℕ → ℕ → ℕ → ℕ → Bool → Option Bool × State
  issue_command fuel cmd_table s port lba count buffer write = elim port [
    | none ↦ (some false, s)
    | some p ↦
        let (ready, s') = wait_ready s p 1000000 in
        let sent =
          issue s' p (command_header cmd_table write) (command_table lba count buffer write) in
        let done = wait_done sent p fuel in if ready then done else (some false, s')
  ]
