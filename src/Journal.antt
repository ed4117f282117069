-- ===== src/Journal.antt =====
-- src/vdev/residue_persistence.hpp: what differs from the expected noise goes to a journal on disk, and
-- comes back from it. The disk is the interface of src/vdev/substrate_io.hpp. The header names
-- `SPECULATIVE_ROUTE` and `inject_restored_atom`, which no file declares: the route is a parameter, and
-- the calls come out as a list. Prints are left out.
pub mod Records
pub mod Residues
pub mod Recovery
mod Tests
use emergence_os_bare_metal.Base.{
  ℕ, zero, suc, ◌+◌, ◌*◌, ◌/◌, List, [], ◌∷◌, ◌++◌, Bool, true, false, not, ◌&&◌, ◌||◌, Option,
  none, some, ltb, ◌==◌, if◌then◌else◌, bit_xor, u32, u64, length, take, drop, le_bytes, le_value,
}
use emergence_os_bare_metal.Bmt.Topology.{Seed}
use emergence_os_bare_metal.Manifold.{Value128, pack_route, image, value_of, phi_lo}

-- `SubstrateIO`: `read lba count` and `write lba count bytes`, in sectors of 512 bytes.
pub record SubstrateIo : Type 1 where
  pub State : Type 0
  pub read : State → ℕ → ℕ → List ℕ
  pub write : State → ℕ → ℕ → List ℕ → State

pub record ResidueRecord : Type 0 where
  pub vblock_idx : ℕ
  pub local_atom_idx : ℕ
  pub delta : Value128
  pub checksum : ℕ

-- The 30 bytes of the packed structure.
unfoldable pub record_bytes : ResidueRecord → List ℕ
record_bytes r =
    le_bytes 8 r.vblock_idx
    ++ (le_bytes 2 r.local_atom_idx ++ (image r.delta ++ le_bytes 4 r.checksum))

unfoldable pub record_of : List ℕ → ResidueRecord
record_of bytes = record {
  vblock_idx = le_value (take 8 bytes);
  local_atom_idx = le_value (take 2 (drop 8 bytes));
  delta = value_of (drop 2 (drop 8 bytes));
  checksum = le_value (take 4 (drop 16 (drop 2 (drop 8 bytes))));
}

unfoldable pub batch_bytes : List ResidueRecord → List ℕ
batch_bytes [] = []
batch_bytes (r ∷ rs) = record_bytes r ++ batch_bytes rs

abbrev pub journal_start_lba : ℕ
journal_start_lba = 8192

abbrev pub max_residues : ℕ
max_residues = 1000000

unfoldable pub calculate_checksum : ℕ → ℕ → Value128 → ℕ
calculate_checksum vblock_idx local_atom_idx delta =
    u32 (bit_xor (bit_xor (bit_xor vblock_idx local_atom_idx) delta.hi) delta.lo)

-- `expected_noise` and `baseline`; `junk` is what its unset `hi` happens to hold.
unfoldable pub noise : ℕ → Seed → ℕ → ℕ → ℕ → Value128
noise speculative_route master_seed junk vblock j = record {
  hi = (pack_route (record { hi = junk; lo = 0 }) speculative_route).hi;
  lo = bit_xor (bit_xor master_seed.lo (u64 (vblock * phi_lo))) j;
}

abbrev pub xor_value : Value128 → Value128 → Value128
xor_value v w = record { hi = bit_xor v.hi w.hi; lo = bit_xor v.lo w.lo }

-- A call `inject_restored_atom(vblock, local_atom, atom)`.
pub record Restored : Type 0 where
  pub vblock : ℕ
  pub local_atom : ℕ
  pub atom : Value128

pub data Scan : Type 0 where
  ended : ℕ → Scan
  corrupt : Scan
  full : Scan

-- How `recover_state` ends: without a disk, at the end of the journal with its length, in the endless
-- halt, or with no end found.
pub data Outcome : Type 0 where
  no_disk : Outcome
  resurrected : ℕ → Outcome
  halted : Outcome
  unended : Outcome

unfoldable pub is_end : ResidueRecord → Bool
is_end r = r.vblock_idx == 0 && r.local_atom_idx == 0 && r.delta.lo == 0

pub record PersistenceController (d : SubstrateIo) : Type 0 where
  pub current_journal_tail : ℕ
  pub disk : Option d.State

-- The parameters: the route, the seed and what unset memory holds.
module _ (speculative_route : ℕ) (master_seed : Seed) (junk : ℕ → ℕ → ℕ) where
  -- The loop of `commit_residue` from atom `j` on; a record is of the block and the atom.
  unfoldable pub journal_batch : ℕ → ℕ → List Value128 → List ResidueRecord
  journal_batch vblock j [] = []
  journal_batch vblock j (actual_atom ∷ atoms) =
      let residue =
        xor_value actual_atom (noise speculative_route master_seed (junk vblock j) vblock j) in
      let rest = journal_batch vblock (j + 1) atoms in
      if not (residue.hi == 0) || not (residue.lo == 0)
      then record {
        vblock_idx = vblock;
        local_atom_idx = j;
        delta = residue;
        checksum = calculate_checksum vblock j residue;
      }
        ∷ rest
      else rest

  unfoldable pub restored : ℕ → ℕ → ResidueRecord → Restored
  restored lba_offset i r = record {
    vblock = r.vblock_idx;
    local_atom = r.local_atom_idx;
    atom =
        xor_value
          (noise speculative_route master_seed (junk lba_offset i) r.vblock_idx r.local_atom_idx)
          r.delta;
  }

  -- The inner loop of `recover_state`, from record `i` on, `n` records.
  unfoldable pub scan_sector : ℕ → ℕ → ℕ → List ℕ → Scan × List Restored
  unfolding is_end restored
  scan_sector lba_offset zero i bytes = (full, [])
  scan_sector lba_offset (suc n) i bytes =
      let r = record_of bytes in
      let (end, later) = scan_sector lba_offset n (i + 1) (drop 30 bytes) in
      if is_end r
      then (ended i, [])
      else if not (calculate_checksum r.vblock_idx r.local_atom_idx r.delta == r.checksum)
      then (corrupt, [])
      else (end, restored lba_offset i r ∷ later)

  module _ (d : SubstrateIo) where
    open d use {State, read, write}

    -- `stack` is what lies in memory behind the filled part of `journal_batch`.
    unfoldable pub commit_residue :
        List ℕ → PersistenceController d → ℕ → List Value128 → PersistenceController d
    unfolding journal_batch
    commit_residue stack c vblock entries =
        let batch = journal_batch vblock 0 entries in
        let sectors_needed = length batch / 16 + 1 in
        let start_lba = journal_start_lba + c.current_journal_tail / 16 in
        let sent = take (sectors_needed * 512) (batch_bytes batch ++ stack) in
        elim c.disk [
          | none ↦ c
          | some s ↦
              if ltb 0 (length batch)
              then record {
                current_journal_tail = u64 (c.current_journal_tail + length batch);
                disk = some (write s start_lba sectors_needed sent);
              }
              else c
        ]

    -- The outer loop, `n` sectors from `lba_offset` on.
    unfoldable pub recover_sectors : State → ℕ → ℕ → Outcome × List Restored
    unfolding scan_sector
    recover_sectors s lba_offset zero = (unended, [])
    recover_sectors s lba_offset (suc n) =
        let (end, here) = scan_sector lba_offset 16 0 (read s (journal_start_lba + lba_offset) 1) in
        let (outcome, later) = recover_sectors s (lba_offset + 1) n in
        elim end [
          | ended i ↦ (resurrected (lba_offset * 16 + i), here)
          | corrupt ↦ (halted, here)
          | full ↦ (outcome, here ++ later)
        ]

    unfoldable pub recover_state :
        PersistenceController d → Outcome × List Restored × PersistenceController d
    unfolding recover_sectors
    recover_state c = elim c.disk [
      | none ↦ (no_disk, [], c)
      | some s ↦
          let (outcome, atoms) = recover_sectors s 0 (max_residues / 16) in
          (
            outcome,
            atoms,
            elim outcome [
              | resurrected tail ↦ record c { current_journal_tail = tail }
              | no_disk ↦ c
              | halted ↦ c
              | unended ↦ c
            ],
          )
    ]
