-- ===== src/Service.antt =====
-- src/vdev/substrate_service.hpp: sectors of 512 bytes served from the manifold, and their residue
-- sent to a disk. Calls of `physical_disk_->write` come out as a list of (lba, bytes set in the sector).
pub mod Sector
pub mod VirtioBlk
mod Tests
use emergence_os_bare_metal.Base.{
  ℕ, zero, suc, ◌+◌, ◌-◌, ◌*◌, ◌/◌, ◌%◌, ◌^◌, List, [], ◌∷◌, ◌++◌, Bool, true, false, Option, none,
  some, ltb, leb, if◌then◌else◌, length, take, drop, u32, u64,
}
use emergence_os_bare_metal.Bmt.Keys.{Pair}
use emergence_os_bare_metal.Manifold.{Manifold, image, holographic_fetch, materialize_range}
use emergence_os_bare_metal.SubShannon.{phase_fold}

pub record SubstrateService : Type 0 where
  pub manifold : Manifold
  pub has_disk : Bool
  pub virtual_capacity_bytes : ℕ
  pub highest_accessed_vaddr : ℕ
  pub preemption_horizon : ℕ
  pub total_bytes_written : ℕ
  pub correction_bytes_stored : ℕ

-- The capacity depends on the build.
unfoldable pub start : Manifold → Bool → ℕ → SubstrateService
start m has_disk capacity = record {
  manifold = m;
  has_disk = has_disk;
  virtual_capacity_bytes = capacity;
  highest_accessed_vaddr = 0;
  preemption_horizon = 0;
  total_bytes_written = 1;
  correction_bytes_stored = 1;
}

unfoldable pub get_match_rate_scaled : SubstrateService → ℕ
get_match_rate_scaled s =
    u64 (10000 + (2 ^ 64 - u64 (s.correction_bytes_stored * 10000) / s.total_bytes_written))

abbrev pub DiskWrite : Type 0
DiskWrite = ℕ × List ℕ

abbrev pub test_seed : Pair
test_seed = record { a = 0x1234567890ABCDEF; b = 0xABCDEF0123456789 }

-- What the loop of `serve_write` does with a disk; `none` where the fold writes past the end of an array.
unfoldable pub persist_sector :
    SubstrateService → Manifold → ℕ → List ℕ → Option (SubstrateService × List DiskWrite)
persist_sector s m current_lba sector = elim (phase_fold test_seed 512 sector) [
  | none ↦ none
  | some residue ↦ some (
    record s {
      manifold = m;
      total_bytes_written = u64 (s.total_bytes_written + 512);
      correction_bytes_stored = u64 (s.correction_bytes_stored + length residue);
    },
    (u64 (16384 + current_lba * 2), residue) ∷ [],
  )
]

-- The body of the loop.
unfoldable pub write_sector :
    SubstrateService → ℕ → List ℕ → Option (SubstrateService × List DiskWrite)
write_sector s current_lba sector =
    let m = materialize_range s.manifold (u64 (current_lba * 512)) sector in
    if s.has_disk
    then persist_sector s m current_lba sector
    else some (record s { manifold = m }, [])

-- The result of the call is always `true`.
unfoldable pub serve_write :
    SubstrateService → ℕ → ℕ → List ℕ → Option (SubstrateService × List DiskWrite)
serve_write s lba zero guest_buffer = some (s, [])
serve_write s lba (suc n) guest_buffer = elim (write_sector s lba (take 512 guest_buffer)) [
  | none ↦ none
  | some (s', here) ↦ elim (serve_write s' (u64 (lba + 1)) n (drop 512 guest_buffer)) [
    | none ↦ none
    | some (s'', later) ↦ some (s'', here ++ later)
  ]
]

-- `n` values of a sector from the one at `offset` on.
unfoldable pub read_atoms : Manifold → ℕ → ℕ → ℕ → List ℕ
read_atoms m vaddr offset zero = []
read_atoms m vaddr offset (suc n) =
    image (holographic_fetch m (u64 (vaddr + offset))) ++ read_atoms m vaddr (offset + 16) n

-- What is copied to the guest, and whether all sectors lie below the capacity.
unfoldable pub read_sectors : SubstrateService → ℕ → ℕ → Bool × List ℕ
read_sectors s lba zero = (true, [])
read_sectors s lba (suc n) =
    let vaddr = u64 (lba * 512) in
    let sector = read_atoms s.manifold vaddr 0 32 in
    let (ok, later) = read_sectors s (u64 (lba + 1)) n in
    if leb s.virtual_capacity_bytes vaddr then (false, []) else (ok, sector ++ later)

-- `sector_count * 512` is a 32-bit product.
abbrev pub touch : SubstrateService → ℕ → ℕ → SubstrateService
touch s guest_lba sector_count =
    let start_vaddr = u64 (guest_lba * 512) in
    if leb s.highest_accessed_vaddr start_vaddr
    then record s {
      highest_accessed_vaddr = start_vaddr;
      preemption_horizon = u64 (start_vaddr + u32 (sector_count * 512));
    }
    else s

unfoldable pub serve_read : SubstrateService → ℕ → ℕ → (Bool × List ℕ) × SubstrateService
serve_read s guest_lba sector_count =
    let s' = touch s guest_lba sector_count in (read_sectors s' guest_lba sector_count, s')

-- The values fetched ahead are dropped: only the horizon moves.
unfoldable pub horizon_after : ℕ → ℕ → ℕ → ℕ
horizon_after capacity target zero = target
horizon_after capacity target (suc n) =
    let later = horizon_after capacity (u64 (target + 16)) n in
    if leb capacity target then target else later

unfoldable pub utilize_idle_cycles : SubstrateService → ℕ → SubstrateService
utilize_idle_cycles s hint = record s {
  preemption_horizon = horizon_after s.virtual_capacity_bytes s.preemption_horizon hint;
}
