-- ===== src/Service/Sector.antt =====
-- A sector that is written through src/vdev/substrate_service.hpp is read back.
use emergence_os_bare_metal.Base.{
  ℕ, zero, suc, ◌+◌, ◌-◌, ◌*◌, ◌%◌, ◌^◌, ◌<◌, ◌≤◌, ◌≡◌, refl, sym, ap, ap₂, ◌∙◌, arith, List, [],
  ◌∷◌, ◌++◌, true, false, leb, length, take, drop, u64, append-nil, take_all, drop_all, length-take,
  length-drop, IsBytes, IsBytes-take, IsBytes-drop, le_bytes, le_value, le_bytes-le_value,
  take-append-take-drop, Bool, some, Option, ◌⊎◌, inl, inr, if◌then◌else◌,
}
use emergence_os_bare_metal.SubShannon.{phase_fold}
use emergence_os_bare_metal.Manifold.{
  Manifold, image, value_of, holographic_fetch, materialize_range,
}
use emergence_os_bare_metal.Manifold.Fetch.{fetch-materialize_self}
use emergence_os_bare_metal.Service.{
  SubstrateService, DiskWrite, test_seed, persist_sector, write_sector, serve_write, read_atoms,
  read_sectors, serve_read, touch,
}

eight : (bs : List ℕ) → length bs ≡ 8 → IsBytes bs → le_bytes 8 (le_value bs) ≡ bs
eight bs l h =
    let none_more : 8 - length bs ≡ 0 = omega arith in
    le_bytes-le_value 8 bs (omega arith) h ∙ rw none_more (append-nil bs)

-- Sixteen bytes are the image of the value that they make.
image-value_of : (bs : List ℕ) → length bs ≡ 16 → IsBytes bs → image (value_of bs) ≡ bs
unfolding image value_of
image-value_of bs l h =
    ap₂ ◌++◌ (eight (take 8 bs) (omega (arith, length-take 8 bs)) (IsBytes-take 8 bs h)) (
      eight (take 8 (drop 8 bs)) (omega (arith, length-take 8 (drop 8 bs), length-drop 8 bs))
        (IsBytes-take 8 (drop 8 bs) (IsBytes-drop 8 bs h)))
    ∙ take-append-take-drop 8 8 bs
    ∙ take_all 16 bs (omega arith)

drop-drop : (n m : ℕ) (bs : List ℕ) → drop n (drop m bs) ≡ drop (m + n) bs
drop-drop n zero bs = ap (λ t. drop t bs) (omega arith)
drop-drop n (suc m) [] = drop_all n [] (omega arith) ∙ sym (drop_all (suc m + n) [] (omega arith))
drop-drop n (suc m) (b ∷ bs) =
    let next : suc m + n ≡ suc (m + n) = omega arith in rw next (drop-drop n m bs)

-- The values of a sector from the `k`-th on.
read_atoms-materialize :
    (m : Manifold) (vaddr k n : ℕ) (sector : List ℕ)
    → vaddr < 2 ^ 64
    → vaddr % 512 ≡ 0
    → length sector ≡ 512
    → IsBytes sector
    → k + n ≤ 32
    → read_atoms (materialize_range m vaddr sector) vaddr (16 * k) n
      ≡ take (16 * n) (drop (16 * k) sector)
unfolding read_atoms
read_atoms-materialize m vaddr k zero sector v a l b h = refl
read_atoms-materialize m vaddr k (suc n) sector v a l b h =
    let later : read_atoms after vaddr (16 * k + 16) n
        ≡ take (16 * n) (drop 16 (drop (16 * k) sector)) =
      ap (λ o. read_atoms after vaddr o n) (omega arith)
      ∙ read_atoms-materialize m vaddr (k + 1) n sector v a l b (omega arith)
      ∙ ap (take (16 * n))
          (ap (λ t. drop t sector) (omega arith) ∙ sym (drop-drop 16 (16 * k) sector)) in
    ap₂ ◌++◌ here later
    ∙ take-append-take-drop 16 (16 * n) (drop (16 * k) sector)
    ∙ ap (λ t. take t (drop (16 * k) sector)) (omega arith)
  where
    after : Manifold
    after = materialize_range m vaddr sector

    part : List ℕ
    part = take 16 (drop (16 * k) sector)

    here : image (holographic_fetch after (u64 (vaddr + 16 * k))) ≡ part
    here =
        ap (λ x. image (holographic_fetch after x)) (omega arith)
        ∙ ap image (fetch-materialize_self m vaddr k sector (omega arith) (omega arith))
        ∙ image-value_of part
            (omega (arith, length-take 16 (drop (16 * k) sector), length-drop (16 * k) sector))
            (IsBytes-take 16 (drop (16 * k) sector) (IsBytes-drop (16 * k) sector b))

-- There is no disk, or the folded residue of the sector has room in the arrays of the fold.
abbrev pub IsStorable : SubstrateService → List ℕ → Type 0
IsStorable s sector =
    (s.has_disk ≡ false) ⊎ ((residue : List ℕ) × (phase_fold test_seed 512 sector ≡ some residue))

-- The service after a write, with and without a disk.
abbrev IsStored : SubstrateService → Manifold → Option (SubstrateService × List DiskWrite) → Type 0
IsStored s m result =
    (s' : SubstrateService) × (writes : List DiskWrite) × (result ≡ some (s', writes))
    × (s'.manifold ≡ m)
    × (s'.virtual_capacity_bytes ≡ s.virtual_capacity_bytes)

write_sector_lem :
    (s : SubstrateService) (lba : ℕ) (sector : List ℕ)
    → IsStorable s sector
    → IsStored s (materialize_range s.manifold (u64 (lba * 512)) sector) (write_sector s lba sector)
unfolding write_sector persist_sector
write_sector_lem s lba sector (inl no_disk) =
    let m = materialize_range s.manifold (u64 (lba * 512)) sector in
    (
      record s { manifold = m },
      [],
      without s.has_disk (persist_sector s m lba sector) (some (record s { manifold = m }, []))
          no_disk,
      refl,
      refl,
    )
  where
    without :
        (disk : Bool) (x y : Option (SubstrateService × List DiskWrite))
        → disk ≡ false
        → (if disk then x else y) ≡ y
    without disk x y e = rw e refl
write_sector_lem s lba sector (inr (residue, folded)) = of_disk s.has_disk
  where
    m : Manifold
    m = materialize_range s.manifold (u64 (lba * 512)) sector

    of_disk :
        (disk : Bool)
        → IsStored s m
            (if disk then persist_sector s m lba sector else some (record s { manifold = m }, []))
    of_disk true = (
      record s {
        manifold = m;
        total_bytes_written = u64 (s.total_bytes_written + 512);
        correction_bytes_stored = u64 (s.correction_bytes_stored + length residue);
      },
      (u64 (16384 + lba * 2), residue) ∷ [],
      rw (persist_sector, folded) refl,
      refl,
      refl,
    )
    of_disk false = (record s { manifold = m }, [], refl, refl, refl)

-- One sector below the capacity.
read_one :
    (s : SubstrateService) (lba : ℕ)
    → u64 (lba * 512) < s.virtual_capacity_bytes
    → read_sectors s lba 1 ≡ (true, read_atoms s.manifold (u64 (lba * 512)) 0 32 ++ [])
unfolding read_sectors
read_one s lba h =
    let below : leb s.virtual_capacity_bytes (u64 (lba * 512)) ≡ false = ground arith in
    rw below refl

touched :
    (s : SubstrateService) (lba n : ℕ)
    → ((touch s lba n).manifold ≡ s.manifold)
      × ((touch s lba n).virtual_capacity_bytes ≡ s.virtual_capacity_bytes)
touched s lba n = (ground arith, ground arith)

-- A sector below the capacity that is written is read back whole, without a disk, and with one as long as
-- the fold of the sector stays within its arrays, the last of which has 512 bytes.
pub serve_read-serve_write :
    (s : SubstrateService) (lba : ℕ) (sector : List ℕ)
    → u64 (lba * 512) < s.virtual_capacity_bytes
    → length sector ≡ 512
    → IsBytes sector
    → IsStorable s sector
    → (s' : SubstrateService) × (writes : List DiskWrite) × (serve_write s lba 1 sector
        ≡ some (s', writes))
      × ((serve_read s' lba 1).0 ≡ (true, sector))
unfolding serve_read serve_write
serve_read-serve_write s lba sector c l b fits =
    let vaddr = u64 (lba * 512) in
    let whole : take 512 sector ≡ sector = take_all 512 sector (omega arith) in
    let one = write_sector_lem s lba sector fits in
    let after = touch one.0 lba 1 in
    let same = touched one.0 lba 1 in
    (
      one.0,
      one.1 ++ [],
      rw (whole, serve_write, one.2) refl,
      read_one after lba (omega (arith, same.1, one.4))
          ∙ ap (λ x. (true, x))
              (append-nil (read_atoms after.manifold vaddr 0 32)
                ∙ ap (λ m. read_atoms m vaddr 0 32) (same.0 ∙ one.3)
                ∙ read_atoms-materialize s.manifold vaddr 0 32 sector (omega arith) (omega arith) l
                    b (omega arith)
                ∙ whole),
    )
