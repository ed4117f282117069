-- ===== src/Journal/Tests.antt =====
-- A run of src/vdev/residue_persistence.hpp on a disk of sectors.
use emergence_os_bare_metal.Base.{
  ℕ, ◌-◌, ◌*◌, ◌≡◌, ◌<◌, ◌^◌, refl, arith, List, [], ◌∷◌, true, ◌&&◌, leb, ltb, if◌then◌else◌, some,
  length, take, drop, take_all, replicate,
}
use emergence_os_bare_metal.Bmt.Topology.{Seed}
use emergence_os_bare_metal.Manifold.{Value128, pack_route}
use emergence_os_bare_metal.Journal.{
  SubstrateIo, resurrected, noise, journal_batch, commit_residue, recover_state,
}
use emergence_os_bare_metal.Journal.Residues.{surprising}
use emergence_os_bare_metal.Journal.Recovery.{IsDisk, recover_state-commit_residue}

-- Each sector by its number; reading is of one sector.
abbrev sectors : SubstrateIo
sectors = record {
  State = ℕ → List ℕ;
  read = λ s lba count. s lba;
  write = λ s lba count bytes a.
      if leb lba a && ltb (a - lba) count then take 512 (drop ((a - lba) * 512) bytes) else s a;
}

within : (lba : ℕ) → (leb lba lba && ltb (lba - lba) 1) ≡ true
within lba = ground arith

sectors-IsDisk : IsDisk sectors
sectors-IsDisk = record { read-write = λ s lba bytes e. stored s lba bytes e }
  where
    stored :
        (s : ℕ → List ℕ) (lba : ℕ) (bytes : List ℕ)
        → length bytes ≡ 512
        → (if leb lba lba && ltb (lba - lba) 1
            then take 512 (drop ((lba - lba) * 512) bytes)
            else s lba)
          ≡ bytes
    stored s lba bytes e =
        let start : (lba - lba) * 512 ≡ 0 = omega arith in
        rw (within lba, start) (take_all 512 bytes (omega arith))

abbrev master : Seed
master = record { hi = 1; lo = 2 }

-- Two atoms, the first of which differs.
abbrev two_atoms : List Value128
two_atoms = record { hi = 5; lo = 6 } ∷ noise 0x3FA master 0 3 1 ∷ []

one_record : length (journal_batch 0x3FA master (λ i j. 0) 3 0 two_atoms) ≡ 1
unfolding journal_batch noise pack_route
one_record = refl

two_fits : ((noise 0x3FA master 0 3 1).hi < 2 ^ 64) × ((noise 0x3FA master 0 3 1).lo < 2 ^ 64)
unfolding noise pack_route
two_fits = (ground arith, ground arith)

recover_state-commit_residue_example :
    (let c =
        commit_residue 0x3FA master
          (λ i j. 0)
          sectors
          (replicate 512 0)
          (record { current_journal_tail = 2; disk = some (λ a. replicate 512 9) })
          3
          two_atoms in
      let r = recover_state 0x3FA master (λ i j. 0) sectors c in
      (r.0 ≡ resurrected (length (journal_batch 0x3FA master (λ i j. 0) 3 0 two_atoms)))
      × (r.1 ≡ surprising 0x3FA master 0 3 0 two_atoms))
recover_state-commit_residue_example =
    recover_state-commit_residue 0x3FA master 0 3 sectors sectors-IsDisk (λ a. replicate 512 9) 2
      two_atoms (omega arith) (omega arith) (omega arith) (omega arith)
      ((omega arith, omega arith), (two_fits, tt)) (omega arith) (omega (arith, one_record))
      (omega (arith, one_record))
