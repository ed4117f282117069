-- ===== src/Journal/Recovery.antt =====
-- A restart after `commit_residue` of src/vdev/residue_persistence.hpp.
use emergence_os_bare_metal.Base.{
  ℕ, zero, suc, ◌+◌, ◌-◌, ◌*◌, ◌/◌, ◌^◌, ◌<◌, ◌≤◌, ◌≡◌, refl, sym, ap, ap₂, take-append, take_all,
  length-take, length-append, length-replicate, ◌∙◌, arith, List, ◌∷◌, ◌++◌, true, some, ltb,
  length, take, replicate, u64,
}
use emergence_os_bare_metal.Bmt.Topology.{Seed}
use emergence_os_bare_metal.Manifold.{Value128}
use emergence_os_bare_metal.Journal.{
  SubstrateIo, ResidueRecord, batch_bytes, journal_start_lba, Scan, ended, Restored, Outcome,
  resurrected, journal_batch, scan_sector, PersistenceController, commit_residue, recover_sectors,
  recover_state,
}
use emergence_os_bare_metal.Journal.Records.{scan_sector-batch_bytes, length-batch_bytes}
use emergence_os_bare_metal.Journal.Residues.{
  AreValues, AreEntries-journal_batch, restored_all-journal_batch, surprising,
}

-- A disk gives back the first sector of what was written last.
pub record IsDisk (d : SubstrateIo) : Type 0 where
  pub read-write :
      (s : d.State) (lba : ℕ) (bytes : List ℕ)
      → length bytes ≡ 512
      → d.read (d.write s lba 1 bytes) lba 1 ≡ bytes

take-replicate : (n m : ℕ) → n ≤ m → take {A = ℕ} n (replicate m 0) ≡ replicate n 0
take-replicate zero m h = refl
take-replicate (suc n) zero h = absurd (omega arith)
take-replicate (suc n) (suc m) h = ap (λ t. 0 ∷ t) (take-replicate n m (omega arith))

replicate-append : (n m : ℕ) → ◌++◌ {A = ℕ} (replicate n 0) (replicate m 0) ≡ replicate (n + m) 0
replicate-append zero m = ap (λ k. replicate k 0) (omega arith)
replicate-append (suc n) m =
    let count : suc n + m ≡ suc (n + m) = omega arith in
    rw count (ap (λ t. 0 ∷ t) (replicate-append n m))

-- A sector that fewer than 16 records begin, and zeros fill.
sector_of :
    (rs : List ResidueRecord)
    → length rs < 16
    → take 512 (batch_bytes rs ++ replicate 512 0)
      ≡ batch_bytes rs ++ (replicate 30 0 ++ replicate (482 - 30 * length rs) 0)
sector_of rs h =
    let long : length (batch_bytes rs) ≡ 30 * length rs = length-batch_bytes rs in
    take-append 512 (batch_bytes rs) (replicate 512 0)
    ∙ ap₂ (λ p q. p ++ q) (take_all 512 (batch_bytes rs) (omega arith))
        (take-replicate (512 - length (batch_bytes rs)) 512 (omega arith)
          ∙ ap (λ k. replicate k 0) (omega arith)
          ∙ sym (replicate-append 30 (482 - 30 * length rs)))

length-sent :
    (rs : List ResidueRecord) → length (take 512 (batch_bytes rs ++ replicate 512 0)) ≡ 512
length-sent rs =
    let zeros : List ℕ = replicate 512 0 in
    omega (
      arith,
      length-take 512 (batch_bytes rs ++ zeros),
      length-append (batch_bytes rs) zeros,
      length-replicate {A = ℕ} 512 0,
    )

both :
    {k l : ℕ} {xs ys : List Restored}
    → k ≡ l
    → xs ≡ ys
    → (let g : Scan × List Restored = (ended k, xs) in g) ≡ (ended l, ys)
both p q = rw (p, q) refl

module _ (speculative_route : ℕ) (master_seed : Seed) (junk vblock : ℕ) (d : SubstrateIo)
    (disk : IsDisk d) where
  abbrev anywhere : ℕ → ℕ → ℕ
  anywhere i j = junk

  abbrev batch : List Value128 → List ResidueRecord
  batch = journal_batch speculative_route master_seed anywhere vblock 0

  abbrev committed : PersistenceController d → List Value128 → PersistenceController d
  committed c entries =
      commit_residue speculative_route master_seed anywhere d (replicate 512 0) c vblock entries

  committed_lem :
      (s : d.State) (tail : ℕ) (entries : List Value128)
      → tail < 16
      → 0 < length (batch entries)
      → length (batch entries) < 16
      → committed (record { current_journal_tail = tail; disk = some s }) entries ≡ record {
        current_journal_tail = u64 (tail + length (batch entries));
        disk = some (
            d.write s
              (journal_start_lba + 0)
              1
              (take 512 (batch_bytes (batch entries) ++ replicate 512 0)));
      }
  unfolding commit_residue
  committed_lem s tail entries t some_one few =
      let recorded : ltb 0 (length (batch entries)) ≡ true = ground arith in
      let one : length (batch entries) / 16 + 1 ≡ 1 = omega arith in
      let first : journal_start_lba + tail / 16 ≡ journal_start_lba + 0 = omega arith in
      rw (recorded, one, first) refl

  first_sector :
      (s : d.State) (n i : ℕ) (atoms : List Restored)
      → scan_sector speculative_route master_seed anywhere 0 16 0
          (d.read s (journal_start_lba + 0) 1)
        ≡ (ended i, atoms)
      → recover_sectors speculative_route master_seed anywhere d s 0 (suc n)
        ≡ (resurrected i, atoms)
  unfolding recover_sectors
  first_sector s n i atoms e =
      let here : 0 * 16 + i ≡ i = omega arith in
      rw (e, recover_sectors, here)
        (ap
          (λ (g : Scan × List Restored).
            (let r : Outcome × List Restored = (resurrected i, g.1) in r))
          e)

  recovered :
      (s : d.State) (tail i : ℕ) (atoms : List Restored)
      → scan_sector speculative_route master_seed anywhere 0 16 0
          (d.read s (journal_start_lba + 0) 1)
        ≡ (ended i, atoms)
      → (let r =
            recover_state speculative_route master_seed anywhere d
              (record { current_journal_tail = tail; disk = some s }) in
          (r.0 ≡ resurrected i) × (r.1 ≡ atoms))
  unfolding recover_state
  recovered s tail i atoms e = rw (first_sector s 62499 i atoms e) (refl, refl)

  -- A restart after `commit_residue` of a block other than block 0, with one to fifteen atoms that
  -- differ from the noise, while the journal has fewer than 16 records, brings back exactly these atoms
  -- with their places. That holds whatever was on the disk, so the earlier records are lost. The memory
  -- behind the batch is taken to be zeros, and the unset halves to be the same both times.
  pub recover_state-commit_residue :
      (s : d.State) (tail : ℕ) (entries : List Value128)
      → tail < 16
      → 0 < vblock
      → vblock < 2 ^ 64
      → master_seed.lo < 2 ^ 64
      → AreValues entries
      → length entries ≤ 2 ^ 16
      → 0 < length (batch entries)
      → length (batch entries) < 16
      → (let r =
            recover_state speculative_route master_seed anywhere d
              (committed (record { current_journal_tail = tail; disk = some s }) entries) in
          (r.0 ≡ resurrected (length (batch entries)))
          × (r.1 ≡ surprising speculative_route master_seed junk vblock 0 entries))
  recover_state-commit_residue s tail entries t z v m vs l some_one few =
      let sent = take 512 (batch_bytes (batch entries) ++ replicate 512 0) in
      rw (committed_lem s tail entries t some_one few) (
        recovered (d.write s (journal_start_lba + 0) 1 sent) (u64 (tail + length (batch entries)))
          (length (batch entries)) (surprising speculative_route master_seed junk vblock 0 entries)
          (ap (scan_sector speculative_route master_seed anywhere 0 16 0) (
              disk.read-write s (journal_start_lba + 0) sent (length-sent (batch entries))
              ∙ sector_of (batch entries) few)
            ∙ scan_sector-batch_bytes speculative_route master_seed anywhere 0 16 0 (batch entries)
                (replicate (482 - 30 * length (batch entries)) 0)
                (AreEntries-journal_batch speculative_route master_seed junk vblock 0 entries z v m
                  vs (omega arith))
                few
            ∙ both (omega arith) (
                restored_all-journal_batch speculative_route master_seed junk vblock 0 0 0
                  entries)))
