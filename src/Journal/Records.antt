-- ===== src/Journal/Records.antt =====
-- The bytes of a journal record of src/vdev/residue_persistence.hpp, and reading a sector of records.
use emergence_os_bare_metal.Base.{
  ℕ, zero, suc, ◌+◌, ◌*◌, ◌^◌, ◌<◌, ◌≡◌, refl, ap, ◌∙◌, arith, List, [], ◌∷◌, ◌++◌, true, false,
  ◌==◌, length, drop, replicate, le_bytes, le_value, le_value-le_bytes, length-append,
}
use emergence_os_bare_metal.Bmt.Topology.{Seed}
use emergence_os_bare_metal.Manifold.{image, value_of}
use emergence_os_bare_metal.Journal.{
  ResidueRecord, record_bytes, record_of, batch_bytes, calculate_checksum, Scan, ended, Restored,
  is_end, restored, scan_sector,
}

-- The fields fit their widths.
pub record IsRecord (r : ResidueRecord) : Type 0 where
  pub vblock_fits : r.vblock_idx < 256 ^ 8
  pub local_fits : r.local_atom_idx < 256 ^ 2
  pub hi_fits : r.delta.hi < 256 ^ 8
  pub lo_fits : r.delta.lo < 256 ^ 8
  pub checksum_fits : r.checksum < 256 ^ 4

record_eq :
    (a a' b b' c c' d d' e e' : ℕ)
    → a ≡ a'
    → b ≡ b'
    → c ≡ c'
    → d ≡ d'
    → e ≡ e'
    → (let r : ResidueRecord = record {
      vblock_idx = a;
      local_atom_idx = b;
      delta = record { hi = c; lo = d };
      checksum = e;
    } in
        r)
      ≡ record {
        vblock_idx = a';
        local_atom_idx = b';
        delta = record { hi = c'; lo = d' };
        checksum = e';
      }
record_eq a a' b b' c c' d d' e e' p q r s t = rw (p, q, r, s, t) refl

pub record_of-record_bytes :
    (r : ResidueRecord) (rest : List ℕ) → IsRecord r → record_of (record_bytes r ++ rest) ≡ r
unfolding record_of record_bytes image value_of
record_of-record_bytes r rest ok =
    record_eq (le_value (le_bytes 8 r.vblock_idx)) r.vblock_idx
      (le_value (le_bytes 2 r.local_atom_idx)) r.local_atom_idx (le_value (le_bytes 8 r.delta.hi))
      r.delta.hi (le_value (le_bytes 8 r.delta.lo)) r.delta.lo (le_value (le_bytes 4 r.checksum))
      r.checksum (le_value-le_bytes 8 r.vblock_idx ok.vblock_fits)
      (le_value-le_bytes 2 r.local_atom_idx ok.local_fits)
      (le_value-le_bytes 8 r.delta.hi ok.hi_fits) (le_value-le_bytes 8 r.delta.lo ok.lo_fits)
      (le_value-le_bytes 4 r.checksum ok.checksum_fits)

pub drop-record_bytes :
    (r : ResidueRecord) (rest : List ℕ) → drop 30 (record_bytes r ++ rest) ≡ rest
unfolding record_bytes image
drop-record_bytes r rest = refl

pub length-record_bytes : (r : ResidueRecord) → length (record_bytes r) ≡ 30
unfolding record_bytes image
length-record_bytes r = refl

pub length-batch_bytes : (rs : List ResidueRecord) → length (batch_bytes rs) ≡ 30 * length rs
unfolding batch_bytes
length-batch_bytes [] = refl
length-batch_bytes (r ∷ rs) = omega (
  arith,
  length-append (record_bytes r) (batch_bytes rs),
  length-record_bytes r,
  length-batch_bytes rs,
)

-- Zeros read as the end of the journal.
pub is_end-zeros : (rest : List ℕ) → is_end (record_of (replicate 30 0 ++ rest)) ≡ true
unfolding is_end record_of value_of
is_end-zeros rest = refl

-- A record as `commit_residue` makes it, of a block other than the first.
pub record IsEntry (r : ResidueRecord) : Type 0 where
  pub fits : IsRecord r
  pub not_first : 0 < r.vblock_idx
  pub sealed : calculate_checksum r.vblock_idx r.local_atom_idx r.delta ≡ r.checksum

abbrev pub AreEntries : List ResidueRecord → Type 0
AreEntries [] = Unit {0}
AreEntries (r ∷ rs) = IsEntry r × AreEntries rs

not_end : (r : ResidueRecord) → IsEntry r → is_end r ≡ false
unfolding is_end
not_end r ok = ground (arith, ok.not_first)

same_test : (a b : ℕ) → a ≡ b → (a == b) ≡ true
same_test a b e = ground arith

module _ (speculative_route : ℕ) (master_seed : Seed) (junk : ℕ → ℕ → ℕ) (lba_offset : ℕ) where
  -- What records bring back, the first of them record `i` of the sector.
  abbrev pub restored_all : ℕ → List ResidueRecord → List Restored
  restored_all i [] = []
  restored_all i (r ∷ rs) =
      restored speculative_route master_seed junk lba_offset i r ∷ restored_all (i + 1) rs

  scan_record :
      (n i : ℕ) (bytes left : List ℕ) (r : ResidueRecord)
      → record_of bytes ≡ r
      → IsEntry r
      → drop 30 bytes ≡ left
      → scan_sector speculative_route master_seed junk lba_offset (suc n) i bytes ≡ (
          let (end, later) =
            scan_sector speculative_route master_seed junk lba_offset n (i + 1) left in
          (end, restored speculative_route master_seed junk lba_offset i r ∷ later))
  unfolding scan_sector
  scan_record n i bytes left r e ok d =
      let sealed : (calculate_checksum r.vblock_idx r.local_atom_idx r.delta == r.checksum) ≡ true =
        same_test (calculate_checksum r.vblock_idx r.local_atom_idx r.delta) r.checksum ok.sealed in
      rw (e, not_end r ok, d, sealed) refl

  -- Records with zeros behind them are read up to the zeros.
  pub scan_sector-batch_bytes :
      (n i : ℕ) (rs : List ResidueRecord) (rest : List ℕ)
      → AreEntries rs
      → length rs < n
      → scan_sector speculative_route master_seed junk lba_offset n i
          (batch_bytes rs ++ (replicate 30 0 ++ rest))
        ≡ (ended (i + length rs), restored_all i rs)
  unfolding scan_sector batch_bytes record_bytes image
  scan_sector-batch_bytes zero i rs rest ok h = absurd (omega arith)
  scan_sector-batch_bytes (suc n) i [] rest ok h =
      rw (is_end-zeros rest)
        (ap (λ (j : ℕ). (let e : Scan × List Restored = (ended j, []) in e)) (omega arith))
  scan_sector-batch_bytes (suc n) i (r ∷ rs) rest ok h =
      let data_ = batch_bytes rs ++ (replicate 30 0 ++ rest) in
      scan_record n i (record_bytes r ++ data_) data_ r (record_of-record_bytes r data_ ok.0.fits)
        ok.0 (drop-record_bytes r data_)
      ∙ ap
          (λ (g : Scan × List Restored).
            (g.0, restored speculative_route master_seed junk lba_offset i r ∷ g.1))
          (scan_sector-batch_bytes n (i + 1) rs rest ok.1 (omega arith))
      ∙ ap (λ (j : ℕ). (let e : Scan × List Restored = (ended j, restored_all i (r ∷ rs)) in e))
          (omega arith)
