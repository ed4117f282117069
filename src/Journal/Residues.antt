-- ===== src/Journal/Residues.antt =====
-- What `commit_residue` of src/vdev/residue_persistence.hpp writes about a block, and what it brings back.
use emergence_os_bare_metal.Base.{
  ℕ, ◌+◌, ◌*◌, ◌^◌, ◌<◌, ◌≤◌, ◌≡◌, refl, sym, ap, ap₂, ◌∙◌, arith, List, [], ◌∷◌, Bool, true, false,
  Bool-cases, inl, inr, not, ◌&&◌, ◌||◌, ◌==◌, if◌then◌else◌, length, bit_xor, bit_and, u64, ◌<<<◌,
  xor_cancel, xor_comm, xor_zero, xor-lt, or-lt, and_low,
}
use emergence_os_bare_metal.Bmt.Topology.{Seed}
use emergence_os_bare_metal.Manifold.{Value128, pack_route, lens_mask, phi_lo}
use emergence_os_bare_metal.Journal.{
  ResidueRecord, calculate_checksum, Restored, noise, xor_value, restored, journal_batch,
}
use emergence_os_bare_metal.Journal.Records.{AreEntries, restored_all}

abbrev pub IsValue : Value128 → Type 0
IsValue v = (v.hi < 2 ^ 64) × (v.lo < 2 ^ 64)

abbrev pub AreValues : List Value128 → Type 0
AreValues [] = Unit {0}
AreValues (v ∷ vs) = IsValue v × AreValues vs

pack_route_fits : (v : Value128) (r : ℕ) → (pack_route v r).hi < 2 ^ 64
unfolding pack_route
pack_route_fits v r =
    or-lt 64 (bit_and v.hi 0x000FFFFFFFFFFFFF) (u64 (bit_and r lens_mask <<< 54))
      (omega (arith, and_low 52 v.hi)) (omega arith)

xor_self : (a : ℕ) → bit_xor a a ≡ 0
xor_self a = ap (λ t. bit_xor t a) (sym (xor_comm 0 a ∙ xor_zero a)) ∙ xor_cancel 0 a

xor_is_zero : (a b : ℕ) → bit_xor a b ≡ 0 → a ≡ b
xor_is_zero a b e = sym (xor_cancel a b) ∙ ap (λ t. bit_xor t b) e ∙ xor_comm 0 b ∙ xor_zero b

test_xor : (a b : ℕ) → (bit_xor a b == 0) ≡ (a == b)
test_xor a b = elim (Bool-cases (a == b)) [
  | inl same ↦
      let e : a ≡ b = ground arith in
      ap (λ t. bit_xor t b == 0) e ∙ ap (λ t. t == 0) (xor_self b) ∙ sym same
  | inr other ↦ elim (Bool-cases (bit_xor a b == 0)) [
    | inl z ↦
        let e : bit_xor a b ≡ 0 = ground arith in let f = xor_is_zero a b e in absurd (ground arith)
    | inr nz ↦ nz ∙ sym other
  ]
]

checksum_fits : (v j : ℕ) (d : Value128) → calculate_checksum v j d < 256 ^ 4
unfolding calculate_checksum
checksum_fits v j d = omega arith

-- A value under a mask comes back.
xor_back : (n a : ℕ) → bit_xor n (bit_xor a n) ≡ a
xor_back n a = xor_comm n (bit_xor a n) ∙ xor_cancel a n

-- `junk` is one value wherever it is unset.
module _ (speculative_route : ℕ) (master_seed : Seed) (junk vblock : ℕ) where
  abbrev pub expected : ℕ → Value128
  expected j = noise speculative_route master_seed junk vblock j

  -- The atoms that are not the expected noise, with their places from `j` on.
  abbrev pub surprising : ℕ → List Value128 → List Restored
  surprising j [] = []
  surprising j (a ∷ atoms) =
      if a.hi == (expected j).hi && a.lo == (expected j).lo
      then surprising (j + 1) atoms
      else record { vblock = vblock; local_atom = j; atom = a } ∷ surprising (j + 1) atoms

  abbrev batch : ℕ → List Value128 → List ResidueRecord
  batch = journal_batch speculative_route master_seed (λ i j. junk) vblock

  expected-IsValue : (j : ℕ) → master_seed.lo < 2 ^ 64 → j < 2 ^ 16 → IsValue (expected j)
  unfolding noise
  expected-IsValue j s h = (
    pack_route_fits (record { hi = junk; lo = 0 }) speculative_route,
    xor-lt 64 (bit_xor master_seed.lo (u64 (vblock * phi_lo))) j
        (xor-lt 64 master_seed.lo (u64 (vblock * phi_lo)) s (omega arith)) (omega arith),
  )

  -- Whether `commit_residue` writes a record for the atom.
  abbrev differs : ℕ → Value128 → Bool
  differs j a = not (bit_xor a.hi (expected j).hi == 0) || not (bit_xor a.lo (expected j).lo == 0)

  differs_lem :
      (j : ℕ) (a : Value128)
      → differs j a ≡ not (a.hi == (expected j).hi && a.lo == (expected j).lo)
  differs_lem j a =
      rw (test_xor a.hi (expected j).hi, test_xor a.lo (expected j).lo)
        (de_morgan (a.hi == (expected j).hi) (a.lo == (expected j).lo))
    where
      de_morgan : (p q : Bool) → (not p || not q) ≡ not (p && q)
      de_morgan true q = refl
      de_morgan false q = refl

  pub AreEntries-journal_batch :
      (j : ℕ) (atoms : List Value128)
      → 0 < vblock
      → vblock < 2 ^ 64
      → master_seed.lo < 2 ^ 64
      → AreValues atoms
      → j + length atoms ≤ 2 ^ 16
      → AreEntries (batch j atoms)
  unfolding journal_batch
  AreEntries-journal_batch j [] z v s vs h = tt
  AreEntries-journal_batch j (a ∷ atoms) z v s vs h =
      let rest = AreEntries-journal_batch (j + 1) atoms z v s vs.1 (omega arith) in
      let noise_fits = expected-IsValue j s (omega arith) in
      elim (Bool-cases (differs j a)) [
        | inr same ↦ rw same rest
        | inl other ↦ rw other (
          record {
            fits = record {
              vblock_fits = omega arith;
              local_fits = omega arith;
              hi_fits = omega (arith, xor-lt 64 a.hi (expected j).hi vs.0.0 noise_fits.0);
              lo_fits = omega (arith, xor-lt 64 a.lo (expected j).lo vs.0.1 noise_fits.1);
              checksum_fits = checksum_fits vblock j (xor_value a (expected j));
            };
            not_first = z;
            sealed = refl;
          },
          rest,
        )
      ]

  pub restored_all-journal_batch :
      (lba_offset i j : ℕ) (atoms : List Value128)
      → restored_all speculative_route master_seed (λ i j. junk) lba_offset i (batch j atoms)
        ≡ surprising j atoms
  unfolding journal_batch restored
  restored_all-journal_batch lba_offset i j [] = refl
  restored_all-journal_batch lba_offset i j (a ∷ atoms) =
      elim (Bool-cases (a.hi == (expected j).hi && a.lo == (expected j).lo)) [
        | inl same ↦
            let no_record : differs j a ≡ false = differs_lem j a ∙ ap not same in
            rw (same, no_record) (restored_all-journal_batch lba_offset i (j + 1) atoms)
        | inr other ↦
            let recorded : differs j a ≡ true = differs_lem j a ∙ ap not other in
            rw (other, recorded)
              (ap₂
                  (λ hi lo.
                    back hi lo
                    ∷ restored_all speculative_route master_seed (λ i j. junk) lba_offset (i + 1)
                        (batch (j + 1) atoms))
                  (xor_back (expected j).hi a.hi) (xor_back (expected j).lo a.lo)
                ∙ ap (λ t. back a.hi a.lo ∷ t)
                    (restored_all-journal_batch lba_offset (i + 1) (j + 1) atoms))
      ]
    where
      back : ℕ → ℕ → Restored
      back hi lo = record { vblock = vblock; local_atom = j; atom = record { hi = hi; lo = lo } }
