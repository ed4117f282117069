-- ===== src/Manifold/Fetch.antt =====
-- What `holographic_fetch` of src/vdev/topology.hpp finds after `materialize_range`.
use native.Mathlib.Decide.{dec_lt}
use emergence_os_bare_metal.Base.{
  ℕ, ◌+◌, ◌*◌, ◌/◌, ◌%◌, ◌≤◌, ◌<◌, ◌≡◌, ◌≢◌, ◌⊎◌, inl, inr, refl, sym, ap, ap₂, ◌∙◌, arith, List,
  false, none, some, ◌==◌, Option-cases, length, take, drop,
}
use emergence_os_bare_metal.Manifold.{
  Manifold, Pool, poke, peek, value_of, found, claim, victim, place, block_bytes,
  get_physical_block, holographic_fetch, materialize_range,
}
use emergence_os_bare_metal.Manifold.Memory.{peek-poke_inside, peek-poke_outside}
use emergence_os_bare_metal.Manifold.Lookup.{found-some, found-claim_self, found-claim_ne}

abbrev pub block_of : ℕ → ℕ
block_of vaddr = vaddr / block_bytes

-- A fetch reads from the slot that holds the block.
pub fetch_found :
    (m : Manifold) (vaddr j : ℕ)
    → found m (block_of vaddr) ≡ some j
    → holographic_fetch m vaddr ≡ value_of (peek m.pool (place j vaddr) 16)
unfolding holographic_fetch get_physical_block
fetch_found m vaddr j e =
    rw (e, get_physical_block) (rw (test (found-some m (block_of vaddr) j e).0) refl)
  where
    test : j < 1024 → (j == 0xFFFFFFFF) ≡ false
    test h = ground arith

-- An address whose block is in no slot reads as zeros.
pub fetch_none :
    (m : Manifold) (vaddr : ℕ)
    → found m (block_of vaddr) ≡ none
    → holographic_fetch m vaddr ≡ record { hi = 0; lo = 0 }
unfolding holographic_fetch get_physical_block
fetch_none m vaddr e = rw (e, get_physical_block) refl

-- After a write the block is in one slot, and the pool has the data there.
pub record Wrote (m : Manifold) (vaddr : ℕ) (data_ : List ℕ) (m' : Manifold) : Type 0 where
  pub slot : ℕ
  pub in_pool : slot < 1024
  pub holds_it : found m' (block_of vaddr) ≡ some slot
  pub bytes : m'.pool ≡ poke m.pool (place slot vaddr) data_

found-poke :
    (m : Manifold) (p : Pool) (vblock : ℕ) → found (record m { pool = p }) vblock ≡ found m vblock
unfolding found
found-poke m p vblock = refl

pool-claim : (m : Manifold) (vblock : ℕ) → (claim m vblock).pool ≡ m.pool
unfolding claim
pool-claim m vblock = refl

pub materialize_hit :
    (m : Manifold) (vaddr j : ℕ) (data_ : List ℕ)
    → found m (block_of vaddr) ≡ some j
    → materialize_range m vaddr data_ ≡ record m { pool = poke m.pool (place j vaddr) data_ }
unfolding materialize_range get_physical_block
materialize_hit m vaddr j data_ e = rw (e, materialize_range, get_physical_block) refl

pub materialize_miss :
    (m : Manifold) (vaddr : ℕ) (data_ : List ℕ)
    → found m (block_of vaddr) ≡ none
    → materialize_range m vaddr data_
      ≡ record (claim m (block_of vaddr)) { pool = poke m.pool (place (victim m) vaddr) data_ }
unfolding materialize_range get_physical_block
materialize_miss m vaddr data_ e =
    rw (e, materialize_range, get_physical_block, pool-claim m (block_of vaddr)) refl

pub materialize-Wrote :
    (m : Manifold) (vaddr : ℕ) (data_ : List ℕ)
    → Wrote m vaddr data_ (materialize_range m vaddr data_)
materialize-Wrote m vaddr data_ = elim (Option-cases (found m (block_of vaddr))) [
  | inl missing ↦ rw (materialize_miss m vaddr data_ missing) (record {
    slot = victim m;
    in_pool = omega arith;
    holds_it =
        found-poke (claim m (block_of vaddr)) _ (block_of vaddr)
        ∙ found-claim_self m (block_of vaddr) missing;
    bytes = refl;
  })
  | inr (j, e) ↦ rw (materialize_hit m vaddr j data_ e) (record {
    slot = j;
    in_pool = (found-some m (block_of vaddr) j e).0;
    holds_it = found-poke m _ (block_of vaddr) ∙ e;
    bytes = refl;
  })
]

-- Each value that was written is fetched again, as long as the data stays in its block: the `k`-th
-- from the address on is the `k`-th 16 bytes.
pub fetch-materialize_self :
    (m : Manifold) (vaddr k : ℕ) (data_ : List ℕ)
    → vaddr / 16 % 1024 + k < 1024
    → 16 * k + 16 ≤ length data_
    → holographic_fetch (materialize_range m vaddr data_) (vaddr + 16 * k)
      ≡ value_of (take 16 (drop (16 * k) data_))
fetch-materialize_self m vaddr k data_ fits enough =
    fetch_found after (vaddr + 16 * k) w.slot (rw same_block w.holds_it)
    ∙ ap value_of (
        ap₂ (λ p at_. peek p at_ 16) w.bytes at_
        ∙ peek-poke_inside m.pool (place w.slot vaddr) (16 * k) 16 data_ enough)
  where
    after : Manifold
    after = materialize_range m vaddr data_

    w : Wrote m vaddr data_ after
    w = materialize-Wrote m vaddr data_

    same_block : block_of (vaddr + 16 * k) ≡ block_of vaddr
    same_block = omega arith

    at_ : place w.slot (vaddr + 16 * k) ≡ place w.slot vaddr + 16 * k
    at_ = omega arith

-- A write to a resident block leaves every other value of that block alone.
pub fetch-materialize_same_block :
    (m : Manifold) (vaddr other j : ℕ) (data_ : List ℕ)
    → found m (block_of vaddr) ≡ some j
    → block_of other ≡ block_of vaddr
    → (other / 16 % 1024 < vaddr / 16 % 1024)
      ⊎ (vaddr / 16 % 1024 * 16 + length data_ ≤ other / 16 % 1024 * 16)
    → holographic_fetch (materialize_range m vaddr data_) other ≡ holographic_fetch m other
fetch-materialize_same_block m vaddr other j data_ there same apart =
    rw (materialize_hit m vaddr j data_ there) (
      fetch_found (record m { pool = p }) other j (found-poke m p (block_of other) ∙ here)
      ∙ ap value_of
          (peek-poke_outside m.pool (place j vaddr) (place j other) 16 data_ (omega arith))
      ∙ sym (fetch_found m other j here))
  where
    p : Pool
    p = poke m.pool (place j vaddr) data_

    here : found m (block_of other) ≡ some j
    here = ap (found m) same ∙ there

-- Two blocks are not found in one slot.
slots_differ :
    (m : Manifold) (v w i j : ℕ) → v ≢ w → found m v ≡ some i → found m w ≡ some j → i ≢ j
slots_differ m v w i j ne e f = ground (arith, found-some m v i e, found-some m w j f)

module _ (m : Manifold) (vaddr other i : ℕ) (data_ : List ℕ)
    (differ : block_of other ≢ block_of vaddr) (there : found m (block_of other) ≡ some i)
    (inside : vaddr / 16 % 1024 * 16 + length data_ ≤ 16384) where
  -- The bytes of slot `i` are not touched by a write into another slot.
  other_slot :
      (m' : Manifold) (j : ℕ)
      → i ≢ j
      → found m' (block_of other) ≡ some i
      → m'.pool ≡ poke m.pool (place j vaddr) data_
      → holographic_fetch m' other ≡ holographic_fetch m other
  other_slot m' j ne e p =
      fetch_found m' other i e
      ∙ ap value_of (
          ap (λ q. peek q (place i other) 16) p
          ∙ peek-poke_outside m.pool (place j vaddr) (place i other) 16 data_
              (elim (dec_lt i j) [ yes below ↦ inl (omega arith) | no above ↦ inr (omega arith) ]))
      ∙ sym (fetch_found m other i there)

  hit_other :
      (j : ℕ)
      → found m (block_of vaddr) ≡ some j
      → holographic_fetch (materialize_range m vaddr data_) other ≡ holographic_fetch m other
  hit_other j e = rw (materialize_hit m vaddr j data_ e) (
      other_slot (record m { pool = poke m.pool (place j vaddr) data_ }) j
        (slots_differ m (block_of other) (block_of vaddr) i j differ there e)
        (found-poke m _ (block_of other) ∙ there) refl)

  miss_other :
      found m (block_of vaddr) ≡ none
      → i ≢ victim m
      → holographic_fetch (materialize_range m vaddr data_) other ≡ holographic_fetch m other
  miss_other missing away = rw (materialize_miss m vaddr data_ missing) (
      other_slot
        (record (claim m (block_of vaddr)) { pool = poke m.pool (place (victim m) vaddr) data_ })
        (victim m) away
        (found-poke (claim m (block_of vaddr)) _ (block_of other)
          ∙ found-claim_ne m (block_of vaddr) (block_of other) i differ there away)
        refl)

  -- A write that stays in its block changes no other block that is not evicted for it: one in another
  -- slot than the one at the counter, or any if the block written is resident.
  pub fetch-materialize_other :
      (i ≢ victim m) ⊎ ((j : ℕ) × (found m (block_of vaddr) ≡ some j))
      → holographic_fetch (materialize_range m vaddr data_) other ≡ holographic_fetch m other
  fetch-materialize_other (inr (j, e)) = hit_other j e
  fetch-materialize_other (inl away) = elim (Option-cases (found m (block_of vaddr))) [
    | inl missing ↦ miss_other missing away
    | inr (j, e) ↦ hit_other j e
  ]

-- A write that runs past the last value of its slot lands in the slot behind it: the second 16 bytes
-- written to the last value of a block are the first value of whatever block is there.
pub materialize_overrun :
    (m : Manifold) (vaddr other j : ℕ) (data_ : List ℕ)
    → found m (block_of vaddr) ≡ some j
    → found m (block_of other) ≡ some (j + 1)
    → vaddr / 16 % 1024 ≡ 1023
    → other / 16 % 1024 ≡ 0
    → 32 ≤ length data_
    → holographic_fetch (materialize_range m vaddr data_) other ≡ value_of (take 16 (drop 16 data_))
materialize_overrun m vaddr other j data_ e f last start long =
    rw (materialize_hit m vaddr j data_ e) (
      fetch_found (record m { pool = p }) other (j + 1) (found-poke m p (block_of other) ∙ f)
      ∙ ap value_of
          (ap (λ a. peek p a 16) at_ ∙ peek-poke_inside m.pool (place j vaddr) 16 16 data_ long))
  where
    p : Pool
    p = poke m.pool (place j vaddr) data_

    at_ : place (j + 1) other ≡ place j vaddr + 16
    at_ = omega arith
