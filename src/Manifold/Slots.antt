-- ===== src/Manifold/Slots.antt =====
-- The slot operations of src/vdev/topology.hpp, and the invariant that no block is in two slots.
use emergence_os_bare_metal.Base.{
  ℕ, ◌+◌, ◌*◌, ◌≤◌, ◌<◌, ◌≡◌, inl, inr, sym, ap, ◌∙◌, arith, List, [], true, none, some, ◌==◌, ltb,
  if◌then◌else◌, Option-cases, length, take, take-take, length-take, min,
}
use emergence_os_bare_metal.Manifold.{
  Manifold, Pool, is_empty, holds, found, claim, block_bytes, peek, poke, slot_of, read_slot,
  write_slot, clear_slot, construct, materialize_range,
}
use emergence_os_bare_metal.Manifold.Memory.{peek-poke_inside}
use emergence_os_bare_metal.Manifold.Lookup.{found-none, found-some, found_before, found_at}
use emergence_os_bare_metal.Manifold.Fetch.{block_of, materialize_hit, materialize_miss}

-- No two slots in use hold one block.
abbrev pub AreDistinct : Manifold → Type 0
AreDistinct m = (v i j : ℕ) → i < 1024 → j < 1024 → holds m v i ≡ true → holds m v j ≡ true → i ≡ j

pub construct-AreDistinct : (pool : Pool) (map_ : ℕ → ℕ) → AreDistinct (construct pool map_)
unfolding construct
construct-AreDistinct pool map_ v i j p q h k = cc

claim-AreDistinct :
    (m : Manifold) (w : ℕ) → AreDistinct m → found m w ≡ none → AreDistinct (claim m w)
unfolding claim
claim-AreDistinct m w d missing v i j p q h k =
    ground (arith, d v i j p q, found-none m w i missing p, found-none m w j missing q)

-- A write through an address keeps each block in at most one slot.
pub materialize-AreDistinct :
    (m : Manifold) (vaddr : ℕ) (data_ : List ℕ)
    → AreDistinct m
    → AreDistinct (materialize_range m vaddr data_)
materialize-AreDistinct m vaddr data_ d = elim (Option-cases (found m (block_of vaddr))) [
  | inl missing ↦
      rw (materialize_miss m vaddr data_ missing) (claim-AreDistinct m (block_of vaddr) d missing)
  | inr (j, e) ↦ rw (materialize_hit m vaddr j data_ e) d
]

pub clear_slot-AreDistinct :
    (m : Manifold) (slot : ℕ) → AreDistinct m → AreDistinct (clear_slot m slot)
unfolding clear_slot
clear_slot-AreDistinct m slot d v i j p q h k = ground (arith, d v i j p q)

-- What is written into a slot, at most 16 bytes, is read back from it, and the count says how many;
-- a cleared slot gives nothing.
pub read_slot-write_slot :
    (m : Manifold) (slot max_len : ℕ) (data_ : List ℕ)
    → max_len ≤ length data_
    → let (n, m') = write_slot m slot data_ in
      (n ≡ min (length data_) 16)
      × (read_slot m' slot max_len ≡ take (min max_len 16) data_)
      × (read_slot (clear_slot m' slot) slot max_len ≡ [])
unfolding write_slot
read_slot-write_slot m slot max_len data_ le =
    (ground arith, reads, unfold read_slot clear_slot in ground arith)
  where
    off : ℕ
    off = slot_of slot * block_bytes

    stored : List ℕ
    stored = take (if ltb (length data_) 16 then length data_ else 16) data_

    room : (n : ℕ) → (if ltb n 16 then n else 16) ≡ min n 16
    room n = ground arith

    same_place : off + 0 ≡ off
    same_place = omega arith

    bytes : peek (poke m.pool off stored) off (min max_len 16) ≡ take (min max_len 16) data_
    bytes =
        ap (λ a. peek (poke m.pool off stored) a (min max_len 16)) (sym same_place)
        ∙ peek-poke_inside m.pool off 0 (min max_len 16) stored
            (ground (arith, length-take (min (length data_) 16) data_, room (length data_)))
        ∙ ap (λ n. take (min max_len 16) (take n data_)) (room (length data_))
        ∙ take-take (min max_len 16) (min (length data_) 16) data_
        ∙ ap (λ n. take n data_) (omega arith)

    reads : read_slot (write_slot m slot data_).1 slot max_len ≡ take (min max_len 16) data_
    reads =
        unfold read_slot write_slot in
        let here : (slot_of slot == slot_of slot) ≡ true = ground arith in
        rw (here, room max_len) bytes

-- A slot that is written again without a block keeps the one that it had before it was cleared: it
-- hides the slot that this block has moved to.
pub write_slot_hides :
    (m : Manifold) (slot v j : ℕ) (data_ : List ℕ)
    → found m v ≡ some j
    → slot < j
    → is_empty (m.cache_state slot) ≡ true
    → m.vblock_map slot ≡ v
    → found (write_slot m slot data_).1 v ≡ some slot
unfolding write_slot
write_slot_hides m slot v j data_ e lt gone stale =
    found_at (write_slot m slot data_).1 v slot (omega (arith, found-some m v j e))
      (unfold write_slot in ground (arith, found-some m v j e))
      (λ k below. unfold write_slot in ground (arith, found_before m v j k e, found-some m v j e))
