-- ===== src/Bmt/Block/Walk.antt =====
-- The read loop of src/vdev/bmt_topology.hpp: it ends, and it fills no more than the buffer.
use emergence_os_bare_metal.Base.{
  ℕ, zero, suc, ◌-◌, ◌<◌, ◌≤◌, ◌≡◌, refl, arith, [], ◌++◌, length, get_or, min, ◌⊎◌, length-take,
  length-append,
}
use emergence_os_bare_metal.Bmt.Value.{route, empty, halt_route, free_route}
use emergence_os_bare_metal.Bmt.Value.Payload.{get_payload_lem}
use emergence_os_bare_metal.Bmt.Block.{Block, part_of, read_loop, read_block}

-- Where the next round stands.
abbrev pub hop : Block → ℕ → ℕ
hop block entry = route (get_or block entry empty)

abbrev pub left : Block → ℕ → ℕ → ℕ
left block entry room = room - length (part_of block entry room)

pub length-part_of :
    (block : Block) (entry room : ℕ) → length (part_of block entry room) ≡ min room 13
unfolding part_of
length-part_of block entry room =
    rw (get_payload_lem (get_or block entry empty) 13) (length-take room _)

-- No more than `room` bytes are copied.
length-read_loop :
    (fuel : ℕ) (block : Block) (entry room : ℕ) → length (read_loop fuel block entry room) ≤ room
unfolding read_loop
length-read_loop zero block entry room = omega arith
length-read_loop (suc fuel) block entry room = ground (
  arith,
  length-part_of block entry room,
  length-append (part_of block entry room)
      (read_loop fuel block (hop block entry) (left block entry room)),
  length-read_loop fuel block (hop block entry) (left block entry room),
)

read_loop_fuel :
    (f g : ℕ) (block : Block) (entry room : ℕ)
    → room ≤ f
    → room ≤ g
    → read_loop f block entry room ≡ read_loop g block entry room
unfolding read_loop
read_loop_fuel zero zero block entry room p q = refl
read_loop_fuel zero (suc g) block entry room p q = ground arith
read_loop_fuel (suc f) zero block entry room p q = ground arith
read_loop_fuel (suc f) (suc g) block entry room p q = ground (
  arith,
  length-part_of block entry room,
  read_loop_fuel f g block (hop block entry) (left block entry room),
)

pub read_loop-zero : (fuel : ℕ) (block : Block) (entry : ℕ) → read_loop fuel block entry 0 ≡ []
unfolding read_loop
read_loop-zero zero block entry = refl
read_loop-zero (suc fuel) block entry = refl

-- One round at a value whose route ends the walk.
pub read_loop_last :
    (fuel : ℕ) (block : Block) (entry room : ℕ)
    → entry < 1024
    → 0 < room
    → (hop block entry ≡ halt_route) ⊎ (hop block entry ≡ free_route)
    → read_loop (suc fuel) block entry room ≡ part_of block entry room
unfolding read_loop
read_loop_last fuel block entry room e r h = ground arith

-- One round at a value whose route leads on.
pub read_loop-hop :
    (fuel : ℕ) (block : Block) (entry room : ℕ)
    → entry < 1024
    → 0 < room
    → hop block entry < free_route
    → read_loop (suc fuel) block entry room
      ≡ part_of block entry room ++ read_loop fuel block (hop block entry) (left block entry room)
unfolding read_loop
read_loop-hop fuel block entry room e r h = ground arith

-- Reading ends: more rounds than bytes wanted give the same bytes, and never more than wanted.
pub read_block_ends :
    (block : Block) (max_len rounds : ℕ)
    → max_len ≤ rounds
    → (read_loop rounds block 0 max_len ≡ read_block block max_len)
      × (length (read_block block max_len) ≤ max_len)
unfolding read_block
read_block_ends block max_len rounds h = (
  unfold read_block in read_loop_fuel rounds max_len block 0 max_len h (omega arith),
  unfold read_block in length-read_loop max_len block 0 max_len,
)
