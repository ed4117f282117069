-- ===== src/Bmt/Block.antt =====
-- `Block` of src/vdev/bmt_topology.hpp: 1024 values, and the two loops that move data through one.
pub mod Walk
pub mod RoundTrip
pub mod Shape
pub mod Image
use emergence_os_bare_metal.Base.{
  ℕ, zero, suc, ◌+◌, ◌-◌, ◌*◌, ◌^◌, ◌<◌, ◌≡◌, List, [], ◌∷◌, ◌++◌, map, Bool, ◌&&◌, ◌||◌, ltb, ◌==◌,
  if◌then◌else◌, length, get_or, take, drop, replicate,
}
use emergence_os_bare_metal.Bmt.Value.{
  Value128, IsWord, empty, route, pack_route, get_payload, set_payload, write_to, read_from,
  halt_route, free_route, payload_bytes_per_hop,
}

abbrev pub entries_per_block : ℕ
entries_per_block = 1024

abbrev pub block_size_bytes : ℕ
block_size_bytes = entries_per_block * 16

abbrev pub bytes_per_block : ℕ
bytes_per_block = entries_per_block * payload_bytes_per_hop

-- The array `entries`.
abbrev pub Block : Type 0
Block = List Value128

abbrev pub AreWords : Block → Type 0
AreWords [] = Unit {0}
AreWords (v ∷ vs) = IsWord v × AreWords vs

abbrev pub IsBlock : Block → Type 0
IsBlock b = (length b ≡ entries_per_block) × AreWords b

-- The constructor.
unfoldable pub fresh_block : Block
fresh_block = replicate entries_per_block (pack_route empty free_route)

unfoldable pub serialize : Block → List ℕ
serialize [] = []
serialize (v ∷ vs) = write_to v ++ serialize vs

-- `n` values are read from `buf`.
read_entries : ℕ → List ℕ → Block
read_entries zero buf = []
read_entries (suc n) buf = read_from buf ∷ read_entries n (drop 16 buf)

pub deserialize : List ℕ → Block
deserialize buf = read_entries entries_per_block buf

pub record Written : Type 0 where
  pub block : Block
  pub written : ℕ

-- Is anything of the data left?
abbrev pub is_empty : List ℕ → Bool
is_empty data_ = length data_ == 0

-- The route of the value at `entry` when `rest` is still to be written.
abbrev pub next_route : ℕ → List ℕ → ℕ
next_route entry rest =
    if ltb 0 (length rest) && ltb (entry + 1) entries_per_block then entry + 1 else halt_route

-- Both loops of `write_block_data`, from `entry` on: `data_` is the `len - written` bytes at
-- `data + written`. Once it is used up the second loop frees what is left of the block.
unfoldable pub write_loop : ℕ → ℕ → Block → List ℕ → Written
write_loop entry written [] data_ = record { block = []; written = written }
write_loop entry written (v ∷ vs) [] =
    let out = write_loop (entry + 1) written vs [] in
    record { block = pack_route v free_route ∷ out.block; written = out.written }
write_loop entry written (v ∷ vs) (b ∷ bs) =
    let chunk = take payload_bytes_per_hop (b ∷ bs) in
    let rest = drop payload_bytes_per_hop (b ∷ bs) in
    let out = write_loop (entry + 1) (written + length chunk) vs rest in
    record {
      block = pack_route (set_payload v chunk) (next_route entry rest) ∷ out.block;
      written = out.written;
    }

-- The bytes of the payload at `entry` that fit into `room`.
unfoldable pub part_of : Block → ℕ → ℕ → List ℕ
part_of block entry room = take room (get_payload (get_or block entry empty) payload_bytes_per_hop)

-- The loop of `read_block_data`: the bytes from `entry` on, with room for `room` more in `out`. Each
-- round copies a byte at least, so `room` rounds are enough.
unfoldable pub read_loop : ℕ → Block → ℕ → ℕ → List ℕ
read_loop zero block entry room = []
read_loop (suc fuel) block entry room =
    let v = get_or block entry empty in
    let part = part_of block entry room in
    let rest = read_loop fuel block (route v) (room - length part) in
    if ltb 0 room && ltb entry entries_per_block
    then if route v == halt_route || route v == free_route
      then part
      else if ltb (route v) entries_per_block
      then part ++ rest
      else part
    else []

unfoldable pub read_block : Block → ℕ → List ℕ
unfolding read_loop
read_block block max_len = read_loop max_len block 0 max_len

unfoldable pub write_block : Block → List ℕ → Written
unfolding write_loop
write_block block data_ = write_loop 0 0 block data_

unfoldable pub clear_block : Block → Block
clear_block block = map (λ v. pack_route v free_route) block
