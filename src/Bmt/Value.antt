-- ===== src/Bmt/Value.antt =====
-- `Value128` of src/vdev/bmt_topology.hpp: ten bits of route, two of checksum, 13 bytes of payload.
pub mod Route
pub mod Payload
use emergence_os_bare_metal.Base.{
  ℕ, zero, suc, ◌+◌, ◌-◌, ◌*◌, ◌/◌, ◌%◌, ◌^◌, ◌<◌, bit_and, bit_or, bit_xor, List, [], ◌∷◌, ◌++◌,
  u8, u16, u64, ◌<<<◌, ◌>>>◌, le_bytes, le_value, take, drop, Bool, ◌==◌,
}

abbrev pub lens_mask : ℕ
lens_mask = 0x3FF

abbrev pub halt_route : ℕ
halt_route = 0x3FF

abbrev pub error_route : ℕ
error_route = 0x3FE

abbrev pub free_route : ℕ
free_route = 0x3FD

abbrev pub payload_bytes_per_hop : ℕ
payload_bytes_per_hop = 13

pub record Value128 : Type 0 where
  pub hi : ℕ
  pub lo : ℕ

-- Both halves are `uint64_t`.
abbrev pub IsWord : Value128 → Type 0
IsWord v = (v.hi < 2 ^ 64) × (v.lo < 2 ^ 64)

abbrev pub empty : Value128
empty = record { hi = 0; lo = 0 }

unfoldable pub route : Value128 → ℕ
route v = bit_and (u16 (v.hi >>> 54)) lens_mask

unfoldable pub crc : Value128 → ℕ
crc v = bit_and (u8 (v.hi >>> 52)) 0x03

abbrev pub folded : ℕ → ℕ → ℕ
folded fold k = bit_xor fold (fold >>> k)

unfoldable pub compute_crc : Value128 → ℕ
compute_crc v =
    let payload_hi = bit_and v.hi 0x000FFFFFFFFFFFFF in
    u8 (
      bit_and (folded (folded (folded (folded (folded (bit_xor payload_hi v.lo) 32) 16) 8) 4) 2)
        0x03)

unfoldable pub crc_valid : Value128 → Bool
unfolding crc compute_crc
crc_valid v = crc v == compute_crc v

-- `hi &= ...; hi |= route << 54; c = compute_crc(); hi |= c << 52;`
unfoldable pub pack_route : Value128 → ℕ → Value128
unfolding compute_crc
pack_route v r =
    let cleared = bit_and v.hi 0x000FFFFFFFFFFFFF in
    let routed = bit_or cleared (u64 (bit_and r lens_mask <<< 54)) in
    let c = compute_crc (record { hi = routed; lo = v.lo }) in
    record { hi = bit_or routed (u64 (bit_and c 0x03 <<< 52)); lo = v.lo }

-- `out[copied] = (uint8_t)(word >> (i * 8))` for `n` rounds from `i` on, with room for `room` bytes.
store_bytes : ℕ → ℕ → ℕ → ℕ → List ℕ
store_bytes i zero word room = []
store_bytes i (suc n) word zero = []
store_bytes i (suc n) word (suc room) = u8 (word >>> (i * 8)) ∷ store_bytes (i + 1) n word room

-- The bytes that are copied to `out`; their number is what the method returns. `lo` gives eight, so
-- the second loop has room for `max_bytes - 8`.
unfoldable pub get_payload : Value128 → ℕ → List ℕ
unfolding store_bytes
get_payload v max_bytes = store_bytes 0 8 v.lo max_bytes ++ store_bytes 0 5 v.hi (max_bytes - 8)

pub record Loaded : Type 0 where
  pub word : ℕ
  pub rest : List ℕ

-- `word |= (uint64_t)data[pos] << (i * 8)` for `n` rounds from `i` on; `rest` is `data + pos`.
load_bytes : ℕ → ℕ → ℕ → List ℕ → Loaded
load_bytes i zero word data_ = record { word = word; rest = data_ }
load_bytes i (suc n) word [] = record { word = word; rest = [] }
load_bytes i (suc n) word (b ∷ bs) = load_bytes (i + 1) n (bit_or word (u64 (b <<< (i * 8)))) bs

-- `data_` is the `len` bytes at `data`. The top twelve bits stay.
unfoldable pub set_payload : Value128 → List ℕ → Value128
unfolding load_bytes
set_payload v data_ =
    let top_bits = bit_and v.hi 0xFFF0000000000000 in
    let low = load_bytes 0 8 0 data_ in
    let high = load_bytes 0 5 0 low.rest in record { hi = bit_or high.word top_bits; lo = low.word }

-- `memcpy` of the two words; the target is little-endian.
unfoldable pub write_to : Value128 → List ℕ
write_to v = le_bytes 8 v.lo ++ le_bytes 8 v.hi

-- `buf` holds at least 16 bytes.
unfoldable pub read_from : List ℕ → Value128
read_from buf = record { lo = le_value (take 8 buf); hi = le_value (take 8 (drop 8 buf)) }
