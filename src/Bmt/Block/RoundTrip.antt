-- ===== src/Bmt/Block/RoundTrip.antt =====
-- Writing and then reading one block of src/vdev/bmt_topology.hpp.
use emergence_os_bare_metal.Base.{
  ℕ, zero, suc, ◌+◌, ◌-◌, ◌*◌, ◌%◌, ◌^◌, ◌<◌, ◌≤◌, ◌≡◌, refl, ap, arith, min, List, [], ◌∷◌, ◌++◌,
  length, take, drop, get_or, replicate, length-take, length-drop, length-append, le_bytes,
  le_bytes-mod, take-take, take-append_le, take-append-take-drop, inl, inr, append_assoc,
  append-nil, IsBytes, IsBytes-take, IsBytes-drop,
}
use emergence_os_bare_metal.Bmt.Value.{
  Value128, get_payload, set_payload, pack_route, empty, halt_route,
}
use emergence_os_bare_metal.Bmt.Value.Payload.{get_payload_lem, get_payload-set_payload}
use emergence_os_bare_metal.Bmt.Value.Route.{pack_route_lem, lo-pack_route}
use native.Mathlib.Decide.{dec_lt}
use emergence_os_bare_metal.Bmt.Block.Walk.{
  hop, length-part_of, read_loop-zero, read_loop_last, read_loop-hop,
}
use emergence_os_bare_metal.Bmt.Block.{
  Block, AreWords, IsBlock, Written, next_route, write_loop, write_block, part_of, read_loop,
  read_block,
}

-- Packing a route leaves the payload bytes alone.
pub get_payload-pack_route :
    (v : Value128) (r : ℕ) → get_payload (pack_route v r) 13 ≡ get_payload v 13
get_payload-pack_route v r =
    rw (get_payload_lem (pack_route v r) 13, get_payload_lem v 13, lo-pack_route v r)
      (ap (λ t. take 13 (le_bytes 8 v.lo ++ t)) (le_bytes-mod 5 (pack_route v r).hi v.hi low))
  where
    low : (pack_route v r).hi % 256 ^ 5 ≡ v.hi % 256 ^ 5
    low = omega (arith, (pack_route_lem v r).2)

get_or-append_self :
    (pre : Block) (v : Value128) (vs : Block) → get_or (pre ++ v ∷ vs) (length pre) empty ≡ v
get_or-append_self [] v vs = refl
get_or-append_self (p ∷ pre) v vs = get_or-append_self pre v vs

-- The head of a suffix.
get_or-append :
    (pre : Block) (v : Value128) (vs : Block) (n : ℕ)
    → length pre ≡ n
    → get_or (pre ++ v ∷ vs) n empty ≡ v
get_or-append pre v vs n e = rw (← e) (get_or-append_self pre v vs)

-- What is read of a chunk that `set_payload` stored.
stored_part :
    (v : Value128) (bs : List ℕ) (r room : ℕ)
    → v.hi < 2 ^ 64
    → IsBytes bs
    → min room 13 ≤ length bs
    → take room (get_payload (pack_route (set_payload v (take 13 bs)) r) 13) ≡ take (min room 13) bs
stored_part v bs r room h p le =
    rw
      (
        get_payload-pack_route,
        get_payload-set_payload v (take 13 bs) 13 h (omega (arith, length-take 13 bs))
            (IsBytes-take 13 bs p),
        take-take room 13 (take 13 bs ++ replicate (13 - length (take 13 bs)) 0),
        take-append_le (min room 13) (take 13 bs) (replicate (13 - length (take 13 bs)) 0)
            (omega (arith, length-take 13 bs)),
        take-take (min room 13) 13 bs,
      )
      (ap (λ n. take n bs) (omega arith))

-- What the write loop stores at `entry`.
abbrev stored : ℕ → Value128 → List ℕ → Value128
stored entry v bs = pack_route (set_payload v (take 13 bs)) (next_route entry (drop 13 bs))

-- The last round keeps what is wanted of at most 13 bytes, the others 13 and what the rest gives.
split_room :
    (room k : ℕ) (bs : List ℕ)
    → take (min room 13) bs ++ take (min (room - min room 13) k) (drop 13 bs)
      ≡ take (min room (13 + k)) bs
split_room room k bs = elim (dec_lt room 13) [
  | yes h ↦
      let none_left : min (room - min room 13) k ≡ 0 = omega arith in
      let all : min room (13 + k) ≡ min room 13 = omega arith in
      rw (none_left, all) (append-nil (take (min room 13) bs))
  | no h ↦
      let whole : min room 13 ≡ 13 = omega arith in
      let more : min room (13 + k) ≡ 13 + min (room - 13) k = omega arith in
      rw (whole, more) (take-append-take-drop 13 (min (room - 13) k) bs)
]

module _ (fuel entry room : ℕ) (pre : Block) (v : Value128) (bs : List ℕ) (tail : Block)
    (place : length pre ≡ entry) (early : entry ≤ 1020) (word : v.hi < 2 ^ 64) (bytes : IsBytes bs)
    (some_room : 0 < room) (enough : min room (13 * (1021 - entry)) ≤ length bs) where
  abbrev whole : Block
  whole = pre ++ stored entry v bs ∷ tail

  here : get_or whole entry empty ≡ stored entry v bs
  here = get_or-append pre (stored entry v bs) tail entry place

  part_here : part_of whole entry room ≡ take (min room 13) bs
  unfolding part_of
  part_here =
      rw here (stored_part v bs (next_route entry (drop 13 bs)) room word bytes (omega arith))

  hop_here : hop whole entry ≡ next_route entry (drop 13 bs)
  hop_here = rw here (
      rw ((pack_route_lem (set_payload v (take 13 bs)) (next_route entry (drop 13 bs))).0)
        (ground arith))

  last_value : length bs ≤ 13 → read_loop (suc fuel) whole entry room ≡ take (min room 13) bs
  last_value short =
      let halts : hop whole entry ≡ halt_route = rw hop_here (ground (arith, length-drop 13 bs)) in
      rw (read_loop_last fuel whole entry room (omega arith) some_room (inl halts)) part_here

  free_value :
      13 < length bs → entry ≡ 1020 → read_loop (suc fuel) whole entry room ≡ take (min room 13) bs
  free_value long end =
      rw
        (read_loop_last fuel whole entry room (omega arith) some_room
          (inr (rw hop_here (ground (arith, length-drop 13 bs)))))
        part_here

  next_value :
      13 < length bs
      → entry < 1020
      → read_loop (suc fuel) whole entry room
        ≡ take (min room 13) bs ++ read_loop fuel whole (entry + 1) (room - min room 13)
  next_value long inner =
      let on : hop whole entry ≡ entry + 1 = rw hop_here (ground (arith, length-drop 13 bs)) in
      rw
        (
          read_loop-hop fuel whole entry room (omega arith) some_room (omega (arith, on)),
          length-part_of whole entry room,
          part_here,
          on,
        )
        refl

  -- The three kinds of round together, given what the walk finds from the next value on.
  value_round :
      (13 < length bs
        → entry < 1020
        → read_loop fuel whole (entry + 1) (room - min room 13)
          ≡ take (min (room - min room 13) (13 * (1021 - (entry + 1)))) (drop 13 bs))
      → read_loop (suc fuel) whole entry room ≡ take (min room (13 * (1021 - entry))) bs
  value_round rest = elim (dec_lt 13 (length bs)) [
    | no short ↦
        let all : min room (13 * (1021 - entry)) ≡ min room 13 = omega arith in
        rw all (last_value (omega arith))
    | yes long ↦ elim (dec_lt entry 1020) [
      | yes inner ↦
          let more : 13 * (1021 - entry) ≡ 13 + 13 * (1021 - (entry + 1)) = omega arith in
          rw (next_value long inner, rest long inner, more)
            (split_room room (13 * (1021 - (entry + 1))) bs)
      | no end ↦
          let one : 13 * (1021 - entry) ≡ 13 = omega arith in rw one (free_value long (omega arith))
    ]
  ]

write_loop-cons :
    (entry written : ℕ) (v : Value128) (vs : Block) (b : ℕ) (bs : List ℕ)
    → (write_loop entry written (v ∷ vs) (b ∷ bs)).block
      ≡ stored entry v (b ∷ bs)
        ∷ (write_loop (entry + 1) (written + length (take 13 (b ∷ bs))) vs (drop 13 (b ∷ bs))).block
unfolding write_loop
write_loop-cons entry written v vs b bs = refl

-- From `entry` on the read loop finds what the write loop stored there, as far as route 1021, which
-- is `FREE_ROUTE`.
read_loop-write_loop :
    (fuel entry written room : ℕ) (pre vs : Block) (bs : List ℕ)
    → length pre ≡ entry
    → entry + length vs ≡ 1024
    → entry ≤ 1020
    → AreWords vs
    → IsBytes bs
    → min room (13 * (1021 - entry)) ≤ length bs
    → room ≤ fuel
    → read_loop fuel (pre ++ (write_loop entry written vs bs).block) entry room
      ≡ take (min room (13 * (1021 - entry))) bs
read_loop-write_loop fuel entry written zero pre vs bs place total early words bytes enough fu =
    let none_wanted : min 0 (13 * (1021 - entry)) ≡ 0 = omega arith in
    rw (read_loop-zero fuel, none_wanted) refl
read_loop-write_loop zero entry written (suc room) pre vs bs place total early words bytes enough
      fu =
    absurd (omega arith)
read_loop-write_loop (suc fuel) entry written (suc room) pre [] bs place total early words bytes
      enough fu =
    absurd (omega arith)
read_loop-write_loop (suc fuel) entry written (suc room) pre (v ∷ vs) [] place total early words
      bytes enough fu =
    absurd (omega arith)
read_loop-write_loop (suc fuel) entry written (suc room) pre (v ∷ vs) (b ∷ bs) place total early
      words bytes enough fu =
    rw (write_loop-cons entry written v vs b bs) (
      value_round fuel entry (suc room) pre v (b ∷ bs) later.block place early words.0.0 bytes
        (omega arith) enough
        λ long inner. rw (← append_assoc pre (stored entry v (b ∷ bs) ∷ []) later.block) (
          read_loop-write_loop fuel (entry + 1) (written + length (take 13 (b ∷ bs)))
            (suc room - min (suc room) 13) (pre ++ stored entry v (b ∷ bs) ∷ []) vs
            (drop 13 (b ∷ bs)) (omega (arith, length-append pre (stored entry v (b ∷ bs) ∷ [])))
            (omega arith) (omega arith) words.1 (IsBytes-drop 13 (b ∷ bs) bytes)
            (omega (arith, length-drop 13 (b ∷ bs))) (omega arith)))
  where
    later : Written
    later = write_loop (entry + 1) (written + length (take 13 (b ∷ bs))) vs (drop 13 (b ∷ bs))

-- A read gets back the first `max_len` of the bytes that were written into a block, but never more than
-- the first 13273: the value at entry 1020 is given route 1021, which is `FREE_ROUTE`, and the read
-- stops there. The data has at least the bytes that this says are read.
pub read_block-write_block :
    (block : Block) (data_ : List ℕ) (max_len : ℕ)
    → IsBlock block
    → IsBytes data_
    → min max_len 13273 ≤ length data_
    → read_block (write_block block data_).block max_len ≡ take (min max_len 13273) data_
unfolding read_block write_block
read_block-write_block block data_ max_len valid bytes le =
    read_loop-write_loop max_len 0 0 max_len [] block data_ refl (omega (arith, valid.0))
      (omega arith) valid.1 bytes le (omega arith)
