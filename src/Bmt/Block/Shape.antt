-- ===== src/Bmt/Block/Shape.antt =====
-- What the write loop of src/vdev/bmt_topology.hpp counts, and that it leaves a block of words.
use emergence_os_bare_metal.Base.{
  ℕ, suc, ◌+◌, ◌*◌, ◌^◌, ◌<◌, ◌≡◌, refl, ap, ◌∙◌, arith, min, List, [], ◌∷◌, length, take, drop,
  length-take, length-drop, IsBytes, IsBytes-take, IsBytes-drop, le_value-lt,
}
use emergence_os_bare_metal.Bmt.Value.{Value128, IsWord, set_payload, pack_route, free_route}
use emergence_os_bare_metal.Bmt.Value.Payload.{set_payload_lem}
use emergence_os_bare_metal.Bmt.Value.Route.{pack_route_lem, lo-pack_route}
use emergence_os_bare_metal.Bmt.Block.{
  Block, AreWords, IsBlock, next_route, write_loop, write_block,
}

-- The loop stores all of the data or fills the block, whichever is less.
written-write_loop :
    (entry written : ℕ) (vs : Block) (bs : List ℕ)
    → (write_loop entry written vs bs).written ≡ written + min (length bs) (13 * length vs)
unfolding write_loop
written-write_loop entry written [] bs = omega arith
written-write_loop entry written (v ∷ vs) [] =
    omega (arith, written-write_loop (entry + 1) written vs [])
written-write_loop entry written (v ∷ vs) (b ∷ bs) = omega (
  arith,
  written-write_loop (entry + 1) (written + length (take 13 (b ∷ bs))) vs (drop 13 (b ∷ bs)),
  length-take 13 (b ∷ bs),
  length-drop 13 (b ∷ bs),
)

length-write_loop :
    (entry written : ℕ) (vs : Block) (bs : List ℕ)
    → length (write_loop entry written vs bs).block ≡ length vs
unfolding write_loop
length-write_loop entry written [] bs = refl
length-write_loop entry written (v ∷ vs) [] = ap suc (length-write_loop (entry + 1) written vs [])
length-write_loop entry written (v ∷ vs) (b ∷ bs) =
    ap suc
      (length-write_loop (entry + 1) (written + length (take 13 (b ∷ bs))) vs (drop 13 (b ∷ bs)))

pack_route-IsWord : (v : Value128) (r : ℕ) → v.lo < 2 ^ 64 → IsWord (pack_route v r)
pack_route-IsWord v r h = ((pack_route_lem v r).4, rw (lo-pack_route v r) h)

lo-set_payload-lt :
    (v : Value128) (bs : List ℕ)
    → v.hi < 2 ^ 64
    → IsBytes bs
    → (set_payload v (take 13 bs)).lo < 2 ^ 64
lo-set_payload-lt v bs h p =
    rw (set_payload_lem v (take 13 bs) h (omega (arith, length-take 13 bs)) (IsBytes-take 13 bs p))
      (omega (
        arith,
        le_value-lt 8 (take 8 (take 13 bs)) (omega (arith, length-take 8 (take 13 bs)))
            (IsBytes-take 8 (take 13 bs) (IsBytes-take 13 bs p)),
      ))

write_loop-AreWords :
    (entry written : ℕ) (vs : Block) (bs : List ℕ)
    → AreWords vs
    → IsBytes bs
    → AreWords (write_loop entry written vs bs).block
unfolding write_loop
write_loop-AreWords entry written [] bs ws p = tt
write_loop-AreWords entry written (v ∷ vs) [] ws p =
    (pack_route-IsWord v free_route ws.0.1, write_loop-AreWords (entry + 1) written vs [] ws.1 p)
write_loop-AreWords entry written (v ∷ vs) (b ∷ bs) ws p = (
  pack_route-IsWord (set_payload v (take 13 (b ∷ bs))) (next_route entry (drop 13 (b ∷ bs)))
      (lo-set_payload-lt v (b ∷ bs) ws.0.0 p),
  write_loop-AreWords (entry + 1) (written + length (take 13 (b ∷ bs))) vs (drop 13 (b ∷ bs)) ws.1
      (IsBytes-drop 13 (b ∷ bs) p),
)

-- A write counts the bytes that fit the block's 13312, and leaves a block of 1024 words.
pub write_block_lem :
    (block : Block) (data_ : List ℕ)
    → IsBlock block
    → IsBytes data_
    → ((write_block block data_).written ≡ min (length data_) 13312)
      × IsBlock (write_block block data_).block
unfolding write_block
write_block_lem block data_ valid bytes = (
  omega (arith, written-write_loop 0 0 block data_, valid.0),
  (length-write_loop 0 0 block data_ ∙ valid.0, write_loop-AreWords 0 0 block data_ valid.1 bytes),
)
