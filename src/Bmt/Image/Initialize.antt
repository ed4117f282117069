-- ===== src/Bmt/Image/Initialize.antt =====
-- What `initialize` of src/vdev/bmt_topology.hpp sets up.
use emergence_os_bare_metal.Base.{
  ℕ, zero, suc, ◌^◌, ◌<◌, ◌≡◌, refl, ap, ◌∙◌, arith, true, List, [], ◌∷◌, Option, none, some, map,
  length, length-map, length-replicate, replicate,
}
use emergence_os_bare_metal.Bmt.Value.{
  Value128, IsWord, route, crc_valid, pack_route, free_route, empty,
}
use emergence_os_bare_metal.Bmt.Value.Route.{pack_route_lem}
use emergence_os_bare_metal.Bmt.Block.{Block, AreWords, IsBlock, fresh_block}
use emergence_os_bare_metal.Bmt.Topology.{Seed, LensKey, Topology}
use emergence_os_bare_metal.Bmt.Topology.Store.{IsTopology, AreBlocks}
use emergence_os_bare_metal.Bmt.Keys.{Pair, mix, generate}
use emergence_os_bare_metal.Bmt.Keys.Bounds.{IsSeed, IsPair, mix-IsPair, AreKeys, generate_lem}
use emergence_os_bare_metal.Bmt.Image.{expand_entries, expand_block, initialize}

-- Every value is marked free and has a valid checksum.
abbrev pub AreFree : Block → Type 0
AreFree [] = Unit {0}
AreFree (v ∷ vs) = ((route v ≡ free_route) × (crc_valid v ≡ true)) × AreFree vs

packed_free :
    (v : Value128)
    → v.lo < 2 ^ 64
    → IsWord (pack_route v free_route)
      × (route (pack_route v free_route) ≡ free_route)
      × (crc_valid (pack_route v free_route) ≡ true)
packed_free v h =
    let laws = pack_route_lem v free_route in ((laws.4, omega (arith, laws.3, h)), laws.0, laws.1)

length-expand_entries : (n : ℕ) (p : Pair) → length (expand_entries n p) ≡ n
unfolding expand_entries
length-expand_entries zero p = refl
length-expand_entries (suc n) p = ap suc (length-expand_entries n (mix 13 17 p))

expand_entries_lem :
    (n : ℕ) (p : Pair) → IsPair p → AreWords (expand_entries n p) × AreFree (expand_entries n p)
unfolding expand_entries
expand_entries_lem zero p h = (tt, tt)
expand_entries_lem (suc n) p h =
    let q = mix 13 17 p in
    let ok = mix-IsPair 13 17 p h in
    let here = packed_free (record { hi = q.a; lo = q.b }) ok.1 in
    let rest = expand_entries_lem n q ok in ((here.0, rest.0), ((here.1, here.2), rest.1))

replicate_lem :
    (n : ℕ) (v : Value128)
    → IsWord v
    → route v ≡ free_route
    → crc_valid v ≡ true
    → AreWords (replicate n v) × AreFree (replicate n v)
replicate_lem zero v w r c = (tt, tt)
replicate_lem (suc n) v w r c =
    let rest = replicate_lem n v w r c in ((w, rest.0), ((r, c), rest.1))

pub fresh_block_lem : IsBlock fresh_block × AreFree fresh_block
unfolding fresh_block
fresh_block_lem =
    let here = packed_free empty (omega arith) in
    let all = replicate_lem 1024 (pack_route empty free_route) here.0 here.1 here.2 in
    ((length-replicate 1024 (pack_route empty free_route), all.0), all.1)

expand_block_lem :
    (k : LensKey)
    → k.hi < 2 ^ 64
    → k.lo < 2 ^ 64
    → IsBlock (expand_block k) × AreFree (expand_block k)
unfolding expand_block
expand_block_lem k h l =
    let p : Pair = record { a = k.hi; b = k.lo } in
    let all = expand_entries_lem 1024 p (h, l) in ((length-expand_entries 1024 p, all.0), all.1)

-- Every lens has a block, all of it free.
abbrev pub AllFree : List (Option Block) → Type 0
AllFree [] = Unit {0}
AllFree (none ∷ os) = ⊥
AllFree (some b ∷ os) = AreFree b × AllFree os

level1_lem :
    (ks : List LensKey)
    → AreKeys ks
    → AreBlocks (map (λ k. some (expand_block k)) ks)
      × AllFree (map (λ k. some (expand_block k)) ks)
level1_lem [] h = (tt, tt)
level1_lem (k ∷ ks) h =
    let here = expand_block_lem k h.0 h.1 in
    let rest = level1_lem ks h.2 in ((here.0, rest.0), (here.1, rest.1))

-- From a master seed of two words `initialize` makes a well-formed topology with a block for each of
-- the 1024 lenses; all values, of the root too, are marked free and have valid checksums.
pub initialize_lem :
    (t : Topology) (s : Seed)
    → IsSeed s
    → IsTopology (initialize t s)
      × IsBlock (initialize t s).root
      × AreFree (initialize t s).root
      × AllFree (initialize t s).level1
unfolding initialize
initialize_lem t s h =
    let keys = generate_lem s h in
    let all = level1_lem (generate s) keys.1 in
    (
      record {
        lenses = length-map (λ k. some (expand_block k)) (generate s) ∙ keys.0;
        blocks = all.0;
      },
      fresh_block_lem.0,
      fresh_block_lem.1,
      all.1,
    )
