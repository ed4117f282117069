-- ===== src/Bmt/Image/RoundTrip.antt =====
-- A topology survives `save_image` and `load_image` of src/vdev/bmt_topology.hpp.
use emergence_os_bare_metal.Base.{
  ℕ, zero, suc, ◌+◌, ◌-◌, ◌^◌, ◌<◌, ◌≡◌, ◌≢◌, refl, sym, ap, ap₂, ◌∙◌, arith, bit_xor, xor-lt, List,
  [], ◌∷◌, ◌++◌, true, false, Option, none, some, length, take, set, map, ltb, ◌==◌, if◌then◌else◌,
  length-append, length-replicate, take-append_eq, drop-append_eq, append-nil, append_assoc,
  take_all, le_bytes, le_value-le_bytes,
}
use emergence_os_bare_metal.Bmt.Block.{Block, IsBlock, serialize, deserialize, block_size_bytes}
use emergence_os_bare_metal.Bmt.Block.Image.{length-serialize, deserialize-serialize}
use emergence_os_bare_metal.Bmt.Topology.{Seed, Topology, lens_count}
use emergence_os_bare_metal.Bmt.Topology.Store.{IsTopology, AreBlocks, MaybeBlock}
use emergence_os_bare_metal.Bmt.Keys.{generate}
use emergence_os_bare_metal.Bmt.Keys.Bounds.{IsSeed}
use emergence_os_bare_metal.Bmt.Image.{
  obfuscate, image_tag, lens_bytes, image_lenses, image_bytes, save_image, fread, load_lenses,
  resize, load_body, load_image,
}
use emergence_os_bare_metal.Bmt.Image.Obfuscate.{length-obfuscate, obfuscate_twice}

-- Reading as many bytes as the first part has takes that part off.
fread-append :
    (n : ℕ) (head rest : List ℕ) → length head ≡ n → fread n (head ++ rest) ≡ some (head, rest)
unfolding fread
fread-append n head rest e =
    rw (long, take-append_eq n head rest e, drop-append_eq n head rest e) refl
  where
    long : ltb (length (head ++ rest)) n ≡ false
    long = ground (arith, length-append head rest)

-- What comes back for a lens: the block that it had, or one of zero values.
abbrev pub reloaded : Option Block → Option Block
reloaded o = some (deserialize (lens_bytes o))

length-lens_bytes : (o : Option Block) → MaybeBlock o → length (lens_bytes o) ≡ block_size_bytes
unfolding lens_bytes
length-lens_bytes none h = length-replicate {A = ℕ} block_size_bytes 0
length-lens_bytes (some b) h = omega (arith, length-serialize b, h.0)

set-append :
    (pre : List (Option Block)) (o v : Option Block) (old : List (Option Block)) (i : ℕ)
    → length pre ≡ i
    → set (pre ++ o ∷ old) i v ≡ pre ++ v ∷ old
set-append [] o v old zero e = refl
set-append [] o v old (suc i) e = absurd (omega arith)
set-append (p ∷ pre) o v old zero e = absurd (omega arith)
set-append (p ∷ pre) o v old (suc i) e = ap (λ t. p ∷ t) (set-append pre o v old i (omega arith))

load_lenses-image_lenses :
    (s : Seed) (i : ℕ) (os pre old : List (Option Block))
    → AreBlocks os
    → length pre ≡ i
    → length old ≡ length os
    → load_lenses s i (length os) (image_lenses s i os) (pre ++ old)
      ≡ (true, pre ++ map reloaded os)
unfolding load_lenses image_lenses
load_lenses-image_lenses s i [] pre [] bs e l = refl
load_lenses-image_lenses s i [] pre (o ∷ old) bs e l = absurd (omega arith)
load_lenses-image_lenses s i (o ∷ os) pre [] bs e l = absurd (omega arith)
load_lenses-image_lenses s i (o ∷ os) pre (p ∷ old) bs e l =
    rw
      (
        fread-append block_size_bytes masked later masked_full,
        load_lenses,
        obfuscate_twice (lens_bytes o) s (i + 1),
      )
      (ap (load_lenses s (i + 1) (length os) later) placed
        ∙ load_lenses-image_lenses s (i + 1) os (pre ++ reloaded o ∷ []) old bs.1
            (omega (arith, length-append pre (reloaded o ∷ []))) (omega arith)
        ∙ ap (λ t. (true, t)) (append_assoc pre (reloaded o ∷ []) (map reloaded os)))
  where
    masked : List ℕ
    masked = obfuscate (lens_bytes o) s (i + 1)

    later : List ℕ
    later = image_lenses s (i + 1) os

    masked_full : length masked ≡ block_size_bytes
    masked_full = length-obfuscate (lens_bytes o) s (i + 1) ∙ length-lens_bytes o bs.0

    placed : set (pre ++ p ∷ old) i (reloaded o) ≡ (pre ++ reloaded o ∷ []) ++ old
    placed = set-append pre p (reloaded o) old i e ∙ sym (append_assoc pre (reloaded o ∷ []) old)

-- No lens is without its block.
abbrev pub ArePresent : List (Option Block) → Type 0
ArePresent [] = Unit {0}
ArePresent (none ∷ os) = ⊥
ArePresent (some b ∷ os) = ArePresent os

map-reloaded : (os : List (Option Block)) → AreBlocks os → ArePresent os → map reloaded os ≡ os
map-reloaded [] bs p = refl
map-reloaded (none ∷ os) bs p = elim p [ ]
map-reloaded (some b ∷ os) bs p =
    ap₂ (λ x t. some x ∷ t) (unfold lens_bytes in deserialize-serialize b bs.0)
      (map-reloaded os bs.1 p)

image_tag-lt : (s : Seed) → IsSeed s → image_tag s < 2 ^ 64
unfolding image_tag
image_tag-lt s h =
    xor-lt 64 (bit_xor s.hi s.lo) 0xA5A5A5A5A5A5A5A5 (xor-lt 64 s.hi s.lo h.0 h.1) (omega arith)

resize_full : (os : List (Option Block)) → length os ≡ 1024 → resize os ≡ os
unfolding resize
resize_full os e =
    let none_more : 1024 - length os ≡ 0 = omega arith in
    rw (none_more, append-nil (take 1024 os)) (take_all 1024 os (omega arith))

module _ (t : Topology) (s : Seed) (target : Topology) (seed_ok : IsSeed t.seed) where
  abbrev body : List ℕ
  body = obfuscate (serialize t.root) t.seed 0 ++ image_lenses t.seed 0 t.level1

  abbrev opened : Topology
  opened = record target { seed = s; lens_keys = generate s }

  -- Up to the test of the tag.
  load_tag :
      load_image target (some (image_bytes t)) s
      ≡ (if image_tag t.seed == image_tag s then load_body opened body else (false, opened))
  unfolding load_image image_bytes
  load_tag =
      rw
        (
          fread-append 8 (le_bytes 8 (image_tag t.seed)) (le_bytes 8 4 ++ body) refl,
          load_image,
          fread-append 8 (le_bytes 8 4) body refl,
          le_value-le_bytes 8 (image_tag t.seed) (image_tag-lt t.seed seed_ok),
        )
        refl

  -- An image opened with a seed of another tag is refused: the blocks stay, but the seed and the lens
  -- keys of the topology are those of the wrong seed.
  pub load_image_wrong_seed :
      image_tag s ≢ image_tag t.seed
      → load_image target (save_image t true).1 s
        ≡ (false, record target { seed = s; lens_keys = generate s })
  load_image_wrong_seed ne = unfold save_image in rw load_tag (rw (test ne) refl)
    where
      test : image_tag s ≢ image_tag t.seed → (image_tag t.seed == image_tag s) ≡ false
      test ne = ground arith

module _ (t target : Topology) (valid : IsTopology t) (root_ok : IsBlock t.root)
    (seed_ok : IsSeed t.seed) (lenses : length target.level1 ≡ 1024) where
  load_body_lem : load_body (opened t t.seed target seed_ok) (body t t.seed target seed_ok) ≡ (
    true,
    record {
      seed = t.seed;
      lens_keys = generate t.seed;
      root = t.root;
      level1 = map reloaded t.level1;
      dirty = false;
    },
  )
  unfolding load_body
  load_body_lem =
      rw
        (
          fread-append block_size_bytes masked_root later full,
          load_body,
          obfuscate_twice (serialize t.root) t.seed 0,
          resize_full target.level1 lenses,
          all_lenses,
          deserialize-serialize t.root root_ok,
        )
        refl
    where
      masked_root : List ℕ
      masked_root = obfuscate (serialize t.root) t.seed 0

      later : List ℕ
      later = image_lenses t.seed 0 t.level1

      full : length masked_root ≡ block_size_bytes
      full =
          omega (
            arith,
            length-obfuscate (serialize t.root) t.seed 0,
            length-serialize t.root,
            root_ok.0,
          )

      all_lenses :
          load_lenses t.seed 0 lens_count later target.level1 ≡ (true, map reloaded t.level1)
      all_lenses =
          ap (λ n. load_lenses t.seed 0 n later target.level1) (sym valid.lenses)
          ∙ load_lenses-image_lenses t.seed 0 t.level1 [] target.level1 valid.blocks refl
              (lenses ∙ sym valid.lenses)

  -- Saving and then loading with the same seed gives the same root and the same blocks, for a topology that
  -- has a block for every lens: a lens without one would come back with a block of zeros.
  pub load_image-save_image :
      ArePresent t.level1
      → load_image target (save_image t true).1 t.seed
        ≡ (true, record t { lens_keys = generate t.seed; dirty = false })
  load_image-save_image present =
      unfold save_image in
      rw (load_tag t t.seed target seed_ok, same)
        (rw (load_body_lem, map-reloaded t.level1 valid.blocks present) refl)
    where
      same : (image_tag t.seed == image_tag t.seed) ≡ true
      same = ground arith
