-- ===== src/Sha256.antt =====
-- src/crypto/sha256.hpp: the hash, fed in pieces of any length.
pub mod Reference
pub mod Stream
mod Tests
use emergence_os_bare_metal.Base.{
  ℕ, zero, suc, ◌+◌, ◌-◌, ◌*◌, ◌/◌, ◌%◌, ◌^◌, List, [], ◌∷◌, ◌++◌, Bool, true, false, ltb, ◌==◌,
  if◌then◌else◌, length, take, drop, get_or, replicate, bit_and, bit_or, bit_xor, u8, u32, u64,
  ◌<<<◌, ◌>>>◌, le_bytes,
}
use emergence_os_bare_metal.Bmt.Topology.{Seed}

abbrev pub rotr : ℕ → ℕ → ℕ
rotr x n = bit_or (x >>> n) (u32 (x <<< (32 - n)))

-- `~x` is `0xFFFFFFFF - x` on 32 bits.
abbrev pub ch : ℕ → ℕ → ℕ → ℕ
ch x y z = bit_xor (bit_and x y) (bit_and (0xFFFFFFFF - x) z)

abbrev pub maj : ℕ → ℕ → ℕ → ℕ
maj x y z = bit_xor (bit_xor (bit_and x y) (bit_and x z)) (bit_and y z)

abbrev pub ep0 : ℕ → ℕ
ep0 x = bit_xor (bit_xor (rotr x 2) (rotr x 13)) (rotr x 22)

abbrev pub ep1 : ℕ → ℕ
ep1 x = bit_xor (bit_xor (rotr x 6) (rotr x 11)) (rotr x 25)

abbrev pub sig0 : ℕ → ℕ
sig0 x = bit_xor (bit_xor (rotr x 7) (rotr x 18)) (x >>> 3)

abbrev pub sig1 : ℕ → ℕ
sig1 x = bit_xor (bit_xor (rotr x 17) (rotr x 19)) (x >>> 10)

abbrev pub round_constants : List ℕ
round_constants =
    0x428a2f98 ∷ 0x71374491 ∷ 0xb5c0fbcf ∷ 0xe9b5dba5 ∷ 0x3956c25b ∷ 0x59f111f1 ∷ 0x923f82a4
    ∷ 0xab1c5ed5 ∷ 0xd807aa98 ∷ 0x12835b01 ∷ 0x243185be ∷ 0x550c7dc3 ∷ 0x72be5d74 ∷ 0x80deb1fe
    ∷ 0x9bdc06a7 ∷ 0xc19bf174 ∷ 0xe49b69c1 ∷ 0xefbe4786 ∷ 0x0fc19dc6 ∷ 0x240ca1cc ∷ 0x2de92c6f
    ∷ 0x4a7484aa ∷ 0x5cb0a9dc ∷ 0x76f988da ∷ 0x983e5152 ∷ 0xa831c66d ∷ 0xb00327c8 ∷ 0xbf597fc7
    ∷ 0xc6e00bf3 ∷ 0xd5a79147 ∷ 0x06ca6351 ∷ 0x14292967 ∷ 0x27b70a85 ∷ 0x2e1b2138 ∷ 0x4d2c6dfc
    ∷ 0x53380d13 ∷ 0x650a7354 ∷ 0x766a0abb ∷ 0x81c2c92e ∷ 0x92722c85 ∷ 0xa2bfe8a1 ∷ 0xa81a664b
    ∷ 0xc24b8b70 ∷ 0xc76c51a3 ∷ 0xd192e819 ∷ 0xd6990624 ∷ 0xf40e3585 ∷ 0x106aa070 ∷ 0x19a4c116
    ∷ 0x1e376c08 ∷ 0x2748774c ∷ 0x34b0bcb5 ∷ 0x391c0cb3 ∷ 0x4ed8aa4a ∷ 0x5b9cca4f ∷ 0x682e6ff3
    ∷ 0x748f82ee ∷ 0x78a5636f ∷ 0x84c87814 ∷ 0x8cc70208 ∷ 0x90befffa ∷ 0xa4506ceb ∷ 0xbef9a3f7
    ∷ 0xc67178f2 ∷ []

-- Four bytes of the block to a word, highest first.
load_words : ℕ → List ℕ → List ℕ
load_words zero data_ = []
load_words (suc n) data_ =
    u32 (
      bit_or
        (bit_or (bit_or (get_or data_ 0 0 <<< 24) (get_or data_ 1 0 <<< 16))
          (get_or data_ 2 0 <<< 8))
        (get_or data_ 3 0))
    ∷ load_words n (drop 4 data_)

-- `m` from `i` on, `n` more words.
extend_words : ℕ → ℕ → List ℕ → List ℕ
extend_words i zero words = words
extend_words i (suc n) words = extend_words (i + 1) n (
    words
    ++ u32 (
        sig1 (get_or words (i - 2) 0)
        + get_or words (i - 7) 0
        + sig0 (get_or words (i - 15) 0)
        + get_or words (i - 16) 0)
      ∷ [])

pub record Working : Type 0 where
  pub a : ℕ
  pub b : ℕ
  pub c : ℕ
  pub d : ℕ
  pub e : ℕ
  pub f : ℕ
  pub g : ℕ
  pub h : ℕ

hash_round : Working → ℕ → ℕ → Working
hash_round w k m =
    let t1 = u32 (w.h + ep1 w.e + ch w.e w.f w.g + k + m) in
    let t2 = u32 (ep0 w.a + maj w.a w.b w.c) in
    record {
      a = u32 (t1 + t2);
      b = w.a;
      c = w.b;
      d = w.c;
      e = u32 (w.d + t1);
      f = w.e;
      g = w.f;
      h = w.g;
    }

hash_rounds : Working → List ℕ → List ℕ → Working
hash_rounds w [] ms = w
hash_rounds w (k ∷ ks) [] = w
hash_rounds w (k ∷ ks) (m ∷ ms) = hash_rounds (hash_round w k m) ks ms

-- `state` before and after one block of 64 bytes.
pub transform : Working → List ℕ → Working
transform s data_ =
    let w = hash_rounds s round_constants (extend_words 16 48 (load_words 16 data_)) in
    record {
      a = u32 (s.a + w.a);
      b = u32 (s.b + w.b);
      c = u32 (s.c + w.c);
      d = u32 (s.d + w.d);
      e = u32 (s.e + w.e);
      f = u32 (s.f + w.f);
      g = u32 (s.g + w.g);
      h = u32 (s.h + w.h);
    }

pub record Sha256 : Type 0 where
  pub state : Working
  pub count : ℕ
  pub buffer : List ℕ

-- The constructor; the buffer holds what was in memory.
unfoldable pub initial : List ℕ → Sha256
initial buffer = record {
  state = record {
    a = 0x6a09e667;
    b = 0xbb67ae85;
    c = 0x3c6ef372;
    d = 0xa54ff53a;
    e = 0x510e527f;
    f = 0x9b05688c;
    g = 0x1f83d9ab;
    h = 0x5be0cd19;
  };
  count = 0;
  buffer = buffer;
}

-- `kmemcpy(&buffer[off], data, length data)`.
abbrev pub splice : List ℕ → ℕ → List ℕ → List ℕ
splice buffer off data_ = take off buffer ++ (data_ ++ drop (off + length data_) buffer)

-- The loop over whole blocks and the copy of what is left; `fuel` is at least the number of blocks.
unfoldable pub whole_blocks : ℕ → Sha256 → List ℕ → Sha256
whole_blocks zero s data_ = record s {
  buffer = splice s.buffer 0 data_;
  count = u64 (s.count + length data_);
}
whole_blocks (suc fuel) s data_ =
    let next = record s { state = transform s.state (take 64 data_); count = u64 (s.count + 64) } in
    let rest = whole_blocks fuel next (drop 64 data_) in
    if ltb (length data_) 64
    then record s { buffer = splice s.buffer 0 data_; count = u64 (s.count + length data_) }
    else rest

-- The first part of `update`, which fills up the buffer.
abbrev pub fill_up : Sha256 → List ℕ → Sha256
fill_up s data_ =
    let part = take (64 - s.count % 64) data_ in
    let buffer' = splice s.buffer (s.count % 64) part in
    let count' = u64 (s.count + length part) in
    if count' % 64 == 0
    then record { state = transform s.state buffer'; count = count'; buffer = buffer' }
    else record s { count = count'; buffer = buffer' }

unfoldable pub update : Sha256 → List ℕ → Sha256
update s data_ =
    if s.count % 64 == 0
    then whole_blocks (length data_) s data_
    else whole_blocks (length data_) (fill_up s data_) (drop (64 - s.count % 64) data_)

-- `while ((count % 64) != 56) update(&pad, 1)`; 64 rounds are enough, since each adds one to the count.
unfoldable pub pad_zeros : ℕ → Sha256 → Sha256
pad_zeros zero s = s
pad_zeros (suc fuel) s =
    let rest = pad_zeros fuel (update s (0 ∷ [])) in if s.count % 64 == 56 then s else rest

-- The `n` bytes of a number, highest first.
unfoldable pub be_bytes : ℕ → ℕ → List ℕ
be_bytes zero x = []
be_bytes (suc n) x = u8 (x >>> (n * 8)) ∷ be_bytes n x

unfoldable pub digest : Working → List ℕ
digest s =
    be_bytes 4 s.a
    ++ (be_bytes 4 s.b
        ++ (be_bytes 4 s.c
            ++ (be_bytes 4 s.d
                ++ (be_bytes 4 s.e ++ (be_bytes 4 s.f ++ (be_bytes 4 s.g ++ be_bytes 4 s.h))))))

-- The hash, and the state that is left.
unfoldable pub finalize : Sha256 → List ℕ × Sha256
finalize s =
    let bit_len = u64 (s.count * 8) in
    let padded = pad_zeros 64 (update s (0x80 ∷ [])) in
    let done = update padded (be_bytes 8 bit_len) in (digest done.state, done)

abbrev same_bytes : List ℕ → List ℕ → Bool
same_bytes [] ys = true
same_bytes (x ∷ xs) [] = false
same_bytes (x ∷ xs) (y ∷ ys) = let rest = same_bytes xs ys in if x == y then rest else false

-- `junk` is what the buffer of the new object holds.
unfoldable pub verify_seed : List ℕ → Seed → List ℕ → Bool
verify_seed junk s expected_hash =
    same_bytes (finalize (update (initial junk) (le_bytes 8 s.hi ++ le_bytes 8 s.lo))).0
      expected_hash
