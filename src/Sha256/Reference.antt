-- ===== src/Sha256/Reference.antt =====
-- A reference for `update` of src/crypto/sha256.hpp that takes one byte at a time, and whole blocks
-- against it.
use native.Mathlib.Decide.{dec_lt}
use emergence_os_bare_metal.Base.{
  ℕ, zero, suc, ◌+◌, ◌%◌, ◌≤◌, ◌<◌, ◌≡◌, refl, sym, ap, ◌∙◌, arith, List, [], ◌∷◌, ◌++◌, true,
  false, ltb, lt→ltb, ◌==◌, if◌then◌else◌, length, take, drop, u64, length-append, length-take,
  length-drop, append_assoc, append-nil, take-append-drop, take-append_eq,
}
use emergence_os_bare_metal.Sha256.{Working, transform, Sha256, splice, whole_blocks}

-- The state and the bytes that wait for a full block.
pub record Stream : Type 0 where
  pub state : Working
  pub pending : List ℕ

unfoldable pub feed_byte : Stream → ℕ → Stream
feed_byte v b =
    let full = v.pending ++ b ∷ [] in
    if length full == 64
    then record { state = transform v.state full; pending = [] }
    else record { state = v.state; pending = full }

unfoldable pub feed : Stream → List ℕ → Stream
feed v [] = v
feed v (b ∷ bs) = feed (feed_byte v b) bs

-- What of a hash in progress counts: what the buffer holds past `count % 64` does not.
abbrev pub view : Sha256 → Stream
view s = record { state = s.state; pending = take (s.count % 64) s.buffer }

abbrev pub IsSha : Sha256 → Type 0
IsSha s = length s.buffer ≡ 64

pub feed-append : (xs ys : List ℕ) (v : Stream) → feed v (xs ++ ys) ≡ feed (feed v xs) ys
unfolding feed
feed-append [] ys v = refl
feed-append (x ∷ xs) ys v = feed-append xs ys (feed_byte v x)

-- Bytes that do not fill the block.
pub feed_short :
    (bs : List ℕ) (v : Stream)
    → length v.pending + length bs < 64
    → feed v bs ≡ record { state = v.state; pending = v.pending ++ bs }
unfolding feed
feed_short [] v h =
    ap (λ p. let w : Stream = record { state = v.state; pending = p } in w)
      (sym (append-nil v.pending))
feed_short (b ∷ bs) v h = rw step (
    feed_short bs (record { state = v.state; pending = v.pending ++ b ∷ [] })
      (omega (arith, length-append v.pending (b ∷ [])))
    ∙ ap (λ p. let w : Stream = record { state = v.state; pending = p } in w)
        (append_assoc v.pending (b ∷ []) bs))
  where
    step : feed_byte v b ≡ record { state = v.state; pending = v.pending ++ b ∷ [] }
    step =
        unfold feed_byte in
        let open_ : (length (v.pending ++ b ∷ []) == 64) ≡ false =
          ground (arith, length-append v.pending (b ∷ [])) in
        rw open_ refl

-- Bytes that fill it exactly, at least one.
pub feed_full :
    (bs : List ℕ) (v : Stream)
    → length v.pending < 64
    → length v.pending + length bs ≡ 64
    → feed v bs ≡ record { state = transform v.state (v.pending ++ bs); pending = [] }
unfolding feed
feed_full [] v l h = absurd (omega arith)
feed_full (b ∷ []) v l h =
    unfold feed_byte in
    let shut : (length (v.pending ++ b ∷ []) == 64) ≡ true =
      ground (arith, length-append v.pending (b ∷ [])) in
    rw shut refl
feed_full (b ∷ c ∷ cs) v l h = rw step (
    feed_full (c ∷ cs) (record { state = v.state; pending = v.pending ++ b ∷ [] })
      (omega (arith, length-append v.pending (b ∷ [])))
      (omega (arith, length-append v.pending (b ∷ [])))
    ∙ ap (λ p. let w : Stream = record { state = transform v.state p; pending = [] } in w)
        (append_assoc v.pending (b ∷ []) (c ∷ cs)))
  where
    step : feed_byte v b ≡ record { state = v.state; pending = v.pending ++ b ∷ [] }
    step =
        unfold feed_byte in
        let open_ : (length (v.pending ++ b ∷ []) == 64) ≡ false =
          ground (arith, length-append v.pending (b ∷ [])) in
        rw open_ refl

-- A copy into the buffer, up to its end.
pub splice_front :
    (buffer bs : List ℕ) (c n : ℕ)
    → length buffer ≡ 64
    → c + length bs ≡ n
    → n ≤ 64
    → take n (splice buffer c bs) ≡ take c buffer ++ bs
splice_front buffer bs c n l e h =
    ap (take n) (sym (append_assoc (take c buffer) bs (drop (c + length bs) buffer)))
    ∙ take-append_eq n (take c buffer ++ bs) (drop (c + length bs) buffer)
        (omega (arith, length-append (take c buffer) bs, length-take c buffer))

pub length-splice :
    (buffer bs : List ℕ) (c : ℕ)
    → length buffer ≡ 64
    → c + length bs ≤ 64
    → length (splice buffer c bs) ≡ 64
length-splice buffer bs c l h = omega (
  arith,
  length-append (take c buffer) (bs ++ drop (c + length bs) buffer),
  length-append bs (drop (c + length bs) buffer),
  length-take c buffer,
  length-drop (c + length bs) buffer,
)

pub view-eq :
    (w : Working) (p q : List ℕ)
    → p ≡ q
    → (let v : Stream = record { state = w; pending = p } in v) ≡ record { state = w; pending = q }
view-eq w p q e = ap (λ t. let v : Stream = record { state = w; pending = t } in v) e

-- Less than a block after whole blocks.
tail_lem :
    (s : Sha256) (bs : List ℕ)
    → IsSha s
    → s.count % 64 ≡ 0
    → length bs < 64
    → view (record s { buffer = splice s.buffer 0 bs; count = u64 (s.count + length bs) })
      ≡ feed (view s) bs
tail_lem s bs l c h =
    view-eq s.state _ _
      (splice_front s.buffer bs 0 (u64 (s.count + length bs) % 64) l (omega arith) (omega arith))
    ∙ sym (
        ap (λ n. feed (record { state = s.state; pending = take n s.buffer }) bs) c
        ∙ feed_short bs (record { state = s.state; pending = [] }) (omega arith))

at_least : (a b : ℕ) → b ≤ a → ltb a b ≡ false
at_least a b h = ground arith

-- A whole block at the start of the data.
block_lem :
    (s : Sha256) (bs : List ℕ)
    → IsSha s
    → s.count % 64 ≡ 0
    → 64 ≤ length bs
    → feed (view s) bs
      ≡ feed
          (view (record s { state = transform s.state (take 64 bs); count = u64 (s.count + 64) }))
          (drop 64 bs)
block_lem s bs l c h =
    ap (feed (view s)) (sym (take-append-drop 64 bs))
    ∙ feed-append (take 64 bs) (drop 64 bs) (view s)
    ∙ ap (λ v. feed v (drop 64 bs))
        (ap (λ n. feed (record { state = s.state; pending = take n s.buffer }) (take 64 bs)) c
          ∙ feed_full (take 64 bs) (record { state = s.state; pending = [] }) (omega arith)
              (omega (arith, length-take 64 bs))
          ∙ view-eq (transform s.state (take 64 bs)) [] _ (ap (λ n. take n s.buffer) none_left))
  where
    none_left : 0 ≡ u64 (s.count + 64) % 64
    none_left = omega arith

pub whole_blocks_lem :
    (fuel : ℕ) (s : Sha256) (bs : List ℕ)
    → IsSha s
    → s.count % 64 ≡ 0
    → length bs ≤ fuel
    → (view (whole_blocks fuel s bs) ≡ feed (view s) bs)
      × IsSha (whole_blocks fuel s bs)
      × ((whole_blocks fuel s bs).count ≡ u64 (s.count + length bs))
unfolding whole_blocks
whole_blocks_lem zero s bs l c h =
    (tail_lem s bs l c (omega arith), length-splice s.buffer bs 0 l (omega arith), refl)
whole_blocks_lem (suc fuel) s bs l c h =
    let next : Sha256 = record s {
      state = transform s.state (take 64 bs);
      count = u64 (s.count + 64);
    } in
    let ih =
      whole_blocks_lem fuel next (drop 64 bs) l (omega arith) (omega (arith, length-drop 64 bs)) in
    elim (dec_lt (length bs) 64) [
      | yes short ↦
          rw (lt→ltb (length bs) 64 short)
            (tail_lem s bs l c short, length-splice s.buffer bs 0 l (omega arith), refl)
      | no long ↦ rw (at_least (length bs) 64 (omega arith)) (
        ih.0 ∙ sym (block_lem s bs l c (omega arith)),
        ih.1,
        omega (arith, ih.2, length-drop 64 bs),
      )
    ]

-- Nothing more to take in.
pub whole_blocks_none :
    (fuel : ℕ) (s : Sha256)
    → (view (whole_blocks fuel s []) ≡ view s)
      × ((whole_blocks fuel s []).buffer ≡ s.buffer)
      × ((whole_blocks fuel s []).count ≡ u64 s.count)
unfolding whole_blocks
whole_blocks_none zero s = (
  ap (λ n. let v : Stream = record { state = s.state; pending = take n s.buffer } in v)
      (omega arith),
  refl,
  omega arith,
)
whole_blocks_none (suc fuel) s = (
  ap (λ n. let v : Stream = record { state = s.state; pending = take n s.buffer } in v)
      (omega arith),
  refl,
  omega arith,
)
