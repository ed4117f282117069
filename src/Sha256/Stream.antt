-- ===== src/Sha256/Stream.antt =====
-- `update` of src/crypto/sha256.hpp against a reference that takes one byte at a time.
use native.Mathlib.Decide.{dec_lt, ℕ_discrete}
use emergence_os_bare_metal.Base.{
  ℕ, ◌+◌, ◌-◌, ◌%◌, ◌≤◌, ◌<◌, ◌≡◌, ◌≢◌, refl, sym, ap, ap₂, ◌∙◌, arith, List, [], ◌++◌, true, false,
  ◌==◌, length, take, drop, u64, length-append, length-take, length-drop, append-nil,
  take-append-drop, take_all, drop_all,
}
use emergence_os_bare_metal.Sha256.{transform, Sha256, splice, whole_blocks, fill_up, update}
use emergence_os_bare_metal.Sha256.Reference.{
  Stream, feed, view, IsSha, feed-append, feed_short, feed_full, splice_front, length-splice,
  view-eq, whole_blocks_lem, whole_blocks_none,
}

module _ (s : Sha256) (bs : List ℕ) (ok : IsSha s) (started : s.count % 64 ≢ 0) where
  abbrev part : List ℕ
  part = take (64 - s.count % 64) bs

  part_fits : s.count % 64 + length part ≤ 64
  part_fits = omega (arith, length-take (64 - s.count % 64) bs)

  abbrev buffered : List ℕ
  buffered = splice s.buffer (s.count % 64) part

  -- The buffer is full.
  fill_up_full :
      s.count % 64 + length part ≡ 64
      → (view (fill_up s bs) ≡ feed (view s) part)
        × IsSha (fill_up s bs)
        × ((fill_up s bs).count ≡ u64 (s.count + length part))
        × ((fill_up s bs).count % 64 ≡ 0)
  fill_up_full e =
      let shut : (u64 (s.count + length part) % 64 == 0) ≡ true = ground arith in
      rw shut (
        ap₂ (λ w p. let v : Stream = record { state = transform s.state w; pending = p } in v) whole
              nothing
            ∙ sym (feed_full part (view s) (omega (arith, pending)) (omega (arith, pending))),
        length-splice s.buffer part (s.count % 64) ok part_fits,
        refl,
        omega arith,
      )
    where
      whole : buffered ≡ take (s.count % 64) s.buffer ++ part
      whole =
          sym (
            take_all 64 buffered
              (omega (arith, length-splice s.buffer part (s.count % 64) ok part_fits)))
          ∙ splice_front s.buffer part (s.count % 64) 64 ok e (omega arith)

      none_left : u64 (s.count + length part) % 64 ≡ 0
      none_left = omega arith

      nothing : take (u64 (s.count + length part) % 64) buffered ≡ []
      nothing = ap (λ n. take n buffered) none_left

      pending : length (take (s.count % 64) s.buffer) ≡ s.count % 64
      pending = omega (arith, length-take (s.count % 64) s.buffer)

  fill_up_short :
      s.count % 64 + length part < 64
      → (view (fill_up s bs) ≡ feed (view s) part)
        × IsSha (fill_up s bs)
        × ((fill_up s bs).count ≡ u64 (s.count + length part))
        × (drop (64 - s.count % 64) bs ≡ [])
  fill_up_short h =
      let open_ : (u64 (s.count + length part) % 64 == 0) ≡ false = ground arith in
      rw open_ (
        view-eq s.state _ _ (
              splice_front s.buffer part (s.count % 64) (u64 (s.count + length part) % 64) ok
                (omega arith) (omega arith))
            ∙ sym (feed_short part (view s) (omega (arith, length-take (s.count % 64) s.buffer))),
        length-splice s.buffer part (s.count % 64) ok part_fits,
        refl,
        drop_all (64 - s.count % 64) bs (omega (arith, length-take (64 - s.count % 64) bs)),
      )

  abbrev later : List ℕ
  later = drop (64 - s.count % 64) bs

  update_started_eq : update s bs ≡ whole_blocks (length bs) (fill_up s bs) later
  unfolding update
  update_started_eq = let busy : (s.count % 64 == 0) ≡ false = ground arith in rw busy refl

  started_full :
      s.count % 64 + length part ≡ 64
      → (view (update s bs) ≡ feed (view s) bs)
        × IsSha (update s bs)
        × ((update s bs).count ≡ u64 (s.count + length bs))
  started_full e =
      let f = fill_up_full e in
      let w =
        whole_blocks_lem (length bs) (fill_up s bs) later f.1 f.3
          (omega (arith, length-drop (64 - s.count % 64) bs)) in
      rw update_started_eq (
        w.0
            ∙ ap (λ v. feed v later) f.0
            ∙ sym (feed-append part later (view s))
            ∙ ap (feed (view s)) (take-append-drop (64 - s.count % 64) bs),
        w.1,
        omega (
          arith,
          w.2,
          f.2,
          length-drop (64 - s.count % 64) bs,
          length-take (64 - s.count % 64) bs,
        ),
      )

  started_short :
      s.count % 64 + length part < 64
      → (view (update s bs) ≡ feed (view s) bs)
        × IsSha (update s bs)
        × ((update s bs).count ≡ u64 (s.count + length bs))
  started_short h =
      let f = fill_up_short h in
      let w = whole_blocks_none (length bs) (fill_up s bs) in
      let all : part ≡ bs =
        sym (append-nil part)
        ∙ ap (λ t. part ++ t) (sym f.3)
        ∙ take-append-drop (64 - s.count % 64) bs in
      rw (update_started_eq, f.3)
        (
          w.0 ∙ f.0 ∙ ap (feed (view s)) all,
          omega (arith, ap length w.1, f.1),
          omega (arith, w.2, f.2, ap length all),
        )

  -- With a block begun, the rest follows what fills it up.
  update_started :
      (view (update s bs) ≡ feed (view s) bs)
      × IsSha (update s bs)
      × ((update s bs).count ≡ u64 (s.count + length bs))
  update_started = elim (dec_lt (s.count % 64 + length part) 64) [
    | yes short ↦ started_short short
    | no full ↦ started_full (omega (arith, part_fits))
  ]

-- However the data is cut into pieces, `update` does what taking one byte at a time does: it hashes
-- each block of 64 as soon as it is full and keeps what is left. The count is that of all bytes,
-- modulo 2 ^ 64, and the buffer keeps its length.
pub update_lem :
    (s : Sha256) (bs : List ℕ)
    → IsSha s
    → (view (update s bs) ≡ feed (view s) bs)
      × IsSha (update s bs)
      × ((update s bs).count ≡ u64 (s.count + length bs))
unfolding update
update_lem s bs ok = elim (ℕ_discrete (s.count % 64) 0) [
  | yes e ↦
      let idle : (s.count % 64 == 0) ≡ true = ground arith in
      rw idle (whole_blocks_lem (length bs) s bs ok e (omega arith))
  | no ne ↦ update_started s bs ok ne
]

-- Two updates are one update with both pieces.
pub update-append :
    (s : Sha256) (xs ys : List ℕ)
    → IsSha s
    → (view (update (update s xs) ys) ≡ view (update s (xs ++ ys)))
      × ((update (update s xs) ys).count ≡ (update s (xs ++ ys)).count)
update-append s xs ys ok =
    let first = update_lem s xs ok in
    let second = update_lem (update s xs) ys first.1 in
    let both = update_lem s (xs ++ ys) ok in
    (
      second.0 ∙ ap (λ v. feed v ys) first.0 ∙ sym (feed-append xs ys (view s)) ∙ sym both.0,
      omega (arith, first.2, second.2, both.2, length-append xs ys),
    )
