-- ===== src/Bmt/Image/Obfuscate.antt =====
-- `obfuscate` of src/vdev/bmt_topology.hpp is its own inverse.
use emergence_os_bare_metal.Base.{
  ℕ, zero, suc, ◌+◌, ◌-◌, ◌*◌, ◌≤◌, ◌≡◌, refl, ap, ap₂, ◌∙◌, arith, xor_cancel, List, [], ◌∷◌, ◌++◌,
  u8, ◌>>>◌, length, take, drop, length-take, length-drop, length-append, take_all, append-nil,
  take-append-drop, take-append_eq, drop-append_eq, eq-nil, drop_all, ◌⊎◌, inl, inr, min,
}
use emergence_os_bare_metal.Bmt.Topology.{Seed}
use emergence_os_bare_metal.Bmt.Keys.{Pair, mix}
use emergence_os_bare_metal.Bmt.Image.{mask_word, mask_loop, obfuscate}

length-mask_word : (j sl : ℕ) (bs : List ℕ) → length (mask_word j sl bs) ≡ length bs
unfolding mask_word
length-mask_word j sl [] = refl
length-mask_word j sl (b ∷ bs) = ap suc (length-mask_word (j + 1) sl bs)

mask_word_twice : (j sl : ℕ) (bs : List ℕ) → mask_word j sl (mask_word j sl bs) ≡ bs
unfolding mask_word
mask_word_twice j sl [] = refl
mask_word_twice j sl (b ∷ bs) =
    ap₂ ◌∷◌ (xor_cancel b (u8 (sl >>> (j * 8)))) (mask_word_twice (j + 1) sl bs)

length-mask_loop :
    (rounds : ℕ) (p : Pair) (bs : List ℕ) → length (mask_loop rounds p bs) ≡ length bs
unfolding mask_loop
length-mask_loop zero p bs = refl
length-mask_loop (suc rounds) p [] = refl
length-mask_loop (suc rounds) p (b ∷ bs) = omega (
  arith,
  length-append (mask_word 0 (mix 13 17 p).b (take 8 (b ∷ bs)))
      (mask_loop rounds (mix 13 17 p) (drop 8 (b ∷ bs))),
  length-mask_word 0 (mix 13 17 p).b (take 8 (b ∷ bs)),
  length-mask_loop rounds (mix 13 17 p) (drop 8 (b ∷ bs)),
  length-take 8 (b ∷ bs),
  length-drop 8 (b ∷ bs),
)

-- One round in a form that also covers the empty rest.
mask_loop_step :
    (rounds : ℕ) (p : Pair) (bs : List ℕ)
    → mask_loop (suc rounds) p bs
      ≡ mask_word 0 (mix 13 17 p).b (take 8 bs) ++ mask_loop rounds (mix 13 17 p) (drop 8 bs)
unfolding mask_loop mask_word
mask_loop_step zero p [] = refl
mask_loop_step (suc rounds) p [] = refl
mask_loop_step rounds p (b ∷ bs) = refl

-- A chunk that is full or the last is cut off again.
chunk_back :
    (head rest : List ℕ)
    → length head ≤ 8
    → (length head ≡ 8) ⊎ (length rest ≡ 0)
    → (take 8 (head ++ rest) ≡ head) × (drop 8 (head ++ rest) ≡ rest)
chunk_back head rest le (inl full) =
    (take-append_eq 8 head rest full, drop-append_eq 8 head rest full)
chunk_back head rest le (inr last) =
    rw (eq-nil rest last, append-nil head) (take_all 8 head le, drop_all 8 head le)

mask_loop_twice :
    (rounds : ℕ) (p : Pair) (bs : List ℕ) → mask_loop rounds p (mask_loop rounds p bs) ≡ bs
mask_loop_twice zero p bs = unfold mask_loop in refl
mask_loop_twice (suc rounds) p bs =
    ap (mask_loop (suc rounds) p) (mask_loop_step rounds p bs)
    ∙ mask_loop_step rounds p (head ++ rest)
    ∙ ap₂ (λ t u. mask_word 0 q.b t ++ mask_loop rounds q u) back.0 back.1
    ∙ ap₂ ◌++◌ (mask_word_twice 0 q.b (take 8 bs)) (mask_loop_twice rounds q (drop 8 bs))
    ∙ take-append-drop 8 bs
  where
    q : Pair
    q = mix 13 17 p

    head : List ℕ
    head = mask_word 0 q.b (take 8 bs)

    rest : List ℕ
    rest = mask_loop rounds q (drop 8 bs)

    length-head : length head ≡ min 8 (length bs)
    length-head = length-mask_word 0 q.b (take 8 bs) ∙ length-take 8 bs

    length-rest : length rest ≡ length bs - 8
    length-rest = length-mask_loop rounds q (drop 8 bs) ∙ length-drop 8 bs

    back : (take 8 (head ++ rest) ≡ head) × (drop 8 (head ++ rest) ≡ rest)
    back =
        chunk_back head rest (omega (arith, length-head)) (omega (arith, length-head, length-rest))

pub length-obfuscate : (bs : List ℕ) (s : Seed) (bi : ℕ) → length (obfuscate bs s bi) ≡ length bs
unfolding obfuscate
length-obfuscate bs s bi = length-mask_loop (length bs) _ bs

-- Obfuscating twice with one seed and block number gives the bytes back.
pub obfuscate_twice : (bs : List ℕ) (s : Seed) (bi : ℕ) → obfuscate (obfuscate bs s bi) s bi ≡ bs
obfuscate_twice bs s bi =
    unfold obfuscate in rw (length-mask_loop (length bs) _ bs) (mask_loop_twice (length bs) _ bs)
