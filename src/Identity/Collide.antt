-- ===== src/Identity/Collide.antt =====
-- Passwords that src/crypto/argon2_hardener.hpp cannot tell apart without a manifold.
use emergence_os_bare_metal.Base.{
  ℕ, ◌+◌, ◌*◌, ◌%◌, ◌≡◌, refl, sym, ap, ◌∙◌, arith, List, [], ◌∷◌, ◌++◌, none, length, bit_xor,
  xor_comm, xor_assoc, xor_zero, xor_cancel, u64, ◌<<<◌,
}
use emergence_os_bare_metal.Bmt.Topology.{Seed}
use emergence_os_bare_metal.Identity.{mix_text, derive}

-- The hash is the old one and the text's, each on its own.
mix_text-xor : (hash i : ℕ) (cs : List ℕ) → mix_text hash i cs ≡ bit_xor hash (mix_text 0 i cs)
unfolding mix_text
mix_text-xor hash i [] = sym (xor_zero hash)
mix_text-xor hash i (c ∷ cs) =
    mix_text-xor (bit_xor hash (u64 (c <<< (i % 8 * 8)))) (i + 1) cs
    ∙ xor_assoc hash (u64 (c <<< (i % 8 * 8))) (mix_text 0 (i + 1) cs)
    ∙ ap (bit_xor hash) (
        sym (
          mix_text-xor (bit_xor 0 (u64 (c <<< (i % 8 * 8)))) (i + 1) cs
          ∙ ap (λ t. bit_xor t (mix_text 0 (i + 1) cs))
              (xor_comm 0 (u64 (c <<< (i % 8 * 8))) ∙ xor_zero (u64 (c <<< (i % 8 * 8))))))

mix_text-append :
    (hash i : ℕ) (xs ys : List ℕ)
    → mix_text hash i (xs ++ ys) ≡ mix_text (mix_text hash i xs) (i + length xs) ys
unfolding mix_text
mix_text-append hash i [] ys = ap (λ j. mix_text hash j ys) (omega arith)
mix_text-append hash i (x ∷ xs) ys =
    mix_text-append (bit_xor hash (u64 (x <<< (i % 8 * 8)))) (i + 1) xs ys
    ∙ ap (λ j. mix_text (mix_text hash i (x ∷ xs)) j ys) (omega arith)

-- Only the place in the word of eight counts.
mix_text_place :
    (hash i j : ℕ) (cs : List ℕ) → i % 8 ≡ j % 8 → mix_text hash i cs ≡ mix_text hash j cs
unfolding mix_text
mix_text_place hash i j [] e = refl
mix_text_place hash i j (c ∷ cs) e =
    ap (λ p. mix_text (bit_xor hash (u64 (c <<< (p * 8)))) (i + 1) cs) e
    ∙ mix_text_place (bit_xor hash (u64 (c <<< (j % 8 * 8)))) (i + 1) (j + 1) cs (omega arith)

-- Two equal words of eight characters cancel.
cancelled :
    (hash i : ℕ) (word : List ℕ)
    → length word ≡ 8
    → mix_text (mix_text hash i word) (i + length word) word ≡ hash
cancelled hash i word l =
    mix_text_place (mix_text hash i word) (i + length word) i word (omega arith)
    ∙ mix_text-xor (mix_text hash i word) i word
    ∙ ap (λ t. bit_xor t (mix_text 0 i word)) (mix_text-xor hash i word)
    ∙ xor_cancel hash (mix_text 0 i word)

-- Without a manifold, as at boot, the seed of a password is that of the password with any eight
-- characters put in twice at any place, or at its end.
pub derive-append_twice :
    (before word later hwid : List ℕ)
    → length word ≡ 8
    → derive (before ++ (word ++ (word ++ later))) hwid none ≡ derive (before ++ later) hwid none
unfolding derive
derive-append_twice before word later hwid l =
    ap (λ h. let s : Seed = record { hi = h; lo = mix_text 0x646f72616e646f6d 0 hwid } in s) same
  where
    start : ℕ
    start = 0x736f6d6570736575

    mid : ℕ
    mid = mix_text start 0 before

    same :
        mix_text start 0 (before ++ (word ++ (word ++ later))) ≡ mix_text start 0 (before ++ later)
    same =
        mix_text-append start 0 before (word ++ (word ++ later))
        ∙ mix_text-append mid (0 + length before) word (word ++ later)
        ∙ mix_text-append (mix_text mid (0 + length before) word) (0 + length before + length word)
            word later
        ∙ ap (λ h. mix_text h (0 + length before + length word + length word) later)
            (cancelled mid (0 + length before) word l)
        ∙ mix_text_place mid (0 + length before + length word + length word) (0 + length before)
            later (omega arith)
        ∙ sym (mix_text-append start 0 before later)
