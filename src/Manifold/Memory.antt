-- ===== src/Manifold/Memory.antt =====
-- Copies into and out of the pool of src/vdev/topology.hpp.
use emergence_os_bare_metal.Base.{
  ℕ, zero, suc, ◌+◌, ◌^◌, ◌≤◌, ◌<◌, ◌≡◌, ◌⊎◌, refl, sym, ap, ap₂, ◌∙◌, arith, List, [], ◌∷◌, ◌++◌,
  length, get_or, take, drop, le_value-le_bytes,
}
use emergence_os_bare_metal.Manifold.{Pool, poke, peek, Value128, image, value_of}

drop-cons : (i : ℕ) (bs : List ℕ) → i < length bs → drop i bs ≡ get_or bs i 0 ∷ drop (suc i) bs
drop-cons zero [] h = absurd (omega arith)
drop-cons zero (b ∷ bs) h = refl
drop-cons (suc i) [] h = absurd (omega arith)
drop-cons (suc i) (b ∷ bs) h = drop-cons i bs (omega arith)

-- The bytes from the `i`-th of those that were copied.
pub peek-poke_inside :
    (pool : Pool) (off i n : ℕ) (bs : List ℕ)
    → i + n ≤ length bs
    → peek (poke pool off bs) (off + i) n ≡ take n (drop i bs)
unfolding peek poke
peek-poke_inside pool off i zero bs h = refl
peek-poke_inside pool off i (suc n) bs h =
    ap₂ ◌∷◌ (ground arith) (
      ap (λ t. peek (poke pool off bs) t n) (omega arith)
      ∙ peek-poke_inside pool off (suc i) n bs (omega arith))
    ∙ ap (take (suc n)) (sym (drop-cons i bs (omega arith)))

-- Bytes before or behind the copy stay.
pub peek-poke_outside :
    (pool : Pool) (off at_ n : ℕ) (bs : List ℕ)
    → (at_ + n ≤ off) ⊎ (off + length bs ≤ at_)
    → peek (poke pool off bs) at_ n ≡ peek pool at_ n
unfolding peek
peek-poke_outside pool off at_ zero bs h = refl
peek-poke_outside pool off at_ (suc n) bs h =
    ap₂ ◌∷◌ (unfold poke in ground arith) (peek-poke_outside pool off (at_ + 1) n bs (omega arith))

-- A value is read back from its 16 bytes, whatever follows them.
pub value_of-image :
    (v : Value128) (rest : List ℕ) → v.hi < 2 ^ 64 → v.lo < 2 ^ 64 → value_of (image v ++ rest) ≡ v
unfolding value_of image
value_of-image v rest h l =
    ap₂ (λ (t u : ℕ). let w : Value128 = record { hi = t; lo = u } in w)
      (le_value-le_bytes 8 v.hi h) (le_value-le_bytes 8 v.lo l)
