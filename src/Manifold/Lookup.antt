-- ===== src/Manifold/Lookup.antt =====
-- Which slot a virtual block of src/vdev/topology.hpp is found in, before and after one is claimed.
use native.Mathlib.Decide.{ℕ_discrete}
use emergence_os_bare_metal.Base.{
  ℕ, zero, suc, ◌+◌, ◌≤◌, ◌<◌, ◌≡◌, ◌≢◌, inl, inr, refl, arith, Bool, true, false, none, some,
  Bool-cases,
}
use emergence_os_bare_metal.Manifold.{Manifold, holds, first, found, claim, victim}

-- What `first` finds is in range and passes.
first-some :
    (test : ℕ → Bool) (i n j : ℕ)
    → first test i n ≡ some j
    → (i ≤ j) × (j < i + n) × (test j ≡ true)
unfolding first
first-some test i zero j e = cc
first-some test i (suc n) j e = elim (Bool-cases (test i)) [
  | inl t ↦ ground arith
  | inr f ↦ ground (arith, first-some test (i + 1) n j)
]

first-none :
    (test : ℕ → Bool) (i n k : ℕ) → first test i n ≡ none → i ≤ k → k < i + n → test k ≡ false
unfolding first
first-none test i zero k e p q = absurd (omega arith)
first-none test i (suc n) k e p q = ground (arith, first-none test (i + 1) n k)

-- An index that passes is found if none before it does.
pub first_at :
    (test : ℕ → Bool) (i n v : ℕ)
    → test v ≡ true
    → ((k : ℕ) → i ≤ k → k < v → test k ≡ false)
    → i ≤ v
    → v < i + n
    → first test i n ≡ some v
unfolding first
first_at test i zero v t before p q = absurd (omega arith)
first_at test i (suc n) v t before p q = elim (ℕ_discrete i v) [
  | yes e ↦ rw (e, t) refl
  | no ne ↦
      rw (before i (omega arith) (omega arith)) (
        first_at test (i + 1) n v t (λ k a b. before k (omega arith) b) (omega arith) (omega arith))
]

first_before :
    (test : ℕ → Bool) (i n j k : ℕ) → first test i n ≡ some j → i ≤ k → k < j → test k ≡ false
unfolding first
first_before test i zero j k e p q = cc
first_before test i (suc n) j k e p q = ground (arith, first_before test (i + 1) n j k)

-- Where one other index stops passing, the first stays.
first_less :
    (test less : ℕ → Bool) (i n v j : ℕ)
    → less v ≡ false
    → ((k : ℕ) → k ≢ v → less k ≡ test k)
    → j ≢ v
    → first test i n ≡ some j
    → first less i n ≡ some j
unfolding first
first_less test less i zero v j f same ne e = cc
first_less test less i (suc n) v j f same ne e = elim (ℕ_discrete i v) [
  | yes at_ ↦
      let gone : less i ≡ false = rw at_ f in
      ground (arith, first_less test less (i + 1) n v j f same ne)
  | no off ↦ ground (arith, same i off, first_less test less (i + 1) n v j f same ne)
]

pub found-some :
    (m : Manifold) (vblock j : ℕ) → found m vblock ≡ some j → (j < 1024) × (holds m vblock j ≡ true)
unfolding found
found-some m vblock j e = let r = first-some (holds m vblock) 0 1024 j e in (r.1, r.2)

pub found-none :
    (m : Manifold) (vblock k : ℕ) → found m vblock ≡ none → k < 1024 → holds m vblock k ≡ false
unfolding found
found-none m vblock k e lt = first-none (holds m vblock) 0 1024 k e (omega arith) lt

-- A block that was nowhere is found in the slot claimed for it.
pub found-claim_self :
    (m : Manifold) (vblock : ℕ)
    → found m vblock ≡ none
    → found (claim m vblock) vblock ≡ some (victim m)
unfolding found
found-claim_self m vblock e =
    first_at (holds (claim m vblock) vblock) 0 1024 (victim m) (unfold claim in ground arith)
      (λ k p q.
        unfold claim in ground (arith, first-none (holds m vblock) 0 1024 k e p (omega arith)))
      (omega arith) (omega arith)

pub found_before :
    (m : Manifold) (vblock j k : ℕ) → found m vblock ≡ some j → k < j → holds m vblock k ≡ false
unfolding found
found_before m vblock j k e q = first_before (holds m vblock) 0 1024 j k e (omega arith) q

pub found_at :
    (m : Manifold) (vblock j : ℕ)
    → j < 1024
    → holds m vblock j ≡ true
    → ((k : ℕ) → k < j → holds m vblock k ≡ false)
    → found m vblock ≡ some j
unfolding found
found_at m vblock j lt h before =
    first_at (holds m vblock) 0 1024 j h (λ k p q. before k q) (omega arith) (omega arith)

-- Any other block stays where it was, unless it was in the slot claimed.
pub found-claim_ne :
    (m : Manifold) (vblock other j : ℕ)
    → other ≢ vblock
    → found m other ≡ some j
    → j ≢ victim m
    → found (claim m vblock) other ≡ some j
unfolding found
found-claim_ne m vblock other j ne e away =
    first_less (holds m other) (holds (claim m vblock) other) 0 1024 (victim m) j
      (unfold claim in ground arith) (λ k off. unfold claim in ground arith) away e
