-- ===== src/Graphics/Number.antt =====
-- The decimal digits of src/hal/vga.hpp.
use native.Mathlib.Nat.{pow-suc}
use emergence_os_bare_metal.Base.{
  ℕ, zero, suc, ◌+◌, ◌-◌, ◌*◌, ◌/◌, ◌%◌, ◌^◌, ◌≤◌, ◌<◌, ◌≡◌, ap, ◌∙◌, arith, List, [], ◌∷◌, false,
  Bool-cases, inl, inr, ltb, ◌==◌, length,
}
use emergence_os_bare_metal.Graphics.{digits_of, int_to_str}

-- The number that a text of digits stands for, read on from `n`.
abbrev pub read_from : ℕ → List ℕ → ℕ
read_from n [] = n
read_from n (c ∷ str) = read_from (n * 10 + (c - 48)) str

abbrev pub AreDigits : List ℕ → Type 0
AreDigits [] = Unit {0}
AreDigits (c ∷ str) = ((48 ≤ c) × (c ≤ 57)) × AreDigits str

read_from-digits_of :
    (fuel n : ℕ) (str : List ℕ)
    → n < 10 ^ fuel
    → read_from 0 (digits_of fuel n str) ≡ read_from n str
unfolding digits_of
read_from-digits_of zero n str h = ap (λ m. read_from m str) (omega arith)
read_from-digits_of (suc fuel) n str h = elim (Bool-cases (ltb 0 n)) [
  | inl more ↦ rw more (
      read_from-digits_of fuel (n / 10) ((n % 10 + 48) ∷ str) (omega (arith, pow-suc 10 fuel))
      ∙ ap (λ m. read_from m str) (omega arith))
  | inr done ↦ rw done (ap (λ m. read_from m str) (ground arith))
]

AreDigits-digits_of : (fuel n : ℕ) (str : List ℕ) → AreDigits str → AreDigits (digits_of fuel n str)
unfolding digits_of
AreDigits-digits_of zero n str d = d
AreDigits-digits_of (suc fuel) n str d = elim (Bool-cases (ltb 0 n)) [
  | inl more ↦
      rw more
        (AreDigits-digits_of fuel (n / 10) ((n % 10 + 48) ∷ str) ((omega arith, omega arith), d))
  | inr done ↦ rw done d
]

-- As many digits as the number has places.
length-digits_of :
    (fuel k n : ℕ) (str : List ℕ)
    → n < 10 ^ k
    → k ≤ fuel
    → length (digits_of fuel n str) ≤ k + length str
unfolding digits_of
length-digits_of zero k n str h l = omega arith
length-digits_of (suc fuel) zero n str h l =
    let none_left : ltb 0 n ≡ false = ground arith in rw none_left (omega arith)
length-digits_of (suc fuel) (suc k) n str h l = elim (Bool-cases (ltb 0 n)) [
  | inl more ↦ rw more (
      omega (
        arith,
        length-digits_of fuel k (n / 10) ((n % 10 + 48) ∷ str) (omega (arith, pow-suc 10 k))
            (omega arith),
      ))
  | inr done ↦ rw done (omega arith)
]

-- The text of a 64-bit number is digits only, at least one and at most `k` where the number has at
-- most `k` places, and stands for the number.
pub int_to_str_lem :
    (n k : ℕ)
    → n < 2 ^ 64
    → n < 10 ^ k
    → 0 < k
    → k ≤ 20
    → (read_from 0 (int_to_str n) ≡ n) × AreDigits (int_to_str n) × (length (int_to_str n) ≤ k)
unfolding int_to_str
int_to_str_lem n k h p z l = elim (Bool-cases (n == 0)) [
  | inl nothing ↦ rw nothing (ground arith, ((omega arith, omega arith), tt), omega arith)
  | inr something ↦ rw something (
    read_from-digits_of 20 n [] (omega arith),
    AreDigits-digits_of 20 n [] tt,
    omega (arith, length-digits_of 20 k n [] p l),
  )
]
