-- ===== src/Serial/Hex.antt =====
-- The sixteen characters that `print_hex` of src/hal/serial.hpp sends.
use native.Mathlib.Nat.{pow-suc, div-div-eq-div-mul}
use emergence_os_bare_metal.Base.{
  ℕ, zero, suc, ◌+◌, ◌-◌, ◌*◌, ◌/◌, ◌%◌, ◌^◌, ◌<◌, ◌≡◌, refl, sym, ap, ap₂, ◌∙◌, arith, List, [],
  ◌∷◌, ltb, ◌==◌, holds_below, if◌then◌else◌, get_or, length, map, u8,
}
use emergence_os_bare_metal.Serial.{hex, hex_text}

abbrev pub hex_value : ℕ → ℕ
hex_value c = if ltb c 58 then c - 48 else c - 55

-- The number that a text stands for, behind the digits of `n`.
abbrev pub read_hex : ℕ → List ℕ → ℕ
read_hex n [] = n
read_hex n (c ∷ str) = read_hex (n * 16 + hex_value c) str

hex_value-hex : (d : ℕ) → d < 16 → hex_value (get_or hex d 0) ≡ d
hex_value-hex d h = ground (arith, holds_below (λ k. hex_value (get_or hex k 0) == k) 16 d h refl)

shift_four : (i val : ℕ) → val / 2 ^ (suc i * 4) ≡ val / 2 ^ (i * 4) / 16
shift_four i val = ap (λ t. val / t) power ∙ sym (div-div-eq-div-mul val (2 ^ (i * 4)) 16)
  where
    power : 2 ^ (suc i * 4) ≡ 2 ^ (i * 4) * 16
    power =
        let four : suc i * 4 ≡ suc (suc (suc (suc (i * 4)))) = omega arith in
        ap (λ t. 2 ^ t) four
        ∙ omega (
          arith,
          pow-suc 2 (suc (suc (suc (i * 4)))),
          pow-suc 2 (suc (suc (i * 4))),
          pow-suc 2 (suc (i * 4)),
          pow-suc 2 (i * 4),
        )

read_hex-hex_text : (val n : ℕ) → read_hex (val / 2 ^ (n * 4)) (hex_text val n) ≡ val
unfolding hex_text
read_hex-hex_text val zero = omega arith
read_hex-hex_text val (suc i) =
    ap (λ t. read_hex t (hex_text val i))
      (omega (arith, shift_four i val, hex_value-hex ((val / 2 ^ (i * 4)) % 16) (omega arith)))
    ∙ read_hex-hex_text val i

length-hex_text : (val n : ℕ) → length (hex_text val n) ≡ n
unfolding hex_text
length-hex_text val zero = refl
length-hex_text val (suc i) = ap suc (length-hex_text val i)

byte_of_hex : (d : ℕ) → d < 16 → u8 (get_or hex d 0) ≡ get_or hex d 0
byte_of_hex d h =
    ground (arith, holds_below (λ k. u8 (get_or hex k 0) == get_or hex k 0) 16 d h refl)

pub hex_text-bytes : (val n : ℕ) → map (λ c. u8 c) (hex_text val n) ≡ hex_text val n
unfolding hex_text
hex_text-bytes val zero = refl
hex_text-bytes val (suc i) =
    ap₂ (λ c str. c ∷ str) (byte_of_hex ((val / 2 ^ (i * 4)) % 16) (omega arith))
      (hex_text-bytes val i)

-- The text of a 64-bit number has sixteen characters, and they stand for the number.
pub hex_text_lem :
    (val : ℕ)
    → val < 2 ^ 64
    → (read_hex 0 (hex_text val 16) ≡ val) × (length (hex_text val 16) ≡ 16)
hex_text_lem val h =
    let none_left : val / 2 ^ (16 * 4) ≡ 0 = omega arith in
    (
      ap (λ t. read_hex t (hex_text val 16)) (sym none_left) ∙ read_hex-hex_text val 16,
      length-hex_text val 16,
    )
