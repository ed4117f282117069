-- ===== src/Identity/DeviceId.antt =====
-- The text that src/crypto/consensus_keygen.hpp makes.
use emergence_os_bare_metal.Base.{
  ℕ, zero, suc, ◌%◌, ◌<◌, ◌≡◌, refl, ap, arith, List, [], ◌∷◌, Bool, true, false, ◌&&◌, ◌||◌, leb,
  length, ◌==◌, get_or, if◌then◌else◌,
}
use emergence_os_bare_metal.Identity.{
  Cpuid, hex_chars, next_x, id_chars, hardware_id, generate_device_id,
}

-- 0 to 9 or A to F.
abbrev pub is_hex_digit : ℕ → Bool
is_hex_digit c = (leb 48 c && leb c 57) || (leb 65 c && leb c 70)

abbrev pub are_hex_digits : List ℕ → Bool
are_hex_digits [] = true
are_hex_digits (c ∷ str) = is_hex_digit c && are_hex_digits str

and_left : (a b : Bool) → (a && b) ≡ true → a ≡ true
and_left true b e = refl
and_left false b e = e

and_right : (a b : Bool) → (a && b) ≡ true → b ≡ true
and_right true b e = e
and_right false b e = absurd (cc e)

is_hex_digit-get_or :
    (str : List ℕ) (i : ℕ)
    → are_hex_digits str ≡ true
    → i < length str
    → is_hex_digit (get_or str i 0) ≡ true
is_hex_digit-get_or [] i a l = absurd (omega (arith, l))
is_hex_digit-get_or (c ∷ str) zero a l = and_left (is_hex_digit c) (are_hex_digits str) a
is_hex_digit-get_or (c ∷ str) (suc i) a l =
    is_hex_digit-get_or str i (and_right (is_hex_digit c) (are_hex_digits str) a) (omega arith)

are_hex_digits-id_chars : (id x n : ℕ) → are_hex_digits (id_chars id x n) ≡ true
unfolding id_chars
are_hex_digits-id_chars id x zero = refl
are_hex_digits-id_chars id x (suc n) =
    rw (is_hex_digit-get_or hex_chars (next_x id x % 16) refl (omega arith))
      (are_hex_digits-id_chars id (next_x id x) n)

length-id_chars : (id x n : ℕ) → length (id_chars id x n) ≡ n
unfolding id_chars
length-id_chars id x zero = refl
length-id_chars id x (suc n) = ap suc (length-id_chars id (next_x id x) n)

-- The identity of a device is fifteen hexadecimal digits, whatever the processor reports.
pub generate_device_id_lem :
    (basic brand : Cpuid)
    → (length (generate_device_id basic brand) ≡ 15)
      × (are_hex_digits (generate_device_id basic brand) ≡ true)
unfolding generate_device_id
generate_device_id_lem basic brand = (length-id_chars id x 15, are_hex_digits-id_chars id x 15)
  where
    id : ℕ
    id = hardware_id basic brand

    x : ℕ
    x = let x = id % 0xFFFFFFFF in if x == 0 then 0x12345678 else x
