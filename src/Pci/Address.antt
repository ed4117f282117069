-- ===== src/Pci/Address.antt =====
-- The configuration address of src/hal/pci.hpp.
use emergence_os_bare_metal.Base.{
  ℕ, ◌+◌, ◌*◌, ◌/◌, ◌%◌, ◌^◌, ◌<◌, ◌≡◌, refl, sym, ap, ap₂, ◌∙◌, arith, bit_and, bit_or, or_field,
  or_comm, and_low, and_high,
}
use emergence_os_bare_metal.Pci.{config_address}

or_sum : (k q x r : ℕ) → x ≡ q * 2 ^ k → r < 2 ^ k → bit_or x r ≡ x + r
or_sum k q x r e h = ap (λ t. bit_or t r) e ∙ or_field k q r h ∙ ap (λ t. t + r) (sym e)

word_of : (offset : ℕ) → offset < 256 → bit_and offset 0xFC ≡ offset / 4 * 4
word_of offset h = and_high 2 offset 63 ∙ ap (λ t. t * 4) (and_low 6 (offset / 4) ∙ omega arith)

-- The fields lie side by side.
config_address_sum :
    (bus slot func offset : ℕ)
    → bus < 256
    → slot < 32
    → func < 8
    → offset < 256
    → config_address bus slot func offset
      ≡ bus * 65536 + slot * 2048 + func * 256 + offset / 4 * 4 + 2147483648
unfolding config_address
config_address_sum bus slot func offset b s f o =
    ap (λ t. bit_or t 0x80000000)
      (ap₂ bit_or
          (ap (λ t. bit_or t (func * 2 ^ 8))
              (or_sum 16 bus (bus * 2 ^ 16) (slot * 2 ^ 11) refl (omega arith))
            ∙ or_sum 11 (bus * 32 + slot) (bus * 2 ^ 16 + slot * 2 ^ 11) (func * 2 ^ 8)
                (omega arith) (omega arith))
          (word_of offset o)
        ∙ or_sum 8 (bus * 256 + slot * 8 + func) (bus * 2 ^ 16 + slot * 2 ^ 11 + func * 2 ^ 8)
            (offset / 4 * 4) (omega arith) (omega arith))
    ∙ or_comm (bus * 2 ^ 16 + slot * 2 ^ 11 + func * 2 ^ 8 + offset / 4 * 4) 0x80000000
    ∙ or_sum 31 1 0x80000000 (bus * 2 ^ 16 + slot * 2 ^ 11 + func * 2 ^ 8 + offset / 4 * 4) refl
        (omega arith)
    ∙ omega arith

-- The address tells bus, slot, function and word apart: each comes back from its own bits.
pub config_address_lem :
    (bus slot func offset : ℕ)
    → bus < 256
    → slot < 32
    → func < 8
    → offset < 256
    → (config_address bus slot func offset / 2 ^ 16 % 256 ≡ bus)
      × (config_address bus slot func offset / 2 ^ 11 % 32 ≡ slot)
      × (config_address bus slot func offset / 2 ^ 8 % 8 ≡ func)
      × (config_address bus slot func offset % 2 ^ 8 ≡ offset / 4 * 4)
      × (config_address bus slot func offset / 2 ^ 31 ≡ 1)
config_address_lem bus slot func offset b s f o = (
  omega (arith, sum),
  omega (arith, sum),
  omega (arith, sum),
  omega (arith, sum),
  omega (arith, sum),
)
  where
    sum :
        config_address bus slot func offset
        ≡ bus * 65536 + slot * 2048 + func * 256 + offset / 4 * 4 + 2147483648
    sum = config_address_sum bus slot func offset b s f o
