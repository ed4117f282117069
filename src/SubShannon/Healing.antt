-- ===== src/SubShannon/Healing.antt =====
-- The parity byte of a correction of src/vdev/context_driven_engine.hpp.
use native.Mathlib.Decide.{ℕ_discrete}
use emergence_os_bare_metal.Base.{
  ℕ, ◌^◌, ◌<◌, ◌≡◌, ◌≢◌, refl, sym, ap, ◌∙◌, arith, true, false, ◌==◌, bit_and, bit_xor, u8, ◌>>>◌,
  xor_cancel, xor_assoc, xor-lt, and_low,
}
use emergence_os_bare_metal.SubShannon.{Correction, with_delta, generate_ecc, verify_and_heal}

-- The two bytes of the delta as one mask.
abbrev mask : ℕ → ℕ
mask delta = bit_xor (bit_and delta 0xFF) (bit_and (delta >>> 8) 0xFF)

mask-lt : (delta : ℕ) → mask delta < 2 ^ 8
mask-lt delta =
    xor-lt 8 (bit_and delta 0xFF) (bit_and (delta >>> 8) 0xFF) (rw (and_low 8 delta) (omega arith))
      (rw (and_low 8 (delta >>> 8)) (omega arith))

with_delta_lem : (delta x : ℕ) → x < 256 → with_delta delta x ≡ bit_xor x (mask delta)
with_delta_lem delta x h =
    ap u8 (xor_assoc x (bit_and delta 0xFF) (bit_and (delta >>> 8) 0xFF))
    ∙ (let small : bit_xor x (mask delta) < 2 ^ 8 = xor-lt 8 x (mask delta) h (mask-lt delta) in
        omega arith)

with_delta_twice : (delta x : ℕ) → x < 256 → with_delta delta (with_delta delta x) ≡ x
with_delta_twice delta x h =
    let small : with_delta delta x < 256 = omega arith in
    with_delta_lem delta (with_delta delta x) small
    ∙ ap (λ t. bit_xor t (mask delta)) (with_delta_lem delta x h)
    ∙ xor_cancel x (mask delta)

-- Different bytes have different parities.
with_delta_injective :
    (delta x y : ℕ) → x < 256 → y < 256 → with_delta delta x ≡ with_delta delta y → x ≡ y
with_delta_injective delta x y h k e =
    sym (with_delta_twice delta x h) ∙ ap (with_delta delta) e ∙ with_delta_twice delta y k

same : (x y : ℕ) → x ≡ y → (x == y) ≡ true
same x y e = ground arith

differ : (x y : ℕ) → x ≢ y → (x == y) ≡ false
differ x y ne = ground arith

-- Whatever byte takes the place of the value of a correction with its parity, healing gives the
-- correction back, and says whether the byte was the right one.
pub verify_and_heal-generate_ecc :
    (c : Correction) (found : ℕ)
    → c.value < 256
    → found < 256
    → verify_and_heal (record (generate_ecc c) { value = found })
      ≡ (found == c.value, generate_ecc c)
unfolding verify_and_heal generate_ecc
verify_and_heal-generate_ecc c found h k = elim (ℕ_discrete found c.value) [
  | yes e ↦
      rw
        (
          same (with_delta c.delta found) (with_delta c.delta c.value) (ap (with_delta c.delta) e),
          verify_and_heal,
          same found c.value e,
        )
        (ap (λ x. let d : Correction = record (generate_ecc c) { value = x } in (true, d)) e)
  | no ne ↦
      rw
        (
          differ (with_delta c.delta found) (with_delta c.delta c.value)
              (λ e. ne (with_delta_injective c.delta found c.value k h e)),
          verify_and_heal,
          differ found c.value ne,
        )
        (ap (λ x. let d : Correction = record (generate_ecc c) { value = x } in (false, d))
          (with_delta_twice c.delta c.value h))
]

-- A damaged parity byte is believed over the value: the value, which was right, is replaced.
pub verify_and_heal_bad_parity :
    (c : Correction) (parity : ℕ)
    → c.value < 256
    → parity < 256
    → parity ≢ (generate_ecc c).ecc_parity
    → ((verify_and_heal (record c { ecc_parity = parity })).0 ≡ false)
      × ((verify_and_heal (record c { ecc_parity = parity })).1.value ≢ c.value)
unfolding verify_and_heal generate_ecc
verify_and_heal_bad_parity c parity h k ne =
    rw (differ (with_delta c.delta c.value) parity (λ e. ne (sym e)), verify_and_heal)
      (refl, λ e. ne (sym (with_delta_twice c.delta parity k) ∙ ap (with_delta c.delta) e))
