-- ===== src/Bmt/Value/Route.antt =====
-- What `pack_route` of src/vdev/bmt_topology.hpp does to a value.
use emergence_os_bare_metal.Base.{
  ℕ, ◌+◌, ◌*◌, ◌%◌, ◌^◌, ◌<◌, bit_and, bit_or, u64, ◌<<<◌, ◌≡◌, refl, ap₂, ==_iff, true, arith,
  and_low, or_comm, or_field, or_split, or_zero,
}
use emergence_os_bare_metal.Bmt.Value.{
  Value128, route, crc, compute_crc, crc_valid, pack_route, lens_mask,
}

-- The header in front of a 52-bit payload field.
abbrev header : ℕ → ℕ → ℕ → ℕ
header r c p = r * 2 ^ 54 + (c * 2 ^ 52 + p)

pub compute_crc-lt : (v : Value128) → compute_crc v < 4
unfolding compute_crc
compute_crc-lt v = rw (and_low 2) (omega arith)

-- The checksum reads the low 52 bits of `hi`, and `lo`.
compute_crc_low :
    (v w : Value128) → v.hi % 2 ^ 52 ≡ w.hi % 2 ^ 52 → v.lo ≡ w.lo → compute_crc v ≡ compute_crc w
unfolding compute_crc
compute_crc_low v w h l = rw (and_low 52 v.hi, and_low 52 w.hi, h, l) refl

or_header : (r c p : ℕ) → c < 4 → p < 2 ^ 52 → bit_or (r * 2 ^ 54 + p) (c * 2 ^ 52) ≡ header r c p
or_header r c p hc hp = omega (
  arith,
  or_split 52 (r * 2 ^ 2) p c 0 hp (omega arith),
  ap₂ bit_or left right,
  or_field 2 r c hc,
  or_zero p,
)
  where
    left : r * 2 ^ 54 + p ≡ r * 2 ^ 2 * 2 ^ 52 + p
    left = omega arith

    right : c * 2 ^ 52 ≡ c * 2 ^ 52 + 0
    right = omega arith

routed_lem :
    (hi r : ℕ)
    → bit_or (bit_and hi 0x000FFFFFFFFFFFFF) (u64 (bit_and r lens_mask <<< 54))
      ≡ r % 1024 * 2 ^ 54 + hi % 2 ^ 52
routed_lem hi r =
    let fits : r % 1024 * 2 ^ 54 % 2 ^ 64 ≡ r % 1024 * 2 ^ 54 = omega arith in
    rw
      (
        and_low 52 hi,
        and_low 10 r,
        fits,
        or_comm,
        or_field 54 (r % 1024) (hi % 2 ^ 52) (omega arith),
      )
      refl

-- The whole of `pack_route` in closed form: the route and the checksum of the payload over the
-- old payload bits.
pub pack_route_hi :
    (v : Value128) (r : ℕ) → (pack_route v r).hi ≡ header (r % 1024) (compute_crc v) (v.hi % 2 ^ 52)
unfolding pack_route
pack_route_hi v r =
    rw (routed_lem v.hi r, same, and_low 2 (compute_crc v), small)
      (or_header (r % 1024) (compute_crc v) (v.hi % 2 ^ 52) (compute_crc-lt v) (omega arith))
  where
    same :
        compute_crc (record { hi = r % 1024 * 2 ^ 54 + v.hi % 2 ^ 52; lo = v.lo }) ≡ compute_crc v
    same =
        compute_crc_low (record { hi = r % 1024 * 2 ^ 54 + v.hi % 2 ^ 52; lo = v.lo }) v
          (omega arith) refl

    small : compute_crc v % 4 * 2 ^ 52 % 2 ^ 64 ≡ compute_crc v * 2 ^ 52
    small = omega (arith, compute_crc-lt v)

pub lo-pack_route : (v : Value128) (r : ℕ) → (pack_route v r).lo ≡ v.lo
unfolding pack_route
lo-pack_route v r = refl

-- Packing a route stores its low ten bits, makes the checksum valid and leaves the 52 payload bits
-- of `hi` and the whole of `lo` alone; the result is two words again.
pub pack_route_lem :
    (v : Value128) (r : ℕ)
    → (route (pack_route v r) ≡ r % 1024)
      × (crc_valid (pack_route v r) ≡ true)
      × ((pack_route v r).hi % 2 ^ 52 ≡ v.hi % 2 ^ 52)
      × ((pack_route v r).lo ≡ v.lo)
      × ((pack_route v r).hi < 2 ^ 64)
pack_route_lem v r = (
  unfold route in rw (and_low 10) (omega (arith, pack_route_hi v r, compute_crc-lt v)),
  unfold crc_valid in
      (==_iff _ _).1 (
        unfold crc in
        rw (and_low 2) (
          omega (
            arith,
            pack_route_hi v r,
            compute_crc-lt v,
            compute_crc_low (pack_route v r) v low (lo-pack_route v r),
          ))),
  low,
  lo-pack_route v r,
  omega (arith, pack_route_hi v r, compute_crc-lt v),
)
  where
    low : (pack_route v r).hi % 2 ^ 52 ≡ v.hi % 2 ^ 52
    low = omega (arith, pack_route_hi v r, compute_crc-lt v)
