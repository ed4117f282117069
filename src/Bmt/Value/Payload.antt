-- ===== src/Bmt/Value/Payload.antt =====
-- The payload bytes of a value in src/vdev/bmt_topology.hpp, and its image in memory.
use native.Mathlib.Nat.{
  pow-suc, mod-eq_of_lt, div-div-eq-div-mul, pow-le-pow_right, mul-le-mul_right,
}
use native.Mathlib.Numerals.{towards_suc}
use emergence_os_bare_metal.Base.{
  ℕ, zero, suc, ◌+◌, ◌-◌, ◌*◌, ◌/◌, ◌%◌, ◌^◌, ◌≤◌, ◌<◌, ◌≡◌, refl, sym, length-take, IsBytes-take,
  le_value-lt, le_bytes_low, le_bytes-append, le_value-take-drop, le_value-le_bytes,
  le_bytes-le_value, take-append, IsBytes-drop, take_all, length-drop, ap, ap₂, ◌∙◌, arith, List,
  [], ◌∷◌, ◌++◌, length, take, drop, replicate, le_bytes, le_value, IsBytes, or_comm, or_field,
  and_high, and_low,
}
use emergence_os_bare_metal.Bmt.Value.{
  Value128, IsWord, store_bytes, load_bytes, get_payload, set_payload, write_to, read_from,
}

next_byte : (i : ℕ) → 2 ^ ((i + 1) * 8) ≡ 2 ^ (i * 8) * 256
next_byte i =
    let e : (i + 1) * 8 ≡ i * 8 + 8 = omega arith in
    rw e (simp towards_suc (omega (arith, pow-suc 2 (i * 8))))

-- The store loop copies digits to base 256.
store_bytes_lem :
    (i n word room : ℕ) → store_bytes i n word room ≡ take room (le_bytes n (word / 2 ^ (i * 8)))
unfolding store_bytes
store_bytes_lem i zero word zero = refl
store_bytes_lem i zero word (suc room) = refl
store_bytes_lem i (suc n) word zero = refl
store_bytes_lem i (suc n) word (suc room) =
    ap (λ t. word / 2 ^ (i * 8) % 256 ∷ t)
      (rw (store_bytes_lem (i + 1) n word room) (ap (λ t. take room (le_bytes n t)) up))
  where
    up : word / 2 ^ ((i + 1) * 8) ≡ word / 2 ^ (i * 8) / 256
    up = rw (next_byte i, div-div-eq-div-mul word (2 ^ (i * 8)) 256) refl

-- The load loop adds the bytes above what is there.
load_bytes_lem :
    (i n word : ℕ) (bs : List ℕ)
    → word < 2 ^ (i * 8)
    → i + n ≤ 8
    → IsBytes bs
    → load_bytes i n word bs
      ≡ record { word = word + le_value (take n bs) * 2 ^ (i * 8); rest = drop n bs }
unfolding load_bytes
load_bytes_lem i zero word bs h b p =
    let e : word ≡ word + 0 * 2 ^ (i * 8) = omega arith in
    ap (λ t. record { word = t; rest = bs }) e
load_bytes_lem i (suc n) word [] h b p =
    let e : word ≡ word + 0 * 2 ^ (i * 8) = omega arith in
    ap (λ t. record { word = t; rest = [] }) e
load_bytes_lem i (suc n) word (x ∷ bs) h b p =
    rw (fits, or_comm, or_field (i * 8) x word h)
      (rw (load_bytes_lem (i + 1) n (x * 2 ^ (i * 8) + word) bs bound (omega arith) p.1) (
        ap (λ t. record { word = t; rest = drop n bs })
          (omega (arith, ap (λ (t : ℕ). le_value (take n bs) * t) (next_byte i)))))
  where
    bound : x * 2 ^ (i * 8) + word < 2 ^ ((i + 1) * 8)
    bound =
        omega
          (arith, next_byte i, mul-le-mul_right {m = x + 1} {n = 256} (2 ^ (i * 8)) (omega arith))

    fits : x * 2 ^ (i * 8) % 2 ^ 64 ≡ x * 2 ^ (i * 8)
    fits = mod-eq_of_lt (
        omega (
          arith,
          bound,
          pow-le-pow_right {n = 2} (omega arith) {i = (i + 1) * 8} {j = 64} (omega arith),
        ))

pub get_payload_lem :
    (v : Value128) (room : ℕ) → get_payload v room ≡ take room (le_bytes 8 v.lo ++ le_bytes 5 v.hi)
unfolding get_payload
get_payload_lem v room =
    let low : v.lo / 1 ≡ v.lo = omega arith in
    let high : v.hi / 1 ≡ v.hi = omega arith in
    rw (store_bytes_lem 0 8 v.lo room, store_bytes_lem 0 5 v.hi (room - 8), low, high)
      (sym (take-append room (le_bytes 8 v.lo) (le_bytes 5 v.hi)))

-- The payload lies under the header bits, which stay.
pub set_payload_lem :
    (v : Value128) (bs : List ℕ)
    → v.hi < 2 ^ 64
    → length bs ≤ 13
    → IsBytes bs
    → set_payload v bs
      ≡ record { hi = v.hi / 2 ^ 52 * 2 ^ 52 + le_value (drop 8 bs); lo = le_value (take 8 bs) }
unfolding set_payload
set_payload_lem v bs h n p =
    rw
      (
        load_bytes_lem 0 8 0 bs (omega arith) (omega arith) p,
        load_bytes_lem 0 5 0 (drop 8 bs) (omega arith) (omega arith) (IsBytes-drop 8 bs p),
        take_all 5 (drop 8 bs) (omega (arith, length-drop 8 bs)),
        and_high 52 v.hi 0xFFF,
        and_low 12 (v.hi / 2 ^ 52),
        or_comm,
        or_field 52 (v.hi / 2 ^ 52 % 2 ^ 12) (0 + le_value (drop 8 bs) * 1) small,
      )
      (ground arith)
  where
    small : 0 + le_value (drop 8 bs) * 1 < 2 ^ 52
    small =
        omega
          (arith, le_value-lt 5 (drop 8 bs) (omega (arith, length-drop 8 bs)) (IsBytes-drop 8 bs p))

payload_bytes :
    (q : ℕ) (bs : List ℕ)
    → length bs ≤ 13
    → IsBytes bs
    → le_bytes 8 (le_value (take 8 bs)) ++ le_bytes 5 (q * 2 ^ 52 + le_value (drop 8 bs))
      ≡ bs ++ replicate (13 - length bs) 0
payload_bytes q bs n p =
    ap (λ (t : ℕ). le_bytes 8 (le_value (take 8 bs)) ++ le_bytes 5 t) above
    ∙ ap (λ t. le_bytes 8 (le_value (take 8 bs)) ++ t)
        (le_bytes_low 5 (le_value (drop 8 bs)) (q * 2 ^ 12))
    ∙ le_bytes-append 8 5 (le_value (take 8 bs)) (le_value (drop 8 bs))
        (le_value-lt 8 (take 8 bs) (omega (arith, length-take 8 bs)) (IsBytes-take 8 bs p))
    ∙ ap (le_bytes 13) (le_value-take-drop 8 bs)
    ∙ le_bytes-le_value 13 bs n p
  where
    above : q * 2 ^ 52 + le_value (drop 8 bs) ≡ le_value (drop 8 bs) + 256 ^ 5 * (q * 2 ^ 12)
    above = omega arith

-- Setting and then getting a payload gives its bytes back, with zeros up to 13.
pub get_payload-set_payload :
    (v : Value128) (bs : List ℕ) (room : ℕ)
    → v.hi < 2 ^ 64
    → length bs ≤ 13
    → IsBytes bs
    → get_payload (set_payload v bs) room ≡ take room (bs ++ replicate (13 - length bs) 0)
get_payload-set_payload v bs room h n p =
    rw (get_payload_lem (set_payload v bs) room, set_payload_lem v bs h n p)
      (ap (take room) (payload_bytes (v.hi / 2 ^ 52) bs n p))

-- A value is read back from its image in memory, whatever follows it there.
pub read_from-write_to :
    (v : Value128) (rest : List ℕ) → IsWord v → read_from (write_to v ++ rest) ≡ v
unfolding read_from write_to
read_from-write_to v rest h =
    ap₂ (λ (t u : ℕ). let w : Value128 = record { hi = t; lo = u } in w)
      (le_value-le_bytes 8 v.hi h.0) (le_value-le_bytes 8 v.lo h.1)
