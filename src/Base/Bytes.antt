-- ===== src/Base/Bytes.antt =====
-- Byte strings, and the little-endian image of a number in memory.
use Prim.Native.Nat.{ℕ, zero, suc, ◌+◌, ◌-◌, ◌*◌, ◌/◌, ◌%◌, ◌^◌, ◌≤◌, ◌<◌}
use mathlib.Core.Path.{◌≡◌, refl, sym, ap, ◌∙◌}
use mathlib.Core.List.{List, [], ◌∷◌, ◌++◌}
use native.Mathlib.Nat.{pow-suc, mod-add-div}
use native.Mathlib.Omega.{arith}
use emergence_os_bare_metal.Base.Lists.{length, take, drop, replicate}

abbrev pub IsBytes : List ℕ → Type 0
IsBytes [] = Unit {0}
IsBytes (b ∷ bs) = (b < 256) × IsBytes bs

-- The `n` bytes of a number, lowest first.
abbrev pub le_bytes : ℕ → ℕ → List ℕ
le_bytes zero x = []
le_bytes (suc n) x = x % 256 ∷ le_bytes n (x / 256)

abbrev pub le_value : List ℕ → ℕ
le_value [] = 0
le_value (b ∷ bs) = b + 256 * le_value bs

pub length-le_bytes : (n x : ℕ) → length (le_bytes n x) ≡ n
length-le_bytes zero x = refl
length-le_bytes (suc n) x = ap suc (length-le_bytes n (x / 256))

pub le_bytes-IsBytes : (n x : ℕ) → IsBytes (le_bytes n x)
le_bytes-IsBytes zero x = tt
le_bytes-IsBytes (suc n) x = (omega arith, le_bytes-IsBytes n (x / 256))

pub le_value-le_bytes : (n x : ℕ) → x < 256 ^ n → le_value (le_bytes n x) ≡ x
le_value-le_bytes zero x h = omega arith
le_value-le_bytes (suc n) x h =
    omega (arith, pow-suc 256 n, le_value-le_bytes n (x / 256) (omega (arith, pow-suc 256 n)))

pub le_bytes-zero : (n : ℕ) → le_bytes n 0 ≡ replicate n 0
le_bytes-zero zero = refl
le_bytes-zero (suc n) = ap (λ t. 0 ∷ t) (le_bytes-zero n)

-- Fewer than `n` bytes come back with zeros after them.
pub le_bytes-le_value :
    (n : ℕ) (bs : List ℕ)
    → length bs ≤ n
    → IsBytes bs
    → le_bytes n (le_value bs) ≡ bs ++ replicate (n - length bs) 0
le_bytes-le_value zero [] h p = refl
le_bytes-le_value zero (b ∷ bs) h p = absurd (omega arith)
le_bytes-le_value (suc n) [] h p =
    let left : suc n - 0 ≡ suc n = omega arith in rw left (le_bytes-zero (suc n))
le_bytes-le_value (suc n) (b ∷ bs) h p =
    let low : (b + 256 * le_value bs) % 256 ≡ b = omega arith in
    let high : (b + 256 * le_value bs) / 256 ≡ le_value bs = omega arith in
    let left : suc n - suc (length bs) ≡ n - length bs = omega arith in
    rw (low, high, left) (ap (λ t. b ∷ t) (le_bytes-le_value n bs (omega arith) p.1))

-- Two numbers side by side.
pub le_bytes-append :
    (n m x y : ℕ) → x < 256 ^ n → le_bytes n x ++ le_bytes m y ≡ le_bytes (n + m) (x + 256 ^ n * y)
le_bytes-append zero m x y h =
    let none : 0 + m ≡ m = omega arith in
    let only : x + 1 * y ≡ y = omega arith in rw (none, only) refl
le_bytes-append (suc n) m x y h =
    let longer : suc n + m ≡ suc (n + m) = omega arith in
    let more : 256 ^ suc n * y ≡ 256 * (256 ^ n * y) =
      omega (arith, ap (λ (t : ℕ). t * y) (pow-suc 256 n)) in
    let low : (x + 256 * (256 ^ n * y)) % 256 ≡ x % 256 = omega arith in
    let high : (x + 256 * (256 ^ n * y)) / 256 ≡ x / 256 + 256 ^ n * y = omega arith in
    rw (longer, more, low, high)
      (ap (λ t. x % 256 ∷ t) (le_bytes-append n m (x / 256) y (omega (arith, pow-suc 256 n))))

-- The low bytes do not see what lies above them.
pub le_bytes_low : (n x q : ℕ) → le_bytes n (x + 256 ^ n * q) ≡ le_bytes n x
le_bytes_low zero x q = refl
le_bytes_low (suc n) x q =
    let more : 256 ^ suc n * q ≡ 256 * (256 ^ n * q) =
      omega (arith, ap (λ (t : ℕ). t * q) (pow-suc 256 n)) in
    let low : (x + 256 * (256 ^ n * q)) % 256 ≡ x % 256 = omega arith in
    let high : (x + 256 * (256 ^ n * q)) / 256 ≡ x / 256 + 256 ^ n * q = omega arith in
    rw (more, low, high) (ap (λ t. x % 256 ∷ t) (le_bytes_low n (x / 256) q))

pub le_bytes-mod : (n x y : ℕ) → x % 256 ^ n ≡ y % 256 ^ n → le_bytes n x ≡ le_bytes n y
le_bytes-mod n x y e =
    ap (le_bytes n) (parts x)
    ∙ le_bytes_low n (x % 256 ^ n) (x / 256 ^ n)
    ∙ ap (le_bytes n) e
    ∙ sym (ap (le_bytes n) (parts y) ∙ le_bytes_low n (y % 256 ^ n) (y / 256 ^ n))
  where
    parts : (z : ℕ) → z ≡ z % 256 ^ n + 256 ^ n * (z / 256 ^ n)
    parts z = sym (mod-add-div z (256 ^ n))

pub le_value-take-drop :
    (n : ℕ) (bs : List ℕ) → le_value (take n bs) + 256 ^ n * le_value (drop n bs) ≡ le_value bs
le_value-take-drop zero bs = omega arith
le_value-take-drop (suc n) [] = omega arith
le_value-take-drop (suc n) (b ∷ bs) =
    omega (arith, ap (λ (t : ℕ). t * le_value (drop n bs)) (pow-suc 256 n), le_value-take-drop n bs)

pub le_value-lt : (n : ℕ) (bs : List ℕ) → length bs ≤ n → IsBytes bs → le_value bs < 256 ^ n
le_value-lt zero [] h p = omega arith
le_value-lt zero (b ∷ bs) h p = absurd (omega arith)
le_value-lt (suc n) [] h p = omega (arith, pow-suc 256 n, le_value-lt n [] (omega arith) tt)
le_value-lt (suc n) (b ∷ bs) h p = omega (arith, pow-suc 256 n, le_value-lt n bs (omega arith) p.1)

pub IsBytes-take : (n : ℕ) (bs : List ℕ) → IsBytes bs → IsBytes (take n bs)
IsBytes-take zero bs p = tt
IsBytes-take (suc n) [] p = tt
IsBytes-take (suc n) (b ∷ bs) p = (p.0, IsBytes-take n bs p.1)

pub IsBytes-drop : (n : ℕ) (bs : List ℕ) → IsBytes bs → IsBytes (drop n bs)
IsBytes-drop zero bs p = p
IsBytes-drop (suc n) [] p = tt
IsBytes-drop (suc n) (b ∷ bs) p = IsBytes-drop n bs p.1

pub IsBytes-append : (xs ys : List ℕ) → IsBytes xs → IsBytes ys → IsBytes (xs ++ ys)
IsBytes-append [] ys p q = q
IsBytes-append (x ∷ xs) ys p q = (p.0, IsBytes-append xs ys p.1 q)
