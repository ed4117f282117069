-- ===== src/Base/Bits.antt =====
-- Laws of `&`, `|` and `^` at variables: the lowest digit, then masks, fields and widths.
use native.Mathlib.Decide.{dec_lt}
use Prim.Native.Nat.{
  ℕ, zero, suc, ◌+◌, ◌-◌, ◌*◌, ◌/◌, ◌%◌, ◌^◌, ◌≤◌, ◌<◌, min, max, digits, bitwise, bit_and, bit_or,
  bit_xor, bit_and-bitwise, bit_or-bitwise, bit_xor-bitwise, differ,
}
use mathlib.Core.Path.{◌≡◌, refl, sym, ap, ap₂, ◌∙◌}
use native.Mathlib.Nat.{pow-suc, one-le-pow, div-add-mod', div-div-eq-div-mul, mod-lt}
use native.Mathlib.Omega.{arith}

-- The sum of two digits without its carry.
abbrev pub odd_sum : ℕ → ℕ → ℕ
odd_sum p q = (p + q) % 2

-- Any count of digits from `a` up gives the same result.
more_digits :
    (z : ℕ → ℕ) (f : ℕ → ℕ → ℕ) (n m a b : ℕ) → a ≤ n → a ≤ m → digits z f n a b ≡ digits z f m a b
more_digits z f zero zero a b p q = refl
more_digits z f zero (suc m) zero b p q = refl
more_digits z f zero (suc m) (suc a) b p q = absurd (omega arith)
more_digits z f (suc n) zero zero b p q = refl
more_digits z f (suc n) zero (suc a) b p q = absurd (omega arith)
more_digits z f (suc n) (suc m) zero b p q = refl
more_digits z f (suc n) (suc m) (suc a) b p q =
    ap (λ (t : ℕ). t * 2 + f (suc a % 2) (b % 2))
      (more_digits z f n m (suc a / 2) (b / 2) (omega arith) (omega arith))

low_digit :
    (z : ℕ → ℕ) (f : ℕ → ℕ → ℕ) (a b : ℕ)
    → bitwise z f (suc a) b ≡ bitwise z f (suc a / 2) (b / 2) * 2 + f (suc a % 2) (b % 2)
low_digit z f a b =
    ap (λ (t : ℕ). t * 2 + f (suc a % 2) (b % 2))
      (more_digits z f a (suc a / 2) (suc a / 2) (b / 2) (omega arith) (omega arith))

pub and_digit : (a b : ℕ) → bit_and a b ≡ bit_and (a / 2) (b / 2) * 2 + min (a % 2) (b % 2)
and_digit zero b = simp bit_and-bitwise (omega arith)
and_digit (suc a) b = simp bit_and-bitwise (low_digit (λ y. 0) min a b)

pub or_digit : (a b : ℕ) → bit_or a b ≡ bit_or (a / 2) (b / 2) * 2 + max (a % 2) (b % 2)
or_digit zero b = simp bit_or-bitwise (omega arith)
or_digit (suc a) b = simp bit_or-bitwise (low_digit (λ y. y) max a b)

differ_digits : (p q : ℕ) → p < 2 → q < 2 → differ p q ≡ odd_sum p q
differ_digits zero q hp hq = omega arith
differ_digits (suc zero) zero hp hq = refl
differ_digits (suc zero) (suc zero) hp hq = refl
differ_digits (suc zero) (suc (suc q)) hp hq = absurd (omega arith)
differ_digits (suc (suc p)) q hp hq = absurd (omega arith)

pub xor_digit : (a b : ℕ) → bit_xor a b ≡ bit_xor (a / 2) (b / 2) * 2 + odd_sum (a % 2) (b % 2)
xor_digit zero b = simp bit_xor-bitwise (omega arith)
xor_digit (suc a) b =
    rw (← differ_digits (suc a % 2) (b % 2) (omega arith) (omega arith))
      (simp bit_xor-bitwise (low_digit (λ y. y) differ a b))

-- Induction on a bound `n` of the operands.
xor_cancel_below : (n a b : ℕ) → a + b ≤ n → bit_xor (bit_xor a b) b ≡ a
xor_cancel_below zero zero zero h = refl
xor_cancel_below zero zero (suc b) h = absurd (omega arith)
xor_cancel_below zero (suc a) b h = absurd (omega arith)
xor_cancel_below (suc n) a b h = omega (
  arith,
  xor_digit a b,
  xor_digit (bit_xor a b) b,
  ap (λ (t : ℕ). bit_xor t (b / 2)) half,
  xor_cancel_below n (a / 2) (b / 2) (omega arith),
)
  where
    half : bit_xor a b / 2 ≡ bit_xor (a / 2) (b / 2)
    half = omega (arith, xor_digit a b)

-- Applying the same mask twice gives the number back.
pub xor_cancel : (a b : ℕ) → bit_xor (bit_xor a b) b ≡ a
xor_cancel a b = xor_cancel_below (a + b) a b (omega arith)

xor_comm_below : (n a b : ℕ) → a + b ≤ n → bit_xor a b ≡ bit_xor b a
xor_comm_below zero zero zero h = refl
xor_comm_below zero zero (suc b) h = absurd (omega arith)
xor_comm_below zero (suc a) b h = absurd (omega arith)
xor_comm_below (suc n) a b h =
    omega (arith, xor_digit a b, xor_digit b a, xor_comm_below n (a / 2) (b / 2) (omega arith))

pub xor_comm : (a b : ℕ) → bit_xor a b ≡ bit_xor b a
xor_comm a b = xor_comm_below (a + b) a b (omega arith)

or_comm_below : (n a b : ℕ) → a + b ≤ n → bit_or a b ≡ bit_or b a
or_comm_below zero zero zero h = refl
or_comm_below zero zero (suc b) h = absurd (omega arith)
or_comm_below zero (suc a) b h = absurd (omega arith)
or_comm_below (suc n) a b h =
    omega (arith, or_digit a b, or_digit b a, or_comm_below n (a / 2) (b / 2) (omega arith))

pub or_comm : (a b : ℕ) → bit_or a b ≡ bit_or b a
or_comm a b = or_comm_below (a + b) a b (omega arith)

pub xor-lt : (w a b : ℕ) → a < 2 ^ w → b < 2 ^ w → bit_xor a b < 2 ^ w
xor-lt zero zero zero ha hb = omega arith
xor-lt zero zero (suc b) ha hb = absurd (omega arith)
xor-lt zero (suc a) b ha hb = absurd (omega arith)
xor-lt (suc w) a b ha hb = omega (
  arith,
  pow-suc 2 w,
  xor_digit a b,
  xor-lt w (a / 2) (b / 2) (omega (arith, pow-suc 2 w)) (omega (arith, pow-suc 2 w)),
)

pub or-lt : (w a b : ℕ) → a < 2 ^ w → b < 2 ^ w → bit_or a b < 2 ^ w
or-lt zero zero zero ha hb = omega arith
or-lt zero zero (suc b) ha hb = absurd (omega arith)
or-lt zero (suc a) b ha hb = absurd (omega arith)
or-lt (suc w) a b ha hb = omega (
  arith,
  pow-suc 2 w,
  or_digit a b,
  or-lt w (a / 2) (b / 2) (omega (arith, pow-suc 2 w)) (omega (arith, pow-suc 2 w)),
)

or_zero_below : (n a : ℕ) → a ≤ n → bit_or a 0 ≡ a
or_zero_below n zero h = refl
or_zero_below zero (suc a) h = absurd (omega arith)
or_zero_below (suc n) (suc a) h =
    omega (arith, or_digit (suc a) 0, or_zero_below n (suc a / 2) (omega arith))

pub or_zero : (a : ℕ) → bit_or a 0 ≡ a
or_zero a = or_zero_below a a (omega arith)

xor_zero_below : (n a : ℕ) → a ≤ n → bit_xor a 0 ≡ a
xor_zero_below n zero h = refl
xor_zero_below zero (suc a) h = absurd (omega arith)
xor_zero_below (suc n) (suc a) h =
    omega (arith, xor_digit (suc a) 0, xor_zero_below n (suc a / 2) (omega arith))

pub xor_zero : (a : ℕ) → bit_xor a 0 ≡ a
xor_zero a = xor_zero_below a a (omega arith)

xor_assoc_below : (n a b c : ℕ) → a + b + c ≤ n → bit_xor (bit_xor a b) c ≡ bit_xor a (bit_xor b c)
xor_assoc_below zero a b c h =
    let x : a ≡ 0 = omega arith in
    let y : b ≡ 0 = omega arith in let z : c ≡ 0 = omega arith in rw (x, y, z) refl
xor_assoc_below (suc n) a b c h = elim (dec_lt 0 (a + b + c)) [
  | no none_ ↦ xor_assoc_below n a b c (omega arith)
  | yes some_ ↦ omega (
    arith,
    xor_digit a b,
    xor_digit b c,
    xor_digit (bit_xor a b) c,
    xor_digit a (bit_xor b c),
    ap (λ (t : ℕ). bit_xor t (c / 2)) half,
    ap (λ (t : ℕ). bit_xor (a / 2) t) other_half,
    xor_assoc_below n (a / 2) (b / 2) (c / 2) (omega arith),
  )
]
  where
    half : bit_xor a b / 2 ≡ bit_xor (a / 2) (b / 2)
    half = omega (arith, xor_digit a b)

    other_half : bit_xor b c / 2 ≡ bit_xor (b / 2) (c / 2)
    other_half = omega (arith, xor_digit b c)

pub xor_assoc : (a b c : ℕ) → bit_xor (bit_xor a b) c ≡ bit_xor a (bit_xor b c)
xor_assoc a b c = xor_assoc_below (a + b + c) a b c (omega arith)

and_zero_below : (n a : ℕ) → a ≤ n → bit_and a 0 ≡ 0
and_zero_below n zero h = refl
and_zero_below zero (suc a) h = absurd (omega arith)
and_zero_below (suc n) (suc a) h =
    omega (arith, and_digit (suc a) 0, and_zero_below n (suc a / 2) (omega arith))

pub and_zero : (a : ℕ) → bit_and a 0 ≡ 0
and_zero a = and_zero_below a a (omega arith)

double : (q k : ℕ) → q * 2 ^ suc k ≡ 2 * (q * 2 ^ k)
double q k = omega (arith, ap (λ (t : ℕ). q * t) (pow-suc 2 k))

-- A high field `q` over a low field `r` of `k` bits.
pub or_field : (k q r : ℕ) → r < 2 ^ k → bit_or (q * 2 ^ k) r ≡ q * 2 ^ k + r
or_field zero q zero h = omega (arith, or_zero (q * 2 ^ 0))
or_field zero q (suc r) h = absurd (omega arith)
or_field (suc k) q r h = omega (
  arith,
  or_digit (q * 2 ^ suc k) r,
  double q k,
  ap (λ (t : ℕ). bit_or t (r / 2)) half,
  or_field k q (r / 2) (omega (arith, pow-suc 2 k)),
)
  where
    half : q * 2 ^ suc k / 2 ≡ q * 2 ^ k
    half = omega (arith, double q k)

-- `|` acts on the two halves of each number by themselves.
pub or_split :
    (k a p c q : ℕ)
    → p < 2 ^ k
    → q < 2 ^ k
    → bit_or (a * 2 ^ k + p) (c * 2 ^ k + q) ≡ bit_or a c * 2 ^ k + bit_or p q
or_split zero a zero c zero hp hq =
    let left : a * 1 + 0 ≡ a = omega arith in
    let right : c * 1 + 0 ≡ c = omega arith in rw (left, right) (omega arith)
or_split zero a zero c (suc q) hp hq = absurd (omega arith)
or_split zero a (suc p) c q hp hq = absurd (omega arith)
or_split (suc k) a p c q hp hq = omega (
  arith,
  or_digit (a * 2 ^ suc k + p) (c * 2 ^ suc k + q),
  or_digit p q,
  ap₂ bit_or (upper a p) (upper c q),
  double a k,
  double c k,
  double (bit_or a c) k,
  or_split k a (p / 2) c (q / 2) (omega (arith, pow-suc 2 k)) (omega (arith, pow-suc 2 k)),
)
  where
    upper : (x y : ℕ) → (x * 2 ^ suc k + y) / 2 ≡ x * 2 ^ k + y / 2
    upper x y = omega (arith, double x k)

and_field : (k q r : ℕ) → r < 2 ^ k → bit_and (q * 2 ^ k + r) (2 ^ k - 1) ≡ r
and_field zero q zero h = and_zero (q * 2 ^ 0 + 0)
and_field zero q (suc r) h = absurd (omega arith)
and_field (suc k) q r h = omega (
  arith,
  and_digit (q * 2 ^ suc k + r) (2 ^ suc k - 1),
  ap₂ bit_and upper mask,
  double q k,
  pow-suc 2 k,
  one-le-pow k 2 (omega arith),
  and_field k q (r / 2) (omega (arith, pow-suc 2 k)),
)
  where
    upper : (q * 2 ^ suc k + r) / 2 ≡ q * 2 ^ k + r / 2
    upper = omega (arith, double q k)

    mask : (2 ^ suc k - 1) / 2 ≡ 2 ^ k - 1
    mask = omega (arith, pow-suc 2 k, one-le-pow k 2 (omega arith))

-- A mask of the `k` low bits is the remainder by `2 ^ k`.
pub and_low : (k a : ℕ) → bit_and a (2 ^ k - 1) ≡ a % 2 ^ k
and_low k a =
    ap (λ (t : ℕ). bit_and t (2 ^ k - 1)) (sym (div-add-mod' a (2 ^ k)))
    ∙ and_field k (a / 2 ^ k) (a % 2 ^ k) (mod-lt a (one-le-pow k 2 (omega arith)))

-- A mask with `k` clear low bits drops the low bits.
pub and_high : (k a m : ℕ) → bit_and a (m * 2 ^ k) ≡ bit_and (a / 2 ^ k) m * 2 ^ k
and_high zero a m =
    let whole : a / 1 ≡ a = omega arith in
    let mask : m * 1 ≡ m = omega arith in rw (whole, mask) (omega arith)
and_high (suc k) a m = omega (
  arith,
  and_digit a (m * 2 ^ suc k),
  double m k,
  ap (λ (t : ℕ). bit_and (a / 2) t) clear,
  and_high k (a / 2) m,
  double (bit_and (a / 2 ^ suc k) m) k,
  ap (λ (t : ℕ). bit_and t m * 2 ^ k) shift,
)
  where
    clear : m * 2 ^ suc k / 2 ≡ m * 2 ^ k
    clear = omega (arith, double m k)

    shift : a / 2 / 2 ^ k ≡ a / 2 ^ suc k
    shift = div-div-eq-div-mul a 2 (2 ^ k) ∙ ap (λ (t : ℕ). a / t) (omega (arith, pow-suc 2 k))

-- Digit `i` of a number.
abbrev pub digit : ℕ → ℕ → ℕ
digit i a = a / 2 ^ i % 2

digit-suc : (i a : ℕ) → digit (suc i) a ≡ digit i (a / 2)
digit-suc i a =
    ap (λ t. t % 2)
      (ap (λ t. a / t) (omega (arith, pow-suc 2 i)) ∙ sym (div-div-eq-div-mul a 2 (2 ^ i)))

pub digit-or : (i a b : ℕ) → digit i (bit_or a b) ≡ max (digit i a) (digit i b)
digit-or zero a b = omega (arith, or_digit a b)
digit-or (suc i) a b =
    let half : bit_or a b / 2 ≡ bit_or (a / 2) (b / 2) = omega (arith, or_digit a b) in
    digit-suc i (bit_or a b)
    ∙ ap (digit i) half
    ∙ digit-or i (a / 2) (b / 2)
    ∙ sym (ap₂ max (digit-suc i a) (digit-suc i b))

pub digit-and : (i a b : ℕ) → digit i (bit_and a b) ≡ min (digit i a) (digit i b)
digit-and zero a b = omega (arith, and_digit a b)
digit-and (suc i) a b =
    let half : bit_and a b / 2 ≡ bit_and (a / 2) (b / 2) = omega (arith, and_digit a b) in
    digit-suc i (bit_and a b)
    ∙ ap (digit i) half
    ∙ digit-and i (a / 2) (b / 2)
    ∙ sym (ap₂ min (digit-suc i a) (digit-suc i b))

-- The upper part of a sum without carries.
pub xor_upper : (k a b : ℕ) → bit_xor a b / 2 ^ k ≡ bit_xor (a / 2 ^ k) (b / 2 ^ k)
xor_upper zero a b =
    let whole : (n : ℕ) → n / 2 ^ 0 ≡ n = λ n. omega arith in
    whole (bit_xor a b) ∙ sym (ap₂ bit_xor (whole a) (whole b))
xor_upper (suc k) a b =
    let half : bit_xor a b / 2 ≡ bit_xor (a / 2) (b / 2) = omega (arith, xor_digit a b) in
    halved (bit_xor a b)
    ∙ ap (λ t. t / 2 ^ k) half
    ∙ xor_upper k (a / 2) (b / 2)
    ∙ sym (ap₂ bit_xor (halved a) (halved b))
  where
    halved : (n : ℕ) → n / 2 ^ suc k ≡ n / 2 / 2 ^ k
    halved n = ap (λ t. n / t) (omega (arith, pow-suc 2 k)) ∙ sym (div-div-eq-div-mul n 2 (2 ^ k))
