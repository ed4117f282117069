-- ===== src/Kernel/Text.antt =====
-- The string tests of src/boot/kmain.cpp, and a text in an array of zeros.
use emergence_os_bare_metal.Base.{
  ℕ, zero, suc, ◌<◌, ◌≡◌, refl, ap, ap₂, arith, List, [], ◌∷◌, ◌++◌, Bool, true, false, ◌==◌,
  if◌then◌else◌, length, take, set, replicate,
}
use emergence_os_bare_metal.Kernel.{kstrcmp, kstarts_with}

if_both : (p q : Bool) → (if p then q else false) ≡ true → (p ≡ true) × (q ≡ true)
if_both true q e = (refl, e)
if_both false q e = cc

same_char : (a b : ℕ) → (a == b) ≡ true → a ≡ b
same_char a b e = ground arith

pub kstrcmp_self : (s : List ℕ) → kstrcmp s s ≡ true
unfolding kstrcmp
kstrcmp_self [] = refl
kstrcmp_self (a ∷ s) = let same : (a == a) ≡ true = ground arith in rw same (kstrcmp_self s)

pub kstrcmp_eq : (s t : List ℕ) → kstrcmp s t ≡ true → s ≡ t
unfolding kstrcmp
kstrcmp_eq [] [] e = refl
kstrcmp_eq [] (b ∷ t) e = cc
kstrcmp_eq (a ∷ s) [] e = cc
kstrcmp_eq (a ∷ s) (b ∷ t) e =
    let parts = if_both (a == b) (kstrcmp s t) e in
    ap₂ (λ x xs. x ∷ xs) (same_char a b parts.0) (kstrcmp_eq s t parts.1)

abbrev pub AreNonzero : List ℕ → Type 0
AreNonzero [] = Unit {0}
AreNonzero (c ∷ str) = (0 < c) × AreNonzero str

-- The zeros behind a text end it.
pub kstarts_with-zeros :
    (text prefix : List ℕ) (k : ℕ)
    → AreNonzero prefix
    → kstarts_with (text ++ replicate k 0) prefix ≡ kstarts_with text prefix
unfolding kstarts_with
kstarts_with-zeros text [] k nz = refl
kstarts_with-zeros [] (p ∷ prefix) zero nz = refl
kstarts_with-zeros [] (p ∷ prefix) (suc k) nz =
    let other : (0 == p) ≡ false = ground (arith, nz.0) in rw other refl
kstarts_with-zeros (c ∷ text) (p ∷ prefix) k nz =
    ap (λ (r : Bool). if c == p then r else false) (kstarts_with-zeros text prefix k nz.1)

-- Storing behind the text.
pub set-end :
    (text : List ℕ) (k c : ℕ)
    → set (text ++ replicate (suc k) 0) (length text) c ≡ (text ++ c ∷ []) ++ replicate k 0
set-end [] k c = refl
set-end (x ∷ text) k c = ap (λ t. x ∷ t) (set-end text k c)

-- Clearing its last character.
pub set-last :
    (x : ℕ) (text : List ℕ) (k : ℕ)
    → set ((x ∷ text) ++ replicate k 0) (length text) 0
      ≡ take (length text) (x ∷ text) ++ replicate (suc k) 0
set-last x [] k = refl
set-last x (y ∷ text) k = ap (λ t. x ∷ t) (set-last y text k)

-- What stands there already.
pub set_again :
    (text : List ℕ) (k : ℕ)
    → set (text ++ replicate (suc k) 0) (length text) 0 ≡ text ++ replicate (suc k) 0
set_again [] k = refl
set_again (x ∷ text) k = ap (λ t. x ∷ t) (set_again text k)
