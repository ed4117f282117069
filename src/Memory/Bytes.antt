-- ===== src/Memory/Bytes.antt =====
-- The byte routines of src/mm/memory.cpp. Memory is a function from addresses to bytes, and an address
-- does not run past the last one.
use native.Mathlib.Decide.{ℕ_discrete}
use emergence_os_bare_metal.Base.{
  ℕ, zero, suc, ◌+◌, ◌-◌, ◌≤◌, ◌<◌, ◌≡◌, ◌⊎◌, refl, subst, ◌∙◌, arith, Bool, true, false,
  Bool-cases, inl, inr, ◌&&◌, Option, none, some, ltb, leb, ◌==◌, if◌then◌else◌, u8,
}

abbrev pub Bytes : Type 0
Bytes = ℕ → ℕ

abbrev pub store : Bytes → ℕ → ℕ → Bytes
store mem at_ byte a = if a == at_ then byte else mem a

-- `n` bytes from byte `i` on.
unfoldable pub copy_from : Bytes → ℕ → ℕ → ℕ → ℕ → Bytes
copy_from mem dest src i zero = mem
copy_from mem dest src i (suc n) =
    copy_from (store mem (dest + i) (mem (src + i))) dest src (i + 1) n

unfoldable pub kmemcpy : Bytes → ℕ → ℕ → ℕ → Bytes
kmemcpy mem dest src n = copy_from mem dest src 0 n

unfoldable pub set_from : Bytes → ℕ → ℕ → ℕ → ℕ → Bytes
set_from mem s c i zero = mem
set_from mem s c i (suc n) = set_from (store mem (s + i) (u8 c)) s c (i + 1) n

unfoldable pub kmemset : Bytes → ℕ → ℕ → ℕ → Bytes
kmemset mem s c n = set_from mem s c 0 n

-- The endless loop, for as many rounds as `fuel`.
unfoldable pub length_from : ℕ → Bytes → ℕ → ℕ → Option ℕ
length_from zero mem s len = none
length_from (suc fuel) mem s len =
    let later = length_from fuel mem s (len + 1) in if mem (s + len) == 0 then some len else later

unfoldable pub kstrlen : ℕ → Bytes → ℕ → Option ℕ
kstrlen fuel mem s = length_from fuel mem s 0

-- Is an address one of the `n` from `low` on?
abbrev pub is_in : ℕ → ℕ → ℕ → Bool
is_in low n a = leb low a && ltb a (low + n)

set_from_lem :
    (mem : Bytes) (s c i n a : ℕ)
    → set_from mem s c i n a ≡ (if is_in (s + i) n a then u8 c else mem a)
unfolding set_from
set_from_lem mem s c i zero a = ground arith
set_from_lem mem s c i (suc n) a =
    set_from_lem (store mem (s + i) (u8 c)) s c (i + 1) n a ∙ ground arith

-- `kmemset` sets the `n` bytes from `s` on and nothing else.
pub kmemset_lem :
    (mem : Bytes) (s c n a : ℕ) → kmemset mem s c n a ≡ (if is_in s n a then u8 c else mem a)
unfolding kmemset
kmemset_lem mem s c n a =
    let first : s + 0 ≡ s = omega arith in
    subst (λ t. set_from mem s c 0 n a ≡ (if is_in t n a then u8 c else mem a)) first
      (set_from_lem mem s c 0 n a)

-- A copy to a lower address, or to a place that does not overlap.
abbrev pub MayCopy : ℕ → ℕ → ℕ → Type 0
MayCopy dest src n = (dest ≤ src) ⊎ (src + n ≤ dest)

one_copied :
    (mem : Bytes) (dest src i n a : ℕ)
    → MayCopy dest src (i + suc n)
    → (if is_in (dest + (i + 1)) n a
        then store mem (dest + i) (mem (src + i)) (src + (a - dest))
        else store mem (dest + i) (mem (src + i)) a)
      ≡ (if is_in (dest + i) (suc n) a then mem (src + (a - dest)) else mem a)
one_copied mem dest src i n a may = elim (ℕ_discrete a (dest + i)) [
  | yes here ↦
      let at_ : src + (a - dest) ≡ src + i = omega (arith, here) in
      let outside : is_in (dest + (i + 1)) n a ≡ false = ground (arith, here) in
      let inside : is_in (dest + i) (suc n) a ≡ true = ground (arith, here) in
      let same : (a == dest + i) ≡ true = ground (arith, here) in
      rw (outside, inside, at_, same) refl
  | no away ↦
      let other : (a == dest + i) ≡ false = ground (arith, away) in
      let same : is_in (dest + (i + 1)) n a ≡ is_in (dest + i) (suc n) a = ground (arith, away) in
      elim (Bool-cases (is_in (dest + i) (suc n) a)) [
        | inl inside ↦
            let apart : (src + (a - dest) == dest + i) ≡ false = ground (arith, away) in
            rw (same, inside, apart) refl
        | inr outside ↦ rw (same, outside, other) refl
      ]
]

copy_from_lem :
    (mem : Bytes) (dest src i n a : ℕ)
    → MayCopy dest src (i + n)
    → copy_from mem dest src i n a
      ≡ (if is_in (dest + i) n a then mem (src + (a - dest)) else mem a)
unfolding copy_from
copy_from_lem mem dest src i zero a may = ground arith
copy_from_lem mem dest src i (suc n) a may =
    copy_from_lem (store mem (dest + i) (mem (src + i))) dest src (i + 1) n a (omega arith)
    ∙ one_copied mem dest src i n a may

-- `kmemcpy` to a lower address, or to a place that the source does not overlap, gives each of the `n`
-- bytes from `dest` on what the source held before, and changes nothing else.
pub kmemcpy_lem :
    (mem : Bytes) (dest src n a : ℕ)
    → MayCopy dest src n
    → kmemcpy mem dest src n a ≡ (if is_in dest n a then mem (src + (a - dest)) else mem a)
unfolding kmemcpy
kmemcpy_lem mem dest src n a may =
    let first : dest + 0 ≡ dest = omega arith in
    subst
      (λ t. copy_from mem dest src 0 n a ≡ (if is_in t n a then mem (src + (a - dest)) else mem a))
      first (copy_from_lem mem dest src 0 n a (omega arith))

length_from_lem :
    (k fuel : ℕ) (mem : Bytes) (s len end : ℕ)
    → k < fuel
    → end ≡ len + k
    → ((i : ℕ) → i < end → (mem (s + i) == 0) ≡ false)
    → (mem (s + end) == 0) ≡ true
    → length_from fuel mem s len ≡ some end
unfolding length_from
length_from_lem k zero mem s len end h e body z = absurd (omega arith)
length_from_lem zero (suc fuel) mem s len end h e body z =
    let here : len ≡ end = omega arith in rw (length_from, here, z) refl
length_from_lem (suc k) (suc fuel) mem s len end h e body z =
    let start : (mem (s + len) == 0) ≡ false = body len (omega arith) in
    rw (length_from, start)
      (length_from_lem k fuel mem s (len + 1) end (omega arith) (omega arith) body z)

-- `kstrlen` ends at the first byte that is zero, and returns how far it is.
pub kstrlen_lem :
    (k fuel : ℕ) (mem : Bytes) (s : ℕ)
    → k < fuel
    → ((i : ℕ) → i < k → (mem (s + i) == 0) ≡ false)
    → (mem (s + k) == 0) ≡ true
    → kstrlen fuel mem s ≡ some k
unfolding kstrlen
kstrlen_lem k fuel mem s h body z = length_from_lem k fuel mem s 0 k h (omega arith) body z
