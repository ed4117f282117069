-- ===== src/Memory/Bump.antt =====
-- What src/mm/memory.cpp hands out does not overlap.
use emergence_os_bare_metal.Base.{
  ℕ, refl, leb, u64, false, ◌+◌, ◌%◌, ◌^◌, ◌≤◌, ◌<◌, ◌≡◌, ◌⊎◌, arith, List, [], ◌∷◌, none, some,
  Option-cases, inl, inr,
}
use emergence_os_bare_metal.Memory.{PhysicalMemory, aligned, allocate, allocate_all}

-- The pieces start on multiples of 16384, each behind the end of the one before, and end before `last`.
abbrev pub AreApart : ℕ → ℕ → List (ℕ × ℕ) → Type 0
AreApart first last [] = Unit {0}
AreApart first last ((a, size) ∷ later) =
    (a % 16384 ≡ 0) × (first ≤ a) × (a + size < last) × AreApart (a + size) last later

-- No address is near the end of the 64-bit space.
abbrev pub IsMemory : PhysicalMemory → Type 0
IsMemory p =
    ((p.current_address ≤ p.max_address)
      ⊎ ((p.current_address % 16384 ≡ 0) × (p.current_address ≤ p.max_address + 16384)))
    × (p.max_address < 2 ^ 62)

-- Sizes whose sum with an address does not wrap.
abbrev pub AreSizes : List ℕ → Type 0
AreSizes [] = Unit {0}
AreSizes (size ∷ sizes) = (size < 2 ^ 62) × AreSizes sizes

one :
    (p : PhysicalMemory) (size a : ℕ)
    → IsMemory p
    → size < 2 ^ 62
    → (allocate p size).0 ≡ some a
    → (a % 16384 ≡ 0)
      × (p.current_address ≤ a)
      × (a + size < p.max_address)
      × ((allocate p size).1 ≡ record p { current_address = a + size })
unfolding allocate
one p size a m s e = (ground arith, ground arith, ground arith, ground arith)

none_left :
    (p : PhysicalMemory) (size : ℕ)
    → IsMemory p
    → (allocate p size).0 ≡ none
    → (allocate p size).1 ≡ record p { current_address = aligned p.current_address }
unfolding allocate
none_left p size m e = ground arith

AreApart-earlier :
    (f g last : ℕ) (pieces : List (ℕ × ℕ)) → f ≤ g → AreApart g last pieces → AreApart f last pieces
AreApart-earlier f g last [] h a = tt
AreApart-earlier f g last ((a, size) ∷ later) h apart =
    (apart.0, omega (arith, apart.1), apart.2, apart.3)

-- Requests of any sizes below 2 ^ 62 get pieces that start on multiples of 16384, follow one another
-- without overlap from the first address on, and end before the end of the memory.
pub allocate_all-AreApart :
    (sizes : List ℕ) (p : PhysicalMemory)
    → IsMemory p
    → AreSizes sizes
    → AreApart p.current_address p.max_address (allocate_all p sizes)
unfolding allocate_all
allocate_all-AreApart [] p m s = tt
allocate_all-AreApart (size ∷ sizes) p m s = elim (Option-cases (allocate p size).0) [
  | inl missing ↦
      let left = none_left p size m missing in
      let rest =
        allocate_all-AreApart sizes (record p { current_address = aligned p.current_address })
          (ground arith) s.1 in
      rw (missing, left, allocate_all)
        (AreApart-earlier p.current_address (aligned p.current_address) p.max_address
          (allocate_all (record p { current_address = aligned p.current_address }) sizes)
          (ground arith) rest)
  | inr (a, e) ↦
      let laws = one p size a m s.0 e in
      let rest =
        allocate_all-AreApart sizes (record p { current_address = a + size }) (ground arith) s.1 in
      rw (e, laws.3, allocate_all) (laws.0, laws.1, laws.2, rest)
]

-- With room for it a request gets the next multiple of 16384.
pub allocate-some :
    (p : PhysicalMemory) (size : ℕ)
    → p.current_address + 16384 + size < p.max_address
    → p.max_address < 2 ^ 62
    → allocate p size ≡ (
      some (aligned p.current_address),
      record p { current_address = aligned p.current_address + size },
    )
unfolding allocate
allocate-some p size h m =
    let fits : leb p.max_address (u64 (aligned p.current_address + size)) ≡ false = ground arith in
    let plain : u64 (aligned p.current_address + size) ≡ aligned p.current_address + size =
      ground arith in
    rw (fits, plain) refl
