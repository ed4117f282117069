-- ===== src/Transducer/Symbols.antt =====
-- The symbol table of src/core/logic_transducer.hpp.
use emergence_os_bare_metal.Base.{
  ◌&&◌, ℕ, ◌≤◌, ◌<◌, ◌≡◌, refl, arith, List, [], ◌∷◌, ◌++◌, Bool, Bool-cases, inl, inr, true, false,
  ◌||◌, ltb, if◌then◌else◌, length, take, length-take,
}
use emergence_os_bare_metal.Transducer.{Symbol, matches, register_hook, get_hook_coordinate}

abbrev pub is_known : List Symbol → List ℕ → Bool
is_known [] name = false
is_known (s ∷ ss) name = matches name s.name || is_known ss name

-- No stored name is longer than 31 characters.
abbrev pub AreShort : List Symbol → Type 0
AreShort [] = Unit {0}
AreShort (s ∷ ss) = (length s.name ≤ 31) × AreShort ss

pub matches_self : (name : List ℕ) → matches name name ≡ true
unfolding matches
matches_self [] = refl
matches_self (c ∷ cs) = ground (arith, matches_self cs)

matches-length : (name other : List ℕ) → matches name other ≡ true → length name ≡ length other
unfolding matches
matches-length [] [] e = refl
matches-length [] (d ∷ ds) e = cc
matches-length (c ∷ cs) [] e = cc
matches-length (c ∷ cs) (d ∷ ds) e = ground (arith, matches-length cs ds)

get-append :
    (ss : List Symbol) (s : Symbol) (name : List ℕ)
    → get_hook_coordinate (ss ++ s ∷ []) name ≡ (
        if is_known ss name
        then get_hook_coordinate ss name
        else if matches name s.name
        then s.coordinate
        else 0)
unfolding get_hook_coordinate
get-append [] s name = refl
get-append (t ∷ ss) s name = ground (arith, get-append ss s name)

get_unknown :
    (ss : List Symbol) (name : List ℕ) → is_known ss name ≡ false → get_hook_coordinate ss name ≡ 0
unfolding get_hook_coordinate
get_unknown [] name e = refl
get_unknown (s ∷ ss) name e = ground (arith, get_unknown ss name)

-- A lookup after `register_hook` finds what it found before, and otherwise the new coordinate if the
-- table had room and the name is the first 31 characters of the new one.
pub get-register_hook :
    (ss : List Symbol) (name asked : List ℕ) (coord : ℕ)
    → get_hook_coordinate (register_hook ss name coord) asked ≡ (
        if is_known ss asked
        then get_hook_coordinate ss asked
        else if ltb (length ss) 64 && matches asked (take 31 name)
        then coord
        else 0)
unfolding register_hook
get-register_hook ss name asked coord = elim (Bool-cases (ltb (length ss) 64)) [
  | inl room ↦
      rw (room, register_hook)
        (get-append ss (record { name = take 31 name; coordinate = coord }) asked)
  | inr full ↦
      rw (full, register_hook)
        (elim (Bool-cases (is_known ss asked)) [
          | inl known ↦ rw known refl
          | inr unseen ↦ rw unseen (get_unknown ss asked unseen)
        ])
]

unknown :
    (ss : List Symbol) (name : List ℕ)
    → AreShort ss
    → 31 < length name
    → get_hook_coordinate ss name ≡ 0
unfolding get_hook_coordinate
unknown [] name short long = refl
unknown (s ∷ ss) name short long =
    ground (arith, short.0, unknown ss name short.1 long, matches-length name s.name)

AreShort-append :
    (ss : List Symbol) (s : Symbol) → AreShort ss → length s.name ≤ 31 → AreShort (ss ++ s ∷ [])
AreShort-append [] s h k = (k, tt)
AreShort-append (t ∷ ss) s h k = (h.0, AreShort-append ss s h.1 k)

-- A hook whose name is longer than 31 characters is never found under that name, not even right after
-- it was registered; the table keeps to names of at most 31.
pub get-register_hook_long :
    (ss : List Symbol) (name : List ℕ) (coord : ℕ)
    → AreShort ss
    → 31 < length name
    → (get_hook_coordinate (register_hook ss name coord) name ≡ 0)
      × AreShort (register_hook ss name coord)
unfolding register_hook
get-register_hook_long ss name coord short long =
    (unknown (register_hook ss name coord) name kept long, kept)
  where
    kept : AreShort (register_hook ss name coord)
    kept =
        unfold register_hook in
        elim (Bool-cases (ltb (length ss) 64)) [
          | inl yes_ ↦ rw yes_ (AreShort-append ss _ short (omega (arith, length-take 31 name)))
          | inr no_ ↦ rw no_ short
        ]
