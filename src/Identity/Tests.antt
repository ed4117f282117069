-- ===== src/Identity/Tests.antt =====
-- Runs of src/crypto/argon2_hardener.hpp and src/crypto/consensus_keygen.hpp.
use emergence_os_bare_metal.Base.{ℕ, ◌≡◌, refl, List, [], ◌∷◌, ◌++◌, none}
use emergence_os_bare_metal.Identity.{derive}
use emergence_os_bare_metal.Identity.Collide.{derive-append_twice}

-- "password"
abbrev word : List ℕ
word = 112 ∷ 97 ∷ 115 ∷ 115 ∷ 119 ∷ 111 ∷ 114 ∷ 100 ∷ []

derive-append_twice_example :
    derive ((97 ∷ []) ++ (word ++ (word ++ (98 ∷ [])))) (65 ∷ 66 ∷ []) none
    ≡ derive ((97 ∷ []) ++ (98 ∷ [])) (65 ∷ 66 ∷ []) none
derive-append_twice_example = derive-append_twice (97 ∷ []) word (98 ∷ []) (65 ∷ 66 ∷ []) refl
