-- ===== src/Transducer/Tests.antt =====
-- Runs of src/core/logic_transducer.hpp over an empty manifold and a table of one symbol.
use emergence_os_bare_metal.Base.{ℕ, ◌≡◌, arith, List, [], ◌∷◌, replicate}
use emergence_os_bare_metal.Transducer.{Symbol, register_hook, get_hook_coordinate}
use emergence_os_bare_metal.Transducer.Symbols.{AreShort, get-register_hook_long}

abbrev table : List Symbol
table = record { name = 65 ∷ 66 ∷ []; coordinate = 9 } ∷ []

abbrev long_name : List ℕ
long_name = replicate 32 65

get-register_hook_long_example :
    (get_hook_coordinate (register_hook table long_name 12) long_name ≡ 0)
    × AreShort (register_hook table long_name 12)
get-register_hook_long_example =
    get-register_hook_long table long_name 12 (omega arith, tt) (omega arith)
