-- ===== src/Pci/Tests.antt =====
-- Runs of src/hal/pci.hpp.
use emergence_os_bare_metal.Base.{ℕ, ◌≡◌, Option, ◌==◌, if◌then◌else◌}
use emergence_os_bare_metal.Pci.{ConfigSpace, find_ahci_base}
use emergence_os_bare_metal.Pci.Search.{IsFirst, get_or_zero, find_ahci_base_lem}

-- An AHCI controller in slot 2 of bus 0, and nothing else.
abbrev one_controller : ConfigSpace
one_controller a =
    if a == 0x80001000
    then 0x29228086
    else if a == 0x80001008
    then 0x01060102
    else if a == 0x80001024
    then 0xFEBF1000
    else 0xFFFFFFFF

find_ahci_base_lem_example :
    (o : Option ℕ) × IsFirst one_controller 0 256 o
    × (find_ahci_base one_controller ≡ get_or_zero o)
find_ahci_base_lem_example = find_ahci_base_lem one_controller
