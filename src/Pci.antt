-- ===== src/Pci.antt =====
-- src/hal/pci.hpp: looking for devices on the bus. The two ports are hardware: a function gives what the
-- data port returns for the address in the address port. The printing of `scan_bus` is left out.
pub mod Address
pub mod Search
mod Tests
use emergence_os_bare_metal.Base.{
  ℕ, zero, suc, ◌+◌, ◌*◌, ◌/◌, ◌%◌, Bool, true, false, ◌&&◌, Option, none, some, List, [], ◌∷◌,
  ◌++◌, ◌==◌, if◌then◌else◌, bit_and, bit_or, ◌<<<◌, ◌>>>◌,
}

-- The 32-bit word that the configuration space has at an address.
abbrev pub ConfigSpace : Type 0
ConfigSpace = ℕ → ℕ

pub record Device : Type 0 where
  pub bus : ℕ
  pub slot : ℕ
  pub func : ℕ
  pub vendor : ℕ
  pub device : ℕ
  pub base_class : ℕ
  pub sub_class : ℕ
  pub prog_if : ℕ
  pub bar5 : ℕ

-- The arguments are bytes.
unfoldable pub config_address : ℕ → ℕ → ℕ → ℕ → ℕ
config_address bus slot func offset =
    bit_or (bit_or (bit_or (bit_or (bus <<< 16) (slot <<< 11)) (func <<< 8)) (bit_and offset 0xFC))
      0x80000000

unfoldable pub pci_config_read : ConfigSpace → ℕ → ℕ → ℕ → ℕ → ℕ
pci_config_read config bus slot func offset = config (config_address bus slot func offset)

unfoldable pub get_device : ConfigSpace → ℕ → ℕ → ℕ → Device
get_device config bus slot func =
    let d0 = pci_config_read config bus slot func 0 in
    let d8 = pci_config_read config bus slot func 8 in
    let d24 = pci_config_read config bus slot func 0x24 in
    let dev : Device = record {
      bus = bus;
      slot = slot;
      func = func;
      vendor = d0 % 0x10000;
      device = (d0 >>> 16) % 0x10000;
      base_class = 0;
      sub_class = 0;
      prog_if = 0;
      bar5 = 0;
    } in
    if dev.vendor == 0xFFFF then dev else record dev {
      base_class = (d8 >>> 24) % 0x100;
      sub_class = (d8 >>> 16) % 0x100;
      prog_if = (d8 >>> 8) % 0x100;
      bar5 = d24 / 16 * 16;
    }

unfoldable pub is_ahci : Device → Bool
is_ahci dev = dev.base_class == 1 && dev.sub_class == 6

-- The inner loop of `find_ahci_base`, `n` slots from `slot` on.
unfoldable pub search_slots : ConfigSpace → ℕ → ℕ → ℕ → Option ℕ
search_slots config bus slot zero = none
search_slots config bus slot (suc n) =
    let dev = get_device config bus slot 0 in
    let rest = search_slots config bus (slot + 1) n in if is_ahci dev then some dev.bar5 else rest

-- The outer loop, `n` buses from `bus` on.
unfoldable pub search_buses : ConfigSpace → ℕ → ℕ → Option ℕ
search_buses config bus zero = none
search_buses config bus (suc n) =
    let rest = search_buses config (bus + 1) n in
    elim (search_slots config bus 0 32) [ some base ↦ some base | none ↦ rest ]

unfoldable pub find_ahci_base : ConfigSpace → ℕ
find_ahci_base config = elim (search_buses config 0 8) [ some base ↦ base | none ↦ 0 ]

-- The devices that `scan_bus` reports on a bus, `n` slots from `slot` on.
unfoldable pub scan_slots : ConfigSpace → ℕ → ℕ → ℕ → List Device
scan_slots config bus slot zero = []
scan_slots config bus slot (suc n) =
    let dev = get_device config bus slot 0 in
    let rest = scan_slots config bus (slot + 1) n in
    if dev.vendor == 0xFFFF then rest else dev ∷ rest

unfoldable pub scan_buses : ConfigSpace → ℕ → ℕ → List Device
scan_buses config bus zero = []
scan_buses config bus (suc n) =
    let rest = scan_buses config (bus + 1) n in scan_slots config bus 0 32 ++ rest

unfoldable pub scan_bus : ConfigSpace → List Device
scan_bus config = scan_buses config 0 8
