-- ===== src/Ahci/Command.antt =====
-- What a disk reads out of a command of src/hal/ahci.hpp.
use emergence_os_bare_metal.Base.{
  ℕ, ◌+◌, ◌*◌, ◌/◌, ◌%◌, ◌^◌, ◌<◌, ◌≤◌, ◌≡◌, refl, arith, [], ◌∷◌, Bool, true, false, ◌==◌, get_or,
  le_value,
}
use emergence_os_bare_metal.Ahci.{HbaCommandTable, command_fis, command_table, byte_count}

-- A command as the disk sees it.
pub record Request : Type 0 where
  pub writes : Bool
  pub lba : ℕ
  pub sectors : ℕ
  pub bytes : ℕ

-- The fields of a register frame from the host to the device, and the bytes of the only region.
abbrev pub request_of : HbaCommandTable → Request
request_of t = record {
  writes = get_or t.cfis 2 0 == 0x35;
  lba = le_value (
      get_or t.cfis 4 0
      ∷ get_or t.cfis 5 0
      ∷ get_or t.cfis 6 0
      ∷ get_or t.cfis 8 0
      ∷ get_or t.cfis 9 0
      ∷ get_or t.cfis 10 0
      ∷ []);
  sectors = le_value (get_or t.cfis 12 0 ∷ get_or t.cfis 13 0 ∷ []);
  bytes = t.prdt_entry.dbc + 1;
}

request_eq :
    {a b c d e f : ℕ} (w : Bool)
    → a ≡ d
    → b ≡ e
    → c ≡ f
    → (let r : Request = record { writes = w; lba = a; sectors = b; bytes = c } in r)
      ≡ record { writes = w; lba = d; sectors = e; bytes = f }
request_eq w p q r = rw (p, q, r) refl

lba_bytes :
    (x : ℕ)
    → x < 2 ^ 48
    → le_value (
        x % 256
        ∷ x / 256 % 256
        ∷ x / 65536 % 256
        ∷ x / 16777216 % 256
        ∷ x / 4294967296 % 256
        ∷ x / 1099511627776 % 256
        ∷ [])
      ≡ x
lba_bytes x h = omega arith

count_bytes : (c : ℕ) → c < 2 ^ 16 → le_value (c % 256 ∷ c / 256 % 256 ∷ []) ≡ c
count_bytes c h = omega arith

region_bytes : (c : ℕ) → 0 < c → c < 2 ^ 16 → byte_count c + 1 ≡ 512 * c
unfolding byte_count
region_bytes c z h = omega arith

-- A command for 1 to 8192 sectors, the 4 MB that a region may have, within the first 2 ^ 48 asks the disk for just these sectors, and its
-- region of memory has 512 bytes for each of them.
pub request_of-command_table :
    (lba count buffer : ℕ) (write : Bool)
    → lba < 2 ^ 48
    → 0 < count
    → count ≤ 8192
    → request_of (command_table lba count buffer write)
      ≡ record { writes = write; lba = lba; sectors = count; bytes = 512 * count }
unfolding command_table command_fis byte_count
request_of-command_table lba count buffer true l z c =
    request_eq true (lba_bytes lba l) (count_bytes count (omega arith))
      (region_bytes count z (omega arith))
request_of-command_table lba count buffer false l z c =
    request_eq false (lba_bytes lba l) (count_bytes count (omega arith))
      (region_bytes count z (omega arith))
