-- ===== src/Serial.antt =====
-- src/hal/serial.hpp and the logging of src/hal/idt.hpp: the two ways to a serial line. The device is
-- hardware: an interface says what reading its status and sending a byte do.
pub mod Sending
pub mod Hex
mod Tests
use emergence_os_bare_metal.Base.{
  ℕ, zero, suc, ◌*◌, ◌%◌, List, [], ◌∷◌, Bool, true, false, Option, none, some, ◌==◌, if◌then◌else◌,
  get_or, bit_and, u8, ◌>>>◌,
}

-- The status is read again and again, and reading it may change the device.
pub record Uart : Type 1 where
  pub State : Type 0
  pub status : State → ℕ × State
  pub send : State → ℕ → State

-- "0123456789ABCDEF"
abbrev pub hex : List ℕ
hex = 48 ∷ 49 ∷ 50 ∷ 51 ∷ 52 ∷ 53 ∷ 54 ∷ 55 ∷ 56 ∷ 57 ∷ 65 ∷ 66 ∷ 67 ∷ 68 ∷ 69 ∷ 70 ∷ []

-- The last `n` of the sixteen characters.
unfoldable pub hex_text : ℕ → ℕ → List ℕ
hex_text val zero = []
hex_text val (suc i) = get_or hex ((val >>> (i * 4)) % 16) 0 ∷ hex_text val i

module _ (u : Uart) where
  open u use {State, status, send}

  -- The endless wait of `write_char`, for as many polls as `fuel`.
  unfoldable pub wait_empty : ℕ → State → Option State
  wait_empty zero s = none
  wait_empty (suc fuel) s =
      let (word, s') = status s in
      let later = wait_empty fuel s' in if bit_and word 0x20 == 0 then later else some s'

  -- `present` as `g_mmio_uart_base` is no null pointer.
  unfoldable pub write_char : ℕ → Bool → State → ℕ → Option State
  write_char fuel present s c =
      let written : Option State = elim (wait_empty fuel s) [
        | none ↦ none
        | some s' ↦ some (send s' (u8 c))
      ] in
      if present then written else some s

  unfoldable pub print : ℕ → Bool → State → List ℕ → Option State
  print fuel present s [] = some s
  print fuel present s (c ∷ str) = elim (write_char fuel present s c) [
    | none ↦ none
    | some s' ↦ print fuel present s' str
  ]

  unfoldable pub print_hex : ℕ → Bool → State → ℕ → Option State
  print_hex fuel present s val = print fuel present s (hex_text val 16)

  -- The wait of `raw_putc`, which ends after `n` more polls.
  unfoldable pub poll : ℕ → State → State
  poll zero s = s
  poll (suc n) s =
      let (word, s') = status s in
      let later = poll n s' in if bit_and word 0x20 == 0 then later else s'

  unfoldable pub raw_putc : State → ℕ → State
  raw_putc s c = send (poll 10000 s) (u8 c)

  unfoldable pub raw_print : State → List ℕ → State
  raw_print s [] = s
  raw_print s (c ∷ str) = raw_print (raw_putc s c) str

  unfoldable pub raw_print_hex : State → ℕ → State
  raw_print_hex s val = raw_print s (hex_text val 16)
