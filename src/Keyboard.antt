-- ===== src/Keyboard.antt =====
-- src/hal/keyboard.hpp: scan codes from the keyboard controller, as characters and edited lines. The
-- controller is hardware: an interface says what reading its two ports does.
pub mod Reading
pub mod Editing
pub mod Password
mod Tests
use emergence_os_bare_metal.Base.{
  ℕ, zero, suc, ◌+◌, ◌-◌, ◌%◌, List, [], ◌∷◌, ◌++◌, Bool, true, false, not, ◌&&◌, ◌||◌, Option,
  none, some, ltb, leb, ◌==◌, if◌then◌else◌, get_or, length, take, bit_and, bit_or,
}

-- What `inb` returns for the status port and for the data port, and the controller afterwards.
pub record Controller : Type 1 where
  pub Port : Type 0
  pub status : Port → ℕ × Port
  pub data_byte : Port → ℕ × Port

pub record Keys : Type 0 where
  pub modifiers : ℕ
  pub hotkey_triggered : Bool

abbrev pub no_keys : Keys
no_keys = record { modifiers = 0; hotkey_triggered = false }

abbrev pub key_tab : ℕ
key_tab = 0x0F

abbrev pub key_up : ℕ
key_up = 0x48

abbrev pub key_down : ℕ
key_down = 0x50

abbrev pub newline : ℕ
newline = 10

abbrev pub backspace : ℕ
backspace = 8

-- Characters by their codes.
abbrev pub scancode_map : List ℕ
scancode_map =
    0 ∷ 27 ∷ 49 ∷ 50 ∷ 51 ∷ 52 ∷ 53 ∷ 54 ∷ 55 ∷ 56 ∷ 57 ∷ 48 ∷ 45 ∷ 61 ∷ 8 ∷ 9 ∷ 113 ∷ 119 ∷ 101
    ∷ 114 ∷ 116 ∷ 121 ∷ 117 ∷ 105 ∷ 111 ∷ 112 ∷ 91 ∷ 93 ∷ 10 ∷ 0 ∷ 97 ∷ 115 ∷ 100 ∷ 102 ∷ 103 ∷ 104
    ∷ 106 ∷ 107 ∷ 108 ∷ 59 ∷ 39 ∷ 96 ∷ 0 ∷ 92 ∷ 122 ∷ 120 ∷ 99 ∷ 118 ∷ 98 ∷ 110 ∷ 109 ∷ 44 ∷ 46 ∷ 47
    ∷ 0 ∷ 42 ∷ 0 ∷ 32 ∷ 0 ∷ 0 ∷ 0 ∷ 0 ∷ 0 ∷ 0 ∷ 0 ∷ 0 ∷ 0 ∷ 0 ∷ 0 ∷ 0 ∷ 0 ∷ 0 ∷ 0 ∷ 0 ∷ 45 ∷ 0 ∷ 0
    ∷ 0 ∷ 43 ∷ []

-- The rest of the 128 places is zero.
unfoldable pub char_of : ℕ → ℕ
char_of scancode = get_or scancode_map scancode 0

unfoldable pub scancode_to_char : ℕ → ℕ
scancode_to_char scancode = if leb 128 scancode then 0 else char_of scancode

-- `modifiers |= bit` and `modifiers &= ~bit` on one byte.
abbrev pub press : ℕ → Keys → Keys
press bit k = record k { modifiers = bit_or k.modifiers bit }

abbrev pub release : ℕ → Keys → Keys
release bit k = record k { modifiers = bit_and k.modifiers (255 - bit) }

unfoldable pub modified : ℕ → Keys → Keys
modified sc k =
    if sc == 0x1D
    then press 1 k
    else if sc == 0x9D
    then release 1 k
    else if sc == 0x38
    then press 2 k
    else if sc == 0xB8
    then release 2 k
    else if sc == 0x2A || sc == 0x36
    then press 4 k
    else if sc == 0xAA || sc == 0xB6
    then release 4 k
    else k

-- What `update_state` does with the scan code that it has read.
unfoldable pub handled : ℕ → Keys → Keys
handled sc k =
    let k' = modified sc k in
    if sc == 0x12 && k'.modifiers == 7 then record k' { hotkey_triggered = true } else k'

unfoldable pub consume_hotkey : Keys → Bool × Keys
consume_hotkey k = (k.hotkey_triggered, record k { hotkey_triggered = false })

module _ (c : Controller) where
  open c use {Port, status, data_byte}

  pub record Keyboard : Type 0 where
    pub port : Port
    pub keys : Keys

  -- `inb(STATUS_PORT) & 0x01`.
  unfoldable pub is_data_available : Port → Bool × Port
  is_data_available p = let (s, p') = status p in (s % 2 == 1, p')

  unfoldable pub read_raw_scancode : Port → ℕ × Port
  unfolding is_data_available
  read_raw_scancode p =
      let (ready, p') = is_data_available p in if ready then data_byte p' else (0, p')

  unfoldable pub update_state : Keyboard → Keyboard
  unfolding is_data_available
  update_state kb =
      let (ready, p) = is_data_available kb.port in
      let (sc, p') = data_byte p in
      if ready then record { port = p'; keys = handled sc kb.keys } else record kb { port = p }

  -- One round of the loop of `read_char`: the character, if it gets one.
  unfoldable pub read_round : Keyboard → Option ℕ × Keyboard
  unfolding is_data_available update_state
  read_round kb =
      let kb' = update_state kb in
      let (ready, p) = is_data_available kb'.port in
      let (sc, p') = data_byte p in
      if ready
      then (
        if leb 128 sc then none else if ltb 0 (char_of sc) then some (char_of sc) else none,
        record kb' { port = p' },
      )
      else (none, record kb' { port = p })

  -- The endless loop, for as many rounds as `fuel`.
  unfoldable pub read_char : ℕ → Keyboard → Option ℕ × Keyboard
  unfolding read_round
  read_char zero kb = (none, kb)
  read_char (suc fuel) kb =
      let (got, kb') = read_round kb in
      let later = read_char fuel kb' in elim got [ none ↦ later | some ch ↦ (some ch, kb') ]

  unfoldable pub read_char_nonblock : Keyboard → ℕ × Keyboard
  unfolding is_data_available update_state
  read_char_nonblock kb =
      let kb' = update_state kb in
      let (ready, p) = is_data_available kb'.port in
      let (sc, p') = data_byte p in
      if ready
      then (scancode_to_char sc, record kb' { port = p' })
      else (0, record kb' { port = p })

-- What a character does to the line so far.
pub data Edit : Type 0 where
  done : Edit
  go : List ℕ → Edit

unfoldable pub edit_line : List ℕ → ℕ → Edit
edit_line buf ch =
    if ch == newline
    then done
    else if ch == backspace && ltb 0 (length buf)
    then go (take (length buf - 1) buf)
    else go (buf ++ ch ∷ [])

unfoldable pub edit_password : List ℕ → ℕ → Edit
edit_password buf ch =
    if ch == newline || ch == 13
    then done
    else if ch == backspace && ltb 0 (length buf)
    then go (take (length buf - 1) buf)
    else if leb 32 ch && leb ch 126
    then go (buf ++ ch ∷ [])
    else go buf

-- The loops of `read_password` and `read_line` without a screen. `poll` says whether a round first
-- looks for a code; `rounds` bounds each `read_char`, `fuel` the loop. The buffer is the characters
-- before the terminator.
unfoldable pub edit_loop :
    (c : Controller)
    → (List ℕ → ℕ → Edit)
    → Bool
    → ℕ
    → ℕ
    → ℕ
    → Keyboard c
    → List ℕ
    → Option (List ℕ) × Keyboard c
edit_loop c edit poll rounds zero max kb buf = (none, kb)
edit_loop c edit poll rounds (suc fuel) max kb buf =
    let (ready, p) = is_data_available c kb.port in
    let polled : Keyboard c = if poll then record kb { port = p } else kb in
    let (char, kb') = read_char c rounds polled in
    elim (ltb (length buf) (max - 1)) [
      | false ↦ (some buf, kb)
      | true ↦ elim (poll && not ready) [
        | true ↦ edit_loop c edit poll rounds fuel max polled buf
        | false ↦ elim char [
          | none ↦ (none, kb')
          | some ch ↦ elim (edit buf ch) [
            | done ↦ (some buf, kb')
            | go buf' ↦ edit_loop c edit poll rounds fuel max kb' buf'
          ]
        ]
      ]
    ]

unfoldable pub read_line : (c : Controller) → ℕ → ℕ → ℕ → Keyboard c → Option (List ℕ) × Keyboard c
unfolding edit_loop
read_line c rounds fuel max kb = edit_loop c edit_line false rounds fuel max kb []

unfoldable pub read_password :
    (c : Controller) → ℕ → ℕ → ℕ → Keyboard c → Option (List ℕ) × Keyboard c
unfolding edit_loop
read_password c rounds fuel max kb = edit_loop c edit_password true rounds fuel max kb []
