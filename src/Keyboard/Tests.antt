-- ===== src/Keyboard/Tests.antt =====
-- Runs of src/hal/keyboard.hpp over a controller that is a list of codes.
use emergence_os_bare_metal.Base.{ℕ, ◌%◌, ◌≡◌, refl, arith, List, [], ◌∷◌, false}
use emergence_os_bare_metal.Keyboard.{Controller, Keyboard, no_keys, edit_line, read_line}
use emergence_os_bare_metal.Keyboard.Reading.{IsQueue}
use emergence_os_bare_metal.Keyboard.Editing.{Held, chars_of, line_of, read_line-line_of}

abbrev take_code : List ℕ → ℕ × List ℕ
take_code [] = (0, [])
take_code (b ∷ bs) = (b, bs)

abbrev waits : List ℕ → ℕ
waits [] = 0
waits (b ∷ bs) = 1

abbrev codes_controller : Controller
codes_controller = record { Port = List ℕ; status = λ p. (waits p, p); data_byte = take_code }

codes-IsQueue : IsQueue codes_controller (λ p. p)
codes-IsQueue = record { status_idle = idle; status_ready = ready; data_taken = taken }
  where
    idle : (p : List ℕ) → p ≡ [] → (waits p % 2 ≡ 0) × (p ≡ [])
    idle [] e = (refl, refl)
    idle (b ∷ bs) e = cc

    ready : (p : List ℕ) (b : ℕ) (bs : List ℕ) → p ≡ b ∷ bs → (waits p % 2 ≡ 1) × (p ≡ b ∷ bs)
    ready [] b bs e = cc
    ready (x ∷ p) b bs e = (refl, e)

    taken :
        (p : List ℕ) (b : ℕ) (bs : List ℕ)
        → p ≡ b ∷ bs
        → ((take_code p).0 ≡ b) × ((take_code p).1 ≡ bs)
    taken [] b bs e = cc
    taken (x ∷ p) b bs e = (cc, cc)

abbrev with_codes : List ℕ → Keyboard codes_controller
with_codes codes = record { port = codes; keys = no_keys }

abbrev none_held : Held
none_held = record { ctrl = false; alt = false; shift = false }

abbrev hotkey_codes : List ℕ
hotkey_codes = 29 ∷ 56 ∷ 42 ∷ 18 ∷ 157 ∷ []

-- `a`, then Enter, each after a code that goes to the modifiers.
abbrev line_codes : List ℕ
line_codes = 42 ∷ 30 ∷ 170 ∷ 28 ∷ []

read_line-line_of_example :
    (read_line codes_controller 9 9 64 (with_codes line_codes)).0
    ≡ line_of edit_line 64 [] (chars_of line_codes)
read_line-line_of_example =
    read_line-line_of codes_controller (λ p. p) codes-IsQueue 9 64 (with_codes line_codes)
      line_codes refl (omega arith)
