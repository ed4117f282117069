-- ===== src/Kernel.antt =====
-- src/boot/kmain.cpp: the interactive shell and the menu before it; their drawing is in Screen.
pub mod Text
pub mod Line
pub mod Screen
mod Tests
use emergence_os_bare_metal.Base.{
  ℕ, zero, suc, ◌+◌, ◌-◌, ◌%◌, List, [], ◌∷◌, Bool, true, false, ◌&&◌, ◌||◌, ltb, leb, ◌==◌,
  if◌then◌else◌, set, replicate, u32,
}
use emergence_os_bare_metal.Keyboard.{
  key_tab, key_up, key_down, newline, backspace, scancode_to_char,
}
use emergence_os_bare_metal.Resources.{DynamicResourceAllocator, fold_manifold}

-- A C string is its characters; behind the last stands the terminator.
unfoldable pub kstrcmp : List ℕ → List ℕ → Bool
kstrcmp [] [] = true
kstrcmp [] (b ∷ s2) = false
kstrcmp (a ∷ s1) [] = false
kstrcmp (a ∷ s1) (b ∷ s2) = let rest = kstrcmp s1 s2 in if a == b then rest else false

unfoldable pub kstarts_with : List ℕ → List ℕ → Bool
kstarts_with str [] = true
kstarts_with [] (p ∷ prefix) = false
kstarts_with (c ∷ str) (p ∷ prefix) =
    let rest = kstarts_with str prefix in if c == p then rest else false

-- "back" and "fold".
abbrev pub back : List ℕ
back = 98 ∷ 97 ∷ 99 ∷ 107 ∷ []

abbrev pub fold : List ℕ
fold = 102 ∷ 111 ∷ 108 ∷ 100 ∷ []

-- What `sovereign_shell` works on; `cmd` has the 128 cells of the array.
pub record Shell : Type 0 where
  pub cmd : List ℕ
  pub cmd_idx : ℕ
  pub focus : ℕ
  pub in_shell : Bool
  pub hypercube_frame : ℕ
  pub res : DynamicResourceAllocator

abbrev pub cleared : List ℕ
cleared = replicate 128 0

-- On entry.
unfoldable pub enter : Shell → Shell
enter s = record s { cmd = cleared; cmd_idx = 0; in_shell = true }

-- Enter was pressed.
unfoldable pub submit : Shell → Shell
submit s =
    let cmd = set s.cmd s.cmd_idx 0 in
    if kstarts_with cmd back
    then record s { cmd = cmd; in_shell = false }
    else if kstarts_with cmd fold
    then record s { cmd = cleared; cmd_idx = 0; res = fold_manifold s.res }
    else record s { cmd = cleared; cmd_idx = 0 }

-- What the loop does with a character.
unfoldable pub edit : Shell → ℕ → Shell
edit s c =
    if c == backspace && ltb 0 s.cmd_idx
    then record s { cmd = set s.cmd (s.cmd_idx - 1) 0; cmd_idx = s.cmd_idx - 1 }
    else if ltb s.cmd_idx 127 && leb 32 c
    then record s { cmd = set s.cmd s.cmd_idx c; cmd_idx = s.cmd_idx + 1 }
    else s

-- What the loop does with a scan code.
unfoldable pub key : Shell → ℕ → Shell
key s sc =
    if sc == 0
    then s
    else if sc == key_tab
    then record s { focus = (s.focus + 1) % 3 }
    else if scancode_to_char sc == 0
    then s
    else if scancode_to_char sc == newline || scancode_to_char sc == 13
    then submit s
    else edit s (scancode_to_char sc)

-- The loop over the codes that the keyboard gives, one at each pulse, as long as the shell runs.
unfoldable pub sovereign_shell : Shell → List ℕ → Shell
sovereign_shell s [] = s
sovereign_shell s (sc ∷ codes) =
    let after =
      sovereign_shell (key (record s { hypercube_frame = u32 (s.hypercube_frame + 1) }) sc) codes in
    if s.in_shell then after else s

-- The menu: the selection when Enter is pressed, as long as the codes last.
unfoldable pub menu : ℕ → List ℕ → ℕ
menu selection [] = selection
menu selection (sc ∷ codes) =
    let selection' = if sc == key_up then 0 else if sc == key_down then 1 else selection in
    let after = menu selection' codes in if sc == 0x1C then selection' else after
