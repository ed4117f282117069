-- ===== src/Kernel/Screen/Bounds.antt =====
-- The ranges that the state of the shell of src/boot/kmain.cpp stays in.
use emergence_os_bare_metal.Base.{
  ℕ, ◌+◌, ◌-◌, ◌^◌, ◌<◌, ◌≡◌, refl, arith, List, [], ◌∷◌, Bool, true, false, Bool-cases, inl, inr,
  ◌&&◌, ◌||◌, ltb, leb, ◌==◌, if◌then◌else◌, length, set, length-set, ◌∙◌, u32,
}
use emergence_os_bare_metal.Keyboard.{key_tab, newline, backspace, scancode_to_char}
use emergence_os_bare_metal.Kernel.{
  Shell, key, edit, submit, kstarts_with, back, fold, sovereign_shell,
}

-- What the types of the fields say: an index of the array that leaves room for the terminator, a value of
-- the enumeration, and a 32-bit word.
pub record IsShell (s : Shell) : Type 0 where
  pub cells : length s.cmd ≡ 128
  pub index : s.cmd_idx < 128
  pub region : s.focus < 3
  pub word : s.hypercube_frame < 2 ^ 32

module _ (s : Shell) (shell : IsShell s) where
  open shell use {cells, index, region, word}

  stored : (i c : ℕ) → length (set s.cmd i c) ≡ 128
  stored i c = length-set s.cmd i c ∙ cells

  IsShell-submit : IsShell (submit s)
  unfolding submit
  IsShell-submit =
      let text = set s.cmd s.cmd_idx 0 in
      elim (Bool-cases (kstarts_with text back)) [
        | inl leaves ↦
            rw leaves
              (record { cells = stored s.cmd_idx 0; index = index; region = region; word = word })
        | inr stays ↦ elim (Bool-cases (kstarts_with text fold)) [
          | inl folds ↦
              rw (stays, folds)
                (record { cells = refl; index = omega arith; region = region; word = word })
          | inr nothing ↦
              rw (stays, nothing)
                (record { cells = refl; index = omega arith; region = region; word = word })
        ]
      ]

  IsShell-edit : (c : ℕ) → IsShell (edit s c)
  unfolding edit
  IsShell-edit c = elim (Bool-cases (c == backspace && ltb 0 s.cmd_idx)) [
    | inl back_ ↦ rw back_ (record {
      cells = stored (s.cmd_idx - 1) 0;
      index = omega (arith, index);
      region = region;
      word = word;
    })
    | inr other ↦ elim (Bool-cases (ltb s.cmd_idx 127 && leb 32 c)) [
      | inl typed ↦
          rw (other, typed)
            (record {
              cells = stored s.cmd_idx c;
              index = has_room s.cmd_idx c typed;
              region = region;
              word = word;
            })
      | inr nothing ↦ rw (other, nothing) shell
    ]
  ]
    where
      has_room : (i c : ℕ) → (ltb i 127 && leb 32 c) ≡ true → i + 1 < 128
      has_room i c e = ground arith

  IsShell-key : (sc : ℕ) → IsShell (key s sc)
  unfolding key
  IsShell-key sc = elim (Bool-cases (sc == 0)) [
    | inl nothing ↦ rw nothing shell
    | inr some_key ↦ elim (Bool-cases (sc == key_tab)) [
      | inl tab ↦
          rw (some_key, tab)
            (record { cells = cells; index = index; region = omega arith; word = word })
      | inr other ↦ elim (Bool-cases (scancode_to_char sc == 0)) [
        | inl no_char ↦ rw (some_key, other, no_char) shell
        | inr char ↦
            elim (Bool-cases (scancode_to_char sc == newline || scancode_to_char sc == 13)) [
              | inl ends ↦ rw (some_key, other, char, ends) IsShell-submit
              | inr goes_on ↦
                  rw (some_key, other, char, goes_on) (IsShell-edit (scancode_to_char sc))
            ]
      ]
    ]
  ]

if_running :
    (running : Bool) (s t : Shell) → IsShell s → IsShell t → IsShell (if running then t else s)
if_running true s t a b = b
if_running false s t a b = a

-- Whatever is typed, the state of the shell stays in the ranges of its types: the command has its 128
-- cells and its index is one of them, the region is one of the three of the enumeration, and the frame is
-- a 32-bit word.
pub sovereign_shell-IsShell :
    (codes : List ℕ) (s : Shell) → IsShell s → IsShell (sovereign_shell s codes)
unfolding sovereign_shell
sovereign_shell-IsShell [] s shell = shell
sovereign_shell-IsShell (sc ∷ codes) s shell =
    let next : Shell = record s { hypercube_frame = u32 (s.hypercube_frame + 1) } in
    let ranges : IsShell next = record {
      cells = shell.cells;
      index = shell.index;
      region = shell.region;
      word = omega arith;
    } in
    if_running s.in_shell s (sovereign_shell (key next sc) codes) shell
      (sovereign_shell-IsShell codes (key next sc) (IsShell-key next ranges sc))
