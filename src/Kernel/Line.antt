-- ===== src/Kernel/Line.antt =====
-- The shell of src/boot/kmain.cpp as an editor of a line.
use emergence_os_bare_metal.Base.{
  ℕ, suc, ◌+◌, ◌-◌, ◌%◌, ◌<◌, ◌≤◌, ◌≡◌, refl, sym, ap, ap₂, ◌∙◌, arith, List, [], ◌∷◌, ◌++◌, Bool,
  true, false, Bool-cases, inl, inr, ◌&&◌, ◌||◌, ltb, leb, ◌==◌, if◌then◌else◌, length,
  length-append, length-take, take, set, replicate, u32,
}
use emergence_os_bare_metal.Keyboard.{key_tab, newline, backspace, scancode_to_char}
use emergence_os_bare_metal.Resources.{DynamicResourceAllocator, fold_manifold}
use emergence_os_bare_metal.Kernel.{
  Shell, back, fold, kstarts_with, submit, edit, key, sovereign_shell,
}
use emergence_os_bare_metal.Kernel.Text.{kstarts_with-zeros, set-end, set-last, set_again}

-- What a user sees of the shell: the text typed so far, and what commands have done.
pub record Line : Type 0 where
  pub text : List ℕ
  pub running : Bool
  pub region : ℕ
  pub resources : DynamicResourceAllocator

abbrev pub enter_line : Line → Line
enter_line l =
    if kstarts_with l.text back
    then record l { running = false }
    else if kstarts_with l.text fold
    then record l { text = []; resources = fold_manifold l.resources }
    else record l { text = [] }

abbrev pub type_char : Line → ℕ → Line
type_char l c =
    if c == backspace && ltb 0 (length l.text)
    then record l { text = take (length l.text - 1) l.text }
    else if ltb (length l.text) 127 && leb 32 c
    then record l { text = l.text ++ c ∷ [] }
    else l

abbrev pub press_key : Line → ℕ → Line
press_key l sc =
    if sc == 0
    then l
    else if sc == key_tab
    then record l { region = (l.region + 1) % 3 }
    else if scancode_to_char sc == 0
    then l
    else if scancode_to_char sc == newline || scancode_to_char sc == 13
    then enter_line l
    else type_char l (scancode_to_char sc)

-- Keys are taken while the shell runs.
abbrev pub press_keys : Line → List ℕ → Line
press_keys l [] = l
press_keys l (sc ∷ codes) = if l.running then press_keys (press_key l sc) codes else l

-- The shell that shows a line: the text and zeros in its 128 cells.
abbrev pub shell_of : ℕ → Line → Shell
shell_of frame l = record {
  cmd = l.text ++ replicate (128 - length l.text) 0;
  cmd_idx = length l.text;
  focus = l.region;
  in_shell = l.running;
  hypercube_frame = frame;
  res = l.resources;
}

-- Room for a terminator.
abbrev pub Fits : Line → Type 0
Fits l = length l.text ≤ 127

stored :
    (text : List ℕ) (c : ℕ)
    → length text < 127
    → set (text ++ replicate (128 - length text) 0) (length text) c
      ≡ (text ++ c ∷ []) ++ replicate (128 - length (text ++ c ∷ [])) 0
stored text c h =
    let room : 128 - length text ≡ suc (127 - length text) = omega arith in
    let left : 128 - length (text ++ c ∷ []) ≡ 127 - length text =
      omega (arith, length-append text (c ∷ [])) in
    rw (room, left) (set-end text (127 - length text) c)

erased :
    (text : List ℕ)
    → 0 < length text
    → length text ≤ 127
    → set (text ++ replicate (128 - length text) 0) (length text - 1) 0
      ≡ take (length text - 1) text ++ replicate (128 - length (take (length text - 1) text)) 0
erased [] z h = absurd (omega arith)
erased (x ∷ text) z h =
    let last : suc (length text) - 1 ≡ length text = omega arith in
    let left : 128 - length (take (length text) (x ∷ text)) ≡ suc (128 - suc (length text)) =
      omega (arith, length-take (length text) (x ∷ text)) in
    rw (last, left) (set-last x text (128 - suc (length text)))

ended :
    (text : List ℕ)
    → length text ≤ 127
    → set (text ++ replicate (128 - length text) 0) (length text) 0
      ≡ text ++ replicate (128 - length text) 0
ended text h =
    let room : 128 - length text ≡ suc (127 - length text) = omega arith in
    rw room (set_again text (127 - length text))

module _ (frame : ℕ) (l : Line) (fits : Fits l) where
  shell_with : List ℕ → ℕ → Shell
  shell_with cells i = record {
    cmd = cells;
    cmd_idx = i;
    focus = l.region;
    in_shell = l.running;
    hypercube_frame = frame;
    res = l.resources;
  }

  edit-shell_of :
      (c : ℕ) → (edit (shell_of frame l) c ≡ shell_of frame (type_char l c)) × Fits (type_char l c)
  unfolding edit shell_with
  edit-shell_of c = elim (Bool-cases (c == backspace && ltb 0 (length l.text))) [
    | inl erase ↦
        let shorter : length (take (length l.text - 1) l.text) ≡ length l.text - 1 =
          omega (arith, length-take (length l.text - 1) l.text) in
        rw erase (
          ap₂ shell_with (erased l.text (some_text c (length l.text) erase) fits) (sym shorter),
          omega arith,
        )
    | inr other ↦ elim (Bool-cases (ltb (length l.text) 127 && leb 32 c)) [
      | inl store ↦
          let longer : length (l.text ++ c ∷ []) ≡ length l.text + 1 =
            omega (arith, length-append l.text (c ∷ [])) in
          rw (other, store)
            (
              ap₂ shell_with (stored l.text c (room_for (length l.text) c store)) (sym longer),
              omega (arith, room_for (length l.text) c store),
            )
      | inr full ↦ rw (other, full) (refl, fits)
    ]
  ]
    where
      some_text : (c n : ℕ) → (c == backspace && ltb 0 n) ≡ true → 0 < n
      some_text c n e = ground arith

      room_for : (n c : ℕ) → (ltb n 127 && leb 32 c) ≡ true → n < 127
      room_for n c e = ground arith

  submit-shell_of : submit (shell_of frame l) ≡ shell_of frame (enter_line l)
  unfolding submit
  submit-shell_of =
      let same = ended l.text fits in
      let is_back =
        kstarts_with-zeros l.text back (128 - length l.text)
          (omega arith, (omega arith, (omega arith, (omega arith, tt)))) in
      let is_fold =
        kstarts_with-zeros l.text fold (128 - length l.text)
          (omega arith, (omega arith, (omega arith, (omega arith, tt)))) in
      elim (Bool-cases (kstarts_with l.text back)) [
        | inl leaves ↦ rw (same, is_back, leaves) refl
        | inr stays ↦ elim (Bool-cases (kstarts_with l.text fold)) [
          | inl folds ↦ rw (same, is_back, is_fold, stays, folds) refl
          | inr nothing ↦ rw (same, is_back, is_fold, stays, nothing) refl
        ]
      ]

  Fits-enter_line : Fits (enter_line l)
  Fits-enter_line = elim (Bool-cases (kstarts_with l.text back)) [
    | inl leaves ↦ rw leaves fits
    | inr stays ↦ elim (Bool-cases (kstarts_with l.text fold)) [
      | inl folds ↦ rw (stays, folds) (omega arith)
      | inr nothing ↦ rw (stays, nothing) (omega arith)
    ]
  ]

  key-shell_of :
      (sc : ℕ)
      → (key (shell_of frame l) sc ≡ shell_of frame (press_key l sc)) × Fits (press_key l sc)
  unfolding key
  key-shell_of sc = elim (Bool-cases (sc == 0)) [
    | inl nothing ↦ rw nothing (refl, fits)
    | inr some_key ↦ elim (Bool-cases (sc == key_tab)) [
      | inl tab ↦ rw (some_key, tab) (refl, fits)
      | inr other ↦ elim (Bool-cases (scancode_to_char sc == 0)) [
        | inl no_char ↦ rw (some_key, other, no_char) (refl, fits)
        | inr char ↦
            elim (Bool-cases (scancode_to_char sc == newline || scancode_to_char sc == 13)) [
              | inl ends ↦ rw (some_key, other, char, ends) (submit-shell_of, Fits-enter_line)
              | inr goes_on ↦
                  rw (some_key, other, char, goes_on) (edit-shell_of (scancode_to_char sc))
            ]
      ]
    ]
  ]

while_running :
    (running : Bool) (frame : ℕ) (l : Line)
    → Fits l
    → (s : Shell) (l' : Line) → (frame' : ℕ) × (s ≡ shell_of frame' l') × Fits l'
    → (frame' : ℕ) × ((if running then s else shell_of frame l)
        ≡ shell_of frame' (if running then l' else l))
      × Fits (if running then l' else l)
while_running true frame l fits s l' after = after
while_running false frame l fits s l' after = (frame, refl, fits)

-- The shell keeps a text of at most 127 characters in its 128 cells with zeros behind it, and does with
-- every scan code what a line editor does: a character joins the end, a backspace takes the last one
-- away, Tab goes to the next region, and Enter carries out the text and clears it.
pub sovereign_shell-shell_of :
    (frame : ℕ) (l : Line) (codes : List ℕ)
    → Fits l
    → (frame' : ℕ) × (sovereign_shell (shell_of frame l) codes
        ≡ shell_of frame' (press_keys l codes))
      × Fits (press_keys l codes)
unfolding sovereign_shell
sovereign_shell-shell_of frame l [] fits = (frame, refl, fits)
sovereign_shell-shell_of frame l (sc ∷ codes) fits =
    let frame' = u32 (frame + 1) in
    let here = key-shell_of frame' l fits sc in
    let ih = sovereign_shell-shell_of frame' (press_key l sc) codes here.1 in
    while_running l.running frame l fits (sovereign_shell (key (shell_of frame' l) sc) codes)
      (press_keys (press_key l sc) codes)
      (ih.0, ap (λ s. sovereign_shell s codes) here.0 ∙ ih.1, ih.2)
