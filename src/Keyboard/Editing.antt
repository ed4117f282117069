-- ===== src/Keyboard/Editing.antt =====
-- The modifier keys and the edited lines of src/hal/keyboard.hpp.
use emergence_os_bare_metal.Base.{
  ℕ, zero, suc, ◌+◌, ◌-◌, ◌≤◌, ◌<◌, ◌≡◌, ◌⊎◌, refl, sym, ap, ◌∙◌, arith, List, [], ◌∷◌, Bool, true,
  false, ◌&&◌, ◌||◌, Bool-cases, inl, inr, Option, none, some, ltb, leb, ◌==◌, if◌then◌else◌,
  length,
}
use emergence_os_bare_metal.Keyboard.{
  Controller, Keys, modified, handled, char_of, Keyboard, read_char, Edit, done, go, edit_line,
  edit_loop, read_line,
}
use emergence_os_bare_metal.Keyboard.Reading.{IsQueue, Got, in_pairs, read_char-in_pairs}

-- Which of the three modifier keys are down.
pub record Held : Type 0 where
  pub ctrl : Bool
  pub alt : Bool
  pub shift : Bool

abbrev pub bit : Bool → ℕ → ℕ
bit b n = if b then n else 0

abbrev pub as_byte : Held → ℕ
as_byte h = bit h.ctrl 1 + bit h.alt 2 + bit h.shift 4

-- A code with 128 added is the release of the key.
unfoldable pub held_after : ℕ → Held → Held
held_after sc h =
    if sc == 29
    then record h { ctrl = true }
    else if sc == 157
    then record h { ctrl = false }
    else if sc == 56
    then record h { alt = true }
    else if sc == 184
    then record h { alt = false }
    else if sc == 42 || sc == 54
    then record h { shift = true }
    else if sc == 170 || sc == 182
    then record h { shift = false }
    else h

modified-as_byte :
    (sc : ℕ) (a b c t : Bool)
    → modified sc (record {
      modifiers = as_byte (record { ctrl = a; alt = b; shift = c });
      hotkey_triggered = t;
    })
      ≡ record {
        modifiers = as_byte (held_after sc (record { ctrl = a; alt = b; shift = c }));
        hotkey_triggered = t;
      }
unfolding modified held_after
modified-as_byte sc true true true t = ground arith
modified-as_byte sc true true false t = ground arith
modified-as_byte sc true false true t = ground arith
modified-as_byte sc true false false t = ground arith
modified-as_byte sc false true true t = ground arith
modified-as_byte sc false true false t = ground arith
modified-as_byte sc false false true t = ground arith
modified-as_byte sc false false false t = ground arith

abbrev pub all_held : Held → Bool
all_held h = h.ctrl && h.alt && h.shift

seven : (a b c : Bool) → (as_byte (record { ctrl = a; alt = b; shift = c }) == 7) ≡ (a && b && c)
seven true true true = refl
seven true true false = refl
seven true false true = refl
seven true false false = refl
seven false true true = refl
seven false true false = refl
seven false false true = refl
seven false false false = refl

unfoldable pub handle_all : List ℕ → Keys → Keys
handle_all [] k = k
handle_all (sc ∷ codes) k = handle_all codes (handled sc k)

unfoldable pub held_all : List ℕ → Held → Held
held_all [] h = h
held_all (sc ∷ codes) h = held_all codes (held_after sc h)

-- Is E pressed at some time when the three are down?
unfoldable pub hotkey_in : List ℕ → Held → Bool
hotkey_in [] h = false
hotkey_in (sc ∷ codes) h =
    (sc == 18 && all_held (held_after sc h)) || hotkey_in codes (held_after sc h)

abbrev keys_of : Held → Bool → Keys
keys_of h t = record { modifiers = as_byte h; hotkey_triggered = t }

handled_lem :
    (sc : ℕ) (h : Held) (t : Bool)
    → handled sc (keys_of h t)
      ≡ keys_of (held_after sc h) (t || (sc == 18 && all_held (held_after sc h)))
unfolding handled
handled_lem sc h t =
    rw
      (
        modified-as_byte sc h.ctrl h.alt h.shift t,
        seven (held_after sc h).ctrl (held_after sc h).alt (held_after sc h).shift,
      )
      (hot (sc == 18) (all_held (held_after sc h)) t (as_byte (held_after sc h)))
  where
    hot :
        (e a t : Bool) (n : ℕ)
        → (if e && a
            then record { modifiers = n; hotkey_triggered = true }
            else let k : Keys = record { modifiers = n; hotkey_triggered = t } in k)
          ≡ record { modifiers = n; hotkey_triggered = t || (e && a) }
    hot true true true n = refl
    hot true true false n = refl
    hot true false true n = refl
    hot true false false n = refl
    hot false a true n = refl
    hot false a false n = refl

or_assoc : (a b c : Bool) → (a || (b || c)) ≡ ((a || b) || c)
or_assoc true b c = refl
or_assoc false b c = refl

-- The modifier byte always says which of Ctrl, Alt and Shift are down, each by its last press or
-- release, and the hotkey is set if it was or if E was pressed while all three were down.
pub handle_all-as_byte :
    (codes : List ℕ) (h : Held) (t : Bool)
    → handle_all codes (keys_of h t) ≡ keys_of (held_all codes h) (t || hotkey_in codes h)
unfolding handle_all held_all hotkey_in
handle_all-as_byte [] h true = refl
handle_all-as_byte [] h false = refl
handle_all-as_byte (sc ∷ codes) h t =
    ap (handle_all codes) (handled_lem sc h t)
    ∙ handle_all-as_byte codes (held_after sc h) (t || (sc == 18 && all_held (held_after sc h)))
    ∙ ap (keys_of (held_all codes (held_after sc h))) (
        sym
          (or_assoc t (sc == 18 && all_held (held_after sc h)) (hotkey_in codes (held_after sc h))))

-- The characters that successive calls of `read_char` return.
unfoldable pub chars_of : List ℕ → List ℕ
chars_of [] = []
chars_of (a ∷ []) = []
chars_of (a ∷ b ∷ codes) =
    let later = chars_of codes in
    if leb 128 b then later else if ltb 0 (char_of b) then char_of b ∷ later else later

-- The line that the characters make, if they end it.
unfoldable pub line_of : (List ℕ → ℕ → Edit) → ℕ → List ℕ → List ℕ → Option (List ℕ)
line_of edit max buf [] = if ltb (length buf) (max - 1) then none else some buf
line_of edit max buf (ch ∷ chars) = elim (ltb (length buf) (max - 1)) [
  | false ↦ some buf
  | true ↦ elim (edit buf ch) [ done ↦ some buf | go buf' ↦ line_of edit max buf' chars ]
]

-- The first character and what is left after it.
abbrev NextIs : Got → List ℕ → ℕ → Type 0
NextIs g chars n =
    ((g.char ≡ none) × (chars ≡ []) × (g.left ≡ []))
    ⊎ ((ch : ℕ) × (g.char ≡ some ch) × (chars ≡ ch ∷ chars_of g.left) × (length g.left < n))

next_char : (codes : List ℕ) (k : Keys) → NextIs (in_pairs codes k) (chars_of codes) (length codes)
unfolding in_pairs chars_of
next_char [] k = inl (refl, refl, refl)
next_char (a ∷ []) k = inl (refl, refl, refl)
next_char (a ∷ b ∷ codes) k =
    let later = next_char codes (handled a k) in
    elim (Bool-cases (leb 128 b)) [
      | inl released ↦
          rw (released, in_pairs, chars_of)
            (longer (in_pairs codes (handled a k)) (chars_of codes) later)
      | inr pressed ↦ elim (Bool-cases (ltb 0 (char_of b))) [
        | inl mapped ↦
            rw (pressed, mapped, in_pairs, chars_of) (inr (char_of b, refl, refl, omega arith))
        | inr unmapped ↦
            rw (pressed, unmapped, in_pairs, chars_of)
              (longer (in_pairs codes (handled a k)) (chars_of codes) later)
      ]
    ]
  where
    longer :
        (g : Got) (chars : List ℕ)
        → NextIs g chars (length codes)
        → NextIs g chars (length (a ∷ b ∷ codes))
    longer g chars (inl n) = inl n
    longer g chars (inr (ch, e, f, l)) = inr (ch, e, f, omega arith)

pub Edit-cases : (e : Edit) → (e ≡ done) ⊎ ((buf : List ℕ) × (e ≡ go buf))
Edit-cases done = inl refl
Edit-cases (go buf) = inr (buf, refl)

line_full :
    (edit : List ℕ → ℕ → Edit) (max : ℕ) (buf chars : List ℕ)
    → ltb (length buf) (max - 1) ≡ false
    → line_of edit max buf chars ≡ some buf
unfolding line_of
line_full edit max buf [] full = rw (full, line_of) refl
line_full edit max buf (ch ∷ chars) full = rw (full, line_of) refl

line_more :
    (edit : List ℕ → ℕ → Edit) (max ch : ℕ) (buf buf' chars : List ℕ)
    → ltb (length buf) (max - 1) ≡ true
    → edit buf ch ≡ go buf'
    → line_of edit max buf (ch ∷ chars) ≡ line_of edit max buf' chars
unfolding line_of
line_more edit max ch buf buf' chars room e = rw (room, line_of, e) refl

module _ (c : Controller) (pending : c.Port → List ℕ) (queue : IsQueue c pending)
    (edit : List ℕ → ℕ → Edit) (rounds max : ℕ) where
  -- With the codes that wait, the loop makes the line of their characters.
  edit_loop-line_of :
      (fuel : ℕ) (kb : Keyboard c) (codes buf : List ℕ)
      → pending kb.port ≡ codes
      → length codes ≤ rounds
      → length codes < fuel
      → (edit_loop c edit false rounds fuel max kb buf).0 ≡ line_of edit max buf (chars_of codes)
  unfolding edit_loop
  edit_loop-line_of zero kb codes buf e r h = absurd (omega arith)
  edit_loop-line_of (suc fuel) kb codes buf e r h =
      let all = read_char-in_pairs c pending queue rounds kb codes e r in
      let next = next_char codes kb.keys in
      let ih = edit_loop-line_of fuel (read_char c rounds kb).1 (in_pairs codes kb.keys).left in
      elim (Bool-cases (ltb (length buf) (max - 1))) [
        | inr full ↦ rw (full, edit_loop) (sym (line_full edit max buf (chars_of codes) full))
        | inl room ↦ elim next [
          | inl (char, chars, left) ↦
              let nothing : (read_char c rounds kb).0 ≡ none = ap (λ g. g.char) all ∙ char in
              rw (room, edit_loop, nothing, chars) (unfold line_of in rw room refl)
          | inr (ch, char, chars, fewer) ↦
              let some_char : (read_char c rounds kb).0 ≡ some ch = ap (λ g. g.char) all ∙ char in
              elim (Edit-cases (edit buf ch)) [
                | inl ends ↦
                    rw (room, edit_loop, some_char, ends, chars)
                      (unfold line_of in rw (room, line_of, ends) refl)
                | inr (buf', more) ↦
                    rw (room, edit_loop, some_char, more, chars)
                      (ih buf' (ap (λ g. g.left) all) (omega arith) (omega arith)
                        ∙ sym (
                            line_more edit max ch buf buf' (chars_of (in_pairs codes kb.keys).left)
                              room more))
              ]
        ]
      ]

-- The line that `read_line` returns, if the codes that wait hold one, is that of their characters: the
-- second of each two codes where it is the press of a key with a character. Rounds for each code and
-- one more are enough.
pub read_line-line_of :
    (c : Controller) (pending : c.Port → List ℕ)
    → IsQueue c pending
    → (fuel max : ℕ) (kb : Keyboard c) (codes : List ℕ) → pending kb.port ≡ codes
    → length codes < fuel
    → (read_line c fuel fuel max kb).0 ≡ line_of edit_line max [] (chars_of codes)
unfolding read_line
read_line-line_of c pending queue fuel max kb codes e h =
    edit_loop-line_of c pending queue edit_line fuel max fuel kb codes [] e (omega arith) h
