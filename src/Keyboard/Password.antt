-- ===== src/Keyboard/Password.antt =====
-- What `read_password` of src/hal/keyboard.hpp puts into its buffer.
use mathlib.Core.Path.{subst}
use emergence_os_bare_metal.Base.{
  ℕ, zero, suc, ◌-◌, ◌≤◌, ◌<◌, arith, List, [], ◌∷◌, ◌++◌, true, ◌&&◌, ◌||◌, Bool-cases, inl, inr,
  Option, none, some, Option-cases, ltb, leb, ltb→lt, ◌==◌, length, take, length-take,
  length-append,
}
use emergence_os_bare_metal.Keyboard.{
  Controller, Keyboard, is_data_available, read_char, Edit, done, go, edit_password, edit_loop,
  read_password,
}
use emergence_os_bare_metal.Keyboard.Editing.{Edit-cases}

abbrev pub ArePrintable : List ℕ → Type 0
ArePrintable [] = Unit {0}
ArePrintable (ch ∷ chars) = ((32 ≤ ch) × (ch ≤ 126)) × ArePrintable chars

ArePrintable-take : (n : ℕ) (chars : List ℕ) → ArePrintable chars → ArePrintable (take n chars)
ArePrintable-take zero chars p = tt
ArePrintable-take (suc n) [] p = tt
ArePrintable-take (suc n) (ch ∷ chars) p = (p.0, ArePrintable-take n chars p.1)

ArePrintable-append : (xs ys : List ℕ) → ArePrintable xs → ArePrintable ys → ArePrintable (xs ++ ys)
ArePrintable-append [] ys p q = q
ArePrintable-append (x ∷ xs) ys p q = (p.0, ArePrintable-append xs ys p.1 q)

-- What the buffer holds at any time.
abbrev pub IsPassword : ℕ → List ℕ → Type 0
IsPassword max buf = (length buf ≤ max - 1) × ArePrintable buf

abbrev Fits : ℕ → Edit → Type 0
Fits max done = Unit {0}
Fits max (go buf) = IsPassword max buf

edit_password-Fits :
    (max : ℕ) (buf : List ℕ) (ch : ℕ)
    → length buf < max - 1
    → IsPassword max buf
    → Fits max (edit_password buf ch)
unfolding edit_password
edit_password-Fits max buf ch room ok = elim (Bool-cases (ch == 10 || ch == 13)) [
  | inl ends ↦ rw (ends, edit_password) tt
  | inr goes ↦ elim (Bool-cases (ch == 8 && ltb 0 (length buf))) [
    | inl back ↦
        rw (goes, back, edit_password)
          (
            omega (arith, length-take (length buf - 1) buf),
            ArePrintable-take (length buf - 1) buf ok.1,
          )
    | inr fore ↦ elim (Bool-cases (leb 32 ch && leb ch 126)) [
      | inl shown ↦
          rw (goes, fore, shown, edit_password)
            (
              omega (arith, length-append buf (ch ∷ [])),
              ArePrintable-append buf (ch ∷ []) ok.1 (ground arith, tt),
            )
      | inr hidden ↦ rw (goes, fore, hidden, edit_password) ok
    ]
  ]
]

-- A result, if there is one, fits.
abbrev pub MaybePassword : ℕ → Option (List ℕ) → Type 0
MaybePassword max none = Unit {0}
MaybePassword max (some line) = IsPassword max line

module _ (c : Controller) (rounds max : ℕ) where
  edit_loop-MaybePassword :
      (fuel : ℕ) (kb : Keyboard c) (buf : List ℕ)
      → IsPassword max buf
      → MaybePassword max (edit_loop c edit_password true rounds fuel max kb buf).0
  unfolding edit_loop
  edit_loop-MaybePassword zero kb buf ok = tt
  edit_loop-MaybePassword (suc fuel) kb buf ok =
      let polled : Keyboard c = record kb { port = (is_data_available c kb.port).1 } in
      let again = edit_loop-MaybePassword fuel polled buf ok in
      let on = edit_loop-MaybePassword fuel (read_char c rounds polled).1 in
      elim (Bool-cases (ltb (length buf) (max - 1))) [
        | inr full ↦ rw (full, edit_loop) ok
        | inl room ↦ elim (Bool-cases (is_data_available c kb.port).0) [
          | inr idle ↦ rw (room, edit_loop, idle) again
          | inl ready ↦ elim (Option-cases (read_char c rounds polled).0) [
            | inl none_yet ↦ rw (room, edit_loop, ready, none_yet) tt
            | inr (ch, char) ↦ elim (Edit-cases (edit_password buf ch)) [
              | inl ends ↦ rw (room, edit_loop, ready, char, ends) ok
              | inr (buf', more) ↦
                  let fits : IsPassword max buf' =
                    subst (Fits max) more
                      (edit_password-Fits max buf ch (ltb→lt (length buf) (max - 1) room) ok) in
                  rw (room, edit_loop, ready, char, more) (on buf' fits)
            ]
          ]
        ]
      ]

-- Whatever codes the controller gives, a password that `read_password` returns leaves room for its
-- terminator in the buffer and has printable characters only.
pub read_password-MaybePassword :
    (c : Controller) (rounds fuel max : ℕ) (kb : Keyboard c)
    → MaybePassword max (read_password c rounds fuel max kb).0
unfolding read_password
read_password-MaybePassword c rounds fuel max kb =
    edit_loop-MaybePassword c rounds max fuel kb [] (omega arith, tt)
