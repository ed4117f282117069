-- ===== src/Keyboard/Reading.antt =====
-- `read_char` of src/hal/keyboard.hpp over the scan codes that wait in the controller.
use emergence_os_bare_metal.Base.{
  ℕ, zero, suc, ◌+◌, ◌*◌, ◌%◌, ◌≤◌, ◌≡◌, refl, ap, ap₂, ◌∙◌, arith, List, [], ◌∷◌, true, false,
  Bool-cases, inl, inr, Option, none, some, ltb, leb, if◌then◌else◌, length,
}
use emergence_os_bare_metal.Keyboard.{
  Controller, Keys, handled, char_of, Keyboard, is_data_available, update_state, read_round,
  read_char,
}

-- The controller holds a queue: bit 0 of the status says that a code waits, and a read takes it. No
-- code comes in between.
pub record IsQueue (c : Controller) (pending : c.Port → List ℕ) : Type 0 where
  pub status_idle :
      (p : c.Port) → pending p ≡ [] → ((c.status p).0 % 2 ≡ 0) × (pending (c.status p).1 ≡ [])
  pub status_ready :
      (p : c.Port) (b : ℕ) (bs : List ℕ)
      → pending p ≡ b ∷ bs
      → ((c.status p).0 % 2 ≡ 1) × (pending (c.status p).1 ≡ b ∷ bs)
  pub data_taken :
      (p : c.Port) (b : ℕ) (bs : List ℕ)
      → pending p ≡ b ∷ bs
      → ((c.data_byte p).0 ≡ b) × (pending (c.data_byte p).1 ≡ bs)

-- What a call of `read_char` makes of the codes: of each two the first goes to the modifiers and the
-- second is read.
pub record Got : Type 0 where
  pub char : Option ℕ
  pub left : List ℕ
  pub keys : Keys

abbrev pub got : Option ℕ → List ℕ → Keys → Got
got char left keys = record { char = char; left = left; keys = keys }

unfoldable pub in_pairs : List ℕ → Keys → Got
in_pairs [] k = got none [] k
in_pairs (a ∷ []) k = got none [] (handled a k)
in_pairs (a ∷ b ∷ codes) k =
    let later = in_pairs codes (handled a k) in
    if leb 128 b
    then later
    else if ltb 0 (char_of b)
    then got (some (char_of b)) codes (handled a k)
    else later

module _ (c : Controller) (pending : c.Port → List ℕ) (queue : IsQueue c pending) where
  abbrev view : Option ℕ × Keyboard c → Got
  view out = got out.0 (pending out.1.port) out.1.keys

  avail_idle :
      (p : c.Port)
      → pending p ≡ []
      → ((is_data_available c p).0 ≡ false) × (pending (is_data_available c p).1 ≡ [])
  unfolding is_data_available
  avail_idle p e = let s = queue.status_idle p e in (ground arith, s.1)

  avail_ready :
      (p : c.Port) (b : ℕ) (bs : List ℕ)
      → pending p ≡ b ∷ bs
      → ((is_data_available c p).0 ≡ true) × (pending (is_data_available c p).1 ≡ b ∷ bs)
  unfolding is_data_available
  avail_ready p b bs e = let s = queue.status_ready p b bs e in (ground arith, s.1)

  update_idle :
      (kb : Keyboard c)
      → pending kb.port ≡ []
      → ((update_state c kb).keys ≡ kb.keys) × (pending (update_state c kb).port ≡ [])
  unfolding update_state
  update_idle kb e = let s = avail_idle kb.port e in rw (s.0, update_state) (refl, s.1)

  update_ready :
      (kb : Keyboard c) (b : ℕ) (bs : List ℕ)
      → pending kb.port ≡ b ∷ bs
      → ((update_state c kb).keys ≡ handled b kb.keys) × (pending (update_state c kb).port ≡ bs)
  unfolding update_state
  update_ready kb b bs e =
      let s = avail_ready kb.port b bs e in
      let d = queue.data_taken (is_data_available c kb.port).1 b bs s.1 in
      rw (s.0, update_state) (ap (λ x. handled x kb.keys) d.0, d.1)

  round_idle :
      (kb : Keyboard c)
      → pending (update_state c kb).port ≡ []
      → view (read_round c kb) ≡ got none [] (update_state c kb).keys
  unfolding read_round
  round_idle kb e =
      let s = avail_idle (update_state c kb).port e in
      rw (s.0, read_round) (ap (λ l. got none l (update_state c kb).keys) s.1)

  round_ready :
      (kb : Keyboard c) (b : ℕ) (bs : List ℕ)
      → pending (update_state c kb).port ≡ b ∷ bs
      → view (read_round c kb)
        ≡ got
            (if leb 128 b then none else if ltb 0 (char_of b) then some (char_of b) else none)
            bs
            (update_state c kb).keys
  unfolding read_round
  round_ready kb b bs e =
      let s = avail_ready (update_state c kb).port b bs e in
      let d = queue.data_taken (is_data_available c (update_state c kb).port).1 b bs s.1 in
      rw (s.0, read_round)
        (rw (d.0, read_round)
          (ap
            (λ l.
              got (if leb 128 b then none else if ltb 0 (char_of b) then some (char_of b) else none)
                l (update_state c kb).keys)
            d.1))

  -- A round that gets nothing goes on, and one that gets a character ends the call.
  char_none :
      (fuel : ℕ) (kb : Keyboard c)
      → (read_round c kb).0 ≡ none
      → read_char c (suc fuel) kb ≡ read_char c fuel (read_round c kb).1
  unfolding read_char
  char_none fuel kb e = rw (e, read_char) refl

  char_some :
      (fuel : ℕ) (kb : Keyboard c) (ch : ℕ)
      → (read_round c kb).0 ≡ some ch
      → read_char c (suc fuel) kb ≡ (some ch, (read_round c kb).1)
  unfolding read_char
  char_some fuel kb ch e = rw (e, read_char) refl

  -- A call of `read_char` takes the codes that wait in pairs: the first of each two goes to the
  -- modifiers, the second is the one that may be returned. With as many rounds as codes the call has
  -- used up what waits or has returned.
  pub read_char-in_pairs :
      (fuel : ℕ) (kb : Keyboard c) (codes : List ℕ)
      → pending kb.port ≡ codes
      → length codes ≤ fuel
      → view (read_char c fuel kb) ≡ in_pairs codes kb.keys
  unfolding in_pairs
  read_char-in_pairs zero kb [] e h = unfold read_char in ap (λ l. got none l kb.keys) e
  read_char-in_pairs zero kb (a ∷ codes) e h = absurd (omega arith)
  read_char-in_pairs (suc fuel) kb [] e h =
      let u = update_idle kb e in
      let r = round_idle kb u.1 in
      rw (char_none fuel kb (ap (λ g. g.char) r)) (
        read_char-in_pairs fuel (read_round c kb).1 [] (ap (λ g. g.left) r) (omega arith)
        ∙ ap (got none []) (ap (λ g. g.keys) r ∙ u.0))
  read_char-in_pairs (suc fuel) kb (a ∷ []) e h =
      let u = update_ready kb a [] e in
      let r = round_idle kb u.1 in
      rw (char_none fuel kb (ap (λ g. g.char) r)) (
        read_char-in_pairs fuel (read_round c kb).1 [] (ap (λ g. g.left) r) (omega arith)
        ∙ ap (got none []) (ap (λ g. g.keys) r ∙ u.0))
  read_char-in_pairs (suc fuel) kb (a ∷ b ∷ codes) e h =
      let u = update_ready kb a (b ∷ codes) e in
      let r = round_ready kb b codes u.1 in
      let kept : (read_round c kb).1.keys ≡ handled a kb.keys = ap (λ g. g.keys) r ∙ u.0 in
      let later =
        read_char-in_pairs fuel (read_round c kb).1 codes (ap (λ g. g.left) r) (omega arith)
        ∙ ap (in_pairs codes) kept in
      elim (Bool-cases (leb 128 b)) [
        | inl released ↦
            let nothing : (read_round c kb).0 ≡ none = ap (λ g. g.char) r ∙ rw released refl in
            rw (char_none fuel kb nothing, released) later
        | inr pressed ↦ elim (Bool-cases (ltb 0 (char_of b))) [
          | inl mapped ↦
              let read : (read_round c kb).0 ≡ some (char_of b) =
                ap (λ g. g.char) r ∙ rw (pressed, mapped) refl in
              rw (char_some fuel kb (char_of b) read, pressed, mapped)
                (ap₂ (got (some (char_of b))) (ap (λ g. g.left) r) kept)
          | inr unmapped ↦
              let nothing : (read_round c kb).0 ≡ none =
                ap (λ g. g.char) r ∙ rw (pressed, unmapped) refl in
              rw (char_none fuel kb nothing, pressed, unmapped) later
        ]
      ]

-- Each key pressed and released before the next.
abbrev pub typed : List ℕ → List ℕ
typed [] = []
typed (m ∷ ms) = m ∷ (m + 128) ∷ typed ms

typed-in_pairs :
    (ms : List ℕ) (k : Keys)
    → ((in_pairs (typed ms) k).char ≡ none) × ((in_pairs (typed ms) k).left ≡ [])
unfolding in_pairs
typed-in_pairs [] k = (refl, refl)
typed-in_pairs (m ∷ ms) k =
    let release : leb 128 (m + 128) ≡ true = ground arith in
    rw (release, in_pairs) (typed-in_pairs ms (handled m k))

length-typed : (ms : List ℕ) → length (typed ms) ≡ 2 * length ms
length-typed [] = omega arith
length-typed (m ∷ ms) = omega (arith, length-typed ms)

-- Keys that were pressed and released one after the other while nothing read are lost: `read_char`
-- uses up all their codes and returns no character.
pub read_char-typed :
    (c : Controller) (pending : c.Port → List ℕ)
    → IsQueue c pending
    → (fuel : ℕ) (kb : Keyboard c) (ms : List ℕ) → pending kb.port ≡ typed ms
    → 2 * length ms ≤ fuel
    → ((read_char c fuel kb).0 ≡ none) × (pending (read_char c fuel kb).1.port ≡ [])
read_char-typed c pending queue fuel kb ms e h =
    let all =
      read_char-in_pairs c pending queue fuel kb (typed ms) e (omega (arith, length-typed ms)) in
    let lost = typed-in_pairs ms kb.keys in
    (ap (λ g. g.char) all ∙ lost.0, ap (λ g. g.left) all ∙ lost.1)
