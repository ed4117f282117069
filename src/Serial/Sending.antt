-- ===== src/Serial/Sending.antt =====
-- What src/hal/serial.hpp and the logging of src/hal/idt.hpp send.
use emergence_os_bare_metal.Base.{
  Bool, false, ℕ, zero, suc, ◌^◌, ◌≤◌, ◌<◌, ◌≡◌, refl, sym, ap, ◌∙◌, arith, List, [], ◌∷◌, ◌++◌,
  map, length, append_assoc, append-nil, true, Bool-cases, inl, inr, some, ◌==◌, bit_and, u8,
}
use emergence_os_bare_metal.Serial.{
  Uart, wait_empty, write_char, print, print_hex, hex_text, poll, raw_putc, raw_print,
  raw_print_hex,
}
use emergence_os_bare_metal.Interrupts.Faults.{fault_text, rax_text, rbx_text, dump_registers}
use emergence_os_bare_metal.Serial.Hex.{read_hex, hex_text-bytes, hex_text_lem}

-- A device: what it has sent; whether its transmitter is empty, so that it takes the next byte, which it
-- then sends; and how many polls at most until the status says that it is.
pub record IsUart (u : Uart) (bound : ℕ) : Type 0 where
  pub sent : u.State → List ℕ
  pub is_empty : u.State → Bool
  pub left : u.State → ℕ
  pub sent_status : (s : u.State) → sent (u.status s).1 ≡ sent s
  pub sent_send :
      (s : u.State) (byte : ℕ) → is_empty s ≡ true → sent (u.send s byte) ≡ sent s ++ (byte ∷ [])
  pub empty_status :
      (s : u.State) → (bit_and (u.status s).0 0x20 == 0) ≡ false → is_empty (u.status s).1 ≡ true
  pub left_bound : (s : u.State) → left s < bound
  pub left_status :
      (s : u.State) → (bit_and (u.status s).0 0x20 == 0) ≡ true → left (u.status s).1 < left s

one_more : (xs str : List ℕ) (c : ℕ) → (xs ++ (c ∷ [])) ++ str ≡ xs ++ (c ∷ str)
one_more xs str c = append_assoc xs (c ∷ []) str

module _ (u : Uart) (bound : ℕ) (laws : IsUart u bound) where
  wait_empty_ends :
      (fuel : ℕ) (s : u.State)
      → laws.left s < fuel
      → (s' : u.State) × (wait_empty u fuel s ≡ some s')
        × (laws.sent s' ≡ laws.sent s)
        × (laws.is_empty s' ≡ true)
  unfolding wait_empty
  wait_empty_ends zero s h = absurd (omega arith)
  wait_empty_ends (suc fuel) s h = elim (Bool-cases (bit_and (u.status s).0 0x20 == 0)) [
    | inl busy ↦
        let rest = wait_empty_ends fuel (u.status s).1 (omega (arith, laws.left_status s busy)) in
        (rest.0, rw (wait_empty, busy) rest.1, rest.2 ∙ laws.sent_status s, rest.3)
    | inr free ↦
        ((u.status s).1, rw (wait_empty, free) refl, laws.sent_status s, laws.empty_status s free)
  ]

  -- Where the device is present and is empty again within `bound` polls of its status, `print` ends, and sends just the
  -- bytes of the text, in order.
  pub print_lem :
      (fuel : ℕ) (s : u.State) (str : List ℕ)
      → bound ≤ fuel
      → (s' : u.State) × (print u fuel true s str ≡ some s')
        × (laws.sent s' ≡ laws.sent s ++ map (λ c. u8 c) str)
  unfolding print write_char
  print_lem fuel s [] h = (s, refl, sym (append-nil (laws.sent s)))
  print_lem fuel s (c ∷ str) h =
      let free = wait_empty_ends fuel s (omega (arith, laws.left_bound s)) in
      let rest = print_lem fuel (u.send free.0 (u8 c)) str h in
      (
        rest.0,
        rw (print, write_char, free.1) rest.1,
        rest.2
            ∙ ap (λ t. t ++ map (λ c. u8 c) str)
                (laws.sent_send free.0 (u8 c) free.3 ∙ ap (λ t. t ++ (u8 c ∷ [])) free.2)
            ∙ one_more (laws.sent s) (map (λ c. u8 c) str) (u8 c),
      )

  -- Where the device is present and is empty again within `bound` polls of its status, `print_hex` ends and sends sixteen
  -- characters more, which stand for the 64-bit number.
  pub print_hex_lem :
      (fuel : ℕ) (s : u.State) (val : ℕ)
      → bound ≤ fuel
      → val < 2 ^ 64
      → (s' : u.State) × (print_hex u fuel true s val ≡ some s')
        × (str : List ℕ) × (laws.sent s' ≡ laws.sent s ++ str)
        × (length str ≡ 16)
        × (read_hex 0 str ≡ val)
  unfolding print_hex
  print_hex_lem fuel s val h v =
      let run = print_lem fuel s (hex_text val 16) h in
      let text = hex_text_lem val v in
      let bytes = hex_text-bytes val 16 in
      (run.0, run.1, hex_text val 16, run.2 ∙ ap (λ t. laws.sent s ++ t) bytes, text.1, text.0)

module _ (u : Uart) (bound : ℕ) (laws : IsUart u bound) (soon : bound ≤ 10000) where
  poll_ends :
      (n : ℕ) (s : u.State)
      → laws.left s < n
      → (laws.sent (poll u n s) ≡ laws.sent s) × (laws.is_empty (poll u n s) ≡ true)
  unfolding poll
  poll_ends zero s h = absurd (omega arith)
  poll_ends (suc n) s h = elim (Bool-cases (bit_and (u.status s).0 0x20 == 0)) [
    | inl busy ↦
        let rest = poll_ends n (u.status s).1 (omega (arith, laws.left_status s busy)) in
        (rw (poll, busy) (rest.0 ∙ laws.sent_status s), rw (poll, busy) rest.1)
    | inr free ↦ (rw (poll, free) (laws.sent_status s), rw (poll, free) (laws.empty_status s free))
  ]

  sent-raw_putc : (s : u.State) (c : ℕ) → laws.sent (raw_putc u s c) ≡ laws.sent s ++ (u8 c ∷ [])
  unfolding raw_putc
  sent-raw_putc s c =
      let free = poll_ends 10000 s (omega (arith, laws.left_bound s, soon)) in
      laws.sent_send (poll u 10000 s) (u8 c) free.1 ∙ ap (λ t. t ++ (u8 c ∷ [])) free.0

  sent-raw_print :
      (s : u.State) (str : List ℕ)
      → laws.sent (raw_print u s str) ≡ laws.sent s ++ map (λ c. u8 c) str
  unfolding raw_print
  sent-raw_print s [] = sym (append-nil (laws.sent s))
  sent-raw_print s (c ∷ str) =
      sent-raw_print (raw_putc u s c) str
      ∙ ap (λ t. t ++ map (λ c. u8 c) str) (sent-raw_putc s c)
      ∙ one_more (laws.sent s) (map (λ c. u8 c) str) (u8 c)

  raw_print-append :
      (s : u.State) (xs ys : List ℕ) → raw_print u (raw_print u s xs) ys ≡ raw_print u s (xs ++ ys)
  unfolding raw_print
  raw_print-append s [] ys = refl
  raw_print-append s (x ∷ xs) ys = raw_print-append (raw_putc u s x) xs ys

  -- On a device that is empty again within 10000 polls of its status the report of a fault goes out as a
  -- whole: its text with the three registers in it, each as sixteen characters.
  pub dump_registers_lem :
      (s : u.State) (rip rax rbx : ℕ)
      → laws.sent (dump_registers u s rip rax rbx)
        ≡ laws.sent s
          ++ map
              (λ c. u8 c)
              (((((fault_text ++ hex_text rip 16) ++ rax_text) ++ hex_text rax 16) ++ rbx_text)
                ++ hex_text rbx 16)
  unfolding dump_registers raw_print_hex
  dump_registers_lem s rip rax rbx =
      let t1 = fault_text ++ hex_text rip 16 in
      let t2 = t1 ++ rax_text in
      let t3 = t2 ++ hex_text rax 16 in
      let t4 = t3 ++ rbx_text in
      ap
        (λ t. laws.sent (
          raw_print u
            (raw_print u (raw_print u (raw_print u t rax_text) (hex_text rax 16)) rbx_text)
            (hex_text rbx 16)))
        (raw_print-append s fault_text (hex_text rip 16))
      ∙ ap
          (λ t. laws.sent (
            raw_print u (raw_print u (raw_print u t (hex_text rax 16)) rbx_text) (hex_text rbx 16)))
          (raw_print-append s t1 rax_text)
      ∙ ap (λ t. laws.sent (raw_print u (raw_print u t rbx_text) (hex_text rbx 16)))
          (raw_print-append s t2 (hex_text rax 16))
      ∙ ap (λ t. laws.sent (raw_print u t (hex_text rbx 16))) (raw_print-append s t3 rbx_text)
      ∙ ap laws.sent (raw_print-append s t4 (hex_text rbx 16))
      ∙ sent-raw_print s (t4 ++ hex_text rbx 16)
