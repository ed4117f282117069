-- ===== src/Serial/Tests.antt =====
-- A line that is busy for three polls after each byte, and drops what is sent to it before.
use emergence_os_bare_metal.Base.{
  ℕ, zero, suc, ◌-◌, ◌<◌, ◌≡◌, refl, arith, List, [], ◌∷◌, ◌++◌, map, length, Bool, true, false,
  some, ◌==◌, if◌then◌else◌, min, bit_and, u8,
}
use emergence_os_bare_metal.Serial.{Uart, print_hex, hex_text}
use emergence_os_bare_metal.Serial.Hex.{read_hex}
use emergence_os_bare_metal.Serial.Sending.{IsUart, print_hex_lem, dump_registers_lem}
use emergence_os_bare_metal.Interrupts.Faults.{fault_text, rax_text, rbx_text, dump_registers}

record Line : Type 0 where
  out : List ℕ
  busy : ℕ

abbrev three_polls : Uart
three_polls = record {
  State = Line;
  status = λ s. (if min s.busy 3 == 0 then 0x20 else 0, record s { busy = min s.busy 3 - 1 });
  send = λ s byte. record { out = if s.busy == 0 then s.out ++ (byte ∷ []) else s.out; busy = 3 };
}

taken :
    (n byte : ℕ) (out : List ℕ)
    → (n == 0) ≡ true
    → (if n == 0 then out ++ (byte ∷ []) else out) ≡ out ++ (byte ∷ [])
taken n byte out e = rw e refl

now_empty :
    (n : ℕ)
    → (bit_and (if min n 3 == 0 then 0x20 else 0) 0x20 == 0) ≡ false
    → (min n 3 - 1 == 0) ≡ true
now_empty zero e = refl
now_empty (suc n) e = still_busy (min (suc n) 3 == 0) (min (suc n) 3 - 1 == 0) (ground arith) e
  where
    still_busy :
        (free after : Bool)
        → free ≡ false
        → (bit_and (if free then 0x20 else 0) 0x20 == 0) ≡ false
        → after ≡ true
    still_busy true after h e = cc
    still_busy false after h e = cc

less_busy :
    (n : ℕ)
    → (bit_and (if min n 3 == 0 then 0x20 else 0) 0x20 == 0) ≡ true
    → min (min n 3 - 1) 3 < min n 3
less_busy zero e = cc
less_busy (suc n) e = omega arith

abbrev uart_laws : IsUart three_polls 4
uart_laws = record {
  sent = λ s. s.out;
  is_empty = λ s. s.busy == 0;
  left = λ s. min s.busy 3;
  sent_status = λ s. refl;
  sent_send = λ s byte e. taken s.busy byte s.out e;
  empty_status = λ s e. now_empty s.busy e;
  left_bound = λ s. omega arith;
  left_status = λ s e. less_busy s.busy e;
}

abbrev quiet : Line
quiet = record { out = []; busy = 2 }

print_hex_lem_example :
    (s : Line) × (print_hex three_polls 4 true quiet 0xCAFE ≡ some s)
    × (str : List ℕ) × (s.out ≡ [] ++ str)
    × (length str ≡ 16)
    × (read_hex 0 str ≡ 0xCAFE)
print_hex_lem_example =
    print_hex_lem three_polls 4 uart_laws 4 quiet 0xCAFE (omega arith) (omega arith)

dump_registers_lem_example :
    (dump_registers three_polls quiet 0x100000 10 255).out
    ≡ []
      ++ map
          (λ c. u8 c)
          (((((fault_text ++ hex_text 0x100000 16) ++ rax_text) ++ hex_text 10 16) ++ rbx_text)
            ++ hex_text 255 16)
dump_registers_lem_example =
    dump_registers_lem three_polls 4 uart_laws (omega arith) quiet 0x100000 10 255
