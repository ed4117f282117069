-- ===== src/Ahci/Tests.antt =====
-- Runs of src/hal/ahci.hpp on controllers that count the polls.
use emergence_os_bare_metal.Base.{
  ◌≤◌, ℕ, zero, suc, ◌+◌, ◌-◌, ◌*◌, ◌%◌, ◌<◌, ◌≡◌, refl, min, bit_and, arith, true, false, some,
  ◌==◌, if◌then◌else◌, Bool, ◌||◌, digit,
}
use emergence_os_bare_metal.Ahci.{Hba, command_table, command_header, issue_command, wait_done}
use emergence_os_bare_metal.Ahci.Command.{request_of, request_of-command_table}
use emergence_os_bare_metal.Memory.{PhysicalMemory, aligned}
use emergence_os_bare_metal.Memory.Bytes.{Bytes, is_in}
use emergence_os_bare_metal.Ahci.Setup.{HbaPort, make_structures, setup_port}
use emergence_os_bare_metal.Ahci.Setup.Structures.{IsPort, setup_port_lem}
use emergence_os_bare_metal.Ahci.Waiting.{polled, busy_at, issue_command_ready}

request_of-command_table_example :
    request_of (command_table 0x123456789A 300 0x100000 true)
    ≡ record { writes = true; lba = 0x123456789A; sectors = 300; bytes = 512 * 300 }
request_of-command_table_example =
    request_of-command_table 0x123456789A 300 0x100000 true (omega arith) (omega arith)
      (omega arith)

-- A port that is never ready.
abbrev stuck : Hba
stuck = record {
  State = ℕ;
  ports_implemented = λ s. 1;
  ssts = λ s p. 3;
  tfd = λ s p. (0x80, s + 1);
  ci = λ s p. (0, s);
  is_status = λ s p. (0, s);
  issue = λ s p header table. s;
}

stuck_busy : (s k : ℕ) → busy_at stuck 0 s k ≡ true
stuck_busy s k = ground arith

-- A port that is ready at the second poll.
abbrev second : Hba
second = record {
  State = ℕ;
  ports_implemented = λ s. 1;
  ssts = λ s p. 3;
  tfd = λ s p. (if s == 0 then 0x80 else 0, s + 1);
  ci = λ s p. (0, s);
  is_status = λ s p. (0, s);
  issue = λ s p header table. s;
}

busy_first : (k : ℕ) → k < 1 → busy_at second 0 0 k ≡ true
busy_first zero l = ground arith
busy_first (suc k) l = absurd (omega arith)

ready_second : busy_at second 0 0 1 ≡ false
ready_second = ground arith

issue_command_ready_example :
    issue_command second 5 0x2000 0 (some 0) 8 1 0x100000 false
    ≡ wait_done second
        (second.issue
          (polled second 0 2 0)
          0
          (command_header 0x2000 false)
          (command_table 8 1 0x100000 false))
        0
        5
issue_command_ready_example =
    issue_command_ready second 0 5 0x2000 1 0 8 1 0x100000 false (omega arith) busy_first
      ready_second

-- A port that runs on until its two bits are clear, and then for two reads.
record Port : Type 0 where
  start_bit : Bool
  receive_bit : Bool
  reads : ℕ
  list_base : ℕ
  received_base : ℕ

abbrev bit_value : Bool → ℕ
bit_value b = if b then 1 else 0

abbrev port_word : Bool → Bool → ℕ → ℕ
port_word st fre n = (if n == 0 then 0 else 0xC000) + bit_value st + bit_value fre * 16

abbrev slow_port : HbaPort
slow_port = record {
  State = Port;
  cmd = λ s. (
    port_word s.start_bit s.receive_bit (min s.reads 2),
    record s { reads = if s.start_bit || s.receive_bit then s.reads else min s.reads 2 - 1 },
  );
  set_cmd = λ s v. record s { start_bit = digit 0 v == 1; receive_bit = digit 4 v == 1 };
  set_clb = λ s v. record s { list_base = v };
  set_clbu = λ s v. s;
  set_fb = λ s v. record s { received_base = v };
  set_fbu = λ s v. s;
}

word_start : (st fre : Bool) (n : ℕ) → digit 0 (port_word st fre n) ≡ bit_value st
word_start st fre n = ground arith

word_receive : (st fre : Bool) (n : ℕ) → digit 4 (port_word st fre n) ≡ bit_value fre
word_receive st fre n = ground arith

digit_bit : (i v : ℕ) → bit_value (digit i v == 1) ≡ digit i v
digit_bit i v = bit_of (digit i v) (omega arith)
  where
    bit_of : (d : ℕ) → d < 2 → bit_value (d == 1) ≡ d
    bit_of d h = ground arith

not_longer : (st fre : Bool) (n : ℕ) → min (if st || fre then n else min n 2 - 1) 2 ≤ min n 2
not_longer st fre n = ground arith

fewer :
    (st fre : Bool) (n mask : ℕ)
    → bit_value st ≡ 0
    → bit_value fre ≡ 0
    → (bit_and (port_word false false 0) mask == 0) ≡ true
    → (bit_and (port_word st fre (min n 2)) mask == 0) ≡ false
    → min (if st || fre then n else min n 2 - 1) 2 < min n 2
fewer true fre n mask a b z e = absurd (omega arith)
fewer false true n mask a b z e = absurd (omega arith)
fewer false false zero mask a b z e = cc
fewer false false (suc n) mask a b z e = omega arith

abbrev slow_laws : IsPort slow_port 3
slow_laws = record {
  st = λ s. bit_value s.start_bit;
  fre = λ s. bit_value s.receive_bit;
  st_read = λ s. (word_start s.start_bit s.receive_bit (min s.reads 2), refl);
  fre_read = λ s. (word_receive s.start_bit s.receive_bit (min s.reads 2), refl);
  st_set = λ s v. digit_bit 0 v;
  fre_set = λ s v. digit_bit 4 v;
  left = λ s. min s.reads 2;
  left_bound = λ s. omega arith;
  left_read = λ s a b. not_longer s.start_bit s.receive_bit s.reads;
  left_list = λ s a b e. fewer s.start_bit s.receive_bit s.reads 0x8000 a b refl e;
  left_received = λ s a b e. fewer s.start_bit s.receive_bit s.reads 0x4000 a b refl e;
  clb = λ s. s.list_base;
  fb = λ s. s.received_base;
  clb_set = λ s v. refl;
  clb_cmd = λ s. refl;
  clb_others = λ s v. (refl, refl, refl, refl);
  fb_set = λ s v. refl;
  fb_cmd = λ s. refl;
  fb_others = λ s v. (refl, refl);
}

abbrev free_memory : PhysicalMemory
free_memory = record { current_address = 0x2000000; max_address = 0x42000000 }

abbrev no_bytes : Bytes
no_bytes a = 0

abbrev running_port : Port
running_port = record {
  start_bit = true;
  receive_bit = true;
  reads = 7;
  list_base = 0;
  received_base = 0;
}

setup_port_lem_example :
    (s' : Port) × (setup_port slow_port 3 running_port free_memory no_bytes
      ≡ some (
        s',
        (make_structures free_memory no_bytes).0,
        (make_structures free_memory no_bytes).1,
        (make_structures free_memory no_bytes).2,
      ))
    × (s'.list_base ≡ aligned 0x2000000)
    × (s'.received_base ≡ aligned 0x2000000 + 16384)
    × ((make_structures free_memory no_bytes).0.cmd_table_ ≡ aligned 0x2000000 + 32768)
    × (aligned 0x2000000 % 16384 ≡ 0)
    × (0x2000000 ≤ aligned 0x2000000)
    × (aligned 0x2000000 < 0x2000000 + 16384)
    × (let v = (make_structures free_memory no_bytes).0 in
        (make_structures free_memory no_bytes).2 9 ≡ (
          if is_in v.cmd_list_ 1024 9 || (is_in v.fis_base_ 256 9 || is_in v.cmd_table_ 144 9)
          then 0
          else 0))
    × (bit_value s'.start_bit ≡ 1)
    × (bit_value s'.receive_bit ≡ 1)
setup_port_lem_example =
    setup_port_lem slow_port 3 slow_laws 3 running_port free_memory no_bytes 9 (omega arith)
      (record { room = omega arith; end = omega arith })
