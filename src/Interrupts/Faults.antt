-- ===== src/Interrupts/Faults.antt =====
-- The handlers of src/hal/idt.cpp that report a fault and halt: what they send before.
use emergence_os_bare_metal.Base.{ℕ, List, [], ◌∷◌}
use emergence_os_bare_metal.Serial.{Uart, raw_print, raw_print_hex}

-- "\n!!! SOVEREIGN FAULT !!!\n RIP: "
abbrev pub fault_text : List ℕ
fault_text =
    10 ∷ 33 ∷ 33 ∷ 33 ∷ 32 ∷ 83 ∷ 79 ∷ 86 ∷ 69 ∷ 82 ∷ 69 ∷ 73 ∷ 71 ∷ 78 ∷ 32 ∷ 70 ∷ 65 ∷ 85 ∷ 76
    ∷ 84 ∷ 32 ∷ 33 ∷ 33 ∷ 33 ∷ 10 ∷ 32 ∷ 82 ∷ 73 ∷ 80 ∷ 58 ∷ 32 ∷ []

-- " RAX: "
abbrev pub rax_text : List ℕ
rax_text = 32 ∷ 82 ∷ 65 ∷ 88 ∷ 58 ∷ 32 ∷ []

-- " RBX: "
abbrev pub rbx_text : List ℕ
rbx_text = 32 ∷ 82 ∷ 66 ∷ 88 ∷ 58 ∷ 32 ∷ []

-- "\n[GP] Fault at "
abbrev pub gp_text : List ℕ
gp_text = 10 ∷ 91 ∷ 71 ∷ 80 ∷ 93 ∷ 32 ∷ 70 ∷ 97 ∷ 117 ∷ 108 ∷ 116 ∷ 32 ∷ 97 ∷ 116 ∷ 32 ∷ []

-- "\n[NM] SSE Unavailable at "
abbrev pub nm_text : List ℕ
nm_text =
    10 ∷ 91 ∷ 78 ∷ 77 ∷ 93 ∷ 32 ∷ 83 ∷ 83 ∷ 69 ∷ 32 ∷ 85 ∷ 110 ∷ 97 ∷ 118 ∷ 97 ∷ 105 ∷ 108 ∷ 97 ∷ 98
    ∷ 108 ∷ 101 ∷ 32 ∷ 97 ∷ 116 ∷ 32 ∷ []

module _ (u : Uart) where
  open u use {State}

  -- Until the processor halts.
  unfoldable pub dump_registers : State → ℕ → ℕ → ℕ → State
  dump_registers s rip rax rbx =
      let at_ = raw_print_hex u (raw_print u s fault_text) rip in
      let first = raw_print_hex u (raw_print u at_ rax_text) rax in
      raw_print_hex u (raw_print u first rbx_text) rbx

  unfoldable pub handle_gp_fault : State → ℕ → State
  handle_gp_fault s rip = raw_print_hex u (raw_print u s gp_text) rip

  unfoldable pub handle_nm_fault : State → ℕ → State
  handle_nm_fault s rip = raw_print_hex u (raw_print u s nm_text) rip
