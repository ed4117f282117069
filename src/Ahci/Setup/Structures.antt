-- ===== src/Ahci/Setup/Structures.antt =====
-- The structures that `setup_port` of src/hal/ahci.hpp gives a port.
use emergence_os_bare_metal.Base.{
  Bool, ◌||◌, if◌then◌else◌, digit, digit-and, digit-or, ℕ, zero, suc, ◌+◌, ◌%◌, ◌^◌, ◌≤◌, ◌<◌, ◌≡◌,
  refl, ap, ◌∙◌, arith, false, Bool-cases, inl, inr, some, ◌==◌, bit_and, bit_or, u32,
}
use emergence_os_bare_metal.Memory.{PhysicalMemory, aligned}
use emergence_os_bare_metal.Memory.Bump.{allocate-some}
use emergence_os_bare_metal.Memory.Bytes.{Bytes, kmemset, is_in, kmemset_lem}
use emergence_os_bare_metal.Ahci.Setup.{
  HbaPort, PortMemory, make_structures, wait_stopped, clear_bits, set_bits, setup_port,
}

-- A port: the bits ST and FRE of its command register; that the engines of a port with both bits clear
-- stop at most `bound` reads later; and what its two bases keep.
pub record IsPort (h : HbaPort) (bound : ℕ) : Type 0 where
  pub st : h.State → ℕ
  pub fre : h.State → ℕ
  pub st_read : (s : h.State) → (digit 0 (h.cmd s).0 ≡ st s) × (st (h.cmd s).1 ≡ st s)
  pub fre_read : (s : h.State) → (digit 4 (h.cmd s).0 ≡ fre s) × (fre (h.cmd s).1 ≡ fre s)
  pub st_set : (s : h.State) (v : ℕ) → st (h.set_cmd s v) ≡ digit 0 v
  pub fre_set : (s : h.State) (v : ℕ) → fre (h.set_cmd s v) ≡ digit 4 v
  pub left : h.State → ℕ
  pub left_bound : (s : h.State) → left s < bound
  pub left_read : (s : h.State) → st s ≡ 0 → fre s ≡ 0 → left (h.cmd s).1 ≤ left s
  pub left_list :
      (s : h.State)
      → st s ≡ 0
      → fre s ≡ 0
      → (bit_and (h.cmd s).0 0x8000 == 0) ≡ false
      → left (h.cmd s).1 < left s
  pub left_received :
      (s : h.State)
      → st s ≡ 0
      → fre s ≡ 0
      → (bit_and (h.cmd s).0 0x4000 == 0) ≡ false
      → left (h.cmd s).1 < left s
  pub clb : h.State → ℕ
  pub fb : h.State → ℕ
  pub clb_set : (s : h.State) (v : ℕ) → clb (h.set_clb s v) ≡ v
  pub clb_cmd : (s : h.State) → clb (h.cmd s).1 ≡ clb s
  pub clb_others :
      (s : h.State) (v : ℕ)
      → (clb (h.set_cmd s v) ≡ clb s)
        × (clb (h.set_clbu s v) ≡ clb s)
        × (clb (h.set_fb s v) ≡ clb s)
        × (clb (h.set_fbu s v) ≡ clb s)
  pub fb_set : (s : h.State) (v : ℕ) → fb (h.set_fb s v) ≡ v
  pub fb_cmd : (s : h.State) → fb (h.cmd s).1 ≡ fb s
  pub fb_others : (s : h.State) (v : ℕ) → (fb (h.set_cmd s v) ≡ fb s) × (fb (h.set_fbu s v) ≡ fb s)

-- Room for the three pieces, with addresses that fit the registers.
pub record HasRoom (p : PhysicalMemory) : Type 0 where
  pub room : p.current_address + 65536 < p.max_address
  pub end : p.max_address ≤ 2 ^ 32

make_structures_lem :
    (p : PhysicalMemory) (mem : Bytes)
    → HasRoom p
    → ((make_structures p mem).0 ≡ record {
      cmd_list_ = aligned p.current_address;
      fis_base_ = aligned p.current_address + 16384;
      cmd_table_ = aligned p.current_address + 32768;
    })
unfolding make_structures
make_structures_lem p mem room =
    let on = aligned p.current_address in
    let c = p.current_address in
    let m = p.max_address in
    let next : PhysicalMemory = record p { current_address = on + 1024 } in
    let last : PhysicalMemory = record p { current_address = on + 16384 + 256 } in
    let first = allocate-some p 1024 (omega (arith, room.room)) (omega (arith, room.end)) in
    let second_place : aligned (on + 1024) ≡ on + 16384 = place1 c m room.room room.end in
    let second = allocate-some next 256 (near1 c m room.room room.end) (omega (arith, room.end)) in
    let third_place : aligned (on + 16384 + 256) ≡ on + 32768 = place2 c m room.room room.end in
    let third = allocate-some last 144 (near2 c m room.room room.end) (omega (arith, room.end)) in
    rw (make_structures, first, second, second_place, third, third_place) refl
  where
    place1 : (c m : ℕ) → c + 65536 < m → m ≤ 2 ^ 32 → aligned (aligned c + 1024) ≡ aligned c + 16384
    place1 c m h k = ground arith

    place2 :
        (c m : ℕ)
        → c + 65536 < m
        → m ≤ 2 ^ 32
        → aligned (aligned c + 16384 + 256) ≡ aligned c + 32768
    place2 c m h k = ground arith

    near1 : (c m : ℕ) → c + 65536 < m → m ≤ 2 ^ 32 → aligned c + 1024 + 16384 + 256 < m
    near1 c m h k = ground arith

    near2 : (c m : ℕ) → c + 65536 < m → m ≤ 2 ^ 32 → aligned c + 16384 + 256 + 16384 + 144 < m
    near2 c m h k = ground arith

-- The three pieces are cleared.
cleared :
    (p : PhysicalMemory) (mem : Bytes) (a : ℕ)
    → (let v = (make_structures p mem).0 in
        (make_structures p mem).2 a ≡ (
          if is_in v.cmd_list_ 1024 a || (is_in v.fis_base_ 256 a || is_in v.cmd_table_ 144 a)
          then 0
          else mem a))
unfolding make_structures
cleared p mem a =
    let v = (make_structures p mem).0 in
    let one = kmemset mem v.cmd_list_ 0 1024 in
    let two = kmemset one v.fis_base_ 0 256 in
    kmemset_lem two v.cmd_table_ 0 144 a
    ∙ ap (λ t. if is_in v.cmd_table_ 144 a then 0 else t)
        (kmemset_lem one v.fis_base_ 0 256 a
          ∙ ap (λ t. if is_in v.fis_base_ 256 a then 0 else t)
              (kmemset_lem mem v.cmd_list_ 0 1024 a))
    ∙ any_of (is_in v.cmd_list_ 1024 a) (is_in v.fis_base_ 256 a) (is_in v.cmd_table_ 144 a) (mem a)
  where
    any_of :
        (x y z : Bool) (m : ℕ)
        → (if z then 0 else if y then 0 else if x then 0 else m) ≡ (if x || (y || z) then 0 else m)
    any_of x y z m = ground arith

module _ (h : HbaPort) (bound : ℕ) (laws : IsPort h bound) where
  wait_stopped_ends :
      (fuel : ℕ) (s : h.State)
      → laws.left s < fuel
      → laws.st s ≡ 0
      → laws.fre s ≡ 0
      → (s' : h.State) × (wait_stopped h fuel s ≡ some s')
  unfolding wait_stopped
  wait_stopped_ends zero s l st fre = absurd (omega arith)
  wait_stopped_ends (suc fuel) s l st fre =
      let s' = (h.cmd s).1 in
      let st' = (laws.st_read s).1 ∙ st in
      let fre' = (laws.fre_read s).1 ∙ fre in
      elim (Bool-cases (bit_and (h.cmd s).0 0x8000 == 0)) [
        | inr runs ↦
            let rest =
              wait_stopped_ends fuel s' (omega (arith, laws.left_list s st fre runs)) st' fre' in
            (rest.0, rw (wait_stopped, runs) rest.1)
        | inl clear_ ↦ elim (Bool-cases (bit_and (h.cmd s').0 0x4000 == 0)) [
          | inr receives ↦
              let rest =
                wait_stopped_ends fuel (h.cmd s').1
                  (omega (arith, laws.left_received s' st' fre' receives, laws.left_read s st fre))
                  ((laws.st_read s').1 ∙ st') ((laws.fre_read s').1 ∙ fre') in
              (rest.0, rw (wait_stopped, clear_, receives) rest.1)
          | inl stopped ↦ ((h.cmd s').1, rw (wait_stopped, clear_, stopped) refl)
        ]
      ]

  -- Both bits are clear after the two writes.
  told_to_stop :
      (s : h.State)
      → (let start = clear_bits h (clear_bits h s 0xFFFFFFFE) 0xFFFFFFEF in
          (laws.st start ≡ 0) × (laws.fre start ≡ 0))
  told_to_stop s =
      let first = clear_bits h s 0xFFFFFFFE in
      let word = (h.cmd s).0 in
      let again = (h.cmd first).0 in
      (
        laws.st_set _ _
            ∙ omega (
              arith,
              digit-and 0 again 0xFFFFFFEF,
              (laws.st_read first).0,
              laws.st_set (h.cmd s).1 (bit_and word 0xFFFFFFFE),
              digit-and 0 word 0xFFFFFFFE,
            ),
        laws.fre_set _ _ ∙ omega (arith, digit-and 4 again 0xFFFFFFEF),
      )

  -- Both bits are set after the last two writes.
  told_to_start :
      (s : h.State)
      → (let started = set_bits h (set_bits h s 0x10) 1 in
          (laws.st started ≡ 1) × (laws.fre started ≡ 1))
  told_to_start s =
      let first = set_bits h s 0x10 in
      let word = (h.cmd s).0 in
      let again = (h.cmd first).0 in
      (
        laws.st_set _ _ ∙ omega (arith, digit-or 0 again 1),
        laws.fre_set _ _
            ∙ omega (
              arith,
              digit-or 4 again 1,
              (laws.fre_read first).0,
              laws.fre_set (h.cmd s).1 (bit_or word 0x10),
              digit-or 4 word 0x10,
            ),
      )

  -- With room in memory below 2 ^ 32, `setup_port` of a port that stops within `bound` reads of its command
  -- register once ST and FRE are clear ends. The port then has both bits set, and the addresses of its
  -- command list and of its receive area: the next multiple of 16384 from the current address of the
  -- allocator on, less than 16384 bytes further, and the multiple behind it; the command table is on the
  -- one after that. The three are filled with zeros, and nothing else in memory changes.
  pub setup_port_lem :
      (fuel : ℕ) (s : h.State) (p : PhysicalMemory) (mem : Bytes) (a : ℕ)
      → bound ≤ fuel
      → HasRoom p
      → (s' : h.State) × (setup_port h fuel s p mem
          ≡ some
              (s', (make_structures p mem).0, (make_structures p mem).1, (make_structures p mem).2))
        × (laws.clb s' ≡ aligned p.current_address)
        × (laws.fb s' ≡ aligned p.current_address + 16384)
        × ((make_structures p mem).0.cmd_table_ ≡ aligned p.current_address + 32768)
        × (aligned p.current_address % 16384 ≡ 0)
        × (p.current_address ≤ aligned p.current_address)
        × (aligned p.current_address < p.current_address + 16384)
        × (let v = (make_structures p mem).0 in
            (make_structures p mem).2 a ≡ (
              if is_in v.cmd_list_ 1024 a || (is_in v.fis_base_ 256 a || is_in v.cmd_table_ 144 a)
              then 0
              else mem a))
        × (laws.st s' ≡ 1)
        × (laws.fre s' ≡ 1)
  unfolding setup_port
  setup_port_lem fuel s p mem a f room =
      let start = clear_bits h (clear_bits h s 0xFFFFFFFE) 0xFFFFFFEF in
      let stopped =
        wait_stopped_ends fuel start (omega (arith, laws.left_bound start)) (told_to_stop s).0
          (told_to_stop s).1 in
      let made = make_structures p mem in
      let list = h.set_clbu (h.set_clb stopped.0 (u32 made.0.cmd_list_)) 0 in
      let received = h.set_fbu (h.set_fb list (u32 made.0.fis_base_)) 0 in
      let base : u32 (aligned p.current_address) ≡ aligned p.current_address =
        low p.current_address p.max_address room.room room.end in
      let next : u32 (aligned p.current_address + 16384) ≡ aligned p.current_address + 16384 =
        low_next p.current_address p.max_address room.room room.end in
      let one = h.set_cmd (h.cmd received).1 (bit_or (h.cmd received).0 0x10) in
      (
        h.set_cmd (h.cmd one).1 (bit_or (h.cmd one).0 1),
        rw (setup_port, stopped.1) refl,
        (laws.clb_others _ _).0
            ∙ laws.clb_cmd one
            ∙ (laws.clb_others _ _).0
            ∙ laws.clb_cmd received
            ∙ (laws.clb_others _ _).3
            ∙ (laws.clb_others _ _).2
            ∙ (laws.clb_others _ _).1
            ∙ laws.clb_set _ _
            ∙ ap (λ (t : PortMemory). u32 t.cmd_list_) (make_structures_lem p mem room)
            ∙ base,
        (laws.fb_others _ _).0
            ∙ laws.fb_cmd one
            ∙ (laws.fb_others _ _).0
            ∙ laws.fb_cmd received
            ∙ (laws.fb_others _ _).1
            ∙ laws.fb_set _ _
            ∙ ap (λ (t : PortMemory). u32 t.fis_base_) (make_structures_lem p mem room)
            ∙ next,
        ap (λ (t : PortMemory). t.cmd_table_) (make_structures_lem p mem room),
        boundary p.current_address p.max_address room.room room.end,
        behind p.current_address p.max_address room.room room.end,
        near_by p.current_address p.max_address room.room room.end,
        cleared p mem a,
        (told_to_start received).0,
        (told_to_start received).1,
      )
    where
      low : (c m : ℕ) → c + 65536 < m → m ≤ 2 ^ 32 → u32 (aligned c) ≡ aligned c
      low c m h k = ground arith

      low_next :
          (c m : ℕ) → c + 65536 < m → m ≤ 2 ^ 32 → u32 (aligned c + 16384) ≡ aligned c + 16384
      low_next c m h k = ground arith

      boundary : (c m : ℕ) → c + 65536 < m → m ≤ 2 ^ 32 → aligned c % 16384 ≡ 0
      boundary c m h k = ground arith

      behind : (c m : ℕ) → c + 65536 < m → m ≤ 2 ^ 32 → c ≤ aligned c
      behind c m h k = ground arith

      near_by : (c m : ℕ) → c + 65536 < m → m ≤ 2 ^ 32 → aligned c < c + 16384
      near_by c m h k = ground arith
