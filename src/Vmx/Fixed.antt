-- ===== src/Vmx/Fixed.antt =====
-- The control registers after `enable` of src/core/vmx_impl.hpp.
use emergence_os_bare_metal.Base.{
  ℕ, ◌≤◌, ◌≡◌, ◌⊎◌, inl, inr, refl, sym, ap, ap₂, ◌∙◌, subst, arith, Bool, true, false, Bool-cases,
  not, ◌&&◌, ◌==◌, min, max, bit_and, bit_or, digit, digit-or, digit-and,
}
use emergence_os_bare_metal.Memory.Bytes.{Bytes}
use emergence_os_bare_metal.Vmx.{
  Cpu, VmxController, fix, unlock, fix_cr4, fix_cr0, start_vmx, enable, store_word,
}

-- A control register that virtual machine operation allows: the bits of the first mask are set, and no
-- others than those of the second.
abbrev pub IsFixed : ℕ → ℕ → ℕ → Type 0
IsFixed cr fixed0 fixed1 = (i : ℕ) → (digit i fixed0 ≤ digit i cr) × (digit i cr ≤ digit i fixed1)

-- No bit that must be set may not be set.
abbrev pub AreMasks : ℕ → ℕ → Type 0
AreMasks fixed0 fixed1 = bit_and fixed0 fixed1 ≡ fixed0

digit-fix :
    (i cr f0 f1 : ℕ) → digit i (fix cr f0 f1) ≡ min (max (digit i cr) (digit i f0)) (digit i f1)
unfolding fix
digit-fix i cr f0 f1 =
    digit-and i (bit_or cr f0) f1 ∙ ap (λ t. min t (digit i f1)) (digit-or i cr f0)

fix-IsFixed : (cr f0 f1 : ℕ) → AreMasks f0 f1 → IsFixed (fix cr f0 f1) f0 f1
fix-IsFixed cr f0 f1 masks i = (
  omega (arith, digit-fix i cr f0 f1, digit-and i f0 f1, ap (digit i) masks),
  omega (arith, digit-fix i cr f0 f1),
)

-- What the registers of a processor keep.
pub record IsCpu (c : Cpu) : Type 0 where
  pub cr4_set : (s : c.State) (v : ℕ) → c.cr4 (c.set_cr4 s v) ≡ v
  pub cr0_set : (s : c.State) (v : ℕ) → c.cr0 (c.set_cr0 s v) ≡ v
  pub cr4_apart : (s : c.State) (v : ℕ) → c.cr4 (c.set_cr0 s v) ≡ c.cr4 s
  pub cr4_wrmsr : (s : c.State) (n lo hi : ℕ) → c.cr4 (c.wrmsr s n lo hi) ≡ c.cr4 s
  pub cr0_wrmsr : (s : c.State) (n lo hi : ℕ) → c.cr0 (c.wrmsr s n lo hi) ≡ c.cr0 s
  pub rdmsr_wrmsr :
      (s : c.State) (n m lo hi : ℕ) → (m == n) ≡ false → c.rdmsr (c.wrmsr s n lo hi) m ≡ c.rdmsr s m
  pub rdmsr_cr4 : (s : c.State) (v m : ℕ) → c.rdmsr (c.set_cr4 s v) m ≡ c.rdmsr s m
  pub cr4_vmxon : (s : c.State) (mem : Bytes) (a : ℕ) → c.cr4 (c.vmxon s mem a).1 ≡ c.cr4 s
  pub cr0_vmxon : (s : c.State) (mem : Bytes) (a : ℕ) → c.cr0 (c.vmxon s mem a).1 ≡ c.cr0 s
  pub cr4_vmptrld : (s : c.State) (mem : Bytes) (a : ℕ) → c.cr4 (c.vmptrld s mem a).1 ≡ c.cr4 s
  pub cr0_vmptrld : (s : c.State) (mem : Bytes) (a : ℕ) → c.cr0 (c.vmptrld s mem a).1 ≡ c.cr0 s

-- Whether the two checks of `enable` let it go on.
abbrev pub passes : (c : Cpu) → c.State → Bool
passes c s = (unlock c s).0 && not (bit_and (c.cpuid_ecx (unlock c s).1 1) 32 == 0)

module _ (c : Cpu) (laws : IsCpu c) where
  abbrev pub AreKept : c.State → c.State → Type 0
  AreKept s t = (c.cr4 t ≡ c.cr4 s) × (c.cr0 t ≡ c.cr0 s)

  AreKept-unlock :
      (s : c.State)
      → AreKept s (unlock c s).1
        × ((m : ℕ) → (m == 0x3A) ≡ false → c.rdmsr (unlock c s).1 m ≡ c.rdmsr s m)
  unfolding unlock
  AreKept-unlock s = elim (Bool-cases (bit_and (c.rdmsr s 0x3A).0 1 == 0)) [
    | inl free ↦ rw free (
      (
        laws.cr4_wrmsr s 0x3A (bit_or (c.rdmsr s 0x3A).0 5) (c.rdmsr s 0x3A).1,
        laws.cr0_wrmsr s 0x3A (bit_or (c.rdmsr s 0x3A).0 5) (c.rdmsr s 0x3A).1,
      ),
      λ m h. laws.rdmsr_wrmsr s 0x3A m (bit_or (c.rdmsr s 0x3A).0 5) (c.rdmsr s 0x3A).1 h,
    )
    | inr locked ↦ elim (Bool-cases (bit_and (c.rdmsr s 0x3A).0 4 == 0)) [
      | inl off ↦ rw (locked, off) ((refl, refl), λ m h. refl)
      | inr on ↦ rw (locked, on) ((refl, refl), λ m h. refl)
    ]
  ]

  AreKept-start_vmx :
      (v : VmxController) (s : c.State) (mem : Bytes) → AreKept s (start_vmx c v s mem).1
  unfolding start_vmx
  AreKept-start_vmx v s mem =
      let revision = (c.rdmsr s 0x480).0 in
      let with_on = store_word mem v.vmxon_region revision in
      let on = c.vmxon s with_on v.vmxon_region in
      let with_vmcs = store_word with_on v.vmcs_region revision in
      elim (Bool-cases on.0) [
        | inl off ↦
            rw off
              (laws.cr4_vmxon s with_on v.vmxon_region, laws.cr0_vmxon s with_on v.vmxon_region)
        | inr fine ↦ rw fine (
          laws.cr4_vmptrld on.1 with_vmcs v.vmcs_region ∙ laws.cr4_vmxon s with_on v.vmxon_region,
          laws.cr0_vmptrld on.1 with_vmcs v.vmcs_region ∙ laws.cr0_vmxon s with_on v.vmxon_region,
        )
      ]

  cr4_fixed :
      (s : c.State)
      → c.cr4 (fix_cr0 c (fix_cr4 c s))
        ≡ fix (bit_or (c.cr4 s) 0x2000) (c.rdmsr s 0x488).0 (c.rdmsr s 0x489).0
  unfolding fix_cr0 fix_cr4
  cr4_fixed s = laws.cr4_apart _ _ ∙ laws.cr4_set _ _

  cr0_fixed :
      (s : c.State)
      → c.cr0 (fix_cr0 c (fix_cr4 c s))
        ≡ fix (c.cr0 (fix_cr4 c s)) (c.rdmsr s 0x486).0 (c.rdmsr s 0x487).0
  unfolding fix_cr0 fix_cr4
  cr0_fixed s =
      laws.cr0_set _ _
      ∙ ap₂ (λ (t u : ℕ × ℕ). fix (c.cr0 (fix_cr4 c s)) t.0 u.0) (laws.rdmsr_cr4 s _ 0x486)
          (laws.rdmsr_cr4 s _ 0x487)

  -- The masks are those that the registers give.
  Fixed-start_vmx :
      (v : VmxController) (t : c.State) (mem : Bytes) (f0 f1 g0 g1 : ℕ)
      → (c.rdmsr t 0x486).0 ≡ f0
      → (c.rdmsr t 0x487).0 ≡ f1
      → (c.rdmsr t 0x488).0 ≡ g0
      → (c.rdmsr t 0x489).0 ≡ g1
      → AreMasks f0 f1
      → AreMasks g0 g1
      → (let after = (start_vmx c v (fix_cr0 c (fix_cr4 c t)) mem).1 in
          IsFixed (c.cr4 after) g0 g1
          × IsFixed (c.cr0 after) f0 f1
          × (digit 13 (c.cr4 after) ≡ digit 13 g1))
  Fixed-start_vmx v t mem f0 f1 g0 g1 e0 e1 e2 e3 masks0 masks4 =
      let kept = AreKept-start_vmx v (fix_cr0 c (fix_cr4 c t)) mem in
      let four : c.cr4 (start_vmx c v (fix_cr0 c (fix_cr4 c t)) mem).1
          ≡ fix (bit_or (c.cr4 t) 0x2000) g0 g1 =
        kept.0 ∙ cr4_fixed t ∙ ap₂ (λ x y. fix (bit_or (c.cr4 t) 0x2000) x y) e2 e3 in
      let zero_ : c.cr0 (start_vmx c v (fix_cr0 c (fix_cr4 c t)) mem).1
          ≡ fix (c.cr0 (fix_cr4 c t)) f0 f1 =
        kept.1 ∙ cr0_fixed t ∙ ap₂ (λ x y. fix (c.cr0 (fix_cr4 c t)) x y) e0 e1 in
      (
        subst (λ x. IsFixed x g0 g1) (sym four)
            (fix-IsFixed (bit_or (c.cr4 t) 0x2000) g0 g1 masks4),
        subst (λ x. IsFixed x f0 f1) (sym zero_) (fix-IsFixed (c.cr0 (fix_cr4 c t)) f0 f1 masks0),
        ap (digit 13) four ∙ extension_bit (c.cr4 t) g0 g1,
      )
    where
      extension_bit : (cr g0 g1 : ℕ) → digit 13 (fix (bit_or cr 0x2000) g0 g1) ≡ digit 13 g1
      extension_bit cr g0 g1 =
          omega (arith, digit-fix 13 (bit_or cr 0x2000) g0 g1, digit-or 13 cr 0x2000)

  -- `enable` fails at once if the feature is locked or the processor lacks it: then no control register and
  -- no memory is written. Else both control registers end as their masks in the model-specific registers
  -- allow, whether the later steps succeed or not, and the bit that turns the extensions on is set wherever
  -- the masks allow it. The masks are consistent.
  pub enable_lem :
      (v : VmxController) (s : c.State) (mem : Bytes)
      → AreMasks (c.rdmsr s 0x486).0 (c.rdmsr s 0x487).0
      → AreMasks (c.rdmsr s 0x488).0 (c.rdmsr s 0x489).0
      → ((passes c s ≡ false)
          × (enable c v s mem ≡ (false, (unlock c s).1, mem))
          × AreKept s (unlock c s).1)
        ⊎ ((passes c s ≡ true)
            × IsFixed (c.cr4 (enable c v s mem).1) (c.rdmsr s 0x488).0 (c.rdmsr s 0x489).0
            × IsFixed (c.cr0 (enable c v s mem).1) (c.rdmsr s 0x486).0 (c.rdmsr s 0x487).0
            × (digit 13 (c.cr4 (enable c v s mem).1) ≡ digit 13 (c.rdmsr s 0x489).0))
  unfolding enable
  enable_lem v s mem masks0 masks4 =
      let t = (unlock c s).1 in
      let kept = AreKept-unlock s in
      elim (Bool-cases (unlock c s).0) [
        | inr locked ↦ inl (rw locked refl, rw locked refl, kept.0)
        | inl free ↦ elim (Bool-cases (bit_and (c.cpuid_ecx t 1) 32 == 0)) [
          | inl missing ↦ inl (rw (free, missing) refl, rw (free, missing) refl, kept.0)
          | inr there ↦
              let gone : enable c v s mem ≡ start_vmx c v (fix_cr0 c (fix_cr4 c t)) mem =
                rw (enable, free, there) refl in
              let mask : (n : ℕ) → (n == 0x3A) ≡ false → (c.rdmsr t n).0 ≡ (c.rdmsr s n).0 =
                λ n h. ap (λ (x : ℕ × ℕ). x.0) (kept.1 n h) in
              let rest =
                Fixed-start_vmx v t mem (c.rdmsr s 0x486).0 (c.rdmsr s 0x487).0 (c.rdmsr s 0x488).0
                  (c.rdmsr s 0x489).0 (mask 0x486 refl) (mask 0x487 refl) (mask 0x488 refl)
                  (mask 0x489 refl) masks0 masks4 in
              inr (rw (free, there) refl, rw gone rest.0, rw gone rest.1, rw gone rest.2)
        ]
      ]
