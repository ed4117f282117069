-- ===== src/Pci/Search.antt =====
-- What `find_ahci_base` of src/hal/pci.hpp finds.
use emergence_os_bare_metal.Base.{
  ℕ, zero, suc, ◌+◌, ◌*◌, ◌/◌, ◌%◌, ◌<◌, ◌≤◌, ◌≡◌, refl, ap, ◌∙◌, subst, arith, true, false,
  Bool-cases, inl, inr, Option, none, some, ltb,
}
use emergence_os_bare_metal.Pci.{
  ConfigSpace, Device, get_device, is_ahci, search_slots, search_buses, find_ahci_base,
}

-- Slot `k % 32` of bus `k / 32`, in the order of the search.
abbrev pub device_at : ConfigSpace → ℕ → Device
device_at config k = get_device config (k / 32) (k % 32) 0

-- The first AHCI device of `n` from place `k` on, if there is one, has base address `base`.
abbrev pub IsFirst : ConfigSpace → ℕ → ℕ → Option ℕ → Type 0
IsFirst config k n none = (j : ℕ) → k ≤ j → j < k + n → is_ahci (device_at config j) ≡ false
IsFirst config k n (some base) =
    (i : ℕ) × (k ≤ i)
    × (i < k + n)
    × (is_ahci (device_at config i) ≡ true)
    × ((device_at config i).bar5 ≡ base)
    × ((j : ℕ) → k ≤ j → j < i → is_ahci (device_at config j) ≡ false)

abbrev pub get_or_zero : Option ℕ → ℕ
get_or_zero none = 0
get_or_zero (some base) = base

module _ (config : ConfigSpace) where
  none_in :
      (k n m t : ℕ)
      → t ≡ n + m
      → IsFirst config k n none
      → (i : ℕ) → ((j : ℕ) → k + n ≤ j → j < i → is_ahci (device_at config j) ≡ false)
      → (j : ℕ) → k ≤ j
      → j < i
      → is_ahci (device_at config j) ≡ false
  none_in k n m t e before i later j l h = elim (Bool-cases (ltb j (k + n))) [
    | inl low ↦ before j l (ground arith)
    | inr high ↦ later j (ground arith) h
  ]

  -- Nothing in the first `n` places, so the first is the first of those behind them.
  IsFirst-append :
      (k n m t : ℕ) (o : Option ℕ)
      → t ≡ n + m
      → IsFirst config k n none
      → IsFirst config (k + n) m o
      → IsFirst config k t o
  IsFirst-append k n m t none e before later =
      λ j l h. none_in k n m t e before (k + n + m) later j l (omega arith)
  IsFirst-append k n m t (some base) e before (i, l, h, found, bar, clear) =
      (i, omega arith, omega arith, found, bar, none_in k n m t e before i clear)

  IsFirst-longer :
      (k n m : ℕ) (base : ℕ)
      → n ≤ m
      → IsFirst config k n (some base)
      → IsFirst config k m (some base)
  IsFirst-longer k n m base le (i, l, h, found, bar, clear) = (i, l, omega arith, found, bar, clear)

  device_at_lem :
      (bus slot : ℕ) → slot < 32 → device_at config (bus * 32 + slot) ≡ get_device config bus slot 0
  device_at_lem bus slot h =
      let b : (bus * 32 + slot) / 32 ≡ bus = omega arith in
      let s : (bus * 32 + slot) % 32 ≡ slot = omega arith in rw (b, s) refl

  IsFirst-search_slots :
      (bus slot n : ℕ)
      → slot + n ≤ 32
      → IsFirst config (bus * 32 + slot) n (search_slots config bus slot n)
  unfolding search_slots
  IsFirst-search_slots bus slot zero h = λ j l g. absurd (omega arith)
  IsFirst-search_slots bus slot (suc n) h =
      let at = device_at_lem bus slot (omega arith) in
      let next : bus * 32 + slot + 1 ≡ bus * 32 + (slot + 1) = omega arith in
      let ih = IsFirst-search_slots bus (slot + 1) n (omega arith) in
      elim (Bool-cases (is_ahci (get_device config bus slot 0))) [
        | inl found ↦ rw found (
          bus * 32 + slot,
          omega arith,
          omega arith,
          ap is_ahci at ∙ found,
          ap (λ d. d.bar5) at,
          λ j l g. absurd (omega arith),
        )
        | inr other ↦
            let here : IsFirst config (bus * 32 + slot) 1 none = λ j l g.
              (let only : j ≡ bus * 32 + slot = omega arith in
                ap (λ p. is_ahci (device_at config p)) only ∙ ap is_ahci at ∙ other) in
            rw other (
              IsFirst-append (bus * 32 + slot) 1 n (suc n) (search_slots config bus (slot + 1) n)
                (omega arith) here (rw next ih))
      ]

  IsFirst-search_buses :
      (bus n : ℕ) → IsFirst config (bus * 32) (n * 32) (search_buses config bus n)
  unfolding search_buses
  IsFirst-search_buses bus zero = λ j l g. absurd (omega arith)
  IsFirst-search_buses bus (suc n) =
      let start : bus * 32 + 0 ≡ bus * 32 = omega arith in
      let next : (bus + 1) * 32 ≡ bus * 32 + 32 = omega arith in
      both (search_slots config bus 0 32)
        (subst (λ k. IsFirst config k 32 (search_slots config bus 0 32)) start
          (IsFirst-search_slots bus 0 32 (omega arith)))
        (search_buses config (bus + 1) n)
        (subst (λ k. IsFirst config k (n * 32) (search_buses config (bus + 1) n)) next
          (IsFirst-search_buses (bus + 1) n))
    where
      both :
          (o : Option ℕ)
          → IsFirst config (bus * 32) 32 o
          → (p : Option ℕ) → IsFirst config (bus * 32 + 32) (n * 32) p
          → IsFirst config (bus * 32) (suc n * 32) (elim o [ some base ↦ some base | none ↦ p ])
      both none before p later =
          IsFirst-append (bus * 32) 32 (n * 32) (suc n * 32) p (omega arith) before later
      both (some base) found p later =
          IsFirst-longer (bus * 32) 32 (suc n * 32) base (omega arith) found

  base_of : (o : Option ℕ) → (elim o [ some base ↦ base | none ↦ 0 ]) ≡ get_or_zero o
  base_of none = refl
  base_of (some base) = refl

  -- `find_ahci_base` is the base address of the first AHCI controller among the 32 slots of each of the
  -- first eight buses, in the order of their numbers, and 0 if there is none.
  pub find_ahci_base_lem :
      (o : Option ℕ) × IsFirst config 0 256 o × (find_ahci_base config ≡ get_or_zero o)
  unfolding find_ahci_base
  find_ahci_base_lem =
      (search_buses config 0 8, IsFirst-search_buses 0 8, base_of (search_buses config 0 8))
