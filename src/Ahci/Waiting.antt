-- ===== src/Ahci/Waiting.antt =====
-- How `issue_command` of src/hal/ahci.hpp waits for the port.
use emergence_os_bare_metal.Base.{ℕ, zero, suc, ◌<◌, ◌≡◌, refl, arith, Bool, true, false, some}
use emergence_os_bare_metal.Ahci.{
  Hba, is_busy, wait_ready, wait_done, issue_command, command_header, command_table,
}

module _ (h : Hba) (p : ℕ) where
  -- After `n` polls of the port.
  abbrev pub polled : ℕ → h.State → h.State
  polled zero s = s
  polled (suc n) s = polled n (h.tfd s p).1

  -- Whether poll `n` finds the port busy.
  abbrev pub busy_at : h.State → ℕ → Bool
  busy_at s n = is_busy h (h.tfd (polled n s) p).0

  wait_ready_busy :
      (n : ℕ) (s : h.State)
      → ((k : ℕ) → k < n → busy_at s k ≡ true)
      → wait_ready h s p n ≡ (false, polled (suc n) s)
  unfolding wait_ready
  wait_ready_busy zero s busy = refl
  wait_ready_busy (suc n) s busy =
      let now : busy_at s 0 ≡ true = busy 0 (omega arith) in
      rw now (wait_ready_busy n (h.tfd s p).1 (λ k l. busy (suc k) (omega arith)))

  wait_ready_ready :
      (j n : ℕ) (s : h.State)
      → j < n
      → ((k : ℕ) → k < j → busy_at s k ≡ true)
      → busy_at s j ≡ false
      → wait_ready h s p n ≡ (true, polled (suc j) s)
  unfolding wait_ready
  wait_ready_ready j zero s l busy free = absurd (omega arith)
  wait_ready_ready zero (suc n) s l busy free = rw free refl
  wait_ready_ready (suc j) (suc n) s l busy free =
      let now : busy_at s 0 ≡ true = busy 0 (omega arith) in
      rw now
        (wait_ready_ready j n (h.tfd s p).1 (omega arith) (λ k l'. busy (suc k) (omega arith)) free)

  -- A port that stays busy for a million polls ends the call with an error after one more poll, without
  -- a command sent.
  pub issue_command_busy :
      (fuel cmd_table : ℕ) (s : h.State) (lba count buffer : ℕ) (write : Bool)
      → ((k : ℕ) → k < 1000000 → busy_at s k ≡ true)
      → issue_command h fuel cmd_table s (some p) lba count buffer write
        ≡ (some false, polled 1000001 s)
  unfolding issue_command
  issue_command_busy fuel cmd_table s lba count buffer write busy =
      rw (wait_ready_busy 1000000 s busy) refl

  -- A port that is ready at one of the first million polls gets just this command, after that poll, and
  -- the call goes on to wait for its end.
  pub issue_command_ready :
      (fuel cmd_table j : ℕ) (s : h.State) (lba count buffer : ℕ) (write : Bool)
      → j < 1000000
      → ((k : ℕ) → k < j → busy_at s k ≡ true)
      → busy_at s j ≡ false
      → issue_command h fuel cmd_table s (some p) lba count buffer write
        ≡ wait_done h
            (h.issue
              (polled (suc j) s)
              p
              (command_header cmd_table write)
              (command_table lba count buffer write))
            p
            fuel
  unfolding issue_command
  issue_command_ready fuel cmd_table j s lba count buffer write l busy free =
      rw (wait_ready_ready j 1000000 s l busy free) refl
