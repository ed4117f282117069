-- ===== src/AuditLog/History.antt =====
-- What can be read back from the log of src/vdev/audit_log.hpp.
use native.Mathlib.Decide.{dec_lt}
use emergence_os_bare_metal.Base.{
  ℕ, zero, suc, ◌+◌, ◌-◌, ◌%◌, ◌^◌, ◌≤◌, ◌<◌, ◌≡◌, ◌≢◌, inl, inr, refl, sym, ap, ◌∙◌, arith, List,
  [], ◌∷◌, ◌++◌, some, get_elem?, length, take,
}
use emergence_os_bare_metal.Manifold.{Value128, image, value_of, found, holographic_fetch}
use emergence_os_bare_metal.Manifold.Memory.{value_of-image}
use emergence_os_bare_metal.Manifold.Fetch.{
  block_of, materialize-Wrote, fetch-materialize_self, fetch-materialize_same_block,
}
use emergence_os_bare_metal.AuditLog.{
  AuditLogger, EventType, boot, seal, import, auth_fail, bypass_engaged, entry_of, vaddr_of, log,
}

-- The value read at a position of the log.
abbrev pub entry_at : AuditLogger → ℕ → Value128
entry_at a i = holographic_fetch a.manifold (vaddr_of i)

-- The block of the log is in the manifold.
abbrev pub IsOpen : AuditLogger → Type 0
IsOpen a = (slot : ℕ) × (found a.manifold (block_of (vaddr_of 0)) ≡ some slot)

entry_of-lt : (t : EventType) (d : ℕ) → (entry_of t d).hi < 2 ^ 64
unfolding entry_of
entry_of-lt boot d = omega arith
entry_of-lt seal d = omega arith
entry_of-lt import d = omega arith
entry_of-lt auth_fail d = omega arith
entry_of-lt bypass_engaged d = omega arith

-- All 1024 positions lie in one block.
one_block : (i : ℕ) → i < 1024 → block_of (vaddr_of i) ≡ block_of (vaddr_of 0)
one_block i h = omega arith

length-image : (v : Value128) → length (image v) ≡ 16
unfolding image
length-image v = refl

-- The block of a position, whatever the write, is the block of the log.
opened : (a : AuditLogger) (t : EventType) (d : ℕ) → a.log_head < 1024 → IsOpen (log a t d)
unfolding log
opened a t d h =
    let w = materialize-Wrote a.manifold (vaddr_of a.log_head) (image (entry_of t d)) in
    (w.slot, ap (found _) (sym (one_block a.log_head h)) ∙ w.holds_it)

logged :
    (a : AuditLogger) (t : EventType) (d : ℕ)
    → a.log_head < 1024
    → d < 2 ^ 64
    → entry_at (log a t d) a.log_head ≡ entry_of t d
unfolding log
logged a t d h m =
    ap (holographic_fetch (log a t d).manifold) (omega arith)
    ∙ fetch-materialize_self a.manifold (vaddr_of a.log_head) 0 (image (entry_of t d)) (omega arith)
        (omega (arith, length-image (entry_of t d)))
    ∙ ap value_of whole
    ∙ value_of-image (entry_of t d) [] (entry_of-lt t d) (unfold entry_of in m)
  where
    whole : take 16 (image (entry_of t d)) ≡ image (entry_of t d) ++ []
    whole = unfold image in refl

-- An event is read back at the position that it was logged at, the log is then in the manifold and
-- its head has moved on by one, round at 1024.
pub log_lem :
    (a : AuditLogger) (t : EventType) (d : ℕ)
    → a.log_head < 1024
    → d < 2 ^ 64
    → (entry_at (log a t d) a.log_head ≡ entry_of t d)
      × ((log a t d).log_head ≡ (a.log_head + 1) % 1024)
      × IsOpen (log a t d)
unfolding log
log_lem a t d h m = (logged a t d h m, omega arith, opened a t d h)

-- In an open log no other position changes.
pub log_keeps :
    (a : AuditLogger) (t : EventType) (d i : ℕ)
    → a.log_head < 1024
    → IsOpen a
    → i < 1024
    → i ≢ a.log_head
    → entry_at (log a t d) i ≡ entry_at a i
unfolding log
log_keeps a t d i h open_ hi ne =
    fetch-materialize_same_block a.manifold (vaddr_of a.log_head) (vaddr_of i) open_.0
      (image (entry_of t d)) (ap (found a.manifold) (one_block a.log_head h) ∙ open_.1)
      (one_block i hi ∙ sym (one_block a.log_head h))
      (elim (dec_lt i a.log_head) [
        | yes below ↦ inl (omega arith)
        | no above ↦ inr (omega (arith, length-image (entry_of t d)))
      ])

log-head :
    (a : AuditLogger) (t : EventType) (d : ℕ)
    → a.log_head < 1024
    → (log a t d).log_head ≡ (a.log_head + 1) % 1024
unfolding log
log-head a t d h = omega arith

-- The events one after the other.
unfoldable pub log_all : AuditLogger → List (EventType × ℕ) → AuditLogger
log_all a [] = a
log_all a ((t, d) ∷ es) = log_all (log a t d) es

abbrev pub IsEvents : List (EventType × ℕ) → Type 0
IsEvents [] = Unit {0}
IsEvents ((t, d) ∷ es) = (d < 2 ^ 64) × IsEvents es

-- A position further ahead of the head than there are events keeps its entry.
log_all_keeps :
    (es : List (EventType × ℕ)) (a : AuditLogger) (i : ℕ)
    → a.log_head < 1024
    → IsOpen a
    → i < 1024
    → length es ≤ (i + 1024 - a.log_head) % 1024
    → entry_at (log_all a es) i ≡ entry_at a i
unfolding log_all
log_all_keeps [] a i h o p far = refl
log_all_keeps ((t, d) ∷ es) a i h o p far =
    let e : (log a t d).log_head ≡ (a.log_head + 1) % 1024 = log-head a t d h in
    log_all_keeps es (log a t d) i (omega arith) (opened a t d h) p (omega arith)
    ∙ log_keeps a t d i h o p (omega arith)

-- Of a run of at most 1024 events, each is read back from the log at its distance from where the
-- head was.
pub log_all_lem :
    (es : List (EventType × ℕ)) (a : AuditLogger) (i : ℕ) (e : EventType × ℕ)
    → a.log_head < 1024
    → length es ≤ 1024
    → IsEvents es
    → get_elem? es i ≡ some e
    → entry_at (log_all a es) ((a.log_head + i) % 1024) ≡ entry_of e.0 e.1
unfolding log_all
log_all_lem [] a i e h l v at_ = cc
log_all_lem ((t, d) ∷ es) a zero e h l v at_ =
    let g : (log a t d).log_head ≡ (a.log_head + 1) % 1024 = log-head a t d h in
    ap (λ p. entry_at (log_all (log a t d) es) p) (omega arith)
    ∙ log_all_keeps es (log a t d) a.log_head (omega arith) (opened a t d h) h (omega arith)
    ∙ logged a t d h v.0
    ∙ (let q : (t, d) ≡ e = cc in ap (λ p. entry_of p.0 p.1) q)
log_all_lem ((t, d) ∷ es) a (suc i) e h l v at_ =
    let g : (log a t d).log_head ≡ (a.log_head + 1) % 1024 = log-head a t d h in
    ap (λ p. entry_at (log_all (log a t d) es) p) (omega arith)
    ∙ log_all_lem es (log a t d) i e (omega arith) (omega arith) v.1 at_
