-- ===== src/AuditLog/Tests.antt =====
-- Runs of src/vdev/audit_log.hpp on an empty manifold.
use emergence_os_bare_metal.Base.{ℕ, ◌≡◌, refl, arith, List, [], ◌∷◌}
use emergence_os_bare_metal.Manifold.{construct}
use emergence_os_bare_metal.AuditLog.{AuditLogger, EventType, seal, auth_fail, entry_of}
use emergence_os_bare_metal.AuditLog.History.{entry_at, log_all, log_all_lem}

abbrev start : AuditLogger
start = record { manifold = construct (λ a. 0) (λ i. 0); log_head = 1023 }

abbrev two_events : List (EventType × ℕ)
two_events = (seal, 7) ∷ (auth_fail, 9) ∷ []

log_all_lem_example : entry_at (log_all start two_events) 0 ≡ entry_of auth_fail 9
log_all_lem_example =
    log_all_lem two_events start 1 (auth_fail, 9) (omega arith) (omega arith)
      (omega arith, (omega arith, tt)) refl
