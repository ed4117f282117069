-- ===== src/AuditLog.antt =====
-- src/vdev/audit_log.hpp: the circular log of events in one virtual block of the manifold.
pub mod History
mod Tests
use emergence_os_bare_metal.Base.{ℕ, ◌+◌, ◌*◌, ◌%◌, bit_or, u64, ◌<<<◌}
use emergence_os_bare_metal.Manifold.{Manifold, Value128, image, materialize_range}

abbrev pub log_base_vaddr : ℕ
log_base_vaddr = 0xFFFFFF0000000000

pub record AuditLogger : Type 0 where
  pub manifold : Manifold
  pub log_head : ℕ

-- `enum EventType : uint8_t`.
pub data EventType : Type 0 where
  boot seal import auth_fail bypass_engaged : EventType

unfoldable pub code : EventType → ℕ
code boot = 0x01
code seal = 0x02
code import = 0x03
code auth_fail = 0x04
code bypass_engaged = 0x05

unfoldable pub entry_of : EventType → ℕ → Value128
unfolding code
entry_of type_ metadata = record { hi = bit_or (u64 (code type_ <<< 56)) 0xDEADBEEF; lo = metadata }

abbrev pub vaddr_of : ℕ → ℕ
vaddr_of head = u64 (log_base_vaddr + u64 (head * 16))

unfoldable pub log : AuditLogger → EventType → ℕ → AuditLogger
log a type_ metadata = record {
  manifold = materialize_range a.manifold (vaddr_of a.log_head) (image (entry_of type_ metadata));
  log_head = u64 (a.log_head + 1) % 1024;
}
