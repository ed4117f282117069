-- ===== src/Service/Tests.antt =====
-- Runs of src/vdev/substrate_service.hpp and src/vdev/virtio_blk.hpp on an empty manifold, no disk.
use emergence_os_bare_metal.Base.{
  ℕ, inl, zero, suc, ◌+◌, ◌≡◌, refl, arith, List, true, false, some, replicate, length-replicate,
  IsBytes, ◌==◌, if◌then◌else◌,
}
use emergence_os_bare_metal.Manifold.{construct}
use emergence_os_bare_metal.Service.{SubstrateService, DiskWrite, serve_read, serve_write}
use emergence_os_bare_metal.Service.Sector.{serve_read-serve_write}
use emergence_os_bare_metal.Service.VirtioBlk.{Guest}

abbrev idle : SubstrateService
idle = record {
  manifold = construct (λ a. 0) (λ i. 0);
  has_disk = false;
  virtual_capacity_bytes = 1099511627776;
  highest_accessed_vaddr = 0;
  preemption_horizon = 0;
  total_bytes_written = 1;
  correction_bytes_stored = 1;
}

abbrev sevens : List ℕ
sevens = replicate 512 7

sevens-IsBytes : (n : ℕ) → IsBytes (replicate n 7)
sevens-IsBytes zero = tt
sevens-IsBytes (suc n) = (omega arith, sevens-IsBytes n)

serve_read-serve_write_example :
    (s' : SubstrateService) × (writes : List DiskWrite) × (serve_write idle 5 1 sevens
      ≡ some (s', writes))
    × ((serve_read s' 5 1).0 ≡ (true, sevens))
serve_read-serve_write_example =
    serve_read-serve_write idle 5 sevens (omega arith) (length-replicate {A = ℕ} 512 7)
      (sevens-IsBytes 512) (inl refl)

-- Descriptors 0 and 2 are requests to write and to read sector 5; 1 and 3 name the buffer.
abbrev guest : Guest
guest = record {
  desc_at = λ table i. record { addr = i; len = 512; flags = 0; next = i + 1 };
  req_at = λ a. record { kind = if a == 0 then 1 else 0; reserved = 0; sector = 5 };
  bytes_at = λ a. sevens;
}
