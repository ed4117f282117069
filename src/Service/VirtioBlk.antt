-- ===== src/Service/VirtioBlk.antt =====
-- src/vdev/virtio_blk.hpp: requests of the guest, served by the substrate service.
use emergence_os_bare_metal.Base.{
  ℕ, ◌/◌, true, List, [], Bool, true, not, Option, none, some, ◌==◌, if◌then◌else◌,
}
use emergence_os_bare_metal.Service.{SubstrateService, DiskWrite, serve_read, serve_write}

pub record VirtqDesc : Type 0 where
  pub addr : ℕ
  pub len : ℕ
  pub flags : ℕ
  pub next : ℕ

pub record VirtioBlkReq : Type 0 where
  pub kind : ℕ
  pub reserved : ℕ
  pub sector : ℕ

-- What the guest has in memory: the table at an address, the request and the bytes at one.
pub record Guest : Type 0 where
  pub desc_at : ℕ → ℕ → VirtqDesc
  pub req_at : ℕ → VirtioBlkReq
  pub bytes_at : ℕ → List ℕ

-- The service afterwards, the calls of the disk, and for a read what goes to the buffer, with whether
-- all of it does.
pub record Served : Type 0 where
  pub service : SubstrateService
  pub writes : List DiskWrite
  pub read : Option (Bool × List ℕ)

-- A request is served if the queue is 0 and the table is not null; `none` where the service has no result.
unfoldable pub handle_guest_notify : SubstrateService → Guest → ℕ → ℕ → ℕ → Option Served
handle_guest_notify s g queue_index desc_table desc_idx =
    let desc = g.desc_at desc_table desc_idx in
    let data_desc = g.desc_at desc_table desc.next in
    let req = g.req_at desc.addr in
    let sector_count = data_desc.len / 512 in
    let reading = serve_read s req.sector sector_count in
    let written : Option Served =
      elim (serve_write s req.sector sector_count (g.bytes_at data_desc.addr)) [
        | none ↦ none
        | some (s', writes) ↦ some (record { service = s'; writes = writes; read = none })
      ] in
    if not (queue_index == 0)
    then some (record { service = s; writes = []; read = none })
    else if desc_table == 0
    then some (record { service = s; writes = []; read = none })
    else if req.kind == 0
    then some (record { service = reading.1; writes = []; read = some reading.0 })
    else if req.kind == 1
    then written
    else some (record { service = s; writes = []; read = none })
