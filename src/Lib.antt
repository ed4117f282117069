-- ===== src/Lib.antt =====
-- Verification of the EmergenceOS bare-metal kernel.
--
-- The kernel keeps its data in 128-bit values. Each has a payload and a ten-bit route in its top bits.
--
-- Base: lists, bytes, machine words and bit operations that the other modules share. Numbers are
-- naturals; a w-bit result is written with `% 2 ^ w` (`u8`, `u16`, `u32`, `u64`).
--
-- Bmt: src/vdev/bmt_topology.hpp. Bmt.Value is `Value128`, Bmt.Block is `Block` with the loops of
-- `write_block_data` and `read_block_data`, Bmt.Topology the class `Topology` with `write_chain`,
-- `read_chain` and `clear_blocks`, Bmt.Keys `KeyDerivation` and `LensGenerator`, Bmt.Image
-- `initialize`, `save_image`, `load_image` and `obfuscate`. A pointer with a length is the list of the
-- bytes, a null block is `none`, a file is the list of its bytes. The read loop takes as many rounds
-- as bytes are wanted, and each round copies one at least.
--
-- Manifold: src/vdev/topology.hpp, `SubstrateManifold`. The pool is a function from offsets to bytes, so
-- that a copy past the end of a block lands where it does in memory; the tables of the 1024 slots are
-- functions from indices. The program's pool ends after 1024 slots; what lies behind it is not
-- modelled, and a copy that runs on there is outside of what is said of `materialize_range`.
--
-- AuditLog: src/vdev/audit_log.hpp, on top of Manifold.
--
-- StateEngine: src/core/state_engine.hpp; the manifold is asked after 64 speculative steps.
--
-- Transducer: src/core/logic_transducer.hpp. Transducer.Symbols is about the symbol table, Transducer.Atoms
-- about burning and resolving. A C string is the list of its characters up to the terminator.
--
-- SubShannon: src/vdev/context_driven_engine.hpp. The static arrays of `phase_fold` and its
-- output have their sizes: a write past an end is no result, as it has no defined behaviour. The 16-bit
-- counter of `noise_at` ends for entries below 65535, which the bound of 917490 bytes on a buffer ensures.
--
-- Service: src/vdev/substrate_service.hpp and src/vdev/virtio_blk.hpp. The disk behind the service is an
-- interface without code here; its calls come out as a list. Guest memory is given as functions.
--
-- Memory: src/mm/memory.cpp, the allocator.
--
-- Sha256: src/crypto/sha256.hpp. Sha256.Stream is about `update`; the loop over whole blocks takes as many
-- rounds as there are bytes, of which it needs one in 64, and the padding at most 64.
--
-- Predictive: src/core/predictive_topology.hpp, the ring of 256 records over Manifold; its loop takes at most
-- 256 rounds. `SPECULATIVE_ROUTE` is a parameter: no file declares it.
--
-- Keyboard: src/hal/keyboard.hpp. The controller behind the two ports is an interface, `Controller`, and
-- `IsQueue` says that it hands out its codes in order. The endless loops take fuel: a round for each code
-- that waits, and one more, is enough to use them up. The echo on the screen is left out.
--
-- Graphics: src/hal/vga.hpp, with the glyphs of src/hal/font.cpp in Graphics.Font. A buffer is a function
-- from pixel indices to colors. A 64-bit number has 20 digits at most.
--
-- Resources: src/mm/dynamic_allocator.hpp.
--
-- Identity: src/crypto/argon2_hardener.hpp and src/crypto/consensus_keygen.hpp. What `cpuid` returns is an
-- argument.
--
-- Journal: src/vdev/residue_persistence.hpp over the disk interface of src/vdev/substrate_io.hpp, which
-- `SubstrateIo` has as operations and Journal.Recovery's `IsDisk` as a law. `SPECULATIVE_ROUTE` is a
-- parameter, the calls of `inject_restored_atom` come out as a list, and what unset memory holds is an
-- argument. The search for the end of the journal is over its 62500 sectors.
--
-- Pci: src/hal/pci.hpp; what the two ports return is a function of the address.
--
-- Ahci: src/hal/ahci.hpp. The registers of the controller are the interface `Hba`. The wait for the port
-- has the program's million polls; the wait for the end of a command is endless and takes fuel. Ahci.Setup
-- is `setup_port` over the interface `HbaPort`; its endless wait takes fuel too, one round for each read
-- until the port stops.
--
-- Interrupts: src/hal/idt.cpp, src/hal/idt.hpp and src/hal/timer.hpp; port writes come out as a list.
--
-- Tvm: src/core/tvm.hpp on x86-64. The interface `Processor` has the guest and the code of the handlers;
-- a round of fuel for each exit is enough.
--
-- Kernel: src/boot/kmain.cpp, the shell and the menu before it. Scan codes come as a list, one for each
-- pulse. Kernel.Screen adds what they draw; the cube takes 512 rounds of fuel for each line.
--
-- Boot: src/boot/kmain.cpp, the walk over the boot tags; memory is a function from addresses to bytes. A
-- round of fuel for each eight bytes of tags, and one more, is enough if no tag has size 0.
--
-- Graphics.Line, Graphics.Cube and Graphics.Quad: `draw_line` and `draw_spinning_cube` of src/hal/vga.hpp
-- and src/hal/vga_render.cpp. An `int` is an integer; where a value of
-- `draw_line` does not fit 32 bits, or the cube gets a frame that is no `int` 16 later, the code has no
-- defined behaviour and the model no result. A line takes fuel; one round for each step of its longer
-- side, and one more, is enough, and 512 for each line of the cube.
--
-- Panel: src/hal/neumann_control_panel.hpp, over the models of the screen and the manifold.
--
-- Memory.Bytes: the byte routines of src/mm/memory.cpp; memory is a function from addresses to bytes.
--
-- Vmx: src/core/vmx_impl.hpp. The privileged instructions are the interface `Cpu`, with what its registers
-- keep as the law `IsCpu`.
--
-- Serial: src/hal/serial.hpp and the logging of src/hal/idt.hpp over the interface `Uart`; the handlers
-- that use it are in Interrupts.Faults. A byte sent before the transmitter is empty may be lost: its law
-- says what an empty one does. The endless wait for the line takes fuel, and as many polls as
-- the device needs are enough.
--
-- Iommu: src/hal/iommu_hybrid.hpp on x86-64; register writes come out as a list.
--
-- Not modelled: the start-up order of src/boot/kmain.cpp; the body of `initialize` of src/hal/ahci.hpp that
-- joins finding a port with its set-up; and src/core/vmx.hpp, which prints fixed lines.
pub mod Base
pub mod Bmt
pub mod Manifold
pub mod AuditLog
pub mod StateEngine
pub mod Transducer
pub mod SubShannon
pub mod Service
pub mod Memory
pub mod Sha256
pub mod Keyboard
pub mod Resources
pub mod Predictive
pub mod Graphics
pub mod Identity
pub mod Journal
pub mod Pci
pub mod Kernel
pub mod Ahci
pub mod Interrupts
pub mod Tvm
pub mod Vmx
pub mod Iommu
pub mod Serial
pub mod Boot
pub mod Panel
