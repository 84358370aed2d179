-- ===== src/Memory.antt =====
-- The memory interfaces of include/load/memory and the blocks of src/memory_block.hpp.
-- A pointer is the number of its address, 0 for nullptr, and a local buffer is the list of its
-- bytes. The managers act on an abstract state `S`, which holds the memory of the processes.
pub mod Bytes
pub mod Manager
pub mod Block
pub mod Access
pub mod Slice
pub mod Ownership
pub mod Owners
pub mod Endian
pub mod Scope
pub mod Flat
pub mod Paged
pub mod Identity
pub mod Tracks
pub mod Owns
pub mod Quiet
pub mod Ledger
mod OwnersTests
mod Tests
