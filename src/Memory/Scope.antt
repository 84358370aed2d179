-- ===== src/Memory/Scope.antt =====
-- Blocks as local variables: their destructors at the end of a scope, and copy_into_local_memory of
-- src/memory_block.hpp.
use libload.Common.{ℕ, List, Eff, Result, ok, throw, ◌>>=◌, pure, Error}
use libload.Memory.Manager.{MemoryManager}
use libload.Memory.Block.{
  MemoryOwnership, owned_memory, MemoryBlock, OwnedMemoryBlock, memory_block, destroy, read,
}

-- The memory of the process that runs the code, as the code reads and writes it through pointers.
pub record LocalMemory (S : Type 0) : Type 0 where
  pub load : ℕ → ℕ → S → List ℕ
  pub store : ℕ → List ℕ → S → S

module _ {S : Type 0} where
  -- What is left of an outcome once a destructor has run: one that throws ends the program.
  abbrev pub after_destructor : {A : Type 0} → Result A → Result (Unit {0}) × S → Result A × S
  after_destructor r (ok _, s) = (r, s)
  after_destructor r (throw e, s) = (throw Error.terminate, s)

  abbrev pub unwind : {A : Type 0} → (S → Result (Unit {0}) × S) → Result A × S → Result A × S
  unwind clean (ok a, s) = (ok a, s)
  unwind clean (throw e, s) = after_destructor (throw e) (clean s)

  abbrev pub leave : {A : Type 0} → (S → Result (Unit {0}) × S) → Result A × S → Result A × S
  leave clean (r, s) = after_destructor r (clean s)

  -- The block is destroyed if the body throws; otherwise it is handed on.
  unfoldable pub guarded :
      {mo : MemoryOwnership} {A : Type 0} → MemoryBlock mo S → Eff S A → Eff S A
  guarded block body s = unwind (destroy block) (body s)

  -- The block is destroyed at the end of the body, however it ends.
  unfoldable pub scoped : {mo : MemoryOwnership} {A : Type 0} → MemoryBlock mo S → Eff S A → Eff S A
  scoped block body s = leave (destroy block) (body s)

  -- `current` is the manager of the current process. The read writes at once to the local memory
  -- that the copy has: `local.load` gives the bytes that were there.
  unfoldable pub copy_into_local_memory :
      {mo : MemoryOwnership}
      → MemoryManager S
      → LocalMemory S
      → MemoryBlock mo S
      → Eff S (OwnedMemoryBlock S)
  unfolding guarded
  copy_into_local_memory current local mem_block = do
    let size = mem_block.mem_size
    mem ← current.allocate 0 size
    guarded (memory_block {mo = owned_memory} current mem size) (do
      old ← (λ s. (ok (local.load mem size s), s))
      (count, bytes) ← read mem_block 0 size old
      put ← (λ s. (ok tt, local.store mem bytes s))
      pure (memory_block current mem size))
