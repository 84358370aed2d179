-- ===== src/Memory/Ownership.antt =====
-- Who disposes of a block's memory: the moving constructor and the destructor.
use libload.Common.{false, ◌==◌, ℕ, ◌≡◌, ◌≢◌, refl, ok, arith, ◌>>◌}
use libload.Memory.Manager.{MemoryManager}
use libload.Memory.Block.{
  MemoryOwnership, owned_memory, borrowed_memory, MemoryBlock, memory_block, release, destroy,
  move_block, is_set,
}

module _ {S : Type 0} where
  -- After a move the two destructors, in either order of the two blocks' lives, do together what
  -- the destructor of the first block would have done: the memory is disposed of once.
  pub destroy-move_block :
      {mo : MemoryOwnership} (block : MemoryBlock mo S) (s : S)
      → let (target, source) = move_block {mo = mo} block in
        ((destroy source >> destroy target) s ≡ destroy block s) × (is_set source ≡ false)
  unfolding destroy move_block is_set
  destroy-move_block block s = (refl, refl)

  -- The destructor of a block that owns non-null memory is the manager's release of that memory, with
  -- its size; that of a borrowed block does nothing, nor does that of a released one.
  pub destroy_cases :
      (manager : MemoryManager S) (mem size : ℕ) (s : S)
      → mem ≢ 0
      → (destroy (memory_block {mo = owned_memory} manager mem size) s ≡ manager.release mem size s)
        × (destroy (memory_block {mo = borrowed_memory} manager mem size) s ≡ (ok tt, s))
        × (destroy (release (memory_block {mo = owned_memory} manager mem size)) s ≡ (ok tt, s))
  unfolding destroy release
  destroy_cases manager mem size s h =
      let set : (mem == 0) ≡ false = ground arith in rw set (refl, refl, refl)
