-- ===== src/Pe/Quiet/Relocations.antt =====
-- The relocations of src/pe/image.hpp leave the live allocations as they are.
use libload.Common.{
  ℕ, ◌≡◌, refl, List, [], ◌∷◌, Eff, ok, ◌>>=◌, ◌>>◌, pure, Leaves, Leaves-bind, Leaves-then,
  Leaves-pure, Leaves-raise,
}
use libload.Memory.Manager.{MemoryManager}
use libload.Memory.Block.{
  OwnedMemoryBlock, MemoryOwnership, MutableMemoryBuffer, memory_block, as_buffer, borrowed_memory,
  owned_memory, write,
}
use libload.Memory.Scope.{LocalMemory, copy_into_local_memory}
use libload.Memory.Tracks.{Tracks, write-Leaves}
use libload.Memory.Owns.{scope-Leaves}
use libload.Memory.Quiet.{
  BufferLeaves, block-BufferLeaves, modify_le-Leaves, slice-Leaves, copy_into_local_memory-Owns,
}
use libload.Pe.Format.{
  VirtualImage, RelocationType, rel_based_absolute, rel_based_highlow, rel_based_dir64,
  rel_based_other, RelocationEntry, BaseRelocation,
}
use libload.Pe.Relocation.{
  apply_pe_image_relocations_indirect, apply_pe_image_relocations_direct, apply_pe_relocation_type,
  apply_pe_relocation_entry, apply_entries, relocate_direct, relocate_indirect,
}

module _ {S X : Type 0} {obs : S → X} (uninit : ℕ → List ℕ) (image : VirtualImage S)
    {buffer : MutableMemoryBuffer S} (b : BufferLeaves obs buffer) where
  type-Leaves :
      (kind : RelocationType) (offs diff : ℕ)
      → Leaves obs (apply_pe_relocation_type uninit image kind offs diff buffer)
  type-Leaves rel_based_absolute offs diff = Leaves-pure tt
  type-Leaves rel_based_highlow offs diff = modify_le-Leaves b 4 _ _ _
  type-Leaves rel_based_dir64 offs diff = modify_le-Leaves b 8 _ _ _
  type-Leaves (rel_based_other n) offs diff = Leaves-raise _

  -- Relocation entries leave whatever the buffer's own operations leave.
  pub entries-Leaves :
      (r : BaseRelocation) (es : List RelocationEntry) (base : ℕ)
      → Leaves obs (apply_entries uninit image r es base buffer)
  unfolding apply_entries apply_pe_relocation_entry
  entries-Leaves r [] base = Leaves-pure tt
  entries-Leaves r (e ∷ es) base =
      Leaves-then (record { at = λ s. (type-Leaves e.kind _ _).at s }) (entries-Leaves r es base)

module _ {S : Type 0} {live : S → List (ℕ × ℕ)} (uninit : ℕ → List ℕ) (image : VirtualImage S) where
  module _ {manager : MemoryManager S} (t : Tracks live manager) (mo : MemoryOwnership)
      (mem size : ℕ) where
    relocate_direct-Leaves :
        (rs : List BaseRelocation)
        → Leaves live (relocate_direct uninit image (memory_block {mo = mo} manager mem size) rs)
    unfolding relocate_direct
    relocate_direct-Leaves [] = Leaves-pure tt
    relocate_direct-Leaves (r ∷ rs) =
        slice-Leaves mo manager mem size r.virtual_address r.size_of_block _ (λ n.
          Leaves-then
            (entries-Leaves uninit image (block-BufferLeaves t borrowed_memory mem n) r r.entries
              mem)
            (relocate_direct-Leaves rs))

    pub image_relocations_direct-Leaves :
        Leaves live
          (apply_pe_image_relocations_direct uninit image (memory_block {mo = mo} manager mem size))
    unfolding apply_pe_image_relocations_direct
    image_relocations_direct-Leaves = record {
      at = λ s. (relocate_direct-Leaves (image.base_relocations s)).at s;
    }

    module _ {current : MemoryManager S} (t' : Tracks live current) (local : LocalMemory S)
        (stores : (mem : ℕ) (bytes : List ℕ) (s : S)
          → live (local.store mem bytes s) ≡ live s) where
      -- What is done with the local copy of a block of relocations.
      abbrev relocate_copy : BaseRelocation → ℕ → OwnedMemoryBlock S → Eff S (Unit {0})
      relocate_copy r n copy = do
        apply_entries uninit image r r.entries mem (as_buffer copy)
        copied ← (λ s. (ok (local.load copy.mem_pointer r.size_of_block s), s))
        written ← write (memory_block {mo = borrowed_memory} manager mem n) 0 copied r.size_of_block
        pure tt

      relocate_copy-Leaves :
          (r : BaseRelocation) (n at : ℕ)
          → Leaves live (relocate_copy r n (memory_block current at n))
      relocate_copy-Leaves r n at =
          Leaves-then
            (entries-Leaves uninit image (block-BufferLeaves t' owned_memory at n) r r.entries mem)
            (Leaves-bind {m = λ s. (ok (local.load at r.size_of_block s), s)}
              (record { at = λ s. refl })
              (λ copied.
                Leaves-bind (write-Leaves t borrowed_memory mem n 0 copied r.size_of_block)
                  (λ written. Leaves-pure tt)))

      relocate_indirect-Leaves :
          (rs : List BaseRelocation)
          → Leaves live (
              relocate_indirect uninit image
                (memory_block {mo = mo} manager mem size)
                current
                local
                rs)
      unfolding relocate_indirect
      relocate_indirect-Leaves [] = Leaves-pure tt
      relocate_indirect-Leaves (r ∷ rs) =
          slice-Leaves mo manager mem size r.virtual_address r.size_of_block _ (λ n.
            scope-Leaves t' n
              (copy_into_local_memory current local
                (memory_block {mo = borrowed_memory} manager mem n))
              (λ copy. relocate_copy r n copy) _
              (copy_into_local_memory-Owns t t' local stores borrowed_memory mem n)
              (relocate_copy-Leaves r n) (relocate_indirect-Leaves rs))

      pub image_relocations_indirect-Leaves : Leaves live (
          apply_pe_image_relocations_indirect uninit image
            (memory_block {mo = mo} manager mem size)
            current
            local)
      unfolding apply_pe_image_relocations_indirect
      image_relocations_indirect-Leaves = record {
        at = λ s. (relocate_indirect-Leaves (image.base_relocations s)).at s;
      }
