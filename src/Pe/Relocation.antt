-- ===== src/Pe/Relocation.antt =====
-- Base relocations: apply_pe_relocation_entry and the two apply_pe_image_relocations functions of
-- src/pe/image.hpp. The uninitialised variables of the accesses are the argument `uninit`, by size.
use libload.Common.{
  ℕ, ◌+◌, ◌%◌, ◌^◌, List, [], ◌∷◌, Eff, ok, ◌>>=◌, ◌>>◌, pure, raise, Error, ◌-64◌,
}
use libload.Memory.Manager.{MemoryManager}
use libload.Memory.Block.{
  MemoryOwnership, MemoryBlock, MutableMemoryBuffer, as_buffer, get_memory_block_slice, write,
}
use libload.Memory.Scope.{LocalMemory, scoped, copy_into_local_memory}
use libload.Memory.Endian.{modify_le_value_at}
use libload.Pe.Format.{
  RelocationType, rel_based_absolute, rel_based_highlow, rel_based_dir64, rel_based_other,
  RelocationEntry, BaseRelocation, VirtualImage,
}

module _ {S : Type 0} (uninit : ℕ → List ℕ) (image : VirtualImage S) where
  -- The switch over the type; `x + std::int32_t(base_diff)` on std::uint32_t, and the like on 64
  -- bits, wrap.
  abbrev pub apply_pe_relocation_type :
      RelocationType → (reloc_offs base_diff : ℕ) → MutableMemoryBuffer S → Eff S (Unit {0})
  apply_pe_relocation_type rel_based_absolute reloc_offs base_diff relblock_mem = pure tt
  apply_pe_relocation_type rel_based_highlow reloc_offs base_diff relblock_mem =
      modify_le_value_at 4 (uninit 4) relblock_mem reloc_offs
        (λ x. (x + base_diff % 2 ^ 32) % 2 ^ 32)
  apply_pe_relocation_type rel_based_dir64 reloc_offs base_diff relblock_mem =
      modify_le_value_at 8 (uninit 8) relblock_mem reloc_offs (λ x. (x + base_diff) % 2 ^ 64)
  apply_pe_relocation_type (rel_based_other t) reloc_offs base_diff relblock_mem =
      raise Error.runtime_error

  unfoldable pub apply_pe_relocation_entry :
      BaseRelocation → RelocationEntry → ℕ → MutableMemoryBuffer S → Eff S (Unit {0})
  unfolding modify_le_value_at
  apply_pe_relocation_entry base_reloc reloc_entry base_address relblock_mem s =
      let reloc_offs = reloc_entry.address -64 base_reloc.virtual_address in
      let preferred_base = (image.optional_header s).image_base in
      let base_diff = base_address -64 preferred_base in
      apply_pe_relocation_type reloc_entry.kind reloc_offs base_diff relblock_mem s

  -- The loop over the entries of a block of relocations.
  unfoldable pub apply_entries :
      BaseRelocation → List RelocationEntry → ℕ → MutableMemoryBuffer S → Eff S (Unit {0})
  unfolding apply_pe_relocation_entry
  apply_entries base_reloc [] base_address relblock_mem = pure tt
  apply_entries base_reloc (e ∷ es) base_address relblock_mem = do
    apply_pe_relocation_entry base_reloc e base_address relblock_mem
    apply_entries base_reloc es base_address relblock_mem

  -- The loops run over the blocks of relocations that the view shows when they start; an assertion of
  -- the source is not translated (NDEBUG).
  module _ {mo : MemoryOwnership} (image_mem : MemoryBlock mo S) where
    unfoldable pub relocate_direct : List BaseRelocation → Eff S (Unit {0})
    unfolding apply_entries
    relocate_direct [] = pure tt
    relocate_direct (base_reloc ∷ relocs) = do
      relblock_slice ←
          get_memory_block_slice image_mem base_reloc.virtual_address base_reloc.size_of_block
      apply_entries base_reloc base_reloc.entries image_mem.mem_pointer (as_buffer relblock_slice)
      relocate_direct relocs

    unfoldable pub apply_pe_image_relocations_direct : Eff S (Unit {0})
    unfolding relocate_direct
    apply_pe_image_relocations_direct s = relocate_direct (image.base_relocations s) s

    module _ (current : MemoryManager S) (local : LocalMemory S) where
      unfoldable pub relocate_indirect : List BaseRelocation → Eff S (Unit {0})
      unfolding apply_entries copy_into_local_memory scoped
      relocate_indirect [] = pure tt
      relocate_indirect (base_reloc ∷ relocs) = do
        let relblock_size = base_reloc.size_of_block
        relblock_slice ← get_memory_block_slice image_mem base_reloc.virtual_address relblock_size
        relblock_copy ← copy_into_local_memory current local relblock_slice
        scoped relblock_copy (do
          apply_entries base_reloc base_reloc.entries image_mem.mem_pointer
              (as_buffer relblock_copy)
          copied ← (λ s. (ok (local.load relblock_copy.mem_pointer relblock_size s), s))
          written ← write relblock_slice 0 copied relblock_size
          pure tt)
        relocate_indirect relocs

      unfoldable pub apply_pe_image_relocations_indirect : Eff S (Unit {0})
      unfolding relocate_indirect
      apply_pe_image_relocations_indirect s = relocate_indirect (image.base_relocations s) s
