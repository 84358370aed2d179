-- ===== src/Pe/Balance.antt =====
-- What load_pe_image of src/pe/image.hpp, load_pe_module of src/pe/load_module.cpp and the destructor of
-- OwnedPEModule of src/pe/module.hpp leave of the allocations that they make.
use libload.Common.{
  ℕ, ◌≡◌, sym, subst, List, and_then_assoc, ◌>>◌, pure, Leaves, Leaves-then, Leaves-pure, Leaves-if,
  Yields-bind, Yields-pure,
}
use libload.Memory.Manager.{MemoryManager}
use libload.Memory.Block.{owned_memory, memory_block}
use libload.Memory.Tracks.{Tracks}
use libload.Memory.Owns.{Owns, allocation-Owns}
use libload.Memory.Quiet.{block-BufferLeaves}
use libload.Module.Provider.{Module, ModuleProvider}
use libload.Pe.Format.{FileImage}
use libload.Pe.Sections.{allocate_pe_image}
use libload.Pe.Load.{Surroundings, fill_pe_image, load_pe_image}
use libload.Pe.Quiet.{
  ReadsQuietly, AnswersQuietly, headers_direct-Leaves, headers_indirect-Leaves,
  image_sections_direct-Leaves, image_sections_indirect-Leaves, image_relocations_direct-Leaves,
  image_relocations_indirect-Leaves, imports-Leaves, permissions-Leaves, discardable-Leaves,
}

module _ {S : Type 0} {live : S → List (ℕ × ℕ)} (u : Surroundings S)
    (current : Tracks live u.current)
    (stores : (mem : ℕ) (bytes : List ℕ) (s : S) → live (u.local.store mem bytes s) ≡ live s)
    {src_image : FileImage S} (reads : ReadsQuietly live src_image)
    {memory_manager : MemoryManager S} (t : Tracks live memory_manager)
    {mod_provider : ModuleProvider S (Module S)} (answers : AnswersQuietly live mod_provider) where
  fill_pe_image-Leaves :
      (mem size : ℕ)
      → Leaves live (
          fill_pe_image u src_image memory_manager mod_provider
            (memory_block memory_manager mem size))
  unfolding fill_pe_image
  fill_pe_image-Leaves mem size =
      let image = u.virtual_image (memory_block memory_manager mem size) in
      Leaves-then
        (Leaves-if memory_manager.allows_direct_addressing _ _
          (Leaves-then (headers_direct-Leaves t owned_memory mem size reads)
            (image_sections_direct-Leaves t owned_memory mem size reads))
          (Leaves-then (headers_indirect-Leaves t owned_memory mem size reads)
            (image_sections_indirect-Leaves t owned_memory mem size reads)))
        (Leaves-then
          (Leaves-if memory_manager.allows_direct_addressing _ _
            (image_relocations_direct-Leaves u.uninit image t owned_memory mem size)
            (image_relocations_indirect-Leaves u.uninit image t owned_memory mem size current
              u.local stores))
          (Leaves-then (imports-Leaves (block-BufferLeaves t owned_memory mem size) image answers) (
            Leaves-then (permissions-Leaves t owned_memory mem size u.flags image)
              (discardable-Leaves t owned_memory mem size u.flags image))))

  -- Whatever the image is, and whether its memory is directly addressable or filled through local
  -- copies: if load_pe_image returns, the block that it returns owns the one allocation that is left, of
  -- the image's size and at an address other than 0; if any step throws, no allocation is left. The
  -- managers track their allocations, and neither the file nor the provider allocates by them.
  pub load_pe_image-Owns :
      (s : S)
      → Owns t src_image.optional_header.size_of_image
          (live s)
          (load_pe_image u src_image memory_manager mod_provider s)
  unfolding load_pe_image allocate_pe_image
  load_pe_image-Owns s =
      let header = src_image.optional_header in
      subst (Owns t header.size_of_image (live s))
        (sym
          (and_then_assoc (memory_manager.allocate header.image_base header.size_of_image s) _ _))
        (allocation-Owns t header.size_of_image header.image_base
          (λ mem.
            fill_pe_image u src_image memory_manager mod_provider
              (memory_block memory_manager mem header.size_of_image)
            >> pure (memory_block memory_manager mem header.size_of_image))
          s (λ mem. Leaves-then (fill_pe_image-Leaves mem header.size_of_image) (Leaves-pure _))
          (λ mem. Yields-bind _ (λ x. Yields-pure)))
