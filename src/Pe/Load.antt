-- ===== src/Pe/Load.antt =====
-- load_pe_image of src/pe/image.hpp.
use libload.Common.{ℕ, List, Eff, ◌>>=◌, ◌>>◌, pure, if◌then◌else◌}
use libload.Memory.Manager.{MemoryManager}
use libload.Memory.Block.{OwnedMemoryBlock, as_buffer}
use libload.Memory.Scope.{LocalMemory, guarded}
use libload.Pe.Format.{FileImage, VirtualImage, SectionFlags}
use libload.Pe.Sections.{
  allocate_pe_image, copy_pe_image_headers_direct, copy_pe_image_headers_indirect,
  map_pe_image_sections_direct, map_pe_image_sections_indirect,
}
use libload.Pe.Relocation.{apply_pe_image_relocations_direct, apply_pe_image_relocations_indirect}
use libload.Module.Provider.{Module, ModuleProvider}
use libload.Pe.Imports.{resolve_pe_image_imports}
use libload.Pe.Permissions.{apply_pe_memory_permissions, remove_pe_discardable_sections}

-- What the load takes from its surroundings: the manager and the memory of the current process, the
-- old bytes of uninitialised variables, and peplus with its constants.
pub record Surroundings (S : Type 0) : Type 0 where
  pub current : MemoryManager S
  pub local : LocalMemory S
  pub uninit : ℕ → List ℕ
  pub flags : SectionFlags
  pub virtual_image : OwnedMemoryBlock S → VirtualImage S

module _ {S : Type 0} (u : Surroundings S) (src_image : FileImage S)
    (memory_manager : MemoryManager S) (mod_provider : ModuleProvider S (Module S)) where
  -- The steps that follow the allocation, on the image's memory.
  unfoldable pub fill_pe_image : OwnedMemoryBlock S → Eff S (Unit {0})
  fill_pe_image image_mem = do
    if memory_manager.allows_direct_addressing
        then (copy_pe_image_headers_direct src_image image_mem
            >> map_pe_image_sections_direct src_image image_mem)
        else (copy_pe_image_headers_indirect src_image image_mem
            >> map_pe_image_sections_indirect src_image image_mem)
    let dst_image = u.virtual_image image_mem
    if memory_manager.allows_direct_addressing
        then apply_pe_image_relocations_direct u.uninit dst_image image_mem
        else apply_pe_image_relocations_indirect u.uninit dst_image image_mem u.current u.local
    resolve_pe_image_imports dst_image mod_provider (as_buffer image_mem)
    apply_pe_memory_permissions u.flags image_mem dst_image
    remove_pe_discardable_sections u.flags image_mem dst_image

  -- An exception destroys the block that owns the image's memory; otherwise the block is returned.
  unfoldable pub load_pe_image : Eff S (OwnedMemoryBlock S)
  unfolding guarded fill_pe_image
  load_pe_image = do
    image_mem ← allocate_pe_image src_image memory_manager
    guarded image_mem (fill_pe_image image_mem >> pure image_mem)
