-- ===== src/Pe/Release.antt =====
-- Who owns the image's memory when load_pe_image of src/pe/image.hpp ends.
use libload.Common.{ℕ, ◌≡◌, ◌≢◌, ok, throw, Error, arith, ◌==◌, false}
use libload.Memory.Manager.{MemoryManager}
use libload.Memory.Block.{OwnedMemoryBlock, memory_block, destroy}
use libload.Memory.Scope.{guarded}
use libload.Pe.Format.{FileImage}
use libload.Module.Provider.{Module, ModuleProvider}
use libload.Pe.Sections.{allocate_pe_image}
use libload.Pe.Load.{Surroundings, fill_pe_image, load_pe_image}

module _ {S : Type 0} (u : Surroundings S) (src_image : FileImage S)
    (memory_manager : MemoryManager S) (mod_provider : ModuleProvider S (Module S)) (mem : ℕ)
    {s s₁ : S} (set : mem ≢ 0)
    (allocated : memory_manager.allocate src_image.optional_header.image_base
        src_image.optional_header.size_of_image s
      ≡ (ok mem, s₁)) where
  abbrev size : ℕ
  size = src_image.optional_header.size_of_image

  abbrev image_mem : OwnedMemoryBlock S
  image_mem = memory_block memory_manager mem size

  -- If the image's memory is allocated, at an address other than 0, and a later step throws, that
  -- memory is released with its size, once, after that step, and the exception goes on, if the
  -- release does not throw itself.
  pub load_pe_image-release :
      {s₂ s₃ : S} {e : Error}
      → fill_pe_image u src_image memory_manager mod_provider image_mem s₁ ≡ (throw e, s₂)
      → memory_manager.release mem size s₂ ≡ (ok tt, s₃)
      → load_pe_image u src_image memory_manager mod_provider s ≡ (throw e, s₃)
  unfolding load_pe_image allocate_pe_image guarded destroy
  load_pe_image-release failed released =
      let nonzero : (mem == 0) ≡ false = ground arith in
      rw (allocated, fill_pe_image, failed, nonzero, released)

  -- If no step throws, the block that owns the memory is returned, and nothing is released.
  pub load_pe_image-ok :
      {s₂ : S}
      → fill_pe_image u src_image memory_manager mod_provider image_mem s₁ ≡ (ok tt, s₂)
      → load_pe_image u src_image memory_manager mod_provider s ≡ (ok image_mem, s₂)
  unfolding load_pe_image allocate_pe_image guarded
  load_pe_image-ok filled = rw (allocated, filled)
