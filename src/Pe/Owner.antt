-- ===== src/Pe/Owner.antt =====
-- Who owns the image's memory after load_pe_module of src/pe/load_module.cpp, and until the destructor of
-- OwnedPEModule of src/pe/module.hpp.
use libload.Common.{◌>>◌, refl, Option, [], ℕ, ◌≡◌, ◌≢◌, Bool, ok, throw, Error, arith, ◌==◌, false}
use libload.Memory.Block.{OwnedMemoryBlock, memory_block, destroy, release}
use libload.Memory.Scope.{guarded, scoped}
use libload.Module.Provider.{Module, ModuleProvider, MapCell}
use libload.Pe.Format.{FileImage}
use libload.Pe.Load.{Surroundings, load_pe_image}
use libload.Pe.Process.{Process, DllCode, initialize_dll, deinitialize_dll}
use libload.Pe.LoadModule.{
  OwnedPeModule, move_owned_pe_module, leave_process, in_destructor, cache_of, owned_pe_module,
  load_pe_module, destroy_module, drop_cache,
}

abbrev pub image_block : {S : Type 0} → Process S → ℕ → ℕ → OwnedMemoryBlock S
image_block process mem size = memory_block process.memory_manager mem size

module _ {S : Type 0} (u : Surroundings S) (code : DllCode S) (process : Process S) (mem size : ℕ)
    (set : mem ≢ 0) where
  abbrev image_mem : OwnedMemoryBlock S
  image_mem = image_block process mem size

  module _ {M : Type 0} (deref : M → Module S) (cell : MapCell S (Option M))
      (image_data : FileImage S) (module_provider : ModuleProvider S M) (s s₁ : S)
      (loaded : load_pe_image u image_data process.memory_manager
          (cache_of deref cell module_provider)
          (cell.assign [] s)
        ≡ (ok image_mem, s₁)) where
    -- If the image is loaded with a new cache of its imports, at an address other than 0, and its
    -- initialization returns, the module that owns the image's memory is returned and nothing is
    -- released, whatever the initialization has returned: also if the DLL has refused to be
    -- loaded.
    pub load_pe_module-owned :
        (ready : Bool) {s₂ : S}
        → initialize_dll code (u.virtual_image image_mem) process image_mem s₁ ≡ (ok ready, s₂)
        → load_pe_module u code deref cell image_data module_provider process s
          ≡ (ok (owned_pe_module u process mem size (cache_of deref cell module_provider)), s₂)
    unfolding load_pe_module guarded destroy release
    load_pe_module-owned ready initialized = rw (loaded, initialized)

    -- If the image is loaded with a new cache and its initialization throws, the image's memory, which is not null, is
    -- released with its size, once, and the exception goes on, if the release does not throw itself.
    pub load_pe_module-release :
        {s₂ s₃ : S} {e : Error}
        → initialize_dll code (u.virtual_image image_mem) process image_mem s₁ ≡ (throw e, s₂)
        → process.memory_manager.release mem size s₂ ≡ (ok tt, s₃)
        → load_pe_module u code deref cell image_data module_provider process s ≡ (throw e, s₃)
    unfolding load_pe_module guarded destroy
    load_pe_module-release failed released =
        let nonzero : (mem == 0) ≡ false = ground arith in rw (loaded, failed, nonzero, released)

  -- The destructor of a module whose image's memory is not null runs deinitialize_dll, empties the
  -- cache of its imports, and then releases the memory with its size, once, if neither throws.
  pub destroy_module-release :
      {M : Type 0} (cell : MapCell S (Option M)) (module_cache : ModuleProvider S (Module S))
      (s s₁ s₂ : S)
      → deinitialize_dll code (u.virtual_image image_mem) process image_mem s ≡ (ok tt, s₁)
      → process.memory_manager.release mem size (cell.assign [] s₁) ≡ (ok tt, s₂)
      → destroy_module u code cell (owned_pe_module u process mem size module_cache) s ≡ (ok tt, s₂)
  unfolding destroy_module scoped destroy
  destroy_module-release cell module_cache s s₁ s₂ told released =
      let nonzero : (mem == 0) ≡ false = ground arith in rw (told, nonzero, released)

module _ {S : Type 0} (u : Surroundings S) (code : DllCode S) {M : Type 0}
    (cell : MapCell S (Option M)) where
  -- Once a module is moved, the destructor of what is left does nothing; that of the new module notifies
  -- the DLL and gives the memory back as before, but reads the image through the other module's block,
  -- which the move has released.
  pub destroy_module-moved :
      (self : OwnedPeModule S) (s : S)
      → let (target, left) = move_owned_pe_module u self in
        (destroy_module u code cell left s ≡ (ok tt, s))
        × (destroy_module u code cell target s
            ≡ in_destructor u code (
                scoped self.image_mem
                  (leave_process u code
                      (u.virtual_image (release self.image_mem))
                      self.image_mem
                      self.process
                    >> drop_cache u code cell self.process)
                  s))
  unfolding destroy_module move_owned_pe_module scoped destroy release
  destroy_module-moved self s = (refl, refl)
