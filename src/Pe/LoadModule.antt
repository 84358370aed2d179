-- ===== src/Pe/LoadModule.antt =====
-- load_pe_module of src/pe/load_module.cpp, the life of an OwnedPEModule of src/pe/module.hpp, and
-- load_module of src/load_module.cpp.
use libload.Common.{
  [], ok, Result, throw, Error, ℕ, Bool, Eff, ◌>>=◌, ◌>>◌, pure, Option, none, some, if◌then◌else◌,
}
use libload.Memory.Block.{
  owned_memory, move_block, OwnedMemoryBlock, memory_block, release, destroy,
}
use libload.Memory.Scope.{guarded, scoped}
use libload.Module.Provider.{Module, ModuleProvider, MapCell, module_cache_get, dereferenced}
use libload.Pe.Format.{VirtualImage, FileImage}
use libload.Pe.Load.{Surroundings, load_pe_image}
use libload.Pe.Process.{Process, DllCode, initialize_dll, deinitialize_dll}

-- `process` is `none` where the pointer is null. `module_image` is the view of a block that the module
-- refers to.
pub record OwnedPeModule (S : Type 0) : Type 0 where
  pub image_mem : OwnedMemoryBlock S
  pub module_image : VirtualImage S
  pub module_cache : ModuleProvider S (Module S)
  pub process : Option (Process S)

module _ {S : Type 0} where
  -- The constructor.
  abbrev pub owned_pe_module :
      Surroundings S → Process S → ℕ → ℕ → ModuleProvider S (Module S) → OwnedPeModule S
  owned_pe_module u process image_ptr image_size module_cache = record {
    image_mem = memory_block process.memory_manager image_ptr image_size;
    module_image = u.virtual_image (memory_block process.memory_manager image_ptr image_size);
    module_cache = module_cache;
    process = some process;
  }

  -- The moving constructor: the new module, and what is left of the other one. The views of both are of
  -- the other one's block, without memory now. The cache is handed on; what the other one's is then, no
  -- later use of it can show.
  unfoldable pub move_owned_pe_module :
      Surroundings S → OwnedPeModule S → OwnedPeModule S × OwnedPeModule S
  unfolding move_block release
  move_owned_pe_module u other =
      let (image_mem, left) = move_block {mo = owned_memory} other.image_mem in
      (
        record other { image_mem = image_mem; module_image = u.virtual_image left },
        record other { image_mem = left; module_image = u.virtual_image left; process = none },
      )

  -- The cache of the module's imports lives in the cell; its modules are handles, and `deref` gives
  -- their methods.
  abbrev pub cache_of :
      {M : Type 0}
      → (M → Module S)
      → MapCell S (Option M)
      → ModuleProvider S M
      → ModuleProvider S (Module S)
  cache_of deref cell module_provider = record {
    get_module = dereferenced deref (module_cache_get cell module_provider);
  }

module _ {S : Type 0} (u : Surroundings S) (code : DllCode S) where
  abbrev pub leave_process :
      VirtualImage S → OwnedMemoryBlock S → Option (Process S) → Eff S (Unit {0})
  leave_process module_image image_mem none = pure tt
  leave_process module_image image_mem (some process) =
      deinitialize_dll code module_image process image_mem

  -- What leaves a destructor by an exception ends the program.
  abbrev pub in_destructor : Result (Unit {0}) × S → Result (Unit {0}) × S
  in_destructor (ok x, s) = (ok x, s)
  in_destructor (throw e, s) = (throw Error.terminate, s)

  module _ {M : Type 0} (cell : MapCell S (Option M)) where
    -- The end of the cache: its map drops the modules that were imported. A cache that was handed on by a
    -- move has no modules left.
    abbrev pub drop_cache : Option (Process S) → Eff S (Unit {0})
    drop_cache none s = (ok tt, s)
    drop_cache (some process) s = (ok tt, cell.assign [] s)

    -- The destructor, with those of the cache and, at last, the block behind it.
    unfoldable pub destroy_module : OwnedPeModule S → Eff S (Unit {0})
    unfolding scoped
    destroy_module self s = in_destructor (
        scoped self.image_mem
          (leave_process self.module_image self.image_mem self.process >> drop_cache self.process)
          s)

  module _ {M : Type 0} (deref : M → Module S) (cell : MapCell S (Option M)) where
    -- The cache is empty when it is made. What initialize_dll returns is not looked at. The block is destroyed if initialize_dll throws,
    -- and, once it is released, at the end.
    unfoldable pub load_pe_module :
        FileImage S → ModuleProvider S M → Process S → Eff S (OwnedPeModule S)
    unfolding guarded release destroy
    load_pe_module image_data module_provider into_process = do
      (λ s. (ok tt, cell.assign [] s))
      let module_cache = cache_of deref cell module_provider
      image_mem ← load_pe_image u image_data into_process.memory_manager module_cache
      ready ←
          guarded image_mem (initialize_dll code (u.virtual_image image_mem) into_process image_mem)
      let loaded =
          owned_pe_module u into_process image_mem.mem_pointer image_mem.mem_size module_cache
      destroy (release image_mem)
      pure loaded

    -- load_module, for data that peplus finds valid in a format, or not. `none` is the null pointer.
    unfoldable pub load_module :
        (valid_64 valid_32 : Bool)
        → (image_64 image_32 : FileImage S) → ModuleProvider S M
        → Process S
        → Eff S (Option (OwnedPeModule S))
    unfolding load_pe_module
    load_module valid_64 valid_32 image_64 image_32 module_provider into_process =
        if valid_64
        then (do loaded ← load_pe_module image_64 module_provider into_process; pure (some loaded))
        else if valid_32
        then (do loaded ← load_pe_module image_32 module_provider into_process; pure (some loaded))
        else pure none
