-- ===== src/Pe/Life.antt =====
-- The allocations over the life of a module: load_pe_module of src/pe/load_module.cpp and the destructor
-- of OwnedPEModule of src/pe/module.hpp.
use Prim.Native.String.{String}
use libload.Common.{
  ℕ, ◌+◌, ◌≡◌, ◌≢◌, refl, ◌∙◌, sym, subst, List, [], ◌∷◌, Result, ok, throw, and_then, ◌>>=◌, ◌>>◌,
  pure, Option, none, some, Bool, Leaves, Leaves-bind, Leaves-then, Leaves-pure, Leaves-raise,
  Leaves-if, ◌==◌, not,
}
use libload.Memory.Block.{owned_memory, OwnedMemoryBlock, memory_block, destroy, release}
use libload.Memory.Scope.{guarded}
use libload.Memory.Tracks.{Tracks, Kept, guarded-Kept, scoped-live}
use libload.Memory.Owns.{Owns}
use libload.Module.Provider.{Module, ModuleProvider, MapCell}
use libload.Pe.Format.{FileImage, VirtualImage}
use libload.Pe.Load.{Surroundings, load_pe_image}
use libload.Pe.Process.{
  Process, DllEvent, DllCode, registered, register_pe_image_exception_table, deregistered,
  deregister_pe_image_exception_table, invoke_callbacks, callbacks_of,
  invoke_pe_tls_callbacks_direct, invoke_dll_entry_point_direct, notify_dll_event_direct,
  initialize_dll_direct, initialize_dll, deinitialize_dll_direct, deinitialize_dll,
}
use libload.Pe.LoadModule.{
  OwnedPeModule, owned_pe_module, cache_of, load_pe_module, destroy_module, drop_cache,
  leave_process, in_destructor,
}
use libload.Pe.Quiet.{ReadsQuietly, AnswersQuietly}
use libload.Pe.Balance.{load_pe_image-Owns}

-- What is assumed of a DLL's code and of the process: to run the one and to register an exception table
-- with the other does not allocate by the manager.
pub record RunsQuietly {S X : Type 0} (obs : S → X) (code : DllCode S) (process : Process S)
    : Type 0 where
  pub tls_fn_lem :
      (fn base reserved : ℕ) (event : DllEvent) → Leaves obs (code.tls_fn fn base event reserved)
  pub dll_main_lem :
      (fn base reserved : ℕ) (event : DllEvent) → Leaves obs (code.dll_main fn base event reserved)
  pub register_lem :
      (base table size : ℕ) → Leaves obs (process.register_exception_table base table size)
  pub deregister_lem : (table : ℕ) → Leaves obs (process.deregister_exception_table table)

module _ {S X : Type 0} {obs : S → X} {code : DllCode S} {process : Process S}
    (q : RunsQuietly obs code process) (image : VirtualImage S) where
  register-Leaves : (base : ℕ) → Leaves obs (register_pe_image_exception_table image process base)
  unfolding register_pe_image_exception_table
  register-Leaves base = record { at = λ s. by_entries (image.exception_entries s) s }
    where
      by_entries : (o : Option ℕ) (s : S) → obs (registered image process base o s).1 ≡ obs s
      by_entries none s = refl
      by_entries (some offset) s = (q.register_lem _ _ _).at s

  deregister-Leaves :
      (base : ℕ) → Leaves obs (deregister_pe_image_exception_table image process base)
  unfolding deregister_pe_image_exception_table
  deregister-Leaves base = record { at = λ s. by_entries (image.exception_entries s) s }
    where
      by_entries : (o : Option ℕ) (s : S) → obs (deregistered image process base o s).1 ≡ obs s
      by_entries none s = refl
      by_entries (some offset) s = (q.deregister_lem _).at s

  callbacks-Leaves :
      (base reserved : ℕ) (event : DllEvent) (fns : List ℕ)
      → Leaves obs (invoke_callbacks code image base event reserved fns)
  unfolding invoke_callbacks
  callbacks-Leaves base reserved event [] = Leaves-pure tt
  callbacks-Leaves base reserved event (fn ∷ fns) =
      Leaves-then (q.tls_fn_lem (base + fn) base reserved event)
        (callbacks-Leaves base reserved event fns)

  notify-Leaves :
      (base reserved : ℕ) (event : DllEvent)
      → Leaves obs (notify_dll_event_direct code image base event reserved)
  unfolding notify_dll_event_direct invoke_pe_tls_callbacks_direct invoke_dll_entry_point_direct
  notify-Leaves base reserved event =
      Leaves-then {m = λ s. callbacks_of code image base event reserved (image.tls_directory s) s}
        {n = λ s.
          code.dll_main (base + (image.optional_header s).address_of_entry_point) base event
            reserved s}
        (record { at = λ s. by_directory (image.tls_directory s) s })
        (record { at = λ s. (q.dll_main_lem _ base reserved event).at s })
    where
      by_directory :
          (o : Option (List ℕ)) (s : S)
          → obs (callbacks_of code image base event reserved o s).1 ≡ obs s
      by_directory none s = refl
      by_directory (some fns) s = (callbacks-Leaves base reserved event fns).at s

  pub initialize_dll-Leaves :
      (block : OwnedMemoryBlock S) → Leaves obs (initialize_dll code image process block)
  unfolding initialize_dll initialize_dll_direct
  initialize_dll-Leaves block = Leaves-then (register-Leaves block.mem_pointer) (
      Leaves-if process.memory_manager.allows_direct_addressing _ _
        (Leaves-bind (notify-Leaves _ _ _) (λ attached.
          Leaves-if (attached == 0) _ _ (Leaves-pure _)
            (Leaves-bind (notify-Leaves _ _ _) (λ ready. Leaves-pure (not (ready == 0))))))
        (Leaves-raise _))

  pub deinitialize_dll-Leaves :
      (block : OwnedMemoryBlock S) → Leaves obs (deinitialize_dll code image process block)
  unfolding deinitialize_dll deinitialize_dll_direct
  deinitialize_dll-Leaves block =
      Leaves-then
        (Leaves-if process.memory_manager.allows_direct_addressing _ _
          (Leaves-bind (notify-Leaves _ _ _)
            (λ r. Leaves-bind (notify-Leaves _ _ _) (λ r'. Leaves-pure tt)))
          (Leaves-pure tt))
        (deregister-Leaves block.mem_pointer)

module _ {S M : Type 0} {live : S → List (ℕ × ℕ)} (u : Surroundings S)
    (current : Tracks live u.current)
    (stores : (mem : ℕ) (bytes : List ℕ) (s : S) → live (u.local.store mem bytes s) ≡ live s)
    {image_data : FileImage S} (reads : ReadsQuietly live image_data) {process : Process S}
    (t : Tracks live process.memory_manager) {code : DllCode S}
    (runs : RunsQuietly live code process) (deref : M → Module S) (cell : MapCell S (Option M))
    (assigns : (m : List (String × Option M)) (s : S) → live (cell.assign m s) ≡ live s)
    (module_provider : ModuleProvider S M)
    (answers : AnswersQuietly live (cache_of deref cell module_provider)) where
  abbrev size : ℕ
  size = image_data.optional_header.size_of_image

  abbrev loaded_at : ℕ → OwnedPeModule S
  loaded_at mem = owned_pe_module u process mem size (cache_of deref cell module_provider)

  -- An outcome with a module that owns the youngest allocation, or an exception that leaves none.
  abbrev pub OwnsModule : List (ℕ × ℕ) → Result (OwnedPeModule S) × S → Type 0
  OwnsModule older (ok loaded, s) =
      (mem : ℕ) × (mem ≢ 0) × (loaded ≡ loaded_at mem) × (live s ≡ (mem, size) ∷ older)
  OwnsModule older (throw e, s) = live s ≡ older

  after_initialization :
      (older : List (ℕ × ℕ)) (mem : ℕ) (set : mem ≢ 0) (r : Result Bool × S)
      → Kept t mem size set older r
      → OwnsModule older (
          and_then r (λ ready.
            destroy (release (memory_block {mo = owned_memory} process.memory_manager mem size))
            >> pure (loaded_at mem)))
  unfolding destroy release
  after_initialization older mem set (ok ready, s) h = (mem, set, refl, h)
  after_initialization older mem set (throw e, s) h = h

  after_load :
      (older : List (ℕ × ℕ)) (r : Result (OwnedMemoryBlock S) × S)
      → Owns t size older r
      → OwnsModule older (
          and_then r (λ image_mem.
            guarded image_mem (initialize_dll code (u.virtual_image image_mem) process image_mem)
            >>= λ ready.
                destroy (release image_mem)
                >> pure (
                    owned_pe_module u process image_mem.mem_pointer image_mem.mem_size
                      (cache_of deref cell module_provider))))
  after_load older (throw e, s) h = h
  after_load older (ok block, s) (mem, set, e, h) =
      subst
        (λ b. OwnsModule older (
          (guarded b (initialize_dll code (u.virtual_image b) process b) >>= λ ready.
          destroy (release b)
          >> pure (
              owned_pe_module u process b.mem_pointer b.mem_size
                (cache_of deref cell module_provider)))
            s))
        (sym e)
        (after_initialization older mem set
          (guarded (memory_block {mo = owned_memory} process.memory_manager mem size)
            (initialize_dll code (u.virtual_image (memory_block process.memory_manager mem size))
              process (memory_block process.memory_manager mem size))
            s)
          (guarded-Kept t mem size set _ older s (initialize_dll-Leaves runs _ _) h))

  -- The module that load_pe_module returns owns the one allocation that is left; if it throws, none is
  -- left.
  pub load_pe_module-Owns :
      (s : S)
      → OwnsModule (live s) (load_pe_module u code deref cell image_data module_provider process s)
  unfolding load_pe_module
  load_pe_module-Owns s = after_load (live s) _ (
      subst
        (λ older. Owns t size older (
          load_pe_image u image_data process.memory_manager (cache_of deref cell module_provider)
            (cell.assign [] s)))
        (assigns [] s) (load_pe_image-Owns u current stores reads t answers (cell.assign [] s)))

  after_destructor_live : (r : Result (Unit {0}) × S) → live (in_destructor u code r).1 ≡ live r.1
  after_destructor_live (ok x, s) = refl
  after_destructor_live (throw e, s) = refl

  destroy_module-live :
      (mem : ℕ)
      → mem ≢ 0
      → (older : List (ℕ × ℕ)) (s : S) → live s ≡ (mem, size) ∷ older
      → live (destroy_module u code cell (loaded_at mem) s).1 ≡ older
  unfolding destroy_module
  destroy_module-live mem set older s h =
      after_destructor_live _
      ∙ (scoped-live t mem size set
          (leave_process u code (loaded_at mem).module_image (loaded_at mem).image_mem
              (loaded_at mem).process
            >> drop_cache u code cell (loaded_at mem).process)
          older s
          (Leaves-then
            (deinitialize_dll-Leaves runs
              (u.virtual_image (memory_block process.memory_manager mem size))
              (memory_block process.memory_manager mem size))
            (record { at = λ s'. assigns [] s' }))
          h).1

  -- To load a module and then to destroy it leaves the allocations as they were, whatever fails on the
  -- way: the image's memory is released once, and no local copy is left behind. The managers track
  -- their allocations, and the file, the provider, the DLL's code, the tables of the process and the map
  -- of the cache do not allocate by them.
  pub module_life-Leaves : Leaves live (
      load_pe_module u code deref cell image_data module_provider process >>= λ loaded.
      destroy_module u code cell loaded)
  module_life-Leaves = record { at = λ s. by_outcome (live s) _ (load_pe_module-Owns s) }
    where
      by_outcome :
          (older : List (ℕ × ℕ)) (r : Result (OwnedPeModule S) × S)
          → OwnsModule older r
          → live (and_then r (λ loaded. destroy_module u code cell loaded)).1 ≡ older
      by_outcome older (ok loaded, s) (mem, set, e, h) =
          subst (λ m. live (destroy_module u code cell m s).1 ≡ older) (sym e)
            (destroy_module-live mem set older s h)
      by_outcome older (throw e, s) h = h
