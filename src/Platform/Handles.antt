-- ===== src/Platform/Handles.antt =====
-- The objects of class CurrentProcess and LocalProcess of src/platform/windows: the methods of Process that
-- they have, who closes the handle of a LocalProcess, and what its move leaves.
use libload.Common.{
  ℕ, ◌≡◌, ◌≢◌, refl, ◌==◌, Option, none, some, Result, ok, throw, Error, Bool, false, arith, ◌>>◌,
}
use libload.Memory.Scope.{LocalMemory}
use libload.Pe.Process.{Process}
use libload.Platform.MadeFor.{by_machine-MadeFor, open_process-MadeFor}
use libload.Platform.Win32.{MemoryCalls}
use libload.Platform.ProcessMemory.{local_process_memory}
use libload.Platform.Processes.{
  ProcessCalls, LocalProcessModuleProvider, LocalProcess, OpenedProcess, current_process,
  local_process_with, local_process, ProcessCodeGenerator, native_code_generator,
  destroy_local_process, access, open_process, as_current_process, as_local_process,
}

-- The calls of Windows for the methods: the pseudo handle, and the process that a handle stands for.
pub record IdentityCalls (S : Type 0) : Type 0 where
  pub get_current_process : ℕ
  pub get_process_id : ℕ → S → ℕ

-- CurrentProcessModuleProvider, or the provider of a LocalProcess.
pub data ProcessModuleProvider : Type 0 where
  current_process_modules : ProcessModuleProvider
  local_process_modules : LocalProcessModuleProvider → ProcessModuleProvider

-- The virtual methods of an object of class Process, those that the loader calls in `process`.
pub record ProcessMethods (S : Type 0) : Type 0 where
  pub process_id : S → ℕ
  pub native_handle : ℕ
  pub process : Process S
  pub module_provider : Result ProcessModuleProvider
  pub code_generator : Result ProcessCodeGenerator

-- To follow a null pointer is undefined behaviour.
abbrev pointed : {A B : Type 0} → (A → B) → Option A → Result B
pointed f none = throw Error.undefined
pointed f (some a) = ok (f a)

module _ {S : Type 0} (calls : ProcessCalls S) (ids : IdentityCalls S)
    (memory_calls : ℕ → MemoryCalls S) where
  abbrev pub current_process_methods : LocalMemory S → ProcessMethods S
  current_process_methods memory = record {
    process_id = λ s. calls.get_current_process_id;
    native_handle = ids.get_current_process;
    process = as_current_process calls (memory_calls ids.get_current_process) memory;
    module_provider = ok current_process_modules;
    code_generator = ok native_code_generator;
  }

  abbrev pub local_process_methods : LocalProcess → ProcessMethods S
  local_process_methods self = record {
    process_id = ids.get_process_id self.handle;
    native_handle = self.handle;
    process = as_local_process calls (memory_calls self.memory_manager.handle);
    module_provider = pointed local_process_modules self.module_provider;
    code_generator = pointed (λ g. g) self.code_generator;
  }

  abbrev pub methods : LocalMemory S → OpenedProcess → ProcessMethods S
  methods memory current_process = current_process_methods memory
  methods memory (local_process self) = local_process_methods self

-- The moving constructor: the new process, and what is left of the other one. The manager of the other
-- one keeps its handle, and the provider the address of the process that it was made for.
unfoldable pub move_local_process : LocalProcess → LocalProcess × LocalProcess
move_local_process other = (
  record {
    handle = other.handle;
    memory_manager = record { handle = other.handle };
    module_provider = other.module_provider;
    code_generator = other.code_generator;
  },
  record other { handle = 0; module_provider = none },
)

module _ {S : Type 0} (calls : ProcessCalls S) where
  destroys :
      (handle : ℕ) (provider : LocalProcessModuleProvider) (generator : ProcessCodeGenerator)
      (s : S)
      → handle ≢ 0
      → destroy_local_process calls (local_process_with handle provider generator) s
        ≡ (ok tt, calls.close_handle handle s)
  unfolding destroy_local_process
  destroys handle provider generator s set =
      let nonzero : (handle == 0) ≡ false = ground arith in rw nonzero refl

module _ {S : Type 0} (calls : ProcessCalls S) where
  -- After a move the two destructors, in either order, do together what the destructor of the first
  -- process would have done: the handle is closed once.
  pub destroy-move_local_process :
      (self : LocalProcess) (s : S)
      → let (target, source) = move_local_process self in
        ((destroy_local_process calls source >> destroy_local_process calls target) s
          ≡ destroy_local_process calls self s)
        × ((destroy_local_process calls target >> destroy_local_process calls source) s
            ≡ destroy_local_process calls self s)
  unfolding destroy_local_process move_local_process
  destroy-move_local_process self s = (refl, refl)

  module _ (ids : IdentityCalls S) (memory_calls : ℕ → MemoryCalls S) (memory : LocalMemory S) where
    -- If open_process opens another process, Windows has given a handle of it that is not null; that is
    -- the native handle of the process that it returns, whose memory is reached by that handle, not
    -- directly, and whose modules are looked for in the process that was opened; it has a code generator;
    -- and its destructor closes that handle.
    pub open_process-handle :
        (x86 x64 : Bool) (this process_id handle : ℕ) (self : LocalProcess) (s s₁ s₂ : S)
        → calls.open_process_handle access process_id s ≡ (handle, s₁)
        → open_process calls x86 x64 this process_id s ≡ (ok (local_process self), s₂)
        → let m = methods calls ids memory_calls memory (local_process self) in
          (handle ≢ 0)
          × (m.native_handle ≡ handle)
          × (m.process.memory_manager ≡ local_process_memory (memory_calls handle))
          × ((provider : LocalProcessModuleProvider) × (m.module_provider
                ≡ ok (local_process_modules provider))
              × (provider.process ≡ this))
          × ((generator : ProcessCodeGenerator) × (m.code_generator ≡ ok generator))
          × (destroy_local_process calls self s₂ ≡ (ok tt, calls.close_handle handle s₂))
    open_process-handle x86 x64 this process_id handle self s s₁ s₂ got done =
        let (set, (process, native, made)) =
          open_process-MadeFor calls x86 x64 this process_id handle self s s₁ s₂ got done in
        let (provider, generator, e, for_this) =
          by_machine-MadeFor x86 x64 this handle process native self made in
        rw e (
          set,
          refl,
          refl,
          (provider, refl, for_this),
          (generator, refl),
          destroys calls handle provider generator s₂ set,
        )
