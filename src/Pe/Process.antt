-- ===== src/Pe/Process.antt =====
-- What src/pe/image.hpp does with a process and a loaded DLL: its exception table, its TLS callbacks and
-- its entry point.
use libload.Common.{
  ℕ, ◌+◌, List, [], ◌∷◌, Eff, ◌>>=◌, ◌>>◌, pure, raise, Error, Option, none, some, Bool, false,
  ◌==◌, not, if◌then◌else◌,
}
use libload.Memory.Manager.{MemoryManager}
use libload.Memory.Block.{OwnedMemoryBlock}
use libload.Pe.Format.{VirtualImage}

-- The methods of Process that are called.
pub record Process (S : Type 0) : Type 0 where
  pub memory_manager : MemoryManager S
  pub register_exception_table : ℕ → ℕ → ℕ → Eff S (Unit {0})
  pub deregister_exception_table : ℕ → Eff S (Unit {0})

-- The constants of windows.h.
pub data DllEvent : Type 0 where
  dll_process_attach : DllEvent
  dll_thread_attach : DllEvent
  dll_thread_detach : DllEvent
  dll_process_detach : DllEvent

-- Calls of the code of a DLL: the address, the image, the event, the reserved pointer.
pub record DllCode (S : Type 0) : Type 0 where
  pub tls_fn : ℕ → ℕ → DllEvent → ℕ → Eff S (Unit {0})
  pub dll_main : ℕ → ℕ → DllEvent → ℕ → Eff S ℕ

module _ {S : Type 0} (image : VirtualImage S) where
  abbrev size_or_zero : Option ℕ → ℕ
  size_or_zero none = 0
  size_or_zero (some size) = size

  unfoldable pub pe_image_exception_table_size : S → ℕ
  pe_image_exception_table_size s = size_or_zero (image.exception_directory s)

  abbrev pub registered : Process S → ℕ → Option ℕ → Eff S (Unit {0})
  registered process image_mem none s = pure tt s
  registered process image_mem (some rftable_offset) s =
      process.register_exception_table image_mem (image_mem + rftable_offset)
        (pe_image_exception_table_size s) s

  unfoldable pub register_pe_image_exception_table : Process S → ℕ → Eff S (Unit {0})
  unfolding pe_image_exception_table_size
  register_pe_image_exception_table process image_mem s =
      registered process image_mem (image.exception_entries s) s

  abbrev pub deregistered : Process S → ℕ → Option ℕ → Eff S (Unit {0})
  deregistered process image_mem none = pure tt
  deregistered process image_mem (some rftable_offset) =
      process.deregister_exception_table (image_mem + rftable_offset)

  unfoldable pub deregister_pe_image_exception_table : Process S → ℕ → Eff S (Unit {0})
  deregister_pe_image_exception_table process image_mem s =
      deregistered process image_mem (image.exception_entries s) s

module _ {S : Type 0} (code : DllCode S) (image : VirtualImage S) where
  module _ (image_base : ℕ) (event : DllEvent) (reserved : ℕ) where
    unfoldable pub invoke_callbacks : List ℕ → Eff S (Unit {0})
    invoke_callbacks [] = pure tt
    invoke_callbacks (fn_rva ∷ callbacks) =
        code.tls_fn (image_base + fn_rva) image_base event reserved >> invoke_callbacks callbacks

    abbrev pub callbacks_of : Option (List ℕ) → Eff S (Unit {0})
    callbacks_of none = pure tt
    callbacks_of (some callbacks) = invoke_callbacks callbacks

    unfoldable pub invoke_pe_tls_callbacks_direct : Eff S (Unit {0})
    unfolding invoke_callbacks
    invoke_pe_tls_callbacks_direct s = callbacks_of (image.tls_directory s) s

    -- The assertion that the image is a DLL is not translated (NDEBUG).
    unfoldable pub invoke_dll_entry_point_direct : Eff S ℕ
    invoke_dll_entry_point_direct s =
        code.dll_main (image_base + (image.optional_header s).address_of_entry_point) image_base
          event reserved s

    unfoldable pub notify_dll_event_direct : Eff S ℕ
    unfolding invoke_pe_tls_callbacks_direct invoke_dll_entry_point_direct
    notify_dll_event_direct = invoke_pe_tls_callbacks_direct >> invoke_dll_entry_point_direct

  -- `a && b` on the two results: the second event is not sent if the first is refused.
  unfoldable pub initialize_dll_direct : ℕ → Eff S Bool
  unfolding notify_dll_event_direct
  initialize_dll_direct image_base = do
    attached ← notify_dll_event_direct image_base dll_process_attach 0
    if attached == 0 then pure false else (do
      ready ← notify_dll_event_direct image_base dll_thread_attach 0
      pure (not (ready == 0)))

  -- Where the memory is not directly addressable, the function ends without a value.
  unfoldable pub initialize_dll : Process S → OwnedMemoryBlock S → Eff S Bool
  unfolding register_pe_image_exception_table initialize_dll_direct
  initialize_dll process image_mem = do
    register_pe_image_exception_table image process image_mem.mem_pointer
    if process.memory_manager.allows_direct_addressing
        then initialize_dll_direct image_mem.mem_pointer
        else raise Error.undefined

  unfoldable pub deinitialize_dll_direct : ℕ → Eff S (Unit {0})
  unfolding notify_dll_event_direct
  deinitialize_dll_direct image_base = do
    thread_result ← notify_dll_event_direct image_base dll_thread_detach 0
    process_result ← notify_dll_event_direct image_base dll_process_detach 0
    pure tt

  unfoldable pub deinitialize_dll : Process S → OwnedMemoryBlock S → Eff S (Unit {0})
  unfolding deregister_pe_image_exception_table deinitialize_dll_direct
  deinitialize_dll process image_mem = do
    if process.memory_manager.allows_direct_addressing
        then deinitialize_dll_direct image_mem.mem_pointer
        else pure tt
    deregister_pe_image_exception_table image process image_mem.mem_pointer
