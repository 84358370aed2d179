-- ===== src/Pe/ModuleTests.antt =====
-- The theorems on the life of a loaded DLL at one image, on a state that is the list of the calls.
use mathlib.Core.Path.{refl}
use libload.Common.{Option, ℕ, ◌≡◌, List, [], ◌∷◌, none, some, ok, true, false, replicate, pure}
use libload.Memory.Manager.{MemoryManager}
use libload.Module.Provider.{MapCell, Module, ModuleProvider}
use libload.Pe.Format.{OptionalHeader, FileImage, VirtualImage}
use libload.Pe.Sections.{
  allocate_pe_image, copy_pe_image_headers_direct, map_pe_image_sections_direct,
}
use libload.Pe.Relocation.{apply_pe_image_relocations_direct}
use libload.Pe.Imports.{resolve_pe_image_imports}
use libload.Pe.Permissions.{apply_pe_memory_permissions, remove_pe_discardable_sections}
use libload.Pe.Load.{Surroundings, fill_pe_image, load_pe_image}
use libload.Pe.Process.{
  pe_image_exception_table_size, DllEvent, dll_process_attach, dll_thread_attach, dll_thread_detach,
  dll_process_detach, initialize_dll, deinitialize_dll,
}
use libload.Pe.LoadModule.{cache_of}
use libload.Pe.Events
use libload.Pe.Events.{
  Call, tls_call, main_call, table_added, table_removed, log_code, log_process, notified,
}
use libload.Pe.Owner.{image_block}

-- The managers of the tests write a release down as a call at the released address.
abbrev log_manager : MemoryManager (List Call)
log_manager = record {
  allows_direct_addressing = true;
  allocate = λ base size. pure base;
  release = λ mem size log. (ok tt, table_removed mem ∷ log);
  commit = λ mem size. pure tt;
  decommit = λ mem size. pure tt;
  set_access = λ mem size access. pure tt;
  copy_from = λ mem size. pure [];
  copy_into = λ buffer size mem. pure size;
}

abbrev dll_header : OptionalHeader
dll_header = record {
  size_of_image = 64;
  size_of_headers = 16;
  image_base = 4096;
  address_of_entry_point = 16;
}

abbrev dll : VirtualImage (List Call)
dll = record {
  optional_header = λ s. dll_header;
  section_headers = λ s. [];
  base_relocations = λ s. [];
  import_descriptors = λ s. [];
  exception_entries = λ s. some 8;
  exception_directory = λ s. some 24;
  tls_directory = λ s. some (4 ∷ 6 ∷ []);
  export_directory = λ s. none;
}

abbrev dll_file : FileImage (List Call)
dll_file = record {
  optional_header = dll_header;
  section_headers = [];
  read = λ offset size buf. pure buf;
  read_into = λ offset size mem. pure tt;
}

-- It accepts the process and refuses the thread.
abbrev answer : DllEvent → ℕ
answer dll_process_attach = 1
answer dll_thread_attach = 0
answer dll_thread_detach = 0
answer dll_process_detach = 0

abbrev attached : List Call
attached =
    table_added 4096 4104 24
    ∷ tls_call 4100 4096 dll_process_attach
    ∷ tls_call 4102 4096 dll_process_attach
    ∷ main_call 4112 4096 dll_process_attach
    ∷ tls_call 4100 4096 dll_thread_attach
    ∷ tls_call 4102 4096 dll_thread_attach
    ∷ main_call 4112 4096 dll_thread_attach
    ∷ []

abbrev detached : List Call
detached =
    tls_call 4100 4096 dll_thread_detach
    ∷ tls_call 4102 4096 dll_thread_detach
    ∷ main_call 4112 4096 dll_thread_detach
    ∷ tls_call 4100 4096 dll_process_detach
    ∷ tls_call 4102 4096 dll_process_detach
    ∷ main_call 4112 4096 dll_process_detach
    ∷ table_removed 4104
    ∷ []

initialize_dll-notified_example :
    initialize_dll
      (log_code answer)
      dll
      (log_process log_manager)
      (image_block (log_process log_manager) 4096 64)
      []
    ≡ (ok false, attached)
unfolding notified pe_image_exception_table_size
initialize_dll-notified_example =
    Events.initialize_dll-notified answer dll 4096 16 (some (4 ∷ 6 ∷ [])) (λ s. refl) (λ s. refl)
      log_manager refl 64 (some 8) (λ s. refl) []

deinitialize_dll-notified_example :
    deinitialize_dll
      (log_code answer)
      dll
      (log_process log_manager)
      (image_block (log_process log_manager) 4096 64)
      []
    ≡ (ok tt, detached)
unfolding notified
deinitialize_dll-notified_example =
    Events.deinitialize_dll-notified answer dll 4096 16 (some (4 ∷ 6 ∷ [])) (λ s. refl) (λ s. refl)
      log_manager refl 64 (some 8) (λ s. refl) []

abbrev dll_surroundings : Surroundings (List Call)
dll_surroundings = record {
  current = log_manager;
  local = record { load = λ p n s. replicate n 0; store = λ p bs s. s };
  uninit = λ n. replicate n 0;
  flags = record {
    scn_mem_read = 0x40000000;
    scn_mem_write = 0x80000000;
    scn_mem_execute = 0x20000000;
    scn_mem_discardable = 0x02000000;
  };
  virtual_image = λ block. dll;
}

abbrev no_provider : ModuleProvider (List Call) ℕ
no_provider = record { get_module = λ name. pure none }

-- A cache that keeps nothing, and modules without symbols.
abbrev no_cell : MapCell (List Call) (Option ℕ)
no_cell = record { entries = λ s. []; assign = λ m s. s }

abbrev no_symbols : ℕ → Module (List Call)
no_symbols m = record { get_data = λ name. pure 0 }

abbrev empty_cache : ModuleProvider (List Call) (Module (List Call))
empty_cache = cache_of no_symbols no_cell no_provider

dll_loads :
    load_pe_image dll_surroundings dll_file log_manager empty_cache []
    ≡ (ok (image_block (log_process log_manager) 4096 64), [])
unfolding load_pe_image allocate_pe_image fill_pe_image copy_pe_image_headers_direct
    map_pe_image_sections_direct apply_pe_image_relocations_direct resolve_pe_image_imports
    apply_pe_memory_permissions remove_pe_discardable_sections
dll_loads = refl
