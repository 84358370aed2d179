-- ===== src/Platform/Processes.antt =====
-- open_process and LocalProcess of src/platform/windows/local_process.cpp, and the exception tables of
-- the two kinds of processes.
use libload.Common.{
  List, [], ◌∷◌, ℕ, ◌/◌, ◌%◌, ◌^◌, Bool, true, false, Option, none, some, Eff, Result, ok, throw,
  Error, ◌==◌, pure, if◌then◌else◌,
}
use libload.Memory.Scope.{LocalMemory}
use libload.Pe.Process.{Process}
use libload.Platform.Win32.{MemoryCalls}
use libload.Platform.ProcessMemory.{current_process_memory, local_process_memory}

-- The constants IMAGE_FILE_MACHINE of windows.h.
pub data ImageFileMachine : Type 0 where
  machine_unknown : ImageFileMachine
  machine_i386 : ImageFileMachine
  machine_ia64 : ImageFileMachine
  machine_amd64 : ImageFileMachine
  machine_other : ℕ → ImageFileMachine

-- The rights of a handle: constants of windows.h, and the documented ones that the code does not ask for.
pub data ProcessRight : Type 0 where
  process_create_thread : ProcessRight
  process_vm_operation : ProcessRight
  process_vm_read : ProcessRight
  process_vm_write : ProcessRight
  process_query_limited_information : ProcessRight

-- The calls of Windows on processes and exception tables; 0 is the null handle. The size of a
-- RUNTIME_FUNCTION is that of windows.h.
pub record ProcessCalls (S : Type 0) : Type 0 where
  pub get_current_process_id : ℕ
  pub runtime_function_size : ℕ
  pub open_process_handle : List ProcessRight → ℕ → S → ℕ × S
  pub is_wow64_process2 : ℕ → S → Option (ImageFileMachine × ImageFileMachine) × S
  pub close_handle : ℕ → S → S
  pub rtl_add_function_table : (table entry_count base_address : ℕ) → S → Bool × S
  pub rtl_delete_function_table : ℕ → S → Bool × S
  pub get_last_error : S → ℕ

-- LocalProcessModuleProvider<XX>: XX, the address of the process that it was made for, and the flags of
-- its snapshot. Its get_module has no body in the repository.
pub data SnapshotFlags : Type 0 where
  th32cs_snapmodule : SnapshotFlags
  th32cs_snapmodule32 : SnapshotFlags

pub record LocalProcessModuleProvider : Type 0 where
  pub bits : ℕ
  pub process : ℕ
  pub flags : SnapshotFlags

-- The code generators.
pub data ProcessCodeGenerator : Type 0 where
  native_code_generator : ProcessCodeGenerator
  x86_codegen : ProcessCodeGenerator
  x64_codegen : ProcessCodeGenerator

-- The memory manager of a process by its handle.
pub record LocalProcessMemory : Type 0 where
  pub handle : ℕ

-- `module_provider` and `code_generator` are `none` where the pointers are null.
pub record LocalProcess : Type 0 where
  pub handle : ℕ
  pub memory_manager : LocalProcessMemory
  pub module_provider : Option LocalProcessModuleProvider
  pub code_generator : Option ProcessCodeGenerator

pub data OpenedProcess : Type 0 where
  current_process : OpenedProcess
  local_process : LocalProcess → OpenedProcess

abbrev pub provider_for : ℕ → ℕ → SnapshotFlags → LocalProcessModuleProvider
provider_for bits process flags = record { bits = bits; process = process; flags = flags }

unfoldable pub make_local_process_module_provider :
    ℕ → ImageFileMachine → Result LocalProcessModuleProvider
make_local_process_module_provider process machine_i386 =
    ok (provider_for 32 process th32cs_snapmodule)
make_local_process_module_provider process machine_ia64 =
    ok (provider_for 64 process th32cs_snapmodule)
make_local_process_module_provider process machine_amd64 =
    ok (provider_for 64 process th32cs_snapmodule)
make_local_process_module_provider process machine_unknown = throw Error.runtime_error
make_local_process_module_provider process (machine_other n) = throw Error.runtime_error

-- The constructor runs on an object at the address `this`.
abbrev pub local_process_with : ℕ → LocalProcessModuleProvider → ProcessCodeGenerator → LocalProcess
local_process_with handle provider generator = record {
  handle = handle;
  memory_manager = record { handle = handle };
  module_provider = some provider;
  code_generator = some generator;
}

abbrev pub native_process : ℕ → Result LocalProcessModuleProvider → Result LocalProcess
native_process handle (ok provider) = ok (local_process_with handle provider native_code_generator)
native_process handle (throw e) = throw e

abbrev pub x64_process : Bool → (this handle : ℕ) → Result LocalProcess
x64_process enabled this handle =
    if enabled
    then ok (local_process_with handle (provider_for 64 this th32cs_snapmodule) x64_codegen)
    else throw Error.runtime_error

abbrev pub x86_process : Bool → (this handle : ℕ) → Result LocalProcess
x86_process enabled this handle =
    if enabled
    then ok (local_process_with handle (provider_for 32 this th32cs_snapmodule32) x86_codegen)
    else throw Error.runtime_error

-- The switch of the constructor over the process's machine; the two architectures may be left out of
-- the build.
unfoldable pub by_machine :
    (enable_x86 enable_x86_64 : Bool)
    → (this handle : ℕ) → (process native : ImageFileMachine) → Result LocalProcess
unfolding make_local_process_module_provider
by_machine x86 x64 this handle machine_unknown native =
    native_process handle (make_local_process_module_provider this native)
by_machine x86 x64 this handle machine_i386 native = x86_process x86 this handle
by_machine x86 x64 this handle machine_ia64 native = x64_process x64 this handle
by_machine x86 x64 this handle machine_amd64 native = x64_process x64 this handle
by_machine x86 x64 this handle (machine_other n) native = throw Error.runtime_error

-- The access that open_process asks for.
abbrev pub access : List ProcessRight
access = process_vm_operation ∷ process_create_thread ∷ []

module _ {S : Type 0} (calls : ProcessCalls S) where
  abbrev pub with_machines :
      (enable_x86 enable_x86_64 : Bool)
      → (this handle : ℕ) → Option (ImageFileMachine × ImageFileMachine) × S
      → Result LocalProcess × S
  with_machines x86 x64 this handle (none, s) =
      (throw (Error.system_error (calls.get_last_error s)), s)
  with_machines x86 x64 this handle (some (process, native), s) =
      (by_machine x86 x64 this handle process native, s)

  -- The constructor of LocalProcess.
  unfoldable pub make_local_process :
      (enable_x86 enable_x86_64 : Bool) → (this handle : ℕ) → Eff S LocalProcess
  unfolding by_machine
  make_local_process x86 x64 this handle s =
      with_machines x86 x64 this handle (calls.is_wow64_process2 handle s)

  -- The destructor.
  unfoldable pub destroy_local_process : LocalProcess → Eff S (Unit {0})
  destroy_local_process self s =
      (ok tt, if self.handle == 0 then s else calls.close_handle self.handle s)

  abbrev pub opened : Result LocalProcess × S → Result OpenedProcess × S
  opened (ok process, s) = (ok (local_process process), s)
  opened (throw e, s) = (throw e, s)

  abbrev pub with_handle : (enable_x86 enable_x86_64 : Bool) → ℕ → ℕ × S → Result OpenedProcess × S
  with_handle x86 x64 this (handle, s) =
      if handle == 0
      then (throw (Error.system_error (calls.get_last_error s)), s)
      else opened (make_local_process x86 x64 this handle s)

  -- `this` is the address of the object that std::make_unique makes.
  unfoldable pub open_process :
      (enable_x86 enable_x86_64 : Bool) → (this process_id : ℕ) → Eff S OpenedProcess
  unfolding make_local_process
  open_process x86 x64 this process_id s =
      if process_id == calls.get_current_process_id
      then (ok current_process, s)
      else with_handle x86 x64 this (calls.open_process_handle access process_id s)

  abbrev succeeded : Bool × S → Result (Unit {0}) × S
  succeeded (true, s) = (ok tt, s)
  succeeded (false, s) = (throw (Error.system_error (calls.get_last_error s)), s)

  -- CurrentProcess and LocalProcess as the processes that the loader uses.
  abbrev pub as_current_process : MemoryCalls S → LocalMemory S → Process S
  as_current_process memory_calls memory = record {
    memory_manager = current_process_memory memory_calls memory;
    register_exception_table = λ base_address table table_size s. succeeded (
        calls.rtl_add_function_table table (table_size / calls.runtime_function_size % 2 ^ 32)
          base_address s);
    deregister_exception_table = λ table s. succeeded (calls.rtl_delete_function_table table s);
  }

  abbrev pub as_local_process : MemoryCalls S → Process S
  as_local_process memory_calls = record {
    memory_manager = local_process_memory memory_calls;
    register_exception_table = λ base_address table table_size. pure tt;
    deregister_exception_table = λ table. pure tt;
  }
