-- ===== src/Platform/SystemModules.antt =====
-- SystemModule and its provider of src/platform/windows/system_module.cpp, and the provider of the
-- current process in src/platform/windows/current_process.cpp.
use Prim.Native.String.{String}
use libload.Common.{ℕ, Option, none, some, Eff, Result, ok, throw, Error, ◌==◌, if◌then◌else◌}
use libload.Module.Provider.{Module}
use libload.Platform.Win32.{ModuleCalls}

module _ {S : Type 0} (calls : ModuleCalls S) where
  -- A system module is its handle. get_data_address; get_proc_address is the same pointer.
  unfoldable pub get_data_address : ℕ → String → Eff S ℕ
  get_data_address handle name s =
      (ok (calls.get_proc_address handle name s).0, (calls.get_proc_address handle name s).1)

  abbrev pub system_module : ℕ → Module S
  system_module handle = record { get_data = get_data_address handle }

  -- The destructor; the null handle is that of a module that was moved from.
  unfoldable pub destroy_system_module : ℕ → Eff S (Unit {0})
  destroy_system_module handle s = (ok tt, if handle == 0 then s else calls.free_library handle s)

  -- The moving constructor: the new module's handle and the old one's.
  unfoldable pub move_system_module : ℕ → ℕ × ℕ
  move_system_module handle = (handle, 0)

  abbrev pub handle_or_null : ℕ → Option ℕ
  handle_or_null handle = if handle == 0 then none else some handle

  -- The function that system_module_provider wraps in its cache.
  unfoldable pub do_load_system_module : String → Eff S (Option ℕ)
  do_load_system_module name s =
      (ok (handle_or_null (calls.load_library name s).0), (calls.load_library name s).1)

  abbrev pub found_handle : Option ℕ × S → Result (Option ℕ) × S
  found_handle (none, s) = (throw (Error.system_error (calls.get_last_error s)), s)
  found_handle (some handle, s) = (ok (handle_or_null handle), s)

  -- CurrentProcessModuleProvider::get_module.
  unfoldable pub get_process_module : String → Eff S (Option ℕ)
  get_process_module name s = found_handle (calls.get_module_handle_ex name s)
