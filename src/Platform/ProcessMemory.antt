-- ===== src/Platform/ProcessMemory.antt =====
-- CurrentProcessMemory of src/platform/windows/current_process.cpp and LocalProcessMemory of
-- src/platform/windows/local_process.cpp, on the calls for their process.
use libload.Common.{
  if◌then◌else◌, ℕ, Bool, true, false, Option, none, some, Eff, Result, ok, throw, Error, ◌==◌, not,
  take,
}
use libload.Memory.Manager.{MemoryManager}
use libload.Memory.Scope.{LocalMemory}
use libload.Pe.Permissions.{memory_access_to_win32, page_noaccess, page_readwrite}
use libload.Platform.Win32.{MemoryCalls, mem_reserve, mem_commit, mem_release, mem_decommit}

module _ {S : Type 0} (calls : MemoryCalls S) where
  -- `throw std::system_error(GetLastError(), ...)` where a call has failed.
  abbrev checked : Bool × S → Result (Unit {0}) × S
  checked (true, s) = (ok tt, s)
  checked (false, s) = (throw (Error.system_error (calls.get_last_error s)), s)

  abbrev pub some_or_throw : {A : Type 0} → Option A × S → Result A × S
  some_or_throw (some a, s) = (ok a, s)
  some_or_throw (none, s) = (throw (Error.system_error (calls.get_last_error s)), s)

  abbrev non_null : ℕ × S → Option ℕ × S
  non_null (mem, s) = (if mem == 0 then none else some mem, s)

  abbrev is_non_null : ℕ × S → Bool × S
  is_non_null (mem, s) = (not (mem == 0), s)

  -- The methods that the two classes have alike.
  unfoldable pub allocate : ℕ → ℕ → Eff S ℕ
  allocate base size s =
      some_or_throw (non_null (calls.virtual_alloc base size mem_reserve page_noaccess s))

  unfoldable pub free : ℕ → ℕ → Eff S (Unit {0})
  free mem size s = checked (calls.virtual_free mem 0 mem_release s)

  unfoldable pub commit_pages : ℕ → ℕ → Eff S (Unit {0})
  commit_pages mem size s =
      checked (is_non_null (calls.virtual_alloc mem size mem_commit page_readwrite s))

  unfoldable pub decommit_pages : ℕ → ℕ → Eff S (Unit {0})
  decommit_pages mem size s = checked (calls.virtual_free mem size mem_decommit s)

  unfoldable pub set_page_access : ℕ → ℕ → ℕ → Eff S (Unit {0})
  set_page_access mem size access s =
      checked (calls.virtual_protect mem size (memory_access_to_win32 access) s)

  -- The copies go through pointers of the process itself.
  abbrev pub current_process_memory : LocalMemory S → MemoryManager S
  current_process_memory memory = record {
    allows_direct_addressing = true;
    allocate = allocate;
    release = free;
    commit = commit_pages;
    decommit = decommit_pages;
    set_access = set_page_access;
    copy_from = λ mem size s. (ok (memory.load mem size s), s);
    copy_into = λ buffer size mem s. (ok size, memory.store mem (take size buffer) s);
  }

  abbrev pub local_process_memory : MemoryManager S
  local_process_memory = record {
    allows_direct_addressing = false;
    allocate = allocate;
    release = free;
    commit = commit_pages;
    decommit = decommit_pages;
    set_access = set_page_access;
    copy_from = λ mem size s. some_or_throw (calls.read_process_memory mem size s);
    copy_into = λ buffer size mem s. some_or_throw (calls.write_process_memory mem buffer size s);
  }
