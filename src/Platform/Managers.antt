-- ===== src/Platform/Managers.antt =====
-- What the memory managers of src/platform/windows promise: they fill the interface of Memory/Manager.
use libload.Common.{ℕ, ◌≡◌, refl, ap, List, ok, throw, Error, false, none, take}
use libload.Memory.Bytes.{Bytes, load_bytes, store_bytes}
use libload.Memory.Manager.{CopiesBytes}
use libload.Memory.Scope.{LocalMemory}
use libload.Pe.Permissions.{PageProtection}
use libload.Platform.Win32.{MemoryCalls, AllocationType, FreeType}
use libload.Platform.ProcessMemory.{
  allocate, free, commit_pages, decommit_pages, set_page_access, current_process_memory,
  local_process_memory,
}

-- The memory of the process, as its pointers read and write it.
pub record PointersAct {S : Type 0} (memory : LocalMemory S) : Type 0 where
  pub view : S → Bytes
  pub load_lem : (mem size : ℕ) (s : S) → memory.load mem size s ≡ load_bytes (view s) mem size
  pub store_lem :
      (mem : ℕ) (bytes : List ℕ) (s : S)
      → view (memory.store mem bytes s) ≡ store_bytes (view s) mem bytes

module _ {S : Type 0} (calls : MemoryCalls S) where
  module _ {memory : LocalMemory S} (p : PointersAct memory) where
    pub current_process_memory-CopiesBytes : CopiesBytes (current_process_memory calls memory)
    current_process_memory-CopiesBytes = record {
      view = p.view;
      copy_from_lem = λ mem size s. ap (λ bytes. (ok bytes, s)) (p.load_lem mem size s);
      copy_into_value = λ buffer size mem s h. refl;
      copy_into_view = λ buffer size mem s h. p.store_lem mem (take size buffer) s;
    }

  -- A Windows that refuses every call on the memory of the process, and changes nothing.
  pub record Refuses : Type 0 where
    pub alloc_lem :
        (mem size : ℕ) (kind : AllocationType) (protect : PageProtection) (s : S)
        → calls.virtual_alloc mem size kind protect s ≡ (0, s)
    pub free_lem :
        (mem size : ℕ) (kind : FreeType) (s : S) → calls.virtual_free mem size kind s ≡ (false, s)
    pub protect_lem :
        (mem size : ℕ) (protect : PageProtection) (s : S)
        → calls.virtual_protect mem size protect s ≡ (false, s)
    pub read_lem : (mem size : ℕ) (s : S) → calls.read_process_memory mem size s ≡ (none, s)
    pub write_lem :
        (mem : ℕ) (buffer : List ℕ) (size : ℕ) (s : S)
        → calls.write_process_memory mem buffer size s ≡ (none, s)

  -- Where Windows refuses its calls, each operation of the memory manager of another process throws a
  -- system_error with the code of the last error, and changes nothing: none is reported as done.
  pub local_process_memory-refused :
      Refuses
      → (mem size access : ℕ) (buffer : List ℕ) (s : S)
      → let e = Error.system_error (calls.get_last_error s) in
        let m = local_process_memory calls in
        (m.allocate mem size s ≡ (throw e, s))
        × (m.release mem size s ≡ (throw e, s))
        × (m.commit mem size s ≡ (throw e, s))
        × (m.decommit mem size s ≡ (throw e, s))
        × (m.set_access mem size access s ≡ (throw e, s))
        × (m.copy_from mem size s ≡ (throw e, s))
        × (m.copy_into buffer size mem s ≡ (throw e, s))
  unfolding allocate free commit_pages decommit_pages set_page_access
  local_process_memory-refused r mem size access buffer s = (
    rw r.alloc_lem,
    rw r.free_lem,
    rw r.alloc_lem,
    rw r.free_lem,
    rw r.protect_lem,
    rw r.read_lem,
    rw r.write_lem,
  )
