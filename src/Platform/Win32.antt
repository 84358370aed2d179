-- ===== src/Platform/Win32.antt =====
-- The calls of Windows that src/platform/windows makes. Nothing here is code of the repository.
use Prim.Native.String.{String}
use libload.Common.{ℕ, List, Bool, Option}
use libload.Pe.Permissions.{PageProtection}

pub data AllocationType : Type 0 where
  mem_reserve : AllocationType
  mem_commit : AllocationType

pub data FreeType : Type 0 where
  mem_release : FreeType
  mem_decommit : FreeType

-- Calls on the memory of one process. A call that allocates gives 0 where it fails, the others say
-- whether they have succeeded; a read gives the bytes that were read, a write their number.
pub record MemoryCalls (S : Type 0) : Type 0 where
  pub virtual_alloc : (mem size : ℕ) → AllocationType → PageProtection → S → ℕ × S
  pub virtual_free : (mem size : ℕ) → FreeType → S → Bool × S
  pub virtual_protect : (mem size : ℕ) → PageProtection → S → Bool × S
  pub read_process_memory : (mem size : ℕ) → S → Option (List ℕ) × S
  pub write_process_memory : (mem : ℕ) (buffer : List ℕ) (size : ℕ) → S → Option ℕ × S
  pub get_last_error : S → ℕ

-- Calls on modules, by their handles; 0 is the null handle.
pub record ModuleCalls (S : Type 0) : Type 0 where
  pub get_module_handle_ex : String → S → Option ℕ × S
  pub load_library : String → S → ℕ × S
  pub get_proc_address : ℕ → String → S → ℕ × S
  pub free_library : ℕ → S → S
  pub get_last_error : S → ℕ
