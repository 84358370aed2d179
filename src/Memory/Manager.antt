-- ===== src/Memory/Manager.antt =====
-- The class MemoryManager of include/load/memory/memory_manager.hpp as an interface, and what the
-- code relies on in a manager whose memory is readable and writable throughout.
use libload.Common.{ℕ, ◌≤◌, ◌≡◌, List, Bool, Eff, Result, ok, length, take}
use libload.Memory.Bytes.{Bytes, load_bytes, store_bytes}

-- The bits of MemoryManager::MemoryAccess.
abbrev pub read_access : ℕ
read_access = 1

abbrev pub write_access : ℕ
write_access = 2

abbrev pub execute_access : ℕ
execute_access = 4

-- `copy_from mem size` yields the bytes that are put at the front of the caller's buffer; their
-- number is the value that the method returns.
pub record MemoryManager (S : Type 0) : Type 0 where
  pub allows_direct_addressing : Bool
  pub allocate : ℕ → ℕ → Eff S ℕ
  pub release : ℕ → ℕ → Eff S (Unit {0})
  pub commit : ℕ → ℕ → Eff S (Unit {0})
  pub decommit : ℕ → ℕ → Eff S (Unit {0})
  pub set_access : ℕ → ℕ → ℕ → Eff S (Unit {0})
  pub copy_from : ℕ → ℕ → Eff S (List ℕ)
  pub copy_into : List ℕ → ℕ → ℕ → Eff S ℕ

-- The two copies act on the bytes of one memory, seen through `view`, and always succeed.
pub record CopiesBytes {S : Type 0} (manager : MemoryManager S) : Type 0 where
  pub view : S → Bytes
  pub copy_from_lem :
      (mem size : ℕ) (s : S) → manager.copy_from mem size s ≡ (ok (load_bytes (view s) mem size), s)
  pub copy_into_value :
      (buffer : List ℕ) (size mem : ℕ) (s : S)
      → size ≤ length buffer
      → (manager.copy_into buffer size mem s).0 ≡ ok size
  pub copy_into_view :
      (buffer : List ℕ) (size mem : ℕ) (s : S)
      → size ≤ length buffer
      → view (manager.copy_into buffer size mem s).1 ≡ store_bytes (view s) mem (take size buffer)

-- A call that returns this value and changes no byte of the memory.
abbrev pub Tells :
    {S A : Type 0} {manager : MemoryManager S} → CopiesBytes manager → S → A → Result A × S → Type 0
Tells c s value r = (r.0 ≡ ok value) × (c.view r.1 ≡ c.view s)
