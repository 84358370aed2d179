-- ===== src/Platform/MemoryTests.antt =====
-- The theorems on the platform's memory at small memories.
use libload.Common.{
  ℕ, ◌+◌, ◌≡◌, refl, Result, ok, some, true, false, Bool, arith, leb, ltb, ◌&&◌, if◌then◌else◌,
  take,
}
use libload.Memory.Bytes.{Bytes, load_bytes, store_bytes, Within}
use libload.Memory.Block.{OwnedMemoryBlock, memory_block, owned_memory, read}
use libload.Memory.Scope.{LocalMemory, copy_into_local_memory}
use libload.Memory.Flat.{counting}
use libload.Pe.Permissions.{PageProtection}
use libload.Platform.Win32.{AllocationType, MemoryCalls, mem_reserve, mem_commit}
use libload.Platform.ProcessMemory.{allocate, current_process_memory, local_process_memory}
use libload.Platform.Commit.{FilledUncommitted, copy_into_local_memory-uncommitted}

-- Which addresses are committed, and the bytes.
record Pages : Type 0 where
  pages : ℕ → Bool
  bytes : Bytes

abbrev set_pages : ℕ → ℕ → Bool → Pages → Pages
set_pages mem size value s = record s {
  pages = λ a. if leb mem a && ltb a (mem + size) then value else s.pages a;
}

-- Memory is reserved at 4096.
abbrev allocated : (mem size : ℕ) → AllocationType → PageProtection → Pages → ℕ × Pages
allocated mem size mem_reserve protect s = (4096, set_pages 4096 size false s)
allocated mem size mem_commit protect s = (mem, set_pages mem size true s)

abbrev paged : MemoryCalls Pages
paged = record {
  virtual_alloc = allocated;
  virtual_free = λ mem size kind s. (true, set_pages mem size false s);
  virtual_protect = λ mem size protect s. (true, s);
  read_process_memory = λ mem size s. (some (load_bytes s.bytes mem size), s);
  write_process_memory = λ mem buffer size s.
      (some size, record s { bytes = store_bytes s.bytes mem (take size buffer) });
  get_last_error = λ s. 5;
}

abbrev own : LocalMemory Pages
own = record {
  load = λ p n s. load_bytes s.bytes p n;
  store = λ p bs s. record s { bytes = store_bytes s.bytes p bs };
}

in_range :
    (mem size a : ℕ) (value rest : Bool)
    → Within mem size a
    → (if leb mem a && ltb a (mem + size) then value else rest) ≡ value
in_range mem size a value rest h = ground (arith, h)

abbrev all_committed : Pages
all_committed = record { pages = λ a. true; bytes = counting }

abbrev copied : Result (OwnedMemoryBlock Pages) × Pages
copied =
    copy_into_local_memory (current_process_memory paged own) own
      (memory_block {mo = owned_memory} (local_process_memory paged) 100 4) all_committed

abbrev copy : OwnedMemoryBlock Pages
copy = memory_block (current_process_memory paged own) 4096 4

copied-copy : copied ≡ (ok copy, copied.1)
unfolding copy_into_local_memory allocate read
copied-copy = refl

copy_into_local_memory-uncommitted_example :
    (copy.mem_size ≡ 4) × FilledUncommitted own (λ s. s.pages) copy copied.1
copy_into_local_memory-uncommitted_example =
    copy_into_local_memory-uncommitted paged own (λ s. s.pages)
      (λ mem size s set a h. in_range 4096 size a false (s.pages a) h) owned_memory
      (local_process_memory paged) 100 4 all_committed copied.1 copy
      (λ mem n. record { at = λ s. refl }) copied-copy
