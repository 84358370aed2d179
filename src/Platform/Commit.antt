-- ===== src/Platform/Commit.antt =====
-- copy_into_local_memory of src/memory_block.hpp over the memory manager of the current process in
-- src/platform/windows/current_process.cpp, and which addresses Windows has committed.
use libload.Common.{
  ℕ, Bool, false, Result, ok, throw, ◌≡◌, ◌≢◌, ◌∙◌, refl, ap, List, ◌==◌, Leaves, Leaves-bind,
  Leaves-pure, Error, Bool-cases, inl, inr, arith, and_then, Eff, subst,
}
use libload.Memory.Bytes.{Within}
use libload.Memory.Manager.{MemoryManager}
use libload.Memory.Block.{MemoryOwnership, OwnedMemoryBlock, memory_block, read, destroy}
use libload.Memory.Scope.{LocalMemory, copy_into_local_memory, unwind, guarded, after_destructor}
use libload.Pe.Permissions.{page_noaccess}
use libload.Platform.Win32.{MemoryCalls, mem_reserve}
use libload.Platform.ProcessMemory.{current_process_memory, allocate}

module _ {S : Type 0} (local : LocalMemory S) (committed : S → ℕ → Bool) where
  -- The block is filled through pointers, in a state in which no byte of it is committed.
  abbrev pub FilledUncommitted : OwnedMemoryBlock S → S → Type 0
  FilledUncommitted copy s' =
      (bytes : List ℕ) × (s₂ : S) × (s' ≡ local.store copy.mem_pointer bytes s₂)
      × ((a : ℕ) → Within copy.mem_pointer copy.mem_size a → committed s₂ a ≡ false)

module _ {S : Type 0} (calls : MemoryCalls S) (local : LocalMemory S) (committed : S → ℕ → Bool)
    (reserves : (mem size : ℕ) (s : S)
      → let (p, s') = calls.virtual_alloc mem size mem_reserve page_noaccess s in
        p ≢ 0 → (a : ℕ) → Within p size a → committed s' a ≡ false) where
  abbrev copy_at : ℕ → ℕ → OwnedMemoryBlock S
  copy_at mem size = memory_block (current_process_memory calls local) mem size

  abbrev put : ℕ → ℕ → ℕ × List ℕ → Eff S (OwnedMemoryBlock S)
  put mem size (count, bytes) = λ s. (ok (copy_at mem size), local.store mem bytes s)

  not_thrown :
      {A : Type 0} (e : Error) (r : Result (Unit {0}) × S) (a : A) (s' : S)
      → after_destructor (throw e) r ≡ (ok a, s')
      → ⊥
  not_thrown e (ok x, s) a s' h = absurd (cc)
  not_thrown e (throw e', s) a s' h = absurd (cc)

  filled :
      (mem size : ℕ) (r : Result (ℕ × List ℕ) × S) (copy : OwnedMemoryBlock S) (s' : S)
      → ((a : ℕ) → Within mem size a → committed r.1 a ≡ false)
      → unwind (destroy (copy_at mem size)) (and_then r (put mem size)) ≡ (ok copy, s')
      → (copy.mem_size ≡ size) × FilledUncommitted local committed copy s'
  filled mem size (ok (count, bytes), s) copy s' reserved h =
      let is : copy_at mem size ≡ copy = cc in
      subst (λ c. (c.mem_size ≡ size) × FilledUncommitted local committed c s') is
        (refl, (bytes, s, cc, reserved))
  filled mem size (throw e, s) copy s' reserved h =
      absurd (not_thrown e (destroy (copy_at mem size) s) copy s' h)

  given :
      (size : ℕ) (rest : ℕ → Eff S (OwnedMemoryBlock S)) (s s' : S) (copy : OwnedMemoryBlock S)
      → and_then (allocate calls 0 size s) rest ≡ (ok copy, s')
      → let (mem, s₁) = calls.virtual_alloc 0 size mem_reserve page_noaccess s in
        (mem ≢ 0) × (rest mem s₁ ≡ (ok copy, s'))
  unfolding allocate
  given size rest s s' copy h =
      let (mem, s₁) = calls.virtual_alloc 0 size mem_reserve page_noaccess s in
      elim (Bool-cases (mem == 0)) [
        | inl null ↦ absurd (let e = rw null at h in cc)
        | inr set ↦ (ground arith, rw set at h)
      ]

  read-quiet :
      (mo : MemoryOwnership) (manager : MemoryManager S) (ptr size n : ℕ) (into : List ℕ)
      → ((mem n : ℕ) → Leaves committed (manager.copy_from mem n))
      → Leaves committed (read (memory_block {mo = mo} manager ptr size) 0 n into)
  unfolding read
  read-quiet mo manager ptr size n into quiet = Leaves-bind (quiet _ _) (λ bytes. Leaves-pure _)

  -- If Windows commits no byte of memory that it only reserves, and to read the copied block commits
  -- nothing: a local copy that copy_into_local_memory makes in the memory of the current process has
  -- the size of the block, and is written through pointers while no byte of it is committed.
  pub copy_into_local_memory-uncommitted :
      (mo : MemoryOwnership) (manager : MemoryManager S) (ptr size : ℕ) (s s' : S)
      (copy : OwnedMemoryBlock S)
      → ((mem n : ℕ) → Leaves committed (manager.copy_from mem n))
      → copy_into_local_memory
          (current_process_memory calls local)
          local
          (memory_block {mo = mo} manager ptr size)
          s
        ≡ (ok copy, s')
      → (copy.mem_size ≡ size) × FilledUncommitted local committed copy s'
  unfolding copy_into_local_memory guarded
  copy_into_local_memory-uncommitted mo manager ptr size s s' copy quiet h =
      let (set, rest) = given size _ s s' copy h in
      let (mem, s₁) = calls.virtual_alloc 0 size mem_reserve page_noaccess s in
      let still = (read-quiet mo manager ptr size size (local.load mem size s₁) quiet).at s₁ in
      filled mem size
        (read (memory_block {mo = mo} manager ptr size) 0 size (local.load mem size s₁) s₁) copy s'
        (λ a within. ap (λ pages. pages a) still ∙ reserves 0 size s set a within) rest
