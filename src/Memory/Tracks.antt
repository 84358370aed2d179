-- ===== src/Memory/Tracks.antt =====
-- Memory managers whose live allocations are tracked, and what leaves them as they are.
use libload.Common.{
  ℕ, ◌≡◌, ◌≢◌, refl, ◌∙◌, List, ◌∷◌, Eff, Result, ok, throw, Error, arith, ◌==◌, false, Leaves,
  Leaves-bind, Leaves-pure,
}
use libload.Memory.Manager.{MemoryManager}
use libload.Memory.Block.{
  MemoryOwnership, owned_memory, MemoryBlock, OwnedMemoryBlock, memory_block, destroy, read, write,
}
use libload.Memory.Scope.{after_destructor, unwind, guarded, scoped}

-- `live` shows the allocations that are not released, the youngest first. An allocation that succeeds
-- is at an address other than 0 and becomes the youngest, one that throws makes none; the youngest can
-- be released, and is gone then; nothing else allocates or releases.
pub record Tracks {S : Type 0} (live : S → List (ℕ × ℕ)) (manager : MemoryManager S) : Type 0 where
  pub allocate_set :
      (base size mem : ℕ) (s : S) → (manager.allocate base size s).0 ≡ ok mem → mem ≢ 0
  pub allocate_ok :
      (base size mem : ℕ) (s : S)
      → (manager.allocate base size s).0 ≡ ok mem
      → live (manager.allocate base size s).1 ≡ (mem, size) ∷ live s
  pub allocate_throw :
      (base size : ℕ) (e : Error) (s : S)
      → (manager.allocate base size s).0 ≡ throw e
      → live (manager.allocate base size s).1 ≡ live s
  pub release_ok :
      (mem size : ℕ) (older : List (ℕ × ℕ)) (s : S)
      → live s ≡ (mem, size) ∷ older
      → (manager.release mem size s).0 ≡ ok tt
  pub release_live :
      (mem size : ℕ) (older : List (ℕ × ℕ)) (s : S)
      → live s ≡ (mem, size) ∷ older
      → live (manager.release mem size s).1 ≡ older
  pub commit_lem : (mem size : ℕ) → Leaves live (manager.commit mem size)
  pub decommit_lem : (mem size : ℕ) → Leaves live (manager.decommit mem size)
  pub set_access_lem : (mem size access : ℕ) → Leaves live (manager.set_access mem size access)
  pub copy_from_lem : (mem size : ℕ) → Leaves live (manager.copy_from mem size)
  pub copy_into_lem :
      (buffer : List ℕ) (size mem : ℕ) → Leaves live (manager.copy_into buffer size mem)

-- A block that is used, whoever owns it.
module _ {S : Type 0} {live : S → List (ℕ × ℕ)} {manager : MemoryManager S}
    (t : Tracks live manager) (mo : MemoryOwnership) (mem size : ℕ) where
  abbrev block : MemoryBlock mo S
  block = memory_block manager mem size

  pub read-Leaves : (offset n : ℕ) (buffer : List ℕ) → Leaves live (read block offset n buffer)
  unfolding read
  read-Leaves offset n buffer = Leaves-bind (t.copy_from_lem _ _) (λ bytes. Leaves-pure _)

  pub write-Leaves :
      (offset : ℕ) (buffer : List ℕ) (n : ℕ) → Leaves live (write block offset buffer n)
  unfolding write
  write-Leaves offset buffer n = t.copy_into_lem _ _ _

module _ {S : Type 0} {live : S → List (ℕ × ℕ)} {manager : MemoryManager S}
    (t : Tracks live manager) (mem size : ℕ) (set : mem ≢ 0) where
  abbrev owned : OwnedMemoryBlock S
  owned = memory_block {mo = owned_memory} manager mem size

  pub destroy-owned :
      (older : List (ℕ × ℕ)) (s : S)
      → live s ≡ (mem, size) ∷ older
      → ((destroy owned s).0 ≡ ok tt) × (live (destroy owned s).1 ≡ older)
  unfolding destroy
  destroy-owned older s h =
      let nonzero : (mem == 0) ≡ false = ground arith in
      rw nonzero (t.release_ok mem size older s h, t.release_live mem size older s h)

  pub after_ok :
      {A : Type 0} (r : Result A) (d : Result (Unit {0}) × S)
      → d.0 ≡ ok tt
      → after_destructor r d ≡ (r, d.1)
  after_ok r (ok x, s) h = refl
  after_ok r (throw e, s) h = absurd (cc)

  -- A scope that owns the youngest allocation, and whose body leaves the allocations, releases it, and
  -- ends as its body does.
  pub scoped-live :
      {A : Type 0} (body : Eff S A) (older : List (ℕ × ℕ)) (s : S)
      → Leaves live body
      → live s ≡ (mem, size) ∷ older
      → ((scoped owned body s).0 ≡ (body s).0) × (live (scoped owned body s).1 ≡ older)
  unfolding scoped
  scoped-live body older s leaves h =
      let (done, gone) = destroy-owned older (body s).1 (leaves.at s ∙ h) in
      rw (after_ok (body s).0 (destroy owned (body s).1) done) (refl, gone)

  -- What is left of the allocations after a body that owns the youngest one.
  abbrev pub Kept : {A : Type 0} → List (ℕ × ℕ) → Result A × S → Type 0
  Kept older (ok a, s) = live s ≡ (mem, size) ∷ older
  Kept older (throw e, s) = live s ≡ older

  pub unwind-Kept :
      {A : Type 0} (older : List (ℕ × ℕ)) (r : Result A × S)
      → live r.1 ≡ (mem, size) ∷ older
      → Kept older (unwind (destroy owned) r)
  unwind-Kept older (ok a, s) h = h
  unwind-Kept older (throw e, s) h =
      let (done, gone) = destroy-owned older s h in
      rw (after_ok (throw e) (destroy owned s) done) gone

  -- A guarded body that leaves the allocations: they stay if it returns, and the youngest is released
  -- if it throws.
  pub guarded-Kept :
      {A : Type 0} (body : Eff S A) (older : List (ℕ × ℕ)) (s : S)
      → Leaves live body
      → live s ≡ (mem, size) ∷ older
      → Kept older (guarded owned body s)
  unfolding guarded
  guarded-Kept body older s leaves h = unwind-Kept older (body s) (leaves.at s ∙ h)
