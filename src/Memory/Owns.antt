-- ===== src/Memory/Owns.antt =====
-- Code that allocates memory and hands it out as a block, or throws and keeps nothing.
use libload.Common.{
  ℕ, ◌≡◌, ◌≢◌, refl, sym, subst, ◌∙◌, List, ◌∷◌, Eff, Result, ok, throw, Error, and_then, ◌>>=◌,
  ◌>>◌, Leaves, Yields, after_leaves,
}
use libload.Memory.Manager.{MemoryManager}
use libload.Memory.Block.{OwnedMemoryBlock, memory_block, owned_memory, destroy}
use libload.Memory.Scope.{guarded, scoped, unwind}
use libload.Memory.Tracks.{Tracks, after_ok, destroy-owned, scoped-live}

module _ {S : Type 0} {live : S → List (ℕ × ℕ)} {manager : MemoryManager S}
    (t : Tracks live manager) (size : ℕ) (older : List (ℕ × ℕ)) where
  abbrev owned_at : ℕ → OwnedMemoryBlock S
  owned_at mem = memory_block manager mem size

  -- An outcome with a block that owns the youngest allocation, of this size, or an exception that
  -- leaves no allocation behind.
  abbrev pub Owns : Result (OwnedMemoryBlock S) × S → Type 0
  Owns (ok block, s) =
      (mem : ℕ) × (mem ≢ 0) × (block ≡ owned_at mem) × (live s ≡ (mem, size) ∷ older)
  Owns (throw e, s) = live s ≡ older

  guarded-Owns :
      (mem : ℕ) (set : mem ≢ 0) (r : Result (OwnedMemoryBlock S) × S)
      → live r.1 ≡ (mem, size) ∷ older
      → ((b : OwnedMemoryBlock S) → r.0 ≡ ok b → b ≡ owned_at mem)
      → Owns (unwind (destroy (owned_at mem)) r)
  guarded-Owns mem set (ok b, s) h value = (mem, set, value b refl, h)
  guarded-Owns mem set (throw e, s) h value =
      let (done, gone) = destroy-owned t mem size set older s h in
      rw (after_ok t mem size set (throw e) (destroy (owned_at mem) s) done) gone

  after_allocation :
      (r : Result ℕ × S) (body : ℕ → Eff S (OwnedMemoryBlock S))
      → ((mem : ℕ) → r.0 ≡ ok mem → (mem ≢ 0) × (live r.1 ≡ (mem, size) ∷ older))
      → ((e : Error) → r.0 ≡ throw e → live r.1 ≡ older)
      → ((mem : ℕ) → Leaves live (body mem))
      → ((mem : ℕ) → Yields (owned_at mem) (body mem))
      → Owns (and_then r (λ mem. guarded (owned_at mem) (body mem)))
  unfolding guarded
  after_allocation (ok mem, s) body got failed leaves yields =
      let (set, h) = got mem refl in
      guarded-Owns mem set (body mem s) ((leaves mem).at s ∙ h) ((yields mem).at s)
  after_allocation (throw e, s) body got failed leaves yields = failed e refl

module _ {S : Type 0} {live : S → List (ℕ × ℕ)} {manager : MemoryManager S}
    (t : Tracks live manager) (size : ℕ) where
  -- An allocation, and a guarded body that leaves the allocations and yields the block.
  pub allocation-Owns :
      (base : ℕ) (body : ℕ → Eff S (OwnedMemoryBlock S)) (s : S)
      → ((mem : ℕ) → Leaves live (body mem))
      → ((mem : ℕ) → Yields (memory_block manager mem size) (body mem))
      → Owns t size (live s) (
          (manager.allocate base size >>= λ mem.
          guarded (memory_block {mo = owned_memory} manager mem size) (body mem))
            s)
  allocation-Owns base body s leaves yields =
      after_allocation t size (live s) (manager.allocate base size s) body
        (λ mem h. (t.allocate_set base size mem s h, t.allocate_ok base size mem s h))
        (λ e h. t.allocate_throw base size e s h) leaves yields

  -- What goes on with such a block in a scope that releases it leaves the allocations of the start.
  pub scope-Leaves :
      {A B : Type 0} (m : Eff S (OwnedMemoryBlock S)) (k : OwnedMemoryBlock S → Eff S A)
      (rest : Eff S B)
      → ((s : S) → Owns t size (live s) (m s))
      → ((mem : ℕ) → Leaves live (k (memory_block manager mem size)))
      → Leaves live rest
      → Leaves live (m >>= λ block. scoped block (k block) >> rest)
  scope-Leaves m k rest owns leaves leaves' = record {
    at = λ s. by_outcome (live s) (m s) (owns s);
  }
    where
      by_outcome :
          (older : List (ℕ × ℕ)) (r : Result (OwnedMemoryBlock S) × S)
          → Owns t size older r
          → live (and_then r (λ block. scoped block (k block) >> rest)).1 ≡ older
      by_outcome older (ok block, s) (mem, set, e, h) =
          let (same, gone) =
            scoped-live t mem size set (k (memory_block manager mem size)) older s (leaves mem) h in
          subst (λ b. live ((scoped b (k b) >> rest) s).1 ≡ older) (sym e)
            (after_leaves live
              (scoped (memory_block {mo = owned_memory} manager mem size)
                (k (memory_block manager mem size)) s)
              (λ a. rest) older gone (λ a h'. leaves'.at _))
      by_outcome older (throw e, s) h = h
