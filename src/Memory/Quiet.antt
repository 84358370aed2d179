-- ===== src/Memory/Quiet.antt =====
-- Buffers, values in buffers, slices and local copies leave the live allocations as they are.
use libload.Common.{
  pure, ok, Yields, ℕ, ◌≡◌, refl, List, Eff, ◌>>=◌, Leaves, Leaves-bind, Leaves-pure, Bool-cases,
  inl, inr, leb, ◌+64◌, ◌-64◌, min, Yields-bind, Yields-pure,
}
use libload.Memory.Manager.{MemoryManager}
use libload.Memory.Block.{
  owned_memory, read, OwnedMemoryBlock, MemoryOwnership, MutableMemoryBuffer, BorrowedMemoryBlock,
  memory_block, as_buffer, get_memory_block_slice,
}
use libload.Memory.Endian.{read_le_value_from, write_le_value_into, modify_le_value_at}
use libload.Memory.Scope.{LocalMemory, copy_into_local_memory}
use libload.Memory.Tracks.{Tracks, read-Leaves, write-Leaves}
use libload.Memory.Owns.{Owns, allocation-Owns}

pub record BufferLeaves {S X : Type 0} (obs : S → X) (buffer : MutableMemoryBuffer S) : Type 0 where
  pub read_lem : (offset n : ℕ) (into : List ℕ) → Leaves obs (buffer.read offset n into)
  pub write_lem : (offset : ℕ) (bytes : List ℕ) (n : ℕ) → Leaves obs (buffer.write offset bytes n)

pub block-BufferLeaves :
    {S : Type 0} {live : S → List (ℕ × ℕ)} {manager : MemoryManager S} (t : Tracks live manager)
    (mo : MemoryOwnership) (mem size : ℕ)
    → BufferLeaves live (as_buffer (memory_block {mo = mo} manager mem size))
block-BufferLeaves t mo mem size = record {
  read_lem = read-Leaves t mo mem size;
  write_lem = write-Leaves t mo mem size;
}

module _ {S X : Type 0} {obs : S → X} {buffer : MutableMemoryBuffer S} (b : BufferLeaves obs buffer)
    (n : ℕ) where
  pub write_le-Leaves : (v offset : ℕ) → Leaves obs (write_le_value_into n v buffer offset)
  unfolding write_le_value_into
  write_le-Leaves v offset = Leaves-bind (b.write_lem _ _ _) (λ count. Leaves-pure tt)

  pub modify_le-Leaves :
      (uninit : List ℕ) (offset : ℕ) (fn : ℕ → ℕ)
      → Leaves obs (modify_le_value_at n uninit buffer offset fn)
  unfolding modify_le_value_at read_le_value_from
  modify_le-Leaves uninit offset fn =
      Leaves-bind (Leaves-bind (b.read_lem _ _ _) (λ r. Leaves-pure _))
        (λ v. write_le-Leaves (fn v) offset)

module _ {S X B : Type 0} {obs : S → X} (mo : MemoryOwnership) (manager : MemoryManager S)
    (mem mem_size : ℕ) where
  -- What goes on with a slice, of any size, leaves what is observed, if it does so whatever the size.
  pub slice-Leaves :
      (offset size : ℕ) (k : BorrowedMemoryBlock S → Eff S B)
      → ((n : ℕ) → Leaves obs (k (memory_block manager mem n)))
      → Leaves obs
          (get_memory_block_slice (memory_block {mo = mo} manager mem mem_size) offset size >>= k)
  unfolding get_memory_block_slice
  slice-Leaves offset size k leaves = record {
    at = λ s. elim (Bool-cases (leb mem_size (offset +64 size))) [
      | inl long ↦ rw long refl
      | inr granted ↦ rw granted ((leaves (min size (mem_size -64 offset))).at s)
    ];
  }

module _ {S : Type 0} {live : S → List (ℕ × ℕ)} {manager : MemoryManager S}
    (t : Tracks live manager) {current : MemoryManager S} (t' : Tracks live current)
    (local : LocalMemory S)
    (stores : (mem : ℕ) (bytes : List ℕ) (s : S) → live (local.store mem bytes s) ≡ live s)
    (mo : MemoryOwnership) (mem size : ℕ) where
  -- What copy_into_local_memory does with its copy.
  fill : ℕ → Eff S (OwnedMemoryBlock S)
  fill copy = do
    old ← (λ s. (ok (local.load copy size s), s))
    (count, bytes) ← read (memory_block {mo = mo} manager mem size) 0 size old
    put ← (λ s. (ok tt, local.store copy bytes s))
    pure (memory_block current copy size)

  fill-Leaves : (copy : ℕ) → Leaves live (fill copy)
  unfolding fill
  fill-Leaves copy =
      Leaves-bind {m = λ s. (ok (local.load copy size s), s)} (record { at = λ s. refl })
        (λ old. Leaves-bind (read-Leaves t mo mem size 0 size old) (λ (count, bytes).
          Leaves-bind {m = λ s. (ok tt, local.store copy bytes s)}
            (record { at = λ s. stores copy bytes s })
            (λ put. Leaves-pure (memory_block {mo = owned_memory} current copy size))))

  fill-Yields : (copy : ℕ) → Yields (memory_block current copy size) (fill copy)
  unfolding fill
  fill-Yields copy =
      Yields-bind (λ s. (ok (local.load copy size s), s))
        (λ old.
          Yields-bind (read (memory_block {mo = mo} manager mem size) 0 size old) (λ (count, bytes).
            Yields-bind (λ s. (ok tt, local.store copy bytes s)) (λ put. Yields-pure)))

  pub copy_into_local_memory-Owns :
      (s : S)
      → Owns t' size
          (live s)
          (copy_into_local_memory current local (memory_block {mo = mo} manager mem size) s)
  unfolding copy_into_local_memory fill
  copy_into_local_memory-Owns s = allocation-Owns t' size 0 fill s fill-Leaves fill-Yields
