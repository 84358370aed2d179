-- ===== src/Memory/Tests.antt =====
-- The theorems on blocks at concrete blocks, and runs of src/memory_block.hpp.
use mathlib.Core.Path.{refl}
use libload.Common.{inl, ◌+◌, inr, replicate, ℕ, ◌≡◌, [], ◌∷◌, ok, arith, ◌>>=◌, ◌>>◌}
use libload.Memory.Bytes.{load_bytes}
use libload.Memory.Block.{
  MemoryBlock, owned_memory, memory_block, read, write, get_memory_block_slice, as_buffer,
}
use libload.Memory.Access
use libload.Memory.Slice.{read-slice}
use libload.Memory.Endian.{
  read_le_value_from, write_le_value_into, read_le-write_le, le_value, modify_le_value_at,
  modify_le_value_at_lem,
}
use libload.Memory.Flat.{flat_manager, flat-CopiesBytes, counting}

-- 16 bytes at the address 100.
abbrev block : MemoryBlock owned_memory (ℕ → ℕ)
block = memory_block flat_manager 100 16

read_short :
    read block 14 4 (7 ∷ 7 ∷ 7 ∷ 7 ∷ []) counting ≡ (ok (2, 114 ∷ 115 ∷ 7 ∷ 7 ∷ []), counting)
unfolding read load_bytes
read_short = refl

write-in_block_example :
    let s' = (write block 14 (1 ∷ 2 ∷ 3 ∷ []) 3 counting).1 in
    ((write block 14 (1 ∷ 2 ∷ 3 ∷ []) 3 counting).0 ≡ ok 2)
    × (load_bytes s' 114 2 ≡ 1 ∷ 2 ∷ [])
    × (s' 116 ≡ counting 116)
write-in_block_example =
    Access.write-in_block owned_memory flat-CopiesBytes 100 16 14 3 (1 ∷ 2 ∷ 3 ∷ []) counting 116
      (omega arith) (omega arith) (omega arith) (inr (omega arith))

read-write_example :
    let s' = (write block 4 (1 ∷ 2 ∷ 3 ∷ []) 3 counting).1 in
    read block 4 3 (0 ∷ 0 ∷ 0 ∷ []) s' ≡ (ok (3, 1 ∷ 2 ∷ 3 ∷ []), s')
read-write_example =
    Access.read-write owned_memory flat-CopiesBytes 100 16 4 (1 ∷ 2 ∷ 3 ∷ []) (0 ∷ 0 ∷ 0 ∷ [])
      counting (omega arith) (omega arith) refl

write-past_end_example :
    let s' = (write block 17 (1 ∷ 2 ∷ 3 ∷ []) 3 counting).1 in
    ((write block 17 (1 ∷ 2 ∷ 3 ∷ []) 3 counting).0 ≡ ok 3)
    × (load_bytes s' 117 3 ≡ 1 ∷ 2 ∷ 3 ∷ [])
    × (s' 115 ≡ counting 115)
write-past_end_example =
    Access.write-past_end owned_memory flat-CopiesBytes 100 16 17 3 (1 ∷ 2 ∷ 3 ∷ []) counting 115
      (omega arith) (omega arith) (omega arith) (omega arith)

-- The slice of 4 bytes from offset 8 on shows the bytes from offset 0 on.
read-slice_example :
    (get_memory_block_slice block 8 4 >>= λ slice. read slice 0 2 (0 ∷ 0 ∷ [])) counting
    ≡ read block 0 2 (0 ∷ 0 ∷ []) counting
read-slice_example =
    read-slice block 8 4 counting 0 2 (0 ∷ 0 ∷ []) (omega arith) (omega arith) (omega arith)

slice_shows :
    (get_memory_block_slice block 8 4 >>= λ slice. read slice 0 2 (0 ∷ 0 ∷ [])) counting
    ≡ (ok (2, 100 ∷ 101 ∷ []), counting)
unfolding read load_bytes get_memory_block_slice
slice_shows = refl

read_le-write_le_example :
    ((write_le_value_into 4 0x12345678 (as_buffer block) 12
        >> read_le_value_from 4 (replicate 4 0) (as_buffer block) 12)
      counting).0
    ≡ ok 0x12345678
read_le-write_le_example =
    read_le-write_le owned_memory flat-CopiesBytes 100 16 4 12 (replicate 4 0) counting
      (omega arith) (omega arith) refl 0x12345678 (omega arith)

modify_le_value_at_lem_example :
    let s' = (modify_le_value_at 2 (0 ∷ 0 ∷ []) (as_buffer block) 4 (λ v. v + 5) counting).1 in
    ((modify_le_value_at 2 (0 ∷ 0 ∷ []) (as_buffer block) 4 (λ v. v + 5) counting).0 ≡ ok tt)
    × (le_value (load_bytes s' 104 2) ≡ le_value (load_bytes counting 104 2) + 5)
    × (s' 103 ≡ counting 103)
unfolding le_value load_bytes
modify_le_value_at_lem_example =
    modify_le_value_at_lem owned_memory flat-CopiesBytes 100 16 2 4 (0 ∷ 0 ∷ []) counting
      (omega arith) (omega arith) refl (λ v. v + 5) 103 (omega arith) (inl (omega arith))
