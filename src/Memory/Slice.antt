-- ===== src/Memory/Slice.antt =====
-- get_memory_block_slice of src/memory_block.hpp.
use libload.Common.{
  ℕ, ◌+◌, ◌^◌, ◌≤◌, ◌<◌, ◌≡◌, List, arith, ok, throw, IsU64, Error, ◌-◌, ◌-64◌, min, ◌>>=◌,
  Bool-cases, inl, inr, true, false, leb, if◌then◌else◌, add64_small, sub64_le,
}
use libload.Memory.Block.{
  MemoryOwnership, MemoryBlock, BorrowedMemoryBlock, read, get_memory_block_slice,
}

min_left : (a b : ℕ) → b ≤ a → min b a ≡ b
min_left a b h = omega arith

module _ {mo : MemoryOwnership} {S : Type 0} (block : MemoryBlock mo S) (offset size : ℕ)
    (s : S) where
  -- The slice that the code makes of a block: its front.
  abbrev front : BorrowedMemoryBlock S
  front = record {
    mem_manager = block.mem_manager;
    mem_pointer = block.mem_pointer;
    mem_size = size;
  }

  pub get_memory_block_slice_lem :
      IsU64 block.mem_size
      → offset + size < 2 ^ 64
      → get_memory_block_slice block offset size s
        ≡ (if leb block.mem_size (offset + size) then throw Error.out_of_range else ok front, s)
  unfolding get_memory_block_slice
  get_memory_block_slice_lem w h = elim (Bool-cases (leb block.mem_size (offset + size))) [
    | inl long ↦ rw (add64_small offset size h, long)
    | inr short ↦ rw (
      add64_small offset size h,
      short,
      sub64_le block.mem_size offset (ground arith) w,
      min_left (block.mem_size - offset) size (ground arith),
    )
  ]

  -- In a block of 64-bit size, a range that ends at the end of the block, or behind it, but below
  -- 2^64, is refused with out_of_range; so also one that fits the block exactly.
  slice-out_of_range :
      IsU64 block.mem_size
      → offset + size < 2 ^ 64
      → block.mem_size ≤ offset + size
      → get_memory_block_slice block offset size s ≡ (throw Error.out_of_range, s)
  slice-out_of_range w h k =
      let long : leb block.mem_size (offset + size) ≡ true = ground arith in
      rw (get_memory_block_slice_lem w h, long)

  -- In a block of 64-bit size, a slice that ends before the end of the block shows the front of
  -- the block, whatever its offset is: reading from it within its size is reading from the block
  -- at the same place, not at the slice's offset.
  pub read-slice :
      (k n : ℕ) (buffer : List ℕ)
      → IsU64 block.mem_size
      → offset + size < block.mem_size
      → k + n ≤ size
      → (get_memory_block_slice block offset size >>= λ slice. read slice k n buffer) s
        ≡ read block k n buffer s
  unfolding read
  read-slice k n buffer w h fits =
      let granted : leb block.mem_size (offset + size) ≡ false = ground arith in
      let in_slice : min (size -64 k) n ≡ n = omega arith in
      let in_block : min (block.mem_size -64 k) n ≡ n = omega arith in
      rw (get_memory_block_slice_lem w (omega arith), granted, in_slice, in_block)
