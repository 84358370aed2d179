-- ===== src/Memory/Access.antt =====
-- MemoryBlock::read and MemoryBlock::write of src/memory_block.hpp against the bytes of the memory.
use libload.Common.{
  refl, append-nil, drop_all, take_all, ◌∙◌, ℕ, ◌+◌, ◌-◌, ◌^◌, ◌≤◌, ◌<◌, ◌≡◌, ap, ◌∙◌, min, List,
  ◌++◌, arith, ok, IsU64, ◌-64◌, length, take, drop, sub64_le, take_all, drop_all, append-nil,
}
use libload.Memory.Bytes.{
  load_bytes, store_bytes, Within, Outside, length-load_bytes, load_bytes-store_take,
  store_take-Outside,
}
use libload.Memory.Manager.{MemoryManager, CopiesBytes}
use libload.Memory.Block.{MemoryOwnership, MemoryBlock, memory_block, read, write}

module _ (mo : MemoryOwnership) {S : Type 0} {manager : MemoryManager S} (c : CopiesBytes manager)
    (ptr mem_size : ℕ) where
  abbrev block : MemoryBlock mo S
  block = memory_block manager ptr mem_size

  -- The number of bytes that both methods move.
  abbrev span : ℕ → ℕ → ℕ
  span offset size = min (mem_size -64 offset) size

  pub read-load_bytes :
      (offset size : ℕ) (buffer : List ℕ) (s : S)
      → read block offset size buffer s ≡ (
        ok (
          span offset size,
          load_bytes (c.view s) (ptr + offset) (span offset size) ++ drop (span offset size) buffer,
        ),
        s,
      )
  unfolding read
  read-load_bytes offset size buffer s = rw (c.copy_from_lem) (rw length-load_bytes)

  -- A write within the buffer that it is given.
  pub write-store_bytes :
      (offset size : ℕ) (buffer : List ℕ) (s : S)
      → size ≤ length buffer
      → ((write block offset buffer size s).0 ≡ ok (span offset size))
        × (c.view (write block offset buffer size s).1
            ≡ store_bytes (c.view s) (ptr + offset) (take (span offset size) buffer))
  unfolding write
  write-store_bytes offset size buffer s h = (
    c.copy_into_value buffer (span offset size) (ptr + offset) s (omega arith),
    c.copy_into_view buffer (span offset size) (ptr + offset) s (omega arith),
  )

  -- The outcome of a write that moves `n` bytes.
  moved :
      (offset size n : ℕ) (buffer : List ℕ) (s : S)
      → span offset size ≡ n
      → n ≤ size
      → size ≤ length buffer
      → let s' = (write block offset buffer size s).1 in
        ((write block offset buffer size s).0 ≡ ok n)
        × (load_bytes (c.view s') (ptr + offset) n ≡ take n buffer)
        × ((a : ℕ) → Outside (ptr + offset) n a → c.view s' a ≡ c.view s a)
  moved offset size n buffer s e h k =
      let (value, bytes) = write-store_bytes offset size buffer s k in
      let at_n = rw e at bytes in
      (
        rw e at value,
        rw at_n (load_bytes-store_take (c.view s) (ptr + offset) n buffer (omega arith)),
        λ a o. rw at_n (store_take-Outside (c.view s) (ptr + offset) n buffer (omega arith) a o),
      )

  -- From an offset up to the end of the block a read yields the block's bytes at the offset, as many as there are
  -- but no more than asked for, in front of what the buffer held; the state stays as it is.
  pub read-in_block :
      (offset size : ℕ) (buffer : List ℕ) (s : S)
      → IsU64 mem_size
      → offset ≤ mem_size
      → read block offset size buffer s ≡ (
        ok (
          min (mem_size - offset) size,
          load_bytes (c.view s) (ptr + offset) (min (mem_size - offset) size)
              ++ drop (min (mem_size - offset) size) buffer,
        ),
        s,
      )
  read-in_block offset size buffer s w h =
      rw (← sub64_le mem_size offset h w) (read-load_bytes offset size buffer s)

  -- If the manager copies bytes, and the block has a 64-bit size: from an offset up to the end of
  -- the block, a write of no more bytes than the buffer has returns the number of them that fit
  -- in the block, puts as many from the front of the buffer there, and changes no byte outside
  -- the block.
  pub write-in_block :
      (offset size : ℕ) (buffer : List ℕ) (s : S) (a : ℕ)
      → IsU64 mem_size
      → offset ≤ mem_size
      → size ≤ length buffer
      → Outside ptr mem_size a
      → let n = min (mem_size - offset) size in
        let s' = (write block offset buffer size s).1 in
        ((write block offset buffer size s).0 ≡ ok n)
        × (load_bytes (c.view s') (ptr + offset) n ≡ take n buffer)
        × (c.view s' a ≡ c.view s a)
  write-in_block offset size buffer s a w h k o =
      let (value, bytes, same) =
        moved offset size (min (mem_size - offset) size) buffer s
          (ap (λ d. min d size) (sub64_le mem_size offset h w)) (omega arith) k in
      (value, bytes, same a (omega arith))

  -- If the manager copies bytes: past the end of the block, with offset and size together below
  -- 2^64, the subtraction wraps, and a write of no more bytes than the buffer has writes all of
  -- them at the offset, and changes no byte of the block.
  pub write-past_end :
      (offset size : ℕ) (buffer : List ℕ) (s : S) (a : ℕ)
      → mem_size < offset
      → offset + size < 2 ^ 64
      → size ≤ length buffer
      → Within ptr mem_size a
      → let s' = (write block offset buffer size s).1 in
        ((write block offset buffer size s).0 ≡ ok size)
        × (load_bytes (c.view s') (ptr + offset) size ≡ take size buffer)
        × (c.view s' a ≡ c.view s a)
  write-past_end offset size buffer s a w h k o =
      let (value, bytes, same) = moved offset size size buffer s (omega arith) (omega arith) k in
      (value, bytes, same a (omega arith))

  -- An access of exactly as many bytes as the buffer has, all of them in the block.
  pub write_fits :
      (offset n : ℕ) (bytes : List ℕ) (s : S)
      → IsU64 mem_size
      → offset + n ≤ mem_size
      → length bytes ≡ n
      → let s' = (write block offset bytes n s).1 in
        ((write block offset bytes n s).0 ≡ ok n)
        × (load_bytes (c.view s') (ptr + offset) n ≡ bytes)
        × ((a : ℕ) → Outside (ptr + offset) n a → c.view s' a ≡ c.view s a)
  write_fits offset n bytes s w h k =
      let (value, stored, same) =
        moved offset n n bytes s
          (ap (λ d. min d n) (sub64_le mem_size offset (omega arith) w) ∙ omega arith) (omega arith)
          (omega arith) in
      (value, stored ∙ take_all n bytes (omega arith), same)

  pub read_fits :
      (offset n : ℕ) (buffer : List ℕ) (s : S)
      → IsU64 mem_size
      → offset + n ≤ mem_size
      → length buffer ≡ n
      → read block offset n buffer s ≡ (ok (n, load_bytes (c.view s) (ptr + offset) n), s)
  read_fits offset n buffer s w h k =
      let all : min (mem_size - offset) n ≡ n = omega arith in
      read-in_block offset n buffer s w (omega arith)
      ∙ rw (all, drop_all n buffer (omega arith), append-nil)

  -- If the manager copies bytes, and the block has a 64-bit size: what a write that fits in the
  -- block has put there, a read of as many bytes at the same offset yields, in a buffer of that
  -- length.
  pub read-write :
      (offset : ℕ) (bytes buffer : List ℕ) (s : S)
      → IsU64 mem_size
      → offset + length bytes ≤ mem_size
      → length buffer ≡ length bytes
      → let s' = (write block offset bytes (length bytes) s).1 in
        read block offset (length bytes) buffer s' ≡ (ok (length bytes, bytes), s')
  read-write offset bytes buffer s w h k =
      let (_, stored, _) = write_fits offset (length bytes) bytes s w h refl in
      read_fits offset (length bytes) buffer _ w h k ∙ rw stored
