-- ===== src/Memory/Block.antt =====
-- The template MemoryBlock of src/memory_block.hpp, its two ownerships and its slices.
use libload.Common.{
  ℕ, ◌+◌, min, Bool, not, List, ◌++◌, Option, none, some, Eff, ◌>>=◌, pure, raise, Error, ◌+64◌,
  ◌-64◌, leb, ◌==◌, if◌then◌else◌, length, drop,
}
use libload.Memory.Manager.{MemoryManager}

pub data MemoryOwnership : Type 0 where
  owned_memory : MemoryOwnership
  borrowed_memory : MemoryOwnership

-- `mem_manager` is `none` where the pointer is null.
pub record MemoryBlock (mo : MemoryOwnership) (S : Type 0) : Type 0 where
  pub mem_manager : Option (MemoryManager S)
  pub mem_pointer : ℕ
  pub mem_size : ℕ

-- The virtual methods of MemoryBuffer and MutableMemoryBuffer. A read takes the buffer's old bytes
-- and yields the count and the buffer's new bytes.
pub record MutableMemoryBuffer (S : Type 0) : Type 0 where
  pub read : ℕ → ℕ → List ℕ → Eff S (ℕ × List ℕ)
  pub write : ℕ → List ℕ → ℕ → Eff S ℕ

abbrev pub OwnedMemoryBlock : Type 0 → Type 0
OwnedMemoryBlock = MemoryBlock owned_memory

abbrev pub BorrowedMemoryBlock : Type 0 → Type 0
BorrowedMemoryBlock = MemoryBlock borrowed_memory

module _ {S : Type 0} where
  unfoldable pub dispose : MemoryOwnership → MemoryManager S → ℕ → ℕ → Eff S (Unit {0})
  dispose owned_memory mem_manager mem size = mem_manager.release mem size
  dispose borrowed_memory mem_manager mem size = pure tt

  -- A call through the manager's pointer.
  abbrev pub with_manager :
      {A : Type 0} → Option (MemoryManager S) → (MemoryManager S → Eff S A) → Eff S A
  with_manager none f = raise Error.undefined
  with_manager (some manager) f = f manager

module _ {mo : MemoryOwnership} {S : Type 0} where
  -- The constructor.
  abbrev pub memory_block : MemoryManager S → ℕ → ℕ → MemoryBlock mo S
  memory_block mem_manager mem size = record {
    mem_manager = some mem_manager;
    mem_pointer = mem;
    mem_size = size;
  }

  unfoldable pub release : MemoryBlock mo S → MemoryBlock mo S
  release block = record { mem_manager = none; mem_pointer = 0; mem_size = 0 }

  unfoldable pub destroy : MemoryBlock mo S → Eff S (Unit {0})
  unfolding dispose
  destroy block =
      if not (block.mem_pointer == 0)
      then with_manager block.mem_manager (λ m. dispose mo m block.mem_pointer block.mem_size)
      else pure tt

  unfoldable pub is_set : MemoryBlock mo S → Bool
  is_set block = not (block.mem_pointer == 0)

  -- The accessors: `data`, `size`, and `memory_manager`, whose reference to a null pointer's target is
  -- undefined behaviour.
  unfoldable pub data_pointer : MemoryBlock mo S → ℕ
  data_pointer block = block.mem_pointer

  unfoldable pub size : MemoryBlock mo S → ℕ
  size block = block.mem_size

  unfoldable pub memory_manager : MemoryBlock mo S → Eff S (MemoryManager S)
  memory_manager block = with_manager block.mem_manager (λ manager. pure manager)

  unfoldable pub read : MemoryBlock mo S → ℕ → ℕ → List ℕ → Eff S (ℕ × List ℕ)
  read block offset size into_buffer =
      let bytes_to_read = min (block.mem_size -64 offset) size in
      with_manager block.mem_manager λ manager. do
        bytes ← manager.copy_from (block.mem_pointer + offset) bytes_to_read
        pure (length bytes, bytes ++ drop (length bytes) into_buffer)

  unfoldable pub write : MemoryBlock mo S → ℕ → List ℕ → ℕ → Eff S ℕ
  write block offset from_buffer size =
      let bytes_to_write = min (block.mem_size -64 offset) size in
      with_manager block.mem_manager
        λ manager. manager.copy_into from_buffer bytes_to_write (block.mem_pointer + offset)

  abbrev pub as_buffer : MemoryBlock mo S → MutableMemoryBuffer S
  as_buffer block = record { read = read block; write = write block }

  -- `offset + size >= mem_block.size()` is refused; the slice takes the block's own pointer.
  unfoldable pub get_memory_block_slice : MemoryBlock mo S → ℕ → ℕ → Eff S (BorrowedMemoryBlock S)
  get_memory_block_slice mem_block offset size =
      if leb mem_block.mem_size (offset +64 size)
      then raise Error.out_of_range
      else let slice_size = min size (mem_block.mem_size -64 offset) in
        pure (record {
          mem_manager = mem_block.mem_manager;
          mem_pointer = mem_block.mem_pointer;
          mem_size = slice_size;
        })

-- The moving constructor, from a block of either ownership: the new block, and what is left of the
-- other one.
unfoldable pub move_block :
    {mo mo2 : MemoryOwnership} {S : Type 0}
    → MemoryBlock mo2 S
    → MemoryBlock mo S × MemoryBlock mo2 S
unfolding release
move_block other = (
  record {
    mem_manager = other.mem_manager;
    mem_pointer = other.mem_pointer;
    mem_size = other.mem_size;
  },
  release other,
)
