-- ===== src/Memory/Owners.antt =====
-- The blocks of a program over its run: the constructors, release, the moving constructor and the
-- destructor of MemoryBlock of src/memory_block.hpp, in any order that the program calls them.
pub mod Balance
use libload.Common.{
  Bool-cases, inl, inr, ℕ, ◌+◌, ◌<◌, ◌≡◌, ◌≢◌, refl, ap, List, [], ◌∷◌, ◌++◌, All, some, ok, arith,
  ◌==◌, ◌&&◌, if◌then◌else◌,
}
use libload.Memory.Manager.{MemoryManager}
use libload.Memory.Block.{
  OwnedMemoryBlock, owned_memory, memory_block, release, destroy, move_block,
}

-- A block, the pointers and sizes that were taken from blocks before their release, and the state of the manager.
pub record Blocks (S : Type 0) : Type 0 where
  pub blocks : List (OwnedMemoryBlock S)
  pub raw : List (ℕ × ℕ)
  pub state : S

module _ {S : Type 0} (manager : MemoryManager S) where
  -- What the program may do next.
  pub data Step : Blocks S → Blocks S → Type 0 where
    allocate :
        (m : Blocks S) (base size mem : ℕ) (s : S)
        → manager.allocate base size m.state ≡ (ok mem, s)
        → Step m (record m { blocks = memory_block manager mem size ∷ m.blocks; state = s })
    move :
        (m : Blocks S) (before after : List (OwnedMemoryBlock S)) (b : OwnedMemoryBlock S)
        → m.blocks ≡ before ++ (b ∷ after)
        → Step m (record m {
          blocks =
              (move_block {mo = owned_memory} b).0
              ∷ (before ++ ((move_block {mo = owned_memory} b).1 ∷ after));
        })
    hand_over :
        (m : Blocks S) (before after : List (OwnedMemoryBlock S)) (b : OwnedMemoryBlock S)
        → m.blocks ≡ before ++ (b ∷ after)
        → Step m (record m {
          blocks = before ++ (release b ∷ after);
          raw = (b.mem_pointer, b.mem_size) ∷ m.raw;
        })
    adopt :
        (m : Blocks S) (before after : List (ℕ × ℕ)) (mem size : ℕ)
        → m.raw ≡ before ++ ((mem, size) ∷ after)
        → Step m
            (record m { blocks = memory_block manager mem size ∷ m.blocks; raw = before ++ after })
    leave :
        (m : Blocks S) (before after : List (OwnedMemoryBlock S)) (b : OwnedMemoryBlock S)
        → m.blocks ≡ before ++ (b ∷ after)
        → Step m (record m { blocks = before ++ after; state = (destroy b m.state).1 })

  pub data Reach (m : Blocks S) : Blocks S → Type 0 where
    here : Reach m m
    next : {m' m'' : Blocks S} → Reach m m' → Step m' m'' → Reach m m''

  -- One, if the pair is an allocation at that address and of that size.
  abbrev pub one_at : ℕ → ℕ → ℕ → ℕ → ℕ
  one_at a n mem size = if (mem == a) && (size == n) then 1 else 0

  -- How many blocks point to an address with a size, and how many raw pairs do.
  unfoldable pub owners : ℕ → ℕ → List (OwnedMemoryBlock S) → ℕ
  owners a n [] = 0
  owners a n (b ∷ bs) = one_at a n b.mem_pointer b.mem_size + owners a n bs

  unfoldable pub handed : ℕ → ℕ → List (ℕ × ℕ) → ℕ
  handed a n [] = 0
  handed a n ((mem, size) ∷ raw) = one_at a n mem size + handed a n raw

  pub owners-middle :
      (a n : ℕ) (before after : List (OwnedMemoryBlock S)) (b : OwnedMemoryBlock S)
      → owners a n (before ++ (b ∷ after))
        ≡ one_at a n b.mem_pointer b.mem_size + owners a n (before ++ after)
  unfolding owners
  owners-middle a n [] after b = refl
  owners-middle a n (x ∷ before) after b = omega (arith, owners-middle a n before after b)

  pub handed-middle :
      (a n : ℕ) (before after : List (ℕ × ℕ)) (mem size : ℕ)
      → handed a n (before ++ ((mem, size) ∷ after))
        ≡ one_at a n mem size + handed a n (before ++ after)
  unfolding handed
  handed-middle a n [] after mem size = refl
  handed-middle a n ((m, k) ∷ before) after mem size =
      omega (arith, handed-middle a n before after mem size)

  -- A null pointer counts nowhere.
  pub one_at-null : (a n size : ℕ) → a ≢ 0 → one_at a n 0 size ≡ 0
  one_at-null a n size h = ground arith

  pub one_at_self : (mem size : ℕ) → one_at mem size mem size ≡ 1
  one_at_self mem size = ground arith

  -- What the blocks rely on: `live` counts the allocations at an address and of a size that are not
  -- released. One that is live can be released, and is gone then.
  pub record Counts : Type 0 where
    pub live : S → ℕ → ℕ → ℕ
    pub allocate_set :
        (base size mem : ℕ) (s s' : S) → manager.allocate base size s ≡ (ok mem, s') → mem ≢ 0
    pub allocate_lem :
        (base size mem : ℕ) (s s' : S)
        → manager.allocate base size s ≡ (ok mem, s')
        → (a n : ℕ) → live s' a n ≡ one_at a n mem size + live s a n
    pub release_ok :
        (mem size : ℕ) (s : S) → 0 < live s mem size → (manager.release mem size s).0 ≡ ok tt
    pub release_lem :
        (mem size : ℕ) (s : S)
        → 0 < live s mem size
        → (a n : ℕ) → one_at a n mem size + live (manager.release mem size s).1 a n ≡ live s a n
