-- ===== src/Memory/Owners/Balance.antt =====
-- Each live allocation has one owner, whatever a program does with its blocks of src/memory_block.hpp.
use libload.Common.{
  Bool-cases, inl, inr, ℕ, ◌+◌, ◌<◌, ◌≡◌, ◌≢◌, refl, ap, List, [], ◌∷◌, ◌++◌, All, some, ok, arith,
  ◌==◌,
}
use libload.Memory.Manager.{MemoryManager}
use libload.Memory.Block.{OwnedMemoryBlock, release, destroy, move_block}
use libload.Memory.Owners.{
  allocate, move, hand_over, adopt, leave, Blocks, Step, Reach, here, next, Counts, one_at, owners,
  handed, owners-middle, handed-middle, one_at-null, one_at_self,
}

module _ {A : Type 0} (P : A → Type 0) where
  All-middle :
      (before after : List A) (b : A)
      → All P (before ++ (b ∷ after))
      → P b × All P (before ++ after)
  All-middle [] after b h = h
  All-middle (x ∷ before) after b (p, h) =
      let (q, others) = All-middle before after b h in (q, (p, others))

  All-insert :
      (before after : List A) (b : A)
      → P b
      → All P (before ++ after)
      → All P (before ++ (b ∷ after))
  All-insert [] after b q h = (q, h)
  All-insert (x ∷ before) after b q (p, h) = (p, All-insert before after b q h)

module _ {S : Type 0} (manager : MemoryManager S) (c : Counts manager) where
  -- A block with a pointer knows the manager.
  abbrev Managed : OwnedMemoryBlock S → Type 0
  Managed b = b.mem_pointer ≢ 0 → b.mem_manager ≡ some manager

  -- Each live allocation is pointed to once, by a block or by a raw pointer.
  pub record Balanced (m : Blocks S) : Type 0 where
    pub counted :
        (a n : ℕ)
        → a ≢ 0
        → owners manager a n m.blocks + handed manager a n m.raw ≡ c.live m.state a n
    pub managed : All Managed m.blocks

  -- What a block with a pointer owns is live.
  owned-live :
      (m : Blocks S) (before after : List (OwnedMemoryBlock S)) (b : OwnedMemoryBlock S)
      → m.blocks ≡ before ++ (b ∷ after)
      → Balanced m
      → b.mem_pointer ≢ 0
      → 0 < c.live m.state b.mem_pointer b.mem_size
  owned-live m before after b e v h = omega (
    arith,
    v.counted b.mem_pointer b.mem_size h,
    ap (owners manager b.mem_pointer b.mem_size) e,
    owners-middle manager b.mem_pointer b.mem_size before after b,
    one_at_self manager b.mem_pointer b.mem_size,
  )

  -- What the destructor of such a block does to the allocations.
  destroy-live :
      (b : OwnedMemoryBlock S) (s : S) (a n : ℕ)
      → Managed b
      → (b.mem_pointer ≢ 0 → 0 < c.live s b.mem_pointer b.mem_size)
      → a ≢ 0
      → ((destroy b s).0 ≡ ok tt)
        × (one_at manager a n b.mem_pointer b.mem_size + c.live (destroy b s).1 a n ≡ c.live s a n)
  unfolding destroy
  destroy-live b s a n managed alive h = elim (Bool-cases (b.mem_pointer == 0)) [
    | inl null ↦
        let none_there : one_at manager a n b.mem_pointer b.mem_size ≡ 0 = ground arith in
        rw null (refl, omega (arith, none_there))
    | inr set ↦
        let nonzero : b.mem_pointer ≢ 0 = ground arith in
        rw (set, managed nonzero)
          (
            c.release_ok b.mem_pointer b.mem_size s (alive nonzero),
            c.release_lem b.mem_pointer b.mem_size s (alive nonzero) a n,
          )
  ]

  step-Balanced : {m m' : Blocks S} → Step manager m m' → Balanced m → Balanced m'
  unfolding owners handed move_block release
  step-Balanced (allocate m base size mem s e) v = record {
    counted = λ a n h. omega (arith, c.allocate_lem base size mem m.state s e a n, v.counted a n h);
    managed = (λ h. refl, v.managed);
  }
  step-Balanced (move m before after b e) v =
      let (managed, others) = All-middle Managed before after b (rw e at v.managed) in
      record {
        counted = λ a n h. omega (
          arith,
          v.counted a n h,
          ap (owners manager a n) e,
          owners-middle manager a n before after b,
          owners-middle manager a n before after (release b),
          one_at-null manager a n 0 h,
        );
        managed =
            (managed, All-insert Managed before after (release b) (λ h. absurd (h refl)) others);
      }
  step-Balanced (hand_over m before after b e) v =
      let (managed, others) = All-middle Managed before after b (rw e at v.managed) in
      record {
        counted = λ a n h. omega (
          arith,
          v.counted a n h,
          ap (owners manager a n) e,
          owners-middle manager a n before after b,
          owners-middle manager a n before after (release b),
          one_at-null manager a n 0 h,
        );
        managed = All-insert Managed before after (release b) (λ h. absurd (h refl)) others;
      }
  step-Balanced (adopt m before after mem size e) v = record {
    counted = λ a n h. omega (
      arith,
      v.counted a n h,
      ap (handed manager a n) e,
      handed-middle manager a n before after mem size,
    );
    managed = (λ h. refl, v.managed);
  }
  step-Balanced (leave m before after b e) v =
      let (managed, others) = All-middle Managed before after b (rw e at v.managed) in
      record {
        counted = λ a n h. omega (
          arith,
          v.counted a n h,
          ap (owners manager a n) e,
          owners-middle manager a n before after b,
          destroy-live b m.state a n managed (owned-live m before after b e v) h,
        );
        managed = others;
      }

  reach-Balanced : {m m' : Blocks S} → Reach manager m m' → Balanced m → Balanced m'
  reach-Balanced here v = v
  reach-Balanced (next r st) v = step-Balanced st (reach-Balanced r v)

  module _ {m m' : Blocks S} (r : Reach manager m m') (no_blocks : m.blocks ≡ [])
      (no_raw : m.raw ≡ []) (no_live : (a n : ℕ) → c.live m.state a n ≡ 0) where
    from_start : Balanced m'
    unfolding owners handed
    from_start = reach-Balanced r (record {
      counted = λ a n h. rw (no_blocks, no_raw) (omega (arith, no_live a n));
      managed = rw no_blocks tt;
    })

    -- If the manager counts its allocations, and the program starts with no block, no released pointer
    -- and no live allocation: after any sequence of allocations into blocks, moves of blocks, releases,
    -- constructions of blocks from released pointers, and destructions, in any order, there are at
    -- each address other than 0 and of each size as many blocks and released pointers as live
    -- allocations, so that none is lost and none has two owners.
    pub Reach-owners :
        (a n : ℕ)
        → a ≢ 0
        → owners manager a n m'.blocks + handed manager a n m'.raw ≡ c.live m'.state a n
    Reach-owners = from_start.counted

    -- If the manager counts its allocations, and the program starts with no block, no released pointer
    -- and no live allocation: after any sequence of allocations, moves, releases, constructions from
    -- released pointers and destructions, the destructor of any of the blocks returns normally, and
    -- takes from the live allocations, at the addresses other than 0, the block's own and no other.
    pub Reach-destroy :
        (before after : List (OwnedMemoryBlock S)) (b : OwnedMemoryBlock S) (a n : ℕ)
        → m'.blocks ≡ before ++ (b ∷ after)
        → a ≢ 0
        → ((destroy b m'.state).0 ≡ ok tt)
          × (one_at manager a n b.mem_pointer b.mem_size + c.live (destroy b m'.state).1 a n
              ≡ c.live m'.state a n)
    Reach-destroy before after b a n e h =
        let (managed, others) = All-middle Managed before after b (rw e at from_start.managed) in
        destroy-live b m'.state a n managed (owned-live m' before after b e from_start) h
