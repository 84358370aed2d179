-- ===== src/Memory/OwnersTests.antt =====
-- The theorems on the blocks of a program at a short run.
use mathlib.Core.Path.{refl}
use libload.Common.{true, ◌+◌, ℕ, ◌≡◌, ok, arith, [], ◌∷◌}
use libload.Memory.Block.{destroy, OwnedMemoryBlock, memory_block, release, move_block}
use libload.Memory.Ledger.{ledger-Counts, Ledger, ledger_manager}
use libload.Memory.Owners.Balance.{Reach-owners, Reach-destroy}
use libload.Memory.Owners.{
  owners, handed, one_at, Blocks, allocate, move, hand_over, Reach, here, next,
}

abbrev owned : ℕ → ℕ → OwnedMemoryBlock Ledger
owned mem size = memory_block (ledger_manager true) mem size

abbrev none_owned : OwnedMemoryBlock Ledger
none_owned = release (owned 0 0)

abbrev started : Blocks Ledger
started = record { blocks = []; raw = []; state = [] }

abbrev allocated : Blocks Ledger
allocated = record { blocks = owned 8 64 ∷ []; raw = []; state = (8, 64) ∷ [] }

abbrev moved : Blocks Ledger
moved = record { blocks = owned 8 64 ∷ none_owned ∷ []; raw = []; state = (8, 64) ∷ [] }

abbrev handed_over : Blocks Ledger
handed_over = record {
  blocks = none_owned ∷ none_owned ∷ [];
  raw = (8, 64) ∷ [];
  state = (8, 64) ∷ [];
}

-- A block is allocated and moved, and its memory is handed over.
abbrev to_moved : Reach (ledger_manager true) started moved
unfolding move_block
to_moved =
    next (next here (allocate started 7 64 8 ((8, 64) ∷ []) refl))
      (move allocated [] [] (owned 8 64) refl)

abbrev to_handed_over : Reach (ledger_manager true) started handed_over
unfolding move_block release
to_handed_over = next to_moved (hand_over moved [] (none_owned ∷ []) (owned 8 64) refl)

Reach-owners_example :
    owners (ledger_manager true) 8 64 handed_over.blocks
      + handed (ledger_manager true) 8 64 handed_over.raw
    ≡ handed (ledger_manager true) 8 64 handed_over.state
unfolding ledger-Counts handed
Reach-owners_example =
    Reach-owners (ledger_manager true) (ledger-Counts true) to_handed_over refl refl (λ a n. refl) 8
      64 (omega arith)

Reach-destroy_example :
    ((destroy (owned 8 64) moved.state).0 ≡ ok tt)
    × (one_at (ledger_manager true) 8 64 8 64
          + handed (ledger_manager true) 8 64 (destroy (owned 8 64) moved.state).1
        ≡ handed (ledger_manager true) 8 64 moved.state)
unfolding ledger-Counts handed
Reach-destroy_example =
    Reach-destroy (ledger_manager true) (ledger-Counts true) to_moved refl refl (λ a n. refl) []
      (none_owned ∷ []) (owned 8 64) 8 64 refl (omega arith)
