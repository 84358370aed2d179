-- ===== src/Codegen/InvokeTests.antt =====
-- The theorem on the call of emitted code, at a memory of pages that refuses access rights for memory that
-- is not committed.
use libload.Common.{
  Result, ◌+◌, ltb, ◌&&◌, leb, ◌+◌, ℕ, ◌≡◌, refl, [], ◌∷◌, ok, throw, pure, Error, Bool, false,
  bit_or, if◌then◌else◌, arith, take, true,
}
use libload.Memory.Bytes.{Bytes, Within, load_bytes, store_bytes}
use libload.Memory.Manager.{MemoryManager, CopiesBytes, read_access, execute_access}
use libload.Memory.Block.{memory_block, owned_memory}
use libload.Memory.Scope.{scoped}
use libload.Memory.Flat.{counting}
use libload.Memory.Paged.{Committed, all_in, all_in-true, commit_range, inside}
use libload.Codegen.Chunk.{
  CodeChunk, code_chunk_literal, fixed_code_chunk, code_block, nil, cons, emit, max_size,
}
use libload.Codegen.Size.{total}
use libload.Codegen.Invoke.{invoke_code_block, Protects, invoke_code_block-calls}

record PagedMemory : Type 0 where
  committed : Committed
  rights : ℕ → ℕ
  bytes : Bytes

abbrev set_rights : ℕ → ℕ → ℕ → PagedMemory → PagedMemory
set_rights mem size access s = record s {
  rights = λ a. if leb mem a && ltb a (mem + size) then access else s.rights a;
}

abbrev granted : ℕ → ℕ → ℕ → PagedMemory → Bool → Result (Unit {0}) × PagedMemory
granted mem size access s true = (ok tt, set_rights mem size access s)
granted mem size access s false = (throw (Error.system_error 487), s)

-- Memory is allocated at 4096.
abbrev paged : MemoryManager PagedMemory
paged = record {
  allows_direct_addressing = true;
  allocate = λ base size. pure 4096;
  release = λ mem size s. (ok tt, record s { committed = λ a. false });
  commit = λ mem size s. (ok tt, record s { committed = commit_range mem size s.committed });
  decommit = λ mem size. pure tt;
  set_access = λ mem size access s. granted mem size access s (all_in s.committed mem size);
  copy_from = λ mem size s. (ok (load_bytes s.bytes mem size), s);
  copy_into = λ buffer size mem s.
      (ok size, record s { bytes = store_bytes s.bytes mem (take size buffer) });
}

abbrev paged-CopiesBytes : CopiesBytes paged
paged-CopiesBytes = record {
  view = λ s. s.bytes;
  copy_from_lem = λ mem size s. refl;
  copy_into_value = λ buffer size mem s h. refl;
  copy_into_view = λ buffer size mem s h. refl;
}

set-Within :
    (mem size a access rest : ℕ)
    → Within mem size a
    → (if leb mem a && ltb a (mem + size) then access else rest) ≡ access
set-Within mem size a access rest h = ground (arith, h)

same_bytes :
    (mem size access : ℕ) (s : PagedMemory) (all : Bool)
    → (granted mem size access s all).1.bytes ≡ s.bytes
same_bytes mem size access s true = refl
same_bytes mem size access s false = refl

abbrev paged-Protects : Protects paged-CopiesBytes
paged-Protects = record {
  committed = λ s. s.committed;
  rights = λ s. s.rights;
  commit_ok = λ mem size s. refl;
  commit_within = λ mem size a s h. inside mem size a (s.committed a) h;
  copy_keeps = λ buffer size mem s. refl;
  access_ok = λ mem size access s there. rw (all_in-true s.committed mem size there) refl;
  access_within = λ mem size access a s there h.
      rw (all_in-true s.committed mem size there) (set-Within mem size a access (s.rights a) h);
  access_view = λ mem size access s. same_bytes mem size access s (all_in s.committed mem size);
}

-- Nothing is committed, and nothing may be accessed.
abbrev fresh : PagedMemory
fresh = record { committed = λ a. false; rights = λ a. 0; bytes = counting }

-- Six bytes in two chunks.
abbrev chunk : CodeChunk
chunk =
    code_block
      (cons (code_chunk_literal (1 ∷ 2 ∷ 3 ∷ 4 ∷ [])) (cons (fixed_code_chunk (5 ∷ 6 ∷ [])) nil))

invoke_code_block-calls_example :
    (s : PagedMemory) × (invoke_code_block paged chunk (λ mem. pure mem) fresh
      ≡ scoped (memory_block {mo = owned_memory} paged 4096 (max_size chunk)) (pure 4096) s)
    × (load_bytes s.bytes 4096 6 ≡ 1 ∷ 2 ∷ 3 ∷ 4 ∷ 5 ∷ 6 ∷ [])
    × ((a : ℕ) → Within 4096 (max_size chunk) a → s.rights a ≡ bit_or read_access execute_access)
invoke_code_block-calls_example =
    invoke_code_block-calls paged-Protects chunk (λ mem. pure mem) 4096 6
      (1 ∷ 2 ∷ 3 ∷ 4 ∷ 5 ∷ 6 ∷ []) fresh fresh (unfold total in omega arith) (unfold emit in refl)
      refl
