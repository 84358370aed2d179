-- ===== src/Codegen/Invoke.antt =====
-- invoke_code_block of test/test_codegenerator.cpp: a chunk in memory of its own, and a call of it.
use libload.Common.{
  true, Bool, refl, ap, inr, [], ok, bit_or, length, and_then-ok, IsU64, arith, ◌≡◌, List, ◌∙◌, ◌+◌,
  ℕ, Eff, ◌>>=◌, ◌>>◌,
}
use libload.Memory.Bytes.{Within, load_bytes}
use libload.Codegen.Emit.{emit-Agree, log_sink}
use libload.Codegen.Size.{total, max_size-total}
use libload.Codegen.Sink.{emit-in_block}
use libload.Memory.Manager.{CopiesBytes, MemoryManager, read_access, execute_access}
use libload.Memory.Block.{write, destroy, owned_memory, OwnedMemoryBlock, memory_block, as_buffer}
use libload.Memory.Access
use libload.Memory.Scope.{leave, scoped}
use libload.Codegen.Chunk.{
  SinkState, CodeSink, CodeChunk, emit, max_size, start, memory_buffer_code_sink,
}

module _ {S : Type 0} (memory_manager : MemoryManager S) where
  -- What the emission leaves of the sink is the memory.
  unfoldable pub emit_into : CodeChunk → OwnedMemoryBlock S → Eff S ℕ
  emit_into chunk mem_block s =
      let (r, st) =
        emit chunk mem_block.mem_pointer (memory_buffer_code_sink (as_buffer mem_block))
          (start s) in
      (r, st.memory)

  -- `call` is the call of the code at an address.
  unfoldable pub invoke_code_block : {A : Type 0} → CodeChunk → (ℕ → Eff S A) → Eff S A
  unfolding emit_into scoped
  invoke_code_block chunk call = do
    let block_size = max_size chunk
    mem ← memory_manager.allocate 0 block_size
    let mem_block = memory_block {mo = owned_memory} memory_manager mem block_size
    scoped mem_block (do
      memory_manager.commit mem block_size
      bytes_emitted ← emit_into chunk mem_block
      memory_manager.set_access mem block_size (bit_or read_access execute_access)
      call mem)

-- A manager of pages: a commit succeeds and commits the range, a copy commits and decommits nothing.
-- Access rights are set where the range is committed, and bytes are not changed by that; what a call does
-- with other memory is left open.
pub record Protects {S : Type 0} {manager : MemoryManager S} (c : CopiesBytes manager)
    : Type 0 where
  pub committed : S → ℕ → Bool
  pub rights : S → ℕ → ℕ
  pub commit_ok : (mem size : ℕ) (s : S) → (manager.commit mem size s).0 ≡ ok tt
  pub commit_within :
      (mem size a : ℕ) (s : S)
      → Within mem size a
      → committed (manager.commit mem size s).1 a ≡ true
  pub copy_keeps :
      (buffer : List ℕ) (size mem : ℕ) (s : S)
      → committed (manager.copy_into buffer size mem s).1 ≡ committed s
  pub access_ok :
      (mem size access : ℕ) (s : S)
      → ((a : ℕ) → Within mem size a → committed s a ≡ true)
      → (manager.set_access mem size access s).0 ≡ ok tt
  pub access_within :
      (mem size access a : ℕ) (s : S)
      → ((b : ℕ) → Within mem size b → committed s b ≡ true)
      → Within mem size a
      → rights (manager.set_access mem size access s).1 a ≡ access
  pub access_view :
      (mem size access : ℕ) (s : S) → c.view (manager.set_access mem size access s).1 ≡ c.view s

module _ {S : Type 0} {memory_manager : MemoryManager S} {c : CopiesBytes memory_manager}
    (p : Protects c) where
  abbrev block_at : ℕ → CodeChunk → OwnedMemoryBlock S
  block_at mem chunk = memory_block memory_manager mem (max_size chunk)

  abbrev sink_at : ℕ → CodeChunk → CodeSink (SinkState S)
  sink_at mem chunk = memory_buffer_code_sink (as_buffer (block_at mem chunk))

  write-committed :
      (mem : ℕ) (chunk : CodeChunk) (offset : ℕ) (d : List ℕ) (s : S)
      → p.committed (write (block_at mem chunk) offset d (length d) s).1 ≡ p.committed s
  unfolding write
  write-committed mem chunk offset d s = p.copy_keeps d _ _ s

  append-committed :
      (mem : ℕ) (chunk : CodeChunk) (s : S) (d out : List ℕ) (st : SinkState S)
      → p.committed st.memory ≡ p.committed s
      → ((log_sink.append d out).0 ≡ ok tt)
        × ((sink_at mem chunk).append d st).0 ≡ ok tt
        × (p.committed ((sink_at mem chunk).append d st).1.memory ≡ p.committed s)
  unfolding memory_buffer_code_sink
  append-committed mem chunk s d out st held =
      let (value, _) =
        Access.write-store_bytes owned_memory c mem (max_size chunk) st.offset (length d) d
          st.memory (omega arith) in
      rw value (refl, refl, write-committed mem chunk st.offset d st.memory ∙ held)

  -- An emission that the log succeeds in succeeds in the block, its bytes are there then, and the same
  -- memory is committed.
  emit_into-code :
      (chunk : CodeChunk) (mem n : ℕ) (code : List ℕ) (s : S)
      → IsU64 (total chunk)
      → emit chunk mem log_sink [] ≡ (ok n, code)
      → let r = emit_into memory_manager chunk (block_at mem chunk) s in
        (r.0 ≡ ok n)
        × (load_bytes (c.view r.1) mem (length code) ≡ code)
        × (p.committed r.1 ≡ p.committed s)
  unfolding emit_into
  emit_into-code chunk mem n code s small sent =
      let (alike, fits, held, same) =
        emit-in_block owned_memory c mem (max_size chunk) s chunk mem (mem + max_size chunk)
          (omega (arith, max_size-total chunk small)) small (omega arith) (inr (omega arith)) in
      let (_, kept) =
        emit-Agree log_sink (sink_at mem chunk) (λ out st. p.committed st.memory ≡ p.committed s)
          (λ d out st m. append-committed mem chunk s d out st m) chunk mem [] (start s) refl in
      (rw sent at alike, rw sent at held, kept)

  -- If the manager copies bytes, commits what it is asked to, and sets access rights where memory is
  -- committed: for a chunk of less than 2^64 bytes whose emission at the address that is allocated
  -- returns on the log, invoke_code_block is the call of that address in a scope that releases the
  -- memory afterwards, from a state in which the memory holds the emitted bytes and the access rights
  -- of the whole block are those to read and to execute.
  pub invoke_code_block-calls :
      {A : Type 0} (chunk : CodeChunk) (call : ℕ → Eff S A) (mem n : ℕ) (code : List ℕ) (s s₁ : S)
      → IsU64 (total chunk)
      → emit chunk mem log_sink [] ≡ (ok n, code)
      → memory_manager.allocate 0 (max_size chunk) s ≡ (ok mem, s₁)
      → (s' : S) × (invoke_code_block memory_manager chunk call s
          ≡ scoped (block_at mem chunk) (call mem) s')
        × (load_bytes (c.view s') mem (length code) ≡ code)
        × ((a : ℕ)
            → Within mem (max_size chunk) a
            → p.rights s' a ≡ bit_or read_access execute_access)
  unfolding invoke_code_block scoped
  invoke_code_block-calls chunk call mem n code s s₁ small sent got =
      let size = max_size chunk in
      let access = bit_or read_access execute_access in
      let s₂ = (memory_manager.commit mem size s₁).1 in
      let (emitted, held, kept) = emit_into-code chunk mem n code s₂ small sent in
      let s₃ = (emit_into memory_manager chunk (block_at mem chunk) s₂).1 in
      let there : (a : ℕ) → Within mem size a → p.committed s₃ a ≡ true =
        λ a h. ap (λ f. f a) kept ∙ p.commit_within mem size a s₁ h in
      (
        (memory_manager.set_access mem size access s₃).1,
        rw got (
            ap (leave (destroy (block_at mem chunk))) (
              and_then-ok _ (p.commit_ok mem size s₁)
              ∙ and_then-ok _ emitted
              ∙ and_then-ok _ (p.access_ok mem size access s₃ there))),
        rw (p.access_view mem size access s₃) held,
        λ a h. p.access_within mem size access a s₃ there h,
      )
