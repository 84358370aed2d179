-- ===== src/Codegen/Sink.antt =====
-- MemoryBufferCodeSink of src/code_chunk.cpp on a MemoryBlock: emitting into memory.
use libload.Common.{
  ◌-64◌, ℕ, ◌+◌, ◌^◌, ◌<◌, ◌≤◌, ◌≡◌, refl, sym, ◌∙◌, List, [], ◌++◌, ok, arith, IsU64, length,
  length-append, take_all, min,
}
use libload.Memory.Bytes.{
  load_bytes, store_bytes, Within, Outside, store_bytes-append, store_bytes-Outside,
  load_bytes-store_self,
}
use libload.Memory.Manager.{MemoryManager, CopiesBytes}
use libload.Memory.Block.{MemoryOwnership, memory_block, as_buffer}
use libload.Memory.Access
use libload.Codegen.Chunk.{
  CodeSink, CodeChunk, emit, max_size, SinkState, start, memory_buffer_code_sink,
}
use libload.Codegen.Emit.{log_sink, emit-Agree}
use libload.Codegen.Size.{total, emit-le-max_size}

module _ (mo : MemoryOwnership) {S : Type 0} {manager : MemoryManager S} (c : CopiesBytes manager)
    (ptr mem_size : ℕ) (s₀ : S) where
  abbrev sink : CodeSink (SinkState S)
  sink = memory_buffer_code_sink (as_buffer (memory_block {mo = mo} manager ptr mem_size))

  -- As long as they fit, the bytes that the log has are those that the sink has put at the front
  -- of the block.
  abbrev Mirrors : List ℕ → SinkState S → Type 0
  Mirrors out st =
      length out ≤ mem_size
      → (st.offset ≡ length out) × (c.view st.memory ≡ store_bytes (c.view s₀) ptr out)

  append-Mirrors :
      IsU64 mem_size
      → (d out : List ℕ) (st : SinkState S) → Mirrors out st
      → ((log_sink.append d out).0 ≡ ok tt)
        × ((sink.append d st).0 ≡ ok tt)
        × Mirrors (out ++ d) (sink.append d st).1
  unfolding memory_buffer_code_sink
  append-Mirrors w d out st m =
      let n = length d in
      let (value, bytes) =
        Access.write-store_bytes mo c ptr mem_size st.offset n d st.memory (omega arith) in
      rw value (
        refl,
        refl,
        λ fits.
            let (at_end, held) = m (omega (arith, length-append out d)) in
            let all : min (mem_size -64 st.offset) n ≡ n =
              omega (arith, at_end, length-append out d) in
            (
              omega (arith, at_end, length-append out d),
              bytes
                  ∙ rw (all, take_all n d (omega arith), held, at_end)
                      (sym (store_bytes-append (c.view s₀) ptr out d)),
            ),
      )

  -- If the log of a run fits the block, the run into the block ends alike, the block's front is
  -- the log, the sink's offset is its length, and no byte outside the block has changed.
  emit-sink :
      (chunk : CodeChunk) (location : ℕ)
      → IsU64 mem_size
      → let (r, out) = emit chunk location log_sink [] in
        length out ≤ mem_size
        → let (q, st) = emit chunk location sink (start s₀) in
          (q ≡ r)
          × (st.offset ≡ length out)
          × (load_bytes (c.view st.memory) ptr (length out) ≡ out)
          × ((a : ℕ) → Outside ptr (length out) a → c.view st.memory a ≡ c.view s₀ a)
  emit-sink chunk location w fits =
      let (alike, mirrors) =
        emit-Agree log_sink sink Mirrors (λ d out st m. append-Mirrors w d out st m) chunk location
          [] (start s₀) (λ h. (refl, unfold store_bytes in refl)) in
      let (at_end, held) = mirrors fits in
      let out = (emit chunk location log_sink []).1 in
      (
        sym alike,
        at_end,
        rw held (load_bytes-store_self (c.view s₀) ptr out),
        λ a o. rw held (store_bytes-Outside (c.view s₀) ptr out a o),
      )

  -- If the manager copies bytes: into a block of at least max_size bytes, of 64-bit size, a chunk
  -- of less than 2^64 bytes emits all its bytes. What it returns or throws and the bytes at the
  -- front of the block are those of the log, and no byte outside the block has changed.
  pub emit-in_block :
      (chunk : CodeChunk) (location a : ℕ)
      → IsU64 mem_size
      → IsU64 (total chunk)
      → max_size chunk ≤ mem_size
      → Outside ptr mem_size a
      → let (r, out) = emit chunk location log_sink [] in
        let (q, st) = emit chunk location sink (start s₀) in
        (q ≡ r)
        × (length out ≤ mem_size)
        × (load_bytes (c.view st.memory) ptr (length out) ≡ out)
        × (c.view st.memory a ≡ c.view s₀ a)
  emit-in_block chunk location a w h room o =
      let fits : length (emit chunk location log_sink []).1 ≤ mem_size =
        omega (arith, emit-le-max_size chunk location h) in
      let (alike, _, held, same) = emit-sink chunk location w fits in
      (alike, fits, held, same a (omega arith))

  -- If the manager copies bytes: once the sink's offset has passed the end of the block, with
  -- offset and data together below 2^64, an append writes all its bytes at the offset, advances
  -- the offset, reports nothing, and changes no byte of the block: what it writes is outside.
  append-past_end :
      (d : List ℕ) (st : SinkState S) (a : ℕ)
      → mem_size < st.offset
      → st.offset + length d < 2 ^ 64
      → Within ptr mem_size a
      → let (q, st') = sink.append d st in
        (q ≡ ok tt)
        × (st'.offset ≡ st.offset + length d)
        × (load_bytes (c.view st'.memory) (ptr + st.offset) (length d) ≡ d)
        × (c.view st'.memory a ≡ c.view st.memory a)
  unfolding memory_buffer_code_sink
  append-past_end d st a past h inside =
      let (value, held, same) =
        Access.write-past_end mo c ptr mem_size st.offset (length d) d st.memory a past h
          (omega arith) inside in
      rw value (refl, omega arith, held ∙ take_all (length d) d (omega arith), same)
