-- ===== src/Codegen/Chunk.antt =====
-- The chunks of src/code_chunk.hpp and .cpp with X64RelativeCall, and the sinks that take their
-- bytes. A CodeLocation is an AbsoluteCodeLocation, that is, its address.
use libload.Common.{
  ℕ, List, [], ◌∷◌, Eff, Result, ok, throw, ◌>>=◌, ◌>>◌, pure, ◌+64◌, ◌-64◌, length,
}
use libload.Memory.Block.{MutableMemoryBuffer}
use libload.Codegen.Imm.{append_imm32}

-- The virtual method of CodeSink: the bytes of `data`, `size` of them.
pub record CodeSink (S : Type 0) : Type 0 where
  pub append : List ℕ → Eff S (Unit {0})

pub record CodeLocation : Type 0 where
  pub address : ℕ

-- `location - _address`, as a word: a std::ptrdiff_t that is negative stands for its pattern.
unfoldable pub distance_from : CodeLocation → ℕ → ℕ
distance_from code_location location = location -64 code_location.address

unfoldable pub absolute_address : CodeLocation → ℕ → ℕ
absolute_address code_location location = code_location.address

-- The classes below CodeChunk. `relative_call` holds the bytes that set the parameters.
mutual
  pub data CodeChunk : Type 0 where
    code_chunk_literal : List ℕ → CodeChunk
    fixed_code_chunk : List ℕ → CodeChunk
    code_block : CodeChunks → CodeChunk
    relative_call : List ℕ → CodeLocation → CodeChunk

  pub data CodeChunks : Type 0 where
    nil : CodeChunks
    cons : CodeChunk → CodeChunks → CodeChunks

-- CodeBlock::add on the vector of a block.
unfoldable pub add : CodeChunks → CodeChunk → CodeChunks
add nil chunk = cons chunk nil
add (cons c cs) chunk = cons c (add cs chunk)

-- `max_size_loop` is the std::accumulate of a block.
unfoldable mutual
  pub max_size : CodeChunk → ℕ
  max_size (code_chunk_literal d) = length d
  max_size (fixed_code_chunk d) = length d
  max_size (code_block cs) = max_size_loop cs 0
  max_size (relative_call set_params location) = length set_params +64 1 +64 4

  pub max_size_loop : CodeChunks → ℕ → ℕ
  max_size_loop nil block_size = block_size
  max_size_loop (cons c cs) block_size = max_size_loop cs (block_size +64 max_size c)

module _ {S : Type 0} where
  abbrev pub lift : {A : Type 0} → Result A → Eff S A
  lift r s = (r, s)

  -- CodeChunkLiteral::emit and FixedCodeChunk::emit.
  unfoldable pub emit_data : List ℕ → CodeSink S → Eff S ℕ
  emit_data d code_sink = code_sink.append d >> pure (length d)

  -- X64RelativeCall::emit.
  unfoldable pub emit_relative_call : List ℕ → CodeLocation → ℕ → CodeSink S → Eff S ℕ
  unfolding emit_data distance_from append_imm32
  emit_relative_call set_params code_location location code_sink = do
    chunk_size ← emit_data set_params code_sink
    let call_location = location +64 chunk_size
    call_chunk ← lift (append_imm32 (distance_from code_location call_location -64 5) (0xe8 ∷ []))
    call_size ← emit_data call_chunk code_sink
    pure (chunk_size +64 call_size)

  -- `emit_loop` is the std::accumulate of a block, at the block's location.
  unfoldable mutual
    unfolding emit_data emit_relative_call

    pub emit : CodeChunk → ℕ → CodeSink S → Eff S ℕ
    emit (code_chunk_literal d) location code_sink = emit_data d code_sink
    emit (fixed_code_chunk d) location code_sink = emit_data d code_sink
    emit (code_block cs) location code_sink = emit_loop cs location 0 code_sink
    emit (relative_call set_params target) location code_sink =
        emit_relative_call set_params target location code_sink

    pub emit_loop : CodeChunks → ℕ → ℕ → CodeSink S → Eff S ℕ
    emit_loop nil location bytes_emitted code_sink = pure bytes_emitted
    emit_loop (cons c cs) location bytes_emitted code_sink = do
      chunk_size ← emit c (location +64 bytes_emitted) code_sink
      emit_loop cs location (bytes_emitted +64 chunk_size) code_sink

-- MemoryBufferCodeSink: its `_offset` beside the state in which its buffer lives. What the write
-- returns is not looked at; an exception leaves the offset.
pub record SinkState (S : Type 0) : Type 0 where
  pub memory : S
  pub offset : ℕ

abbrev advance : {S : Type 0} → ℕ → ℕ → Result ℕ × S → Result (Unit {0}) × SinkState S
advance offset size (ok written, s) = (ok tt, record { memory = s; offset = offset +64 size })
advance offset size (throw e, s) = (throw e, record { memory = s; offset = offset })

unfoldable pub memory_buffer_code_sink :
    {S : Type 0} → MutableMemoryBuffer S → CodeSink (SinkState S)
memory_buffer_code_sink buffer = record {
  append = λ d s. advance s.offset (length d) (buffer.write s.offset d (length d) s.memory);
}

-- The state of a new sink.
abbrev pub start : {S : Type 0} → S → SinkState S
start s = record { memory = s; offset = 0 }
