-- ===== src/Codegen/Size.antt =====
-- How many bytes a chunk of src/code_chunk.cpp emits: max_size and the count that emit returns.
use libload.Common.{
  ℕ, ◌+◌, ◌^◌, ◌≤◌, ◌≡◌, refl, sym, ap, ◌∙◌, List, [], ◌∷◌, ◌++◌, Result, ok, throw, arith, IsU64,
  ◌+64◌, length, length-append, append-nil, append_assoc, and_then, Bool-cases, inl, inr, ltb,
  ◌-64◌,
}
use libload.Memory.Endian.{le_bytes, length-le_bytes}
use libload.Codegen.Encoding.{append_imm32_lem}
use libload.Codegen.Chunk.{
  CodeLocation, CodeChunk, code_chunk_literal, fixed_code_chunk, code_block, relative_call,
  CodeChunks, nil, cons, max_size, max_size_loop, emit_data, emit_relative_call, emit, emit_loop,
  distance_from,
}
use libload.Codegen.Emit.{log_sink}

-- The size with no wrap-around.
unfoldable mutual
  pub total : CodeChunk → ℕ
  total (code_chunk_literal d) = length d
  total (fixed_code_chunk d) = length d
  total (code_block cs) = total_all cs
  total (relative_call set_params target) = length set_params + 5

  pub total_all : CodeChunks → ℕ
  total_all nil = 0
  total_all (cons c cs) = total c + total_all cs

mutual
  unfolding total max_size

  pub max_size-total : (c : CodeChunk) → IsU64 (total c) → max_size c ≡ total c
  max_size-total (code_chunk_literal d) h = refl
  max_size-total (fixed_code_chunk d) h = refl
  max_size-total (code_block cs) h = max_size_loop-total cs 0 (omega arith) ∙ omega arith
  max_size-total (relative_call set_params target) h = omega arith

  max_size_loop-total :
      (cs : CodeChunks) (n : ℕ) → IsU64 (n + total_all cs) → max_size_loop cs n ≡ n + total_all cs
  max_size_loop-total nil n h = omega arith
  max_size_loop-total (cons c cs) n h =
      let here = max_size-total c (omega arith) in
      let there = max_size_loop-total cs (n + total c) (omega arith) in
      ap (max_size_loop cs) (omega (arith, here)) ∙ there ∙ omega arith

-- A run on the log has added at most `limit` bytes to `out`; if it returns a count, that is `n` and
-- their number.
abbrev pub Logged : (limit n : ℕ) → List ℕ → Result ℕ × List ℕ → Type 0
Logged limit n out r =
    (bytes : List ℕ) × (r.1 ≡ out ++ bytes)
    × (length bytes ≤ limit)
    × ((k : ℕ) → r.0 ≡ ok k → k ≡ n + length bytes)

emit_data-Logged : (d out : List ℕ) → Logged (length d) 0 out (emit_data d log_sink out)
unfolding emit_data
emit_data-Logged d out = (d, refl, omega arith, λ k e. ground arith)

emit_relative_call-Logged :
    (set_params : List ℕ) (target : CodeLocation) (location : ℕ) (out : List ℕ)
    → IsU64 (length set_params + 5)
    → Logged
        (length set_params + 5)
        0
        out
        (emit_relative_call set_params target location log_sink out)
unfolding emit_relative_call
emit_relative_call-Logged set_params target location out h =
    let d = distance_from target (location +64 length set_params) -64 5 in
    let size : length (le_bytes 4 d) ≡ 4 = length-le_bytes 4 d in
    elim (Bool-cases (ltb d (2 ^ 32))) [
      | inl near ↦
          rw (append_imm32_lem d (0xe8 ∷ []), near)
            (
              set_params ++ 0xe8 ∷ le_bytes 4 d,
              append_assoc out set_params (0xe8 ∷ le_bytes 4 d),
              omega (arith, length-append set_params (0xe8 ∷ le_bytes 4 d)),
              λ k e. ground (arith, length-append set_params (0xe8 ∷ le_bytes 4 d)),
            )
      | inr far ↦
          rw (append_imm32_lem d (0xe8 ∷ []), far) (set_params, refl, omega arith, λ k e. cc)
    ]

-- A chunk of a block and the chunks behind it.
Logged-then :
    (here there n : ℕ) (out : List ℕ) (r : Result ℕ × List ℕ)
    (rest : ℕ → List ℕ → Result ℕ × List ℕ)
    → IsU64 (n + (here + there))
    → Logged here 0 out r
    → ((k : ℕ) (out' : List ℕ) → IsU64 (k + there) → Logged there k out' (rest k out'))
    → Logged (here + there) n out (and_then r (λ k. rest (n +64 k)))
Logged-then here there n out (throw e, out') rest h (bytes, added, few, count) next =
    (bytes, added, omega arith, λ k e. cc)
Logged-then here there n out (ok k, out') rest h (bytes, added, few, count) next =
    let is : k ≡ length bytes = omega (arith, count k refl) in
    let sum : n +64 k ≡ n + k = omega arith in
    let (more, added', few', count') = next (n +64 k) out' (omega arith) in
    (
      bytes ++ more,
      added' ∙ ap (λ o. o ++ more) added ∙ append_assoc out bytes more,
      omega (arith, length-append bytes more),
      λ j e. omega (arith, count' j e, length-append bytes more),
    )

mutual
  unfolding emit total

  emit-Logged :
      (c : CodeChunk) (location : ℕ) (out : List ℕ)
      → IsU64 (total c)
      → Logged (total c) 0 out (emit c location log_sink out)
  emit-Logged (code_chunk_literal d) location out h = emit_data-Logged d out
  emit-Logged (fixed_code_chunk d) location out h = emit_data-Logged d out
  emit-Logged (code_block cs) location out h = emit_loop-Logged cs location 0 out (omega arith)
  emit-Logged (relative_call set_params target) location out h =
      emit_relative_call-Logged set_params target location out h

  emit_loop-Logged :
      (cs : CodeChunks) (location n : ℕ) (out : List ℕ)
      → IsU64 (n + total_all cs)
      → Logged (total_all cs) n out (emit_loop cs location n log_sink out)
  emit_loop-Logged nil location n out h =
      ([], sym (append-nil out), omega arith, λ k e. ground arith)
  emit_loop-Logged (cons c cs) location n out h =
      Logged-then (total c) (total_all cs) n out _ (λ k. emit_loop cs location k log_sink) h
        (emit-Logged c (location +64 n) out (omega arith))
        (λ k out' h'. emit_loop-Logged cs location k out' h')

module _ (c : CodeChunk) (location : ℕ) (h : IsU64 (total c)) where
  -- A chunk of less than 2^64 bytes emits no more bytes than its max_size says.
  pub emit-le-max_size : length (emit c location log_sink []).1 ≤ max_size c
  emit-le-max_size =
      let (bytes, added, few, count) = emit-Logged c location [] h in
      rw (max_size-total c h, added) few

  -- If the emission of a chunk of less than 2^64 bytes returns a count, that is the number of bytes
  -- that it has emitted.
  pub emit-count :
      {n : ℕ} → (emit c location log_sink []).0 ≡ ok n → n ≡ length (emit c location log_sink []).1
  emit-count {n} e =
      let (bytes, added, few, count) = emit-Logged c location [] h in
      rw added (omega (arith, count n e))
