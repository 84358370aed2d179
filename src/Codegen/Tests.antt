-- ===== src/Codegen/Tests.antt =====
-- The theorems on emitted code at concrete chunks, and runs of the encoders.
use mathlib.Core.Path.{refl}
use mathlib.Core.Logic.{inr}
use libload.Common.{
  ℕ, ◌+◌, ◌-◌, ◌*◌, ◌%◌, ◌^◌, ◌≤◌, ◌≡◌, ◌≢◌, [], ◌∷◌, ◌++◌, List, ok, throw, some, none, Error,
  arith, length,
}
use libload.Memory.Bytes.{load_bytes}
use libload.Memory.Block.{owned_memory, memory_block, as_buffer}
use libload.Memory.Endian.{le_bytes}
use libload.Memory.Flat.{flat_manager, flat-CopiesBytes, counting}
use libload.Codegen.Chunk.{
  CodeSink, CodeChunk, fixed_code_chunk, code_chunk_literal, code_block, relative_call, nil, cons,
  CodeLocation, emit, max_size, SinkState, start, memory_buffer_code_sink,
}
use libload.Codegen.Emit.{log_sink}
use libload.Codegen.Size.{total, emit-le-max_size}
use libload.Codegen.Isa.{Instr, Machine, Decodes, run, syscall, decode, call_rel}
use libload.Codegen.Calls.{Holds, proc_registers, set_proc_parameters-Holds}
use libload.Codegen.Syscall.{syscall_registers, make_syscall-Holds}
use libload.Codegen.Relative.{call_target, relative_call-misses, relative_call-forward}
use libload.Codegen.Frame.{make_stub_fn, Returns, make_stub_fn-Returns}
use libload.Codegen.Sink.{emit-in_block}
use libload.Codegen.X64.{
  set_proc_parameters, make_syscall, get_calling_convention, x64_calling_convention,
}

abbrev machine : Machine
machine = record { register = λ r. 0x1000 + r; stack = λ a. a }

-- Six bytes in two chunks.
abbrev chunk : CodeChunk
chunk =
    code_block
      (cons (code_chunk_literal (1 ∷ 2 ∷ 3 ∷ 4 ∷ [])) (cons (fixed_code_chunk (5 ∷ 6 ∷ [])) nil))

abbrev sink_100 : CodeSink (SinkState (ℕ → ℕ))
sink_100 =
    memory_buffer_code_sink (as_buffer (memory_block {mo = owned_memory} flat_manager 100 16))

emit-in_block_example :
    let (r, out) = emit chunk 100 log_sink [] in
    let (q, st) = emit chunk 100 sink_100 (start counting) in
    (q ≡ r)
    × (length out ≤ 16)
    × (load_bytes st.memory 100 (length out) ≡ out)
    × (st.memory 116 ≡ counting 116)
emit-in_block_example =
    emit-in_block owned_memory flat-CopiesBytes 100 16 counting chunk 100 116 (omega arith)
      (unfold total in omega arith) (unfold max_size in omega arith) (inr (omega arith))

emit-le-max_size_example : length (emit chunk 100 log_sink []).1 ≤ max_size chunk
emit-le-max_size_example = emit-le-max_size chunk 100 (unfold total in omega arith)

set_proc_parameters-Holds_example :
    (code : List ℕ) × (is : List Instr) × (set_proc_parameters (1 ∷ 2 ∷ 3 ∷ 4 ∷ 5 ∷ []) []
      ≡ ok code)
    × Decodes code is
    × Holds proc_registers (1 ∷ 2 ∷ 3 ∷ 4 ∷ 5 ∷ []) (run is machine)
    × (((run is machine).register 4 + 16 * (5 - 4)) % 2 ^ 64 ≡ 0x1004 % 2 ^ 64)
set_proc_parameters-Holds_example =
    set_proc_parameters-Holds (1 ∷ 2 ∷ 3 ∷ 4 ∷ 5 ∷ []) machine (omega arith)

-- exit(42) on Linux.
make_syscall-Holds_example :
    (bytes : List ℕ) × (is : List Instr) × (make_syscall 60 (42 ∷ []) ≡ ok (fixed_code_chunk bytes))
    × Decodes bytes (is ++ syscall ∷ [])
    × Holds syscall_registers (42 ∷ []) (run is machine)
    × ((run is machine).register 0 ≡ 60)
make_syscall-Holds_example =
    make_syscall-Holds 60 (42 ∷ []) machine (omega arith) (omega arith) (omega arith)

exit_bytes :
    make_syscall 60 (42 ∷ [])
    ≡ ok (
        fixed_code_chunk (
          0x48 ∷ 0xbf ∷ 42 ∷ 0 ∷ 0 ∷ 0 ∷ 0 ∷ 0 ∷ 0 ∷ 0 ∷ 0x48 ∷ 0xb8 ∷ 60 ∷ 0 ∷ 0 ∷ 0 ∷ 0 ∷ 0 ∷ 0
          ∷ 0 ∷ 0x0f ∷ 0x05 ∷ []))
unfolding make_syscall
exit_bytes = refl

abbrev at : ℕ → CodeLocation
at a = record { address = a }

-- A call at 0x2000 of a procedure at 0x1000.
relative_call-misses_example :
    (rel : ℕ) × ((emit (relative_call [] (at 0x1000)) 0x2000 log_sink []).1 ≡ 0xe8 ∷ le_bytes 4 rel)
    × (decode (0xe8 ∷ le_bytes 4 rel) ≡ some (call_rel rel, []))
    × (call_target 0x2000 rel ≢ 0x1000)
relative_call-misses_example =
    relative_call-misses [] (at 0x1000) 0x2000 (omega arith) (omega arith) (omega arith)

-- Its displacement is 0xffb, and it goes to 0x3000.
call_goes_to :
    (emit (relative_call [] (at 0x1000)) 0x2000 log_sink []
      ≡ (ok 5, 0xe8 ∷ 0xfb ∷ 0x0f ∷ 0 ∷ 0 ∷ []))
    × (call_target 0x2000 0xffb ≡ 0x3000)
unfolding emit
call_goes_to = (refl, refl)

relative_call-forward_example :
    emit (relative_call (1 ∷ []) (at 0x3000)) 0x2000 log_sink []
    ≡ (throw Error.overflow_error, 1 ∷ [])
relative_call-forward_example =
    relative_call-forward (1 ∷ []) (at 0x3000) 0x2000 (omega arith) (omega arith) (omega arith)

make_stub_fn-Returns_example :
    (stub : CodeChunk) × (code : List ℕ) × (is : List Instr) × (make_stub_fn 7 ≡ ok stub)
    × (emit stub 0x2000 log_sink [] ≡ (ok (length code), code))
    × Decodes code is
    × Returns 7 machine 5 (run is machine)
make_stub_fn-Returns_example =
    make_stub_fn-Returns 7 0x2000 5 machine (omega arith) (omega arith) (omega arith) (omega arith)

stdcall_known : get_calling_convention "stdcall" ≡ some x64_calling_convention
unfolding get_calling_convention
stdcall_known = refl

thiscall_unknown : get_calling_convention "thiscall" ≡ none
unfolding get_calling_convention
thiscall_unknown = refl
