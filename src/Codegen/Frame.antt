-- ===== src/Codegen/Frame.antt =====
-- The function that test/test_codegenerator.cpp makes: make_prolog, set_return_value and make_epilog
-- of src/arch/x64/code_generator.cpp, in a CodeBlock.
use libload.Common.{
  throw, length-append, length, ℕ, ◌≡◌, ◌≢◌, refl, ap, List, [], ◌∷◌, ◌++◌, Result, ok, arith,
  IsU64, ◌+64◌,
}
use libload.Memory.Endian.{le_bytes, length-le_bytes}
use libload.Codegen.Isa.{
  Instr, mov_imm, mov_reg, push_reg, pop_reg, ret, Machine, decode, Decodes, done, step, run,
}
use libload.Codegen.Decoding
use libload.Codegen.Decoding.{append_mov_lem}
use libload.Codegen.X64.{make_prolog, make_epilog, set_return_value, mov_rax_imm64}
use libload.Codegen.Chunk.{CodeChunk, fixed_code_chunk, code_block, nil, add, emit}
use libload.Codegen.Emit.{log_sink}

-- make_stub_fn, with the value that it returns.
pub make_stub_fn : ℕ → Result CodeChunk
make_stub_fn value = elim (set_return_value value) [
  | ok set ↦ ok (code_block (add (add (add nil (make_prolog 0)) set) (make_epilog 0)))
  | throw e ↦ throw e
]

abbrev stub_instrs : ℕ → List Instr
stub_instrs value = push_reg 5 ∷ mov_reg 5 4 ∷ mov_imm 0 value ∷ mov_reg 4 5 ∷ pop_reg 5 ∷ ret ∷ []

stub_bytes : ℕ → List ℕ
stub_bytes value =
    0x55
    ∷ 0x48
    ∷ 0x89
    ∷ 0xe5
    ∷ (mov_rax_imm64 ++ (le_bytes 8 value ++ 0x48 ∷ 0x89 ∷ 0xec ∷ 0x5d ∷ 0xc3 ∷ []))

stub_bytes-Decodes : (value : ℕ) → IsU64 value → Decodes (stub_bytes value) (stub_instrs value)
unfolding stub_bytes decode
stub_bytes-Decodes value h =
    step refl
      (step refl (step (Decoding.rax_Moves value _ h) (step refl (step refl (step refl done)))))

-- Run on a machine, the instructions leave the value in rax, the stack pointer behind the return
-- address, that address where it was, and every other register as it was.
abbrev pub Returns : ℕ → Machine → ℕ → Machine → Type 0
Returns value m r m' =
    (m'.register 0 ≡ value)
    × (m'.register 4 ≡ m.register 4 +64 8)
    × (m'.stack (m.register 4) ≡ m.stack (m.register 4))
    × (m'.register r ≡ m.register r)

stub_instrs-Returns :
    (value r : ℕ) (m : Machine)
    → IsU64 (m.register 4)
    → r ≢ 0
    → r ≢ 4
    → Returns value m r (run (stub_instrs value) m)
unfolding run
stub_instrs-Returns value r m h zero_ne four_ne = (refl, omega arith, ground arith, ground arith)

make_stub_fn-stub_bytes :
    (value location : ℕ)
    → IsU64 value
    → (chunk : CodeChunk) × (make_stub_fn value ≡ ok chunk)
      × (emit chunk location log_sink [] ≡ (ok (length (stub_bytes value)), stub_bytes value))
unfolding make_stub_fn set_return_value add make_prolog make_epilog emit stub_bytes
make_stub_fn-stub_bytes value location h =
    let set = fixed_code_chunk (mov_rax_imm64 ++ le_bytes 8 value) in
    (
      code_block (add (add (add nil (make_prolog 0)) set) (make_epilog 0)),
      rw (append_mov_lem mov_rax_imm64 value [] h, make_stub_fn),
      ap (λ n. (ok n, stub_bytes value))
          (omega (
            arith,
            length-le_bytes 8 value,
            length-append (le_bytes 8 value) (0x48 ∷ 0x89 ∷ 0xec ∷ 0x5d ∷ 0xc3 ∷ []),
          )),
    )

-- For every value of 64 bits and every location, the stub function is made and emitted, and its
-- code returns that value: rax holds it, the stack pointer has passed the return address, which is
-- untouched, and each register but rax and rsp is as before. The stack pointer is a word.
pub make_stub_fn-Returns :
    (value location r : ℕ) (m : Machine)
    → IsU64 value
    → IsU64 (m.register 4)
    → r ≢ 0
    → r ≢ 4
    → (chunk : CodeChunk) × (code : List ℕ) × (is : List Instr) × (make_stub_fn value ≡ ok chunk)
      × (emit chunk location log_sink [] ≡ (ok (length code), code))
      × Decodes code is
      × Returns value m r (run is m)
make_stub_fn-Returns value location r m hv h zero_ne four_ne =
    let (chunk, made, sent) = make_stub_fn-stub_bytes value location hv in
    (
      chunk,
      stub_bytes value,
      stub_instrs value,
      made,
      sent,
      stub_bytes-Decodes value hv,
      stub_instrs-Returns value r m h zero_ne four_ne,
    )
