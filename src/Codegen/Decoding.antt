-- ===== src/Codegen/Decoding.antt =====
-- The decoder on the bytes that the encoders of src/arch/x64/code_generator.cpp append.
use libload.Common.{
  append_assoc, ap, ◌∷◌, ◌∙◌, IsU32, ok, drop-append, take-append, ℕ, ◌^◌, ◌<◌, ◌≡◌, List, ◌++◌,
  some, arith, IsU64, length, length-append, leb, true,
}
use libload.Memory.Endian.{le_bytes, length-le_bytes, le_value-le_bytes}
use libload.Codegen.Isa.{call_rel, push_imm, mov_imm, take_le, decode}
use libload.Codegen.Encoding.{append_imm64_lem}
use libload.Codegen.X64.{
  mov_rax_imm64, mov_rcx_imm64, mov_rdx_imm64, mov_rsi_imm64, mov_rdi_imm64, mov_r8_imm64,
  mov_r9_imm64, mov_r10_imm64, push_imm32, append_mov,
}

take_le-le_bytes :
    (n v : ℕ) (rest : List ℕ) → v < 256 ^ n → take_le n (le_bytes n v ++ rest) ≡ some (v, rest)
unfolding take_le
take_le-le_bytes n v rest h =
    let enough : leb n (length (le_bytes n v ++ rest)) ≡ true =
      ground (arith, length-append (le_bytes n v) rest, length-le_bytes n v) in
    rw (
      enough,
      take-append n (le_bytes n v) rest (length-le_bytes n v),
      drop-append n (le_bytes n v) rest (length-le_bytes n v),
      le_value-le_bytes n v h,
    )

-- The opcode bytes of `mov register, imm64`.
abbrev pub Moves : List ℕ → ℕ → Type 0
Moves opcode register =
    (v : ℕ) (rest : List ℕ)
    → IsU64 v
    → decode (opcode ++ (le_bytes 8 v ++ rest)) ≡ some (mov_imm register v, rest)

-- The two bytes of a REX.W prefix with or without its B bit, and of an opcode, name the register.
pub rax_Moves : Moves mov_rax_imm64 0
unfolding decode
rax_Moves v rest h = rw (take_le-le_bytes 8 v rest h)

pub rcx_Moves : Moves mov_rcx_imm64 1
unfolding decode
rcx_Moves v rest h = rw (take_le-le_bytes 8 v rest h)

pub rdx_Moves : Moves mov_rdx_imm64 2
unfolding decode
rdx_Moves v rest h = rw (take_le-le_bytes 8 v rest h)

pub rsi_Moves : Moves mov_rsi_imm64 6
unfolding decode
rsi_Moves v rest h = rw (take_le-le_bytes 8 v rest h)

pub rdi_Moves : Moves mov_rdi_imm64 7
unfolding decode
rdi_Moves v rest h = rw (take_le-le_bytes 8 v rest h)

pub r8_Moves : Moves mov_r8_imm64 8
unfolding decode
r8_Moves v rest h = rw (take_le-le_bytes 8 v rest h)

pub r9_Moves : Moves mov_r9_imm64 9
unfolding decode
r9_Moves v rest h = rw (take_le-le_bytes 8 v rest h)

pub r10_Moves : Moves mov_r10_imm64 10
unfolding decode
r10_Moves v rest h = rw (take_le-le_bytes 8 v rest h)

pub decode-push_imm32 :
    (v : ℕ) (rest : List ℕ)
    → IsU32 v
    → decode (push_imm32 ++ (le_bytes 4 v ++ rest)) ≡ some (push_imm v, rest)
unfolding decode
decode-push_imm32 v rest h = rw (take_le-le_bytes 4 v rest h)

pub decode-call_rel32 :
    (v : ℕ) (rest : List ℕ)
    → IsU32 v
    → decode (0xe8 ∷ (le_bytes 4 v ++ rest)) ≡ some (call_rel v, rest)
unfolding decode
decode-call_rel32 v rest h = rw (take_le-le_bytes 4 v rest h)

pub append_mov_lem :
    (opcode : List ℕ) (v : ℕ) (chunk : List ℕ)
    → IsU64 v
    → append_mov opcode v chunk ≡ ok (chunk ++ (opcode ++ le_bytes 8 v))
unfolding append_mov
append_mov_lem opcode v chunk h =
    append_imm64_lem v (chunk ++ opcode) h ∙ ap ok (append_assoc chunk opcode (le_bytes 8 v))
