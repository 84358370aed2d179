-- ===== src/Codegen/Syscall.antt =====
-- make_syscall of src/arch/x64/code_generator.cpp, up to the `syscall` that ends its code.
use libload.Common.{
  ℕ, ◌<◌, ◌≤◌, ◌≡◌, refl, ap, List, [], ◌∷◌, ◌++◌, ok, throw, some, Error, arith, IsU32, IsU64, All,
  length, append_assoc,
}
use libload.Memory.Endian.{le_bytes}
use libload.Codegen.Isa.{Instr, mov_imm, syscall, Machine, decode, Decodes, done, step, run}
use libload.Codegen.Decoding
use libload.Codegen.Decoding.{append_mov_lem}
use libload.Codegen.Parameters.{
  mov_bytes, mov_instrs, mov_bytes-Decodes, set_parameters_by-mov_bytes, set_parameters_by-throw,
  mov_bytes-append, AllMove,
}
use libload.Codegen.Calls.{Holds}
use libload.Codegen.X64.{
  syscall_movs, make_syscall, set_syscall_parameters, extend_int, mov_rax_imm64,
}
use libload.Codegen.Chunk.{fixed_code_chunk}

-- rdi, rsi, rdx, r10, r8, r9.
abbrev pub syscall_registers : List ℕ
syscall_registers = 7 ∷ 6 ∷ 2 ∷ 10 ∷ 8 ∷ 9 ∷ []

abbrev pub syscall_instrs : ℕ → List ℕ → List Instr
syscall_instrs code params = mov_instrs syscall_registers params (mov_imm 0 (extend_int code) ∷ [])

syscall_instrs-Holds :
    (code : ℕ) (params : List ℕ) (m : Machine)
    → length params ≤ 6
    → Holds syscall_registers params (run (syscall_instrs code params) m)
      × ((run (syscall_instrs code params) m).register 0 ≡ extend_int code)
unfolding mov_instrs run
syscall_instrs-Holds code [] m h = (tt, refl)
syscall_instrs-Holds code (a ∷ []) m h = ((refl, tt), refl)
syscall_instrs-Holds code (a ∷ b ∷ []) m h = ((refl, (refl, tt)), refl)
syscall_instrs-Holds code (a ∷ b ∷ c ∷ []) m h = ((refl, (refl, (refl, tt))), refl)
syscall_instrs-Holds code (a ∷ b ∷ c ∷ d ∷ []) m h = ((refl, (refl, (refl, (refl, tt)))), refl)
syscall_instrs-Holds code (a ∷ b ∷ c ∷ d ∷ e ∷ []) m h =
    ((refl, (refl, (refl, (refl, (refl, tt))))), refl)
syscall_instrs-Holds code (a ∷ b ∷ c ∷ d ∷ e ∷ f ∷ []) m h =
    ((refl, (refl, (refl, (refl, (refl, (refl, tt)))))), refl)
syscall_instrs-Holds code (a ∷ b ∷ c ∷ d ∷ e ∷ f ∷ g ∷ rest) m h = absurd (omega arith)

decode-syscall : (rest : List ℕ) → decode (0x0f ∷ 0x05 ∷ rest) ≡ some (syscall, rest)
unfolding decode
decode-syscall rest = refl

mov_instrs-append :
    (registers params : List ℕ) (is js : List Instr)
    → mov_instrs registers params is ++ js ≡ mov_instrs registers params (is ++ js)
unfolding mov_instrs
mov_instrs-append [] params is js = refl
mov_instrs-append (r ∷ registers) [] is js = refl
mov_instrs-append (r ∷ registers) (p ∷ params) is js =
    ap (λ ks. mov_imm r p ∷ ks) (mov_instrs-append registers params is js)

syscall_movs-AllMove : AllMove syscall_movs syscall_registers
syscall_movs-AllMove = (
  Decoding.rdi_Moves,
  (
    Decoding.rsi_Moves,
    (Decoding.rdx_Moves, (Decoding.r10_Moves, (Decoding.r8_Moves, (Decoding.r9_Moves, tt)))),
  ),
)

abbrev syscall_tail : ℕ → List ℕ
syscall_tail code = (mov_rax_imm64 ++ le_bytes 8 (extend_int code)) ++ 0x0f ∷ 0x05 ∷ []

syscall_tail-Decodes :
    (code : ℕ)
    → IsU32 code
    → Decodes (syscall_tail code) (mov_imm 0 (extend_int code) ∷ syscall ∷ [])
syscall_tail-Decodes code h =
    step (Decoding.rax_Moves (extend_int code) (0x0f ∷ 0x05 ∷ []) (ground arith))
      (step (decode-syscall []) done)

make_syscall-syscall_tail :
    (code : ℕ) (params : List ℕ)
    → IsU32 code
    → All IsU64 params
    → length params ≤ 6
    → make_syscall code params
      ≡ ok (fixed_code_chunk (mov_bytes syscall_movs params (syscall_tail code)))
unfolding make_syscall set_syscall_parameters
make_syscall-syscall_tail code params hc w h =
    let movs = mov_bytes syscall_movs params [] in
    rw
      (
        set_parameters_by-mov_bytes syscall_movs params [] w h,
        append_mov_lem mov_rax_imm64 (extend_int code) movs (ground arith),
        mov_bytes-append syscall_movs params (syscall_tail code),
      )
      (ap (λ bytes. ok (fixed_code_chunk bytes)) (append_assoc movs _ (0x0f ∷ 0x05 ∷ [])))

-- For a code, given by the 32-bit pattern of its `int`, and at most six 64-bit words as
-- parameters, make_syscall succeeds, and at the `syscall` that its code ends with, rax is the
-- code, sign-extended, and rdi, rsi, rdx, r10, r8, r9 are the parameters, as many as there are.
pub make_syscall-Holds :
    (code : ℕ) (params : List ℕ) (m : Machine)
    → IsU32 code
    → All IsU64 params
    → length params ≤ 6
    → (bytes : List ℕ) × (is : List Instr) × (make_syscall code params
        ≡ ok (fixed_code_chunk bytes))
      × Decodes bytes (is ++ syscall ∷ [])
      × Holds syscall_registers params (run is m)
      × ((run is m).register 0 ≡ extend_int code)
make_syscall-Holds code params m hc w h =
    let (held, numbered) = syscall_instrs-Holds code params m h in
    (
      mov_bytes syscall_movs params (syscall_tail code),
      syscall_instrs code params,
      make_syscall-syscall_tail code params hc w h,
      rw
          (mov_instrs-append syscall_registers params (mov_imm 0 (extend_int code) ∷ [])
            (syscall ∷ []))
          (mov_bytes-Decodes syscall_movs syscall_registers params _ _ syscall_movs-AllMove w
            (syscall_tail-Decodes code hc)),
      held,
      numbered,
    )

-- With more than six parameters, 64-bit words all of them, make_syscall throws invalid_argument.
make_syscall-throw :
    (code : ℕ) (params : List ℕ)
    → All IsU64 params
    → 6 < length params
    → make_syscall code params ≡ throw Error.invalid_argument
unfolding make_syscall set_syscall_parameters
make_syscall-throw code params w h = rw (set_parameters_by-throw syscall_movs params [] w h)
