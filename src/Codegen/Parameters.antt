-- ===== src/Codegen/Parameters.antt =====
-- The bytes that set_proc_parameters and set_syscall_parameters append, and what they decode to:
-- the loops of src/arch/x64/code_generator.cpp.
use mathlib.Core.List.{reverse}
use libload.Common.{
  drop, lt→ltb, append_assoc, append-nil, sym, ℕ, ◌/◌, ◌%◌, ◌^◌, ◌<◌, ◌≤◌, ◌≡◌, refl, ap, ◌∙◌, List,
  [], ◌∷◌, ◌++◌, ok, throw, Error, arith, IsU64, All, length,
}
use libload.Memory.Endian.{le_bytes}
use libload.Codegen.Isa.{Instr, mov_imm, push_imm, Decodes, done, step}
use libload.Codegen.Decoding.{Moves, decode-push_imm32, append_mov_lem}
use libload.Codegen.X64.{
  mov_rcx_imm64, mov_rdx_imm64, mov_r8_imm64, mov_r9_imm64, push_parameters, set_proc_parameters,
  set_parameters_by, push_imm32,
}
use libload.Codegen.Imm.{append_imm32}
use libload.Codegen.Encoding.{append_imm32_lem}

-- The bytes and the instructions of moves, in front of `tail`, until moves or parameters run out.
unfoldable pub mov_bytes : List (List ℕ) → List ℕ → List ℕ → List ℕ
mov_bytes [] params tail = tail
mov_bytes (opcode ∷ movs) [] tail = tail
mov_bytes (opcode ∷ movs) (p ∷ params) tail = opcode ++ (le_bytes 8 p ++ mov_bytes movs params tail)

unfoldable pub mov_instrs : List ℕ → List ℕ → List Instr → List Instr
mov_instrs [] params tail = tail
mov_instrs (r ∷ registers) [] tail = tail
mov_instrs (r ∷ registers) (p ∷ params) tail = mov_imm r p ∷ mov_instrs registers params tail

-- The moves go to the registers.
abbrev pub AllMove : List (List ℕ) → List ℕ → Type 0
AllMove [] [] = Unit
AllMove [] (r ∷ registers) = ⊥
AllMove (opcode ∷ movs) [] = ⊥
AllMove (opcode ∷ movs) (r ∷ registers) = Moves opcode r × AllMove movs registers

pub mov_bytes-Decodes :
    (movs : List (List ℕ)) (registers params tail : List ℕ) (is : List Instr)
    → AllMove movs registers
    → All IsU64 params
    → Decodes tail is
    → Decodes (mov_bytes movs params tail) (mov_instrs registers params is)
unfolding mov_bytes mov_instrs
mov_bytes-Decodes [] [] params tail is m w d = d
mov_bytes-Decodes [] (r ∷ registers) params tail is m w d = elim m [ ]
mov_bytes-Decodes (opcode ∷ movs) [] params tail is m w d = elim m [ ]
mov_bytes-Decodes (opcode ∷ movs) (r ∷ registers) [] tail is m w d = d
mov_bytes-Decodes (opcode ∷ movs) (r ∷ registers) (p ∷ params) tail is (m, ms) (w, ws) d =
    step (m p _ w) (mov_bytes-Decodes movs registers params tail is ms ws d)

unfoldable pub push_bytes : List ℕ → List ℕ
push_bytes [] = []
push_bytes (v ∷ values) =
    push_imm32
    ++ (le_bytes 4 (v % 2 ^ 32)
        ++ (push_imm32 ++ (le_bytes 4 (v / 2 ^ 32 % 2 ^ 32) ++ push_bytes values)))

unfoldable pub push_instrs : List ℕ → List Instr
push_instrs [] = []
push_instrs (v ∷ values) =
    push_imm (v % 2 ^ 32) ∷ push_imm (v / 2 ^ 32 % 2 ^ 32) ∷ push_instrs values

pub push_bytes-Decodes : (values : List ℕ) → Decodes (push_bytes values) (push_instrs values)
unfolding push_bytes push_instrs
push_bytes-Decodes [] = done
push_bytes-Decodes (v ∷ values) =
    step (decode-push_imm32 (v % 2 ^ 32) _ (omega arith))
      (step (decode-push_imm32 (v / 2 ^ 32 % 2 ^ 32) _ (omega arith)) (push_bytes-Decodes values))

append_push :
    (w : ℕ) (chunk : List ℕ)
    → w < 2 ^ 32
    → append_imm32 w (chunk ++ push_imm32) ≡ ok (chunk ++ (push_imm32 ++ le_bytes 4 w))
append_push w chunk h =
    append_imm32_lem w (chunk ++ push_imm32)
    ∙ rw (lt→ltb w (2 ^ 32) h, append_assoc chunk push_imm32 (le_bytes 4 w))

pub push_parameters-push_bytes :
    (values chunk : List ℕ) → push_parameters values chunk ≡ ok (chunk ++ push_bytes values)
unfolding push_parameters push_bytes
push_parameters-push_bytes [] chunk = ap ok (sym (append-nil chunk))
push_parameters-push_bytes (v ∷ values) chunk =
    let low = push_imm32 ++ le_bytes 4 (v % 2 ^ 32) in
    let high = push_imm32 ++ le_bytes 4 (v / 2 ^ 32 % 2 ^ 32) in
    let whole : v / 2 ^ 0 ≡ v = omega arith in
    rw (whole, append_push (v % 2 ^ 32) chunk (omega arith))
      (rw (append_push (v / 2 ^ 32 % 2 ^ 32) (chunk ++ low) (omega arith)) (
        push_parameters-push_bytes values ((chunk ++ low) ++ high)
        ∙ ap ok (
            append_assoc (chunk ++ low) high (push_bytes values)
            ∙ append_assoc chunk low (high ++ push_bytes values))))

-- The moves of a system call, for no more parameters than moves.
pub set_parameters_by-mov_bytes :
    (movs : List (List ℕ)) (params chunk : List ℕ)
    → All IsU64 params
    → length params ≤ length movs
    → set_parameters_by movs params chunk ≡ ok (chunk ++ mov_bytes movs params [])
unfolding set_parameters_by mov_bytes
set_parameters_by-mov_bytes [] [] chunk w h = ap ok (sym (append-nil chunk))
set_parameters_by-mov_bytes (opcode ∷ movs) [] chunk w h = ap ok (sym (append-nil chunk))
set_parameters_by-mov_bytes [] (p ∷ params) chunk w h = absurd (omega arith)
set_parameters_by-mov_bytes (opcode ∷ movs) (p ∷ params) chunk (w, ws) h =
    let mov = opcode ++ le_bytes 8 p in
    rw (append_mov_lem opcode p chunk w) (
      set_parameters_by-mov_bytes movs params (chunk ++ mov) ws (omega arith)
      ∙ ap ok (
          append_assoc chunk mov (mov_bytes movs params [])
          ∙ ap (λ bs. chunk ++ bs) (append_assoc opcode (le_bytes 8 p) (mov_bytes movs params []))))

pub set_parameters_by-throw :
    (movs : List (List ℕ)) (params chunk : List ℕ)
    → All IsU64 params
    → length movs < length params
    → set_parameters_by movs params chunk ≡ throw Error.invalid_argument
unfolding set_parameters_by
set_parameters_by-throw [] [] chunk w h = absurd (omega arith)
set_parameters_by-throw (opcode ∷ movs) [] chunk w h = absurd (omega arith)
set_parameters_by-throw [] (p ∷ params) chunk w h = refl
set_parameters_by-throw (opcode ∷ movs) (p ∷ params) chunk (w, ws) h =
    rw (append_mov_lem opcode p chunk w)
      (set_parameters_by-throw movs params (chunk ++ (opcode ++ le_bytes 8 p)) ws (omega arith))

-- The moves of a procedure call.
abbrev pub proc_movs : List (List ℕ)
proc_movs = mov_rcx_imm64 ∷ mov_rdx_imm64 ∷ mov_r8_imm64 ∷ mov_r9_imm64 ∷ []

abbrev pub proc_bytes : List ℕ → List ℕ
proc_bytes params = mov_bytes proc_movs params (push_bytes (reverse (drop 4 params)))

pub set_proc_parameters-proc_bytes :
    (params chunk : List ℕ)
    → All IsU64 params
    → set_proc_parameters params chunk ≡ ok (chunk ++ proc_bytes params)
unfolding set_proc_parameters mov_bytes push_bytes
set_proc_parameters-proc_bytes [] chunk w = ap ok (sym (append-nil chunk))
set_proc_parameters-proc_bytes (a ∷ []) chunk (wa, _) =
    rw (append_mov_lem mov_rcx_imm64 a chunk wa) (simp append-nil)
set_proc_parameters-proc_bytes (a ∷ b ∷ []) chunk (wa, (wb, _)) =
    rw (append_mov_lem mov_rcx_imm64 a chunk wa, append_mov_lem mov_rdx_imm64 b _ wb)
      (simp (append_assoc, append-nil))
set_proc_parameters-proc_bytes (a ∷ b ∷ c ∷ []) chunk (wa, (wb, (wc, _))) =
    rw
      (
        append_mov_lem mov_rcx_imm64 a chunk wa,
        append_mov_lem mov_rdx_imm64 b _ wb,
        append_mov_lem mov_r8_imm64 c _ wc,
      )
      (simp (append_assoc, append-nil))
set_proc_parameters-proc_bytes (a ∷ b ∷ c ∷ d ∷ rest) chunk (wa, (wb, (wc, (wd, _)))) =
    rw
      (
        append_mov_lem mov_rcx_imm64 a chunk wa,
        append_mov_lem mov_rdx_imm64 b _ wb,
        append_mov_lem mov_r8_imm64 c _ wc,
        append_mov_lem mov_r9_imm64 d _ wd,
        push_parameters-push_bytes (reverse rest),
      )
      (simp append_assoc)

pub mov_bytes-append :
    (movs : List (List ℕ)) (params tail : List ℕ)
    → mov_bytes movs params tail ≡ mov_bytes movs params [] ++ tail
unfolding mov_bytes
mov_bytes-append [] params tail = refl
mov_bytes-append (opcode ∷ movs) [] tail = refl
mov_bytes-append (opcode ∷ movs) (p ∷ params) tail =
    rw (mov_bytes-append movs params tail) (simp append_assoc)
