-- ===== src/Codegen/Calls.antt =====
-- What the machine has done when the code of src/arch/x64/code_generator.cpp has run: the parameters
-- of calls and system calls, and a function's frame.
use libload.Codegen.Decoding.{append_mov_lem}
use mathlib.Core.List.{reverse}
use libload.Common.{
  length-reverse, ℕ, ◌+◌, ◌-◌, ◌*◌, ◌/◌, ◌%◌, ◌^◌, ◌≡◌, ◌≢◌, refl, ◌∙◌, List, [], ◌∷◌, ok, arith,
  IsU64, All, length, drop,
}
use libload.Codegen.Isa.{Instr, push_imm, Machine, Decodes, exec, run}
use libload.Codegen.Decoding
use libload.Codegen.Parameters.{
  mov_instrs, push_instrs, mov_bytes-Decodes, push_bytes-Decodes, proc_movs, proc_bytes,
  set_proc_parameters-proc_bytes,
}
use libload.Codegen.X64.{set_proc_parameters}

-- The registers hold the values, as far as there are both.
abbrev pub Holds : List ℕ → List ℕ → Machine → Type 0
Holds [] values m = Unit
Holds (r ∷ registers) [] m = Unit
Holds (r ∷ registers) (v ∷ values) m = (m.register r ≡ v) × Holds registers values m

-- rcx, rdx, r8, r9.
abbrev pub proc_registers : List ℕ
proc_registers = 1 ∷ 2 ∷ 8 ∷ 9 ∷ []

abbrev pub proc_instrs : List ℕ → List Instr
proc_instrs params = mov_instrs proc_registers params (push_instrs (reverse (drop 4 params)))

push_instrs-register :
    (values : List ℕ) (m : Machine) (r : ℕ)
    → r ≢ 4
    → (run (push_instrs values) m).register r ≡ m.register r
unfolding push_instrs run
push_instrs-register [] m r h = refl
push_instrs-register (v ∷ values) m r h = push_instrs-register values _ r h ∙ ground arith

push_instrs-rsp :
    (values : List ℕ) (m : Machine)
    → ((run (push_instrs values) m).register 4 + 16 * length values) % 2 ^ 64
      ≡ m.register 4 % 2 ^ 64
unfolding push_instrs run
push_instrs-rsp [] m = omega arith
push_instrs-rsp (v ∷ values) m =
    let m' = exec (push_imm (v / 2 ^ 32 % 2 ^ 32)) (exec (push_imm (v % 2 ^ 32)) m) in
    omega (arith, push_instrs-rsp values m')

proc_instrs-Holds :
    (params : List ℕ) (m : Machine) → Holds proc_registers params (run (proc_instrs params) m)
unfolding mov_instrs run push_instrs
proc_instrs-Holds [] m = tt
proc_instrs-Holds (a ∷ []) m = (refl, tt)
proc_instrs-Holds (a ∷ b ∷ []) m = (refl, (refl, tt))
proc_instrs-Holds (a ∷ b ∷ c ∷ []) m = (refl, (refl, (refl, tt)))
proc_instrs-Holds (a ∷ b ∷ c ∷ d ∷ rest) m =
    let kept =
      push_instrs-register (reverse rest)
        (run (mov_instrs proc_registers (a ∷ b ∷ c ∷ d ∷ []) []) m) in
    (
      kept 1 (omega arith),
      (kept 2 (omega arith), (kept 8 (omega arith), (kept 9 (omega arith), tt))),
    )

proc_instrs-rsp :
    (params : List ℕ) (m : Machine)
    → ((run (proc_instrs params) m).register 4 + 16 * (length params - 4)) % 2 ^ 64
      ≡ m.register 4 % 2 ^ 64
unfolding mov_instrs run push_instrs
proc_instrs-rsp [] m = omega arith
proc_instrs-rsp (a ∷ []) m = omega arith
proc_instrs-rsp (a ∷ b ∷ []) m = omega arith
proc_instrs-rsp (a ∷ b ∷ c ∷ []) m = omega arith
proc_instrs-rsp (a ∷ b ∷ c ∷ d ∷ rest) m = omega (
  arith,
  length-reverse {0} rest,
  push_instrs-rsp (reverse rest) (run (mov_instrs proc_registers (a ∷ b ∷ c ∷ d ∷ []) []) m),
)

-- Whatever the parameters are, words all of them, set_proc_parameters succeeds, and the code that
-- it makes leaves the first four in rcx, rdx, r8 and r9, with the stack pointer 16 bytes lower for
-- each further one.
pub set_proc_parameters-Holds :
    (params : List ℕ) (m : Machine)
    → All IsU64 params
    → (code : List ℕ) × (is : List Instr) × (set_proc_parameters params [] ≡ ok code)
      × Decodes code is
      × Holds proc_registers params (run is m)
      × (((run is m).register 4 + 16 * (length params - 4)) % 2 ^ 64 ≡ m.register 4 % 2 ^ 64)
set_proc_parameters-Holds params m w = (
  proc_bytes params,
  proc_instrs params,
  set_proc_parameters-proc_bytes params [] w,
  mov_bytes-Decodes proc_movs proc_registers params _ _
      (Decoding.rcx_Moves, (Decoding.rdx_Moves, (Decoding.r8_Moves, (Decoding.r9_Moves, tt)))) w
      (push_bytes-Decodes (reverse (drop 4 params))),
  proc_instrs-Holds params m,
  proc_instrs-rsp params m,
)
