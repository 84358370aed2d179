-- ===== src/Codegen/Isa.antt =====
-- A reference for the emitted code: the instructions of the x86-64 manual that it consists of, their
-- encoding, read by a decoder, and their effect on a machine. Nothing here comes from the sources.
use libload.Common.{
  ◌≡◌, ℕ, ◌+◌, ◌-◌, ◌/◌, ◌%◌, ◌^◌, List, [], ◌∷◌, Option, none, some, ltb, leb, ◌==◌, ◌&&◌,
  if◌then◌else◌, length, take, drop, ◌+64◌, ◌-64◌,
}
use libload.Memory.Endian.{le_value}

-- A register is its number: 0 rax, 1 rcx, 2 rdx, 4 rsp, 5 rbp, 6 rsi, 7 rdi, 8 r8, 9 r9, 10 r10.
pub data Instr : Type 0 where
  mov_imm : (register value : ℕ) → Instr
  mov_reg : (to from : ℕ) → Instr
  push_imm : ℕ → Instr
  push_reg : ℕ → Instr
  pop_reg : ℕ → Instr
  ret : Instr
  syscall : Instr
  call_rel : ℕ → Instr

abbrev bind : {A B : Type 0} → Option A → (A → Option B) → Option B
bind none k = none
bind (some a) k = k a

-- The next `n` bytes as a little-endian value, and the rest.
unfoldable pub take_le : ℕ → List ℕ → Option (ℕ × List ℕ)
take_le n bytes =
    if leb n (length bytes) then some (le_value (take n bytes), drop n bytes) else none

-- The opcodes behind a REX.W prefix; `high` is 8 times its B bit.
abbrev decode_rex : ℕ → List ℕ → Option (Instr × List ℕ)
decode_rex high [] = none
decode_rex high (op ∷ rest) =
    if leb 0xb8 op && ltb op 0xc0
    then bind (take_le 8 rest) (λ v. some (mov_imm (op - 0xb8 + high) v.0, v.1))
    else if op == 0x89
    then decode_mov rest
    else none
  where
    decode_mov : List ℕ → Option (Instr × List ℕ)
    decode_mov [] = none
    decode_mov (modrm ∷ rest') =
        if leb 0xc0 modrm then some (mov_reg (modrm % 8 + high) (modrm / 8 % 8), rest') else none

abbrev decode_0f : List ℕ → Option (Instr × List ℕ)
decode_0f [] = none
decode_0f (op ∷ rest) = if op == 0x05 then some (syscall, rest) else none

-- The first instruction of a byte string, and the bytes behind it.
unfoldable pub decode : List ℕ → Option (Instr × List ℕ)
unfolding take_le
decode [] = none
decode (op ∷ rest) =
    if op == 0x48
    then decode_rex 0 rest
    else if op == 0x49
    then decode_rex 8 rest
    else if op == 0x68
    then bind (take_le 4 rest) (λ v. some (push_imm v.0, v.1))
    else if op == 0xe8
    then bind (take_le 4 rest) (λ v. some (call_rel v.0, v.1))
    else if leb 0x50 op && ltb op 0x58
    then some (push_reg (op - 0x50), rest)
    else if leb 0x58 op && ltb op 0x60
    then some (pop_reg (op - 0x58), rest)
    else if op == 0xc3
    then some (ret, rest)
    else if op == 0x0f
    then decode_0f rest
    else none

-- `Decodes bytes is`: the bytes are exactly the encodings of the instructions, one after the other.
pub data Decodes : List ℕ → List Instr → Type 0 where
  done : Decodes [] []
  step :
      {bytes rest : List ℕ} {i : Instr} {is : List Instr}
      → decode bytes ≡ some (i, rest)
      → Decodes rest is
      → Decodes bytes (i ∷ is)

-- The registers, and the quadwords of the stack by address.
pub record Machine : Type 0 where
  pub register : ℕ → ℕ
  pub stack : ℕ → ℕ

abbrev pub set_at : (ℕ → ℕ) → ℕ → ℕ → ℕ → ℕ
set_at f a v b = if a == b then v else f b

abbrev pub extend_imm32 : ℕ → ℕ
extend_imm32 v = if ltb v (2 ^ 31) then v else v + 2 ^ 64 - 2 ^ 32

abbrev push : Machine → ℕ → Machine
push m v =
    let rsp = m.register 4 -64 8 in
    record { register = set_at m.register 4 rsp; stack = set_at m.stack rsp v }

abbrev pop : Machine → ℕ → Machine
pop m r = record m {
  register = set_at (set_at m.register 4 (m.register 4 +64 8)) r (m.stack (m.register 4));
}

-- The effect of an instruction on registers and stack. `ret`, `syscall` and `call` hand control
-- over: of these only the stack pointer that `ret` leaves is seen here.
unfoldable pub exec : Instr → Machine → Machine
exec (mov_imm r v) m = record m { register = set_at m.register r v }
exec (mov_reg to from) m = record m { register = set_at m.register to (m.register from) }
exec (push_imm v) m = push m (extend_imm32 v)
exec (push_reg r) m = push m (m.register r)
exec (pop_reg r) m = pop m r
exec ret m = record m { register = set_at m.register 4 (m.register 4 +64 8) }
exec syscall m = m
exec (call_rel v) m = m

unfoldable pub run : List Instr → Machine → Machine
unfolding exec
run [] m = m
run (i ∷ is) m = run is (exec i m)
