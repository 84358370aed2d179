-- ===== src/Codegen/X64.antt =====
-- The x86-64 encoders of src/arch/x64/code_generator.cpp. What throws returns a `Result`; the
-- FixedCodeChunk that a function fills is its list of bytes.
use Prim.Native.String.{String}
use text.Mathlib.Text.{◌==◌ as str_eq}
use mathlib.Core.List.{reverse}
use libload.Common.{
  ℕ, ◌+◌, ◌-◌, ◌/◌, ◌%◌, ◌^◌, List, [], ◌∷◌, ◌++◌, Result, ok, throw, Error, Option, none, some,
  ltb, ◌||◌, if◌then◌else◌,
}
use libload.Codegen.Imm.{append_imm32, append_imm64}
use libload.Codegen.Chunk.{
  CodeChunk, code_chunk_literal, fixed_code_chunk, relative_call, CodeLocation,
}

abbrev pub push_imm32 : List ℕ
push_imm32 = 0x68 ∷ []

abbrev pub mov_rax_imm64 : List ℕ
mov_rax_imm64 = 0x48 ∷ 0xb8 ∷ []

abbrev pub mov_rcx_imm64 : List ℕ
mov_rcx_imm64 = 0x48 ∷ 0xb9 ∷ []

abbrev pub mov_rdx_imm64 : List ℕ
mov_rdx_imm64 = 0x48 ∷ 0xba ∷ []

abbrev pub mov_rsi_imm64 : List ℕ
mov_rsi_imm64 = 0x48 ∷ 0xbe ∷ []

abbrev pub mov_rdi_imm64 : List ℕ
mov_rdi_imm64 = 0x48 ∷ 0xbf ∷ []

abbrev pub mov_r8_imm64 : List ℕ
mov_r8_imm64 = 0x49 ∷ 0xb8 ∷ []

abbrev pub mov_r9_imm64 : List ℕ
mov_r9_imm64 = 0x49 ∷ 0xb9 ∷ []

abbrev pub mov_r10_imm64 : List ℕ
mov_r10_imm64 = 0x49 ∷ 0xba ∷ []

infixl 5 ◌>>=◌
abbrev ◌>>=◌ : {A B : Type 0} → Result A → (A → Result B) → Result B
ok a >>= f = f a
throw e >>= f = throw e

-- One parameter into the register of a `mov`.
unfoldable pub append_mov : List ℕ → ℕ → List ℕ → Result (List ℕ)
unfolding append_imm64
append_mov mov value code_chunk = append_imm64 value (code_chunk ++ mov)

-- The loop over the parameters behind the fourth, last one first.
unfoldable pub push_parameters : List ℕ → List ℕ → Result (List ℕ)
unfolding append_imm32
push_parameters [] code_chunk = ok code_chunk
push_parameters (value ∷ values) code_chunk = do
  low ← append_imm32 (value / 2 ^ 0 % 2 ^ 32) (code_chunk ++ push_imm32)
  high ← append_imm32 (value / 2 ^ 32 % 2 ^ 32) (low ++ push_imm32)
  push_parameters values high

unfoldable pub set_proc_parameters : List ℕ → List ℕ → Result (List ℕ)
unfolding append_mov push_parameters
set_proc_parameters [] chunk = ok chunk
set_proc_parameters (a ∷ []) chunk = append_mov mov_rcx_imm64 a chunk
set_proc_parameters (a ∷ b ∷ []) chunk = do
  chunk ← append_mov mov_rcx_imm64 a chunk
  append_mov mov_rdx_imm64 b chunk
set_proc_parameters (a ∷ b ∷ c ∷ []) chunk = do
  chunk ← append_mov mov_rcx_imm64 a chunk
  chunk ← append_mov mov_rdx_imm64 b chunk
  append_mov mov_r8_imm64 c chunk
set_proc_parameters (a ∷ b ∷ c ∷ d ∷ rest) chunk = do
  chunk ← append_mov mov_rcx_imm64 a chunk
  chunk ← append_mov mov_rdx_imm64 b chunk
  chunk ← append_mov mov_r8_imm64 c chunk
  chunk ← append_mov mov_r9_imm64 d chunk
  push_parameters (reverse rest) chunk

-- The registers of a system call, in order.
abbrev pub syscall_movs : List (List ℕ)
syscall_movs =
    mov_rdi_imm64 ∷ mov_rsi_imm64 ∷ mov_rdx_imm64 ∷ mov_r10_imm64 ∷ mov_r8_imm64 ∷ mov_r9_imm64 ∷ []

-- The moves that are left. The code returns as soon as the parameters are used up, and throws if
-- the moves are used up first.
unfoldable pub set_parameters_by : List (List ℕ) → List ℕ → List ℕ → Result (List ℕ)
unfolding append_mov
set_parameters_by movs [] chunk = ok chunk
set_parameters_by [] (p ∷ params) chunk = throw Error.invalid_argument
set_parameters_by (mov ∷ movs) (p ∷ params) chunk = do
  chunk ← append_mov mov p chunk
  set_parameters_by movs params chunk

unfoldable pub set_syscall_parameters : List ℕ → List ℕ → Result (List ℕ)
unfolding set_parameters_by
set_syscall_parameters = set_parameters_by syscall_movs

-- An `int`, given by its 32-bit pattern, converted to std::uintmax_t.
abbrev pub extend_int : ℕ → ℕ
extend_int code = if ltb code (2 ^ 31) then code else code + 2 ^ 64 - 2 ^ 32

unfoldable pub make_syscall : ℕ → List ℕ → Result CodeChunk
unfolding set_syscall_parameters
make_syscall code params = do
  chunk ← set_syscall_parameters params []
  chunk ← append_mov mov_rax_imm64 (extend_int code) chunk
  ok (fixed_code_chunk (chunk ++ 0x0f ∷ 0x05 ∷ []))

unfoldable pub make_prolog : ℕ → CodeChunk
make_prolog argc = code_chunk_literal (0x55 ∷ 0x48 ∷ 0x89 ∷ 0xe5 ∷ [])

unfoldable pub make_epilog : ℕ → CodeChunk
make_epilog argc = code_chunk_literal (0x48 ∷ 0x89 ∷ 0xec ∷ 0x5d ∷ 0xc3 ∷ [])

unfoldable pub set_return_value : ℕ → Result CodeChunk
unfolding append_mov
set_return_value value = do chunk ← append_mov mov_rax_imm64 value []; ok (fixed_code_chunk chunk)

-- The constructor of X64RelativeCall.
unfoldable pub x64_relative_call : CodeLocation → List ℕ → Result CodeChunk
unfolding set_proc_parameters
x64_relative_call location params = do
  set_params_chunk ← set_proc_parameters params []
  ok (relative_call set_params_chunk location)

unfoldable pub invoke_proc : CodeLocation → List ℕ → Result CodeChunk
unfolding x64_relative_call
invoke_proc location params = x64_relative_call location params

unfoldable pub invoke_proc_this : CodeLocation → List ℕ → ℕ → Result CodeChunk
unfolding x64_relative_call
invoke_proc_this location params this_param =
    x64_relative_call location ((this_param ∷ []) ++ params)

-- The one calling convention and the one set of services, and where a null pointer is returned.
pub data CallingConvention : Type 0 where
  x64_calling_convention : CallingConvention

pub data SystemServices : Type 0 where
  x64_linux_services : SystemServices

unfoldable pub get_calling_convention : String → Option CallingConvention
get_calling_convention hint =
    if str_eq hint "cdecl" || str_eq hint "stdcall" then some x64_calling_convention else none

unfoldable pub get_system_services : String → Option SystemServices
get_system_services uname = if str_eq uname "linux" then some x64_linux_services else none
