-- ===== src/Codegen/Imm.antt =====
-- The immediates of src/arch/x64/code_generator.cpp. A FixedCodeChunk is the list of its bytes, and
-- a function that fills one returns it, or throws.
use libload.Common.{
  ◌-◌, ℕ, zero, suc, ◌+◌, ◌*◌, ◌/◌, ◌%◌, ◌^◌, List, [], ◌∷◌, ◌++◌, Result, ok, throw, Error, ltb,
  if◌then◌else◌,
}

-- The rounds that are left of the loop over `i`, which appends `(value >> (i * CHAR_BIT)) &
-- UCHAR_MAX`.
unfoldable pub append_imm_loop : (rounds i value : ℕ) → List ℕ → List ℕ
append_imm_loop zero i value code_chunk = code_chunk
append_imm_loop (suc rounds) i value code_chunk =
    append_imm_loop rounds (i + 1) value (code_chunk ++ (value / 2 ^ (i * 8) % 2 ^ 8) ∷ [])

unfoldable pub append_imm32 : ℕ → List ℕ → Result (List ℕ)
unfolding append_imm_loop
append_imm32 value code_chunk =
    if ltb (2 ^ 32 - 1) value
    then throw Error.overflow_error
    else ok (append_imm_loop 4 0 value code_chunk)

unfoldable pub append_imm64 : ℕ → List ℕ → Result (List ℕ)
unfolding append_imm_loop
append_imm64 value code_chunk =
    if ltb (2 ^ 64 - 1) value
    then throw Error.overflow_error
    else ok (append_imm_loop 8 0 value code_chunk)
