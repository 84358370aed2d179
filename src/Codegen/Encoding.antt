-- ===== src/Codegen/Encoding.antt =====
-- What the immediates of src/arch/x64/code_generator.cpp are: the little-endian bytes.
use mathlib.Core.List.{append_assoc}
use native.Mathlib.Nat.{div-div-eq-div-mul}
use native.Mathlib.Numerals.{towards_suc}
use libload.Common.{
  ltb, inl, inr, Bool-cases, true, false, if◌then◌else◌, append-nil, sym, ℕ, zero, suc, ◌+◌, ◌-◌,
  ◌*◌, ◌/◌, ◌%◌, ◌^◌, ◌≡◌, ap, ◌∙◌, List, [], ◌∷◌, ◌++◌, ok, throw, Error, arith, IsU64, ge→ltb,
}
use libload.Memory.Endian.{le_bytes}
use libload.Codegen.Imm.{append_imm_loop, append_imm32, append_imm64}

next_shift : (i : ℕ) → 2 ^ ((i + 1) * 8) ≡ 2 ^ (i * 8) * 256
next_shift i =
    let e : (i + 1) * 8 ≡ i * 8 + 8 = omega arith in rw e (simp towards_suc (omega arith))

-- From the byte `i` on, `rounds` bytes are appended in order.
append_imm_loop-le_bytes :
    (rounds i value : ℕ) (chunk : List ℕ)
    → append_imm_loop rounds i value chunk ≡ chunk ++ le_bytes rounds (value / 2 ^ (i * 8))
unfolding append_imm_loop le_bytes
append_imm_loop-le_bytes zero i value chunk = sym (append-nil chunk)
append_imm_loop-le_bytes (suc rounds) i value chunk =
    append_imm_loop-le_bytes rounds (i + 1) value (chunk ++ (value / 2 ^ (i * 8) % 256) ∷ [])
    ∙ append_assoc chunk ((value / 2 ^ (i * 8) % 256) ∷ []) _
    ∙ ap (λ v. chunk ++ (value / 2 ^ (i * 8) % 256) ∷ le_bytes rounds v)
        (ap (λ d. value / d) (next_shift i) ∙ sym (div-div-eq-div-mul value (2 ^ (i * 8)) 256))

-- A value of 32 bits is appended as its 4 bytes, lowest first; a larger one is an overflow_error.
pub append_imm32_lem :
    (value : ℕ) (chunk : List ℕ)
    → append_imm32 value chunk
      ≡ (if ltb value (2 ^ 32) then ok (chunk ++ le_bytes 4 value) else throw Error.overflow_error)
unfolding append_imm32
append_imm32_lem value chunk = elim (Bool-cases (ltb value (2 ^ 32))) [
  | inl small ↦
      let fits : ltb (2 ^ 32 - 1) value ≡ false = ground arith in
      rw (fits, small)
        (ap ok (
          append_imm_loop-le_bytes 4 0 value chunk ∙ ap (λ v. chunk ++ le_bytes 4 v) (omega arith)))
  | inr large ↦ let big : ltb (2 ^ 32 - 1) value ≡ true = ground arith in rw (big, large)
]

-- A value of 64 bits is appended as its 8 bytes, lowest first: nothing is thrown.
pub append_imm64_lem :
    (value : ℕ) (chunk : List ℕ)
    → IsU64 value
    → append_imm64 value chunk ≡ ok (chunk ++ le_bytes 8 value)
unfolding append_imm64
append_imm64_lem value chunk h =
    let fits : ltb (2 ^ 64 - 1) value ≡ false = ge→ltb _ _ (omega arith) in
    rw fits (
      ap ok
        (append_imm_loop-le_bytes 8 0 value chunk ∙ ap (λ v. chunk ++ le_bytes 8 v) (omega arith)))
