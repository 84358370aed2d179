-- ===== src/Codegen/Relative.antt =====
-- X64RelativeCall::emit of src/arch/x64/code_generator.cpp: where the emitted call goes.
use libload.Common.{
  sym, true, false, ltb, some, ℕ, ◌+◌, ◌-◌, ◌^◌, ◌<◌, ◌≤◌, ◌≡◌, ◌≢◌, ap, ◌∙◌, List, [], ◌∷◌, ◌++◌,
  throw, Error, arith, IsU64, ◌+64◌, ◌-64◌, length, append-nil, lt→ltb, ge→ltb,
}
use libload.Memory.Endian.{le_bytes}
use libload.Codegen.Encoding.{append_imm32_lem}
use libload.Codegen.Isa.{call_rel, extend_imm32, decode}
use libload.Codegen.Decoding.{decode-call_rel32}
use libload.Codegen.Chunk.{
  CodeLocation, relative_call, emit, emit_relative_call, emit_data, distance_from,
}
use libload.Codegen.Emit.{log_sink}

-- Where a 5-byte `call rel32` at an address goes: the displacement counts from the next instruction.
abbrev pub call_target : ℕ → ℕ → ℕ
call_target at_address rel = at_address +64 5 +64 extend_imm32 rel

module _ (set_params : List ℕ) (target : CodeLocation) (location : ℕ) where
  -- The address of the call instruction.
  abbrev call_location : ℕ
  call_location = location +64 length set_params

  abbrev displacement : ℕ
  displacement = call_location -64 target.address -64 5

  -- A call whose target, a 64-bit address, is at least 5 bytes below the call instruction, and
  -- less than 2^31 + 5 below it, is emitted behind the code that sets its parameters; but the
  -- displacement has the wrong sign, so that the call never goes to its target.
  pub relative_call-misses :
      IsU64 target.address
      → target.address + 5 ≤ call_location
      → call_location < target.address + 2 ^ 31 + 5
      → (rel : ℕ) × ((emit (relative_call set_params target) location log_sink []).1
          ≡ set_params ++ 0xe8 ∷ le_bytes 4 rel)
        × (decode (0xe8 ∷ le_bytes 4 rel) ≡ some (call_rel rel, []))
        × (call_target call_location rel ≢ target.address)
  unfolding emit emit_data emit_relative_call distance_from
  relative_call-misses h above near =
      let value : displacement ≡ call_location - target.address - 5 = omega arith in
      let small : ltb displacement (2 ^ 32) ≡ true = lt→ltb _ _ (omega arith) in
      let positive : ltb displacement (2 ^ 31) ≡ true = lt→ltb _ _ (omega arith) in
      let sent : (emit (relative_call set_params target) location log_sink []).1
          ≡ set_params ++ 0xe8 ∷ le_bytes 4 displacement =
        rw (append_imm32_lem displacement (0xe8 ∷ []), small) in
      (
        displacement,
        sent,
        ap (λ bs. decode (0xe8 ∷ bs)) (sym (append-nil (le_bytes 4 displacement)))
            ∙ decode-call_rel32 displacement [] (omega arith),
        rw positive (omega arith),
      )

  -- A call forward, to a target above the call instruction or less than 5 bytes below it and no
  -- further than 2^63 away, throws overflow_error when it is emitted; the bytes that set its
  -- parameters are out by then.
  pub relative_call-forward :
      IsU64 target.address
      → call_location < target.address + 5
      → target.address ≤ call_location + 2 ^ 63
      → emit (relative_call set_params target) location log_sink []
        ≡ (throw Error.overflow_error, set_params)
  unfolding emit emit_data emit_relative_call distance_from
  relative_call-forward h below near =
      let far : ltb displacement (2 ^ 32) ≡ false = ge→ltb _ _ (omega arith) in
      rw (append_imm32_lem displacement (0xe8 ∷ []), far)
