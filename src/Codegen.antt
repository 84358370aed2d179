-- ===== src/Codegen.antt =====
-- Machine code: include/load/codegen, src/code_chunk.hpp and .cpp, src/arch/x64/code_generator.cpp.
-- A byte string is the list of its bytes.
pub mod Imm
pub mod Chunk
pub mod X64
pub mod Isa
pub mod Encoding
pub mod Decoding
pub mod Parameters
pub mod Calls
pub mod Syscall
pub mod Emit
pub mod Size
pub mod Sink
pub mod Relative
pub mod Frame
pub mod Generator
pub mod Invoke
mod Tests
mod InvokeTests
