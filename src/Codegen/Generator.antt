-- ===== src/Codegen/Generator.antt =====
-- The interfaces of include/load/codegen, and the generator of src/arch/x64/code_generator.cpp behind them.
use Prim.Native.String.{String}
use mathlib.Core.Option
use libload.Common.{ℕ, List, Result, ok, Option, some}
use libload.Codegen.Chunk.{CodeChunk, CodeLocation}
use libload.Codegen.X64
use libload.Codegen.X64.{x64_calling_convention, x64_linux_services}

abbrev pub ParameterList : Type 0
ParameterList = List ℕ

-- The virtual methods of CallingConvention, `invoke_proc_this` the one with a `this` parameter.
pub record CallingConvention : Type 0 where
  pub make_prolog : ℕ → Result CodeChunk
  pub make_epilog : ℕ → Result CodeChunk
  pub set_return_value : ℕ → Result CodeChunk
  pub invoke_proc : CodeLocation → ParameterList → Result CodeChunk
  pub invoke_proc_this : CodeLocation → ParameterList → ℕ → Result CodeChunk

pub record SystemServices : Type 0 where
  pub make_syscall : ℕ → ParameterList → Result CodeChunk

-- The virtual methods of CodeGenerator, the first without a hint; `none` is the null pointer.
pub record CodeGenerator : Type 0 where
  pub get_default_convention : Option CallingConvention
  pub get_calling_convention : String → Option CallingConvention
  pub get_system_services : String → Option SystemServices

abbrev convention_of : X64.CallingConvention → CallingConvention
convention_of x64_calling_convention = record {
  make_prolog = λ argc. ok (X64.make_prolog argc);
  make_epilog = λ argc. ok (X64.make_epilog argc);
  set_return_value = X64.set_return_value;
  invoke_proc = X64.invoke_proc;
  invoke_proc_this = X64.invoke_proc_this;
}

abbrev services_of : X64.SystemServices → SystemServices
services_of x64_linux_services = record { make_syscall = X64.make_syscall }

abbrev pub x64_code_generator : CodeGenerator
x64_code_generator = record {
  get_default_convention = some (convention_of x64_calling_convention);
  get_calling_convention = λ hint. Option.map convention_of (X64.get_calling_convention hint);
  get_system_services = λ uname. Option.map services_of (X64.get_system_services uname);
}

-- In a build for x86-64.
unfoldable pub native_code_generator : CodeGenerator
native_code_generator = x64_code_generator
