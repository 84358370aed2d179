-- ===== src/Platform.antt =====
-- What the loader uses of the operating system: src/platform/windows and src/mapped_file.cpp. The calls of
-- Windows are a parameter.
pub mod Win32
pub mod ProcessMemory
pub mod SystemModules
pub mod References
pub mod MappedFile
pub mod Managers
pub mod Processes
pub mod Rights
pub mod Commit
pub mod MadeFor
pub mod Handles
mod Tests
mod MemoryTests
mod ModuleTests
