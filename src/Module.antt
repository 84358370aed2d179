-- ===== src/Module.antt =====
-- Modules and their providers: include/load/module, src/module_provider.hpp and .cpp, and the
-- symbols of a loaded PE module, src/pe/module.hpp and src/pe/load_module.cpp.
pub mod Provider
pub mod Entries
pub mod Cache
pub mod Coherence
pub mod Forwarder
pub mod Symbols
pub mod Forwarding
pub mod Linking
mod Tests
mod LinkingTests
