-- ===== src/Pe.antt =====
-- The loader of PE images: src/pe/image.hpp. The parser of the format is the library peplus, whose
-- views of an image are records here.
pub mod Format
pub mod Relocation
pub mod Sections
pub mod Imports
pub mod Permissions
pub mod Load
pub mod Protection
pub mod Mapping
pub mod Rebase
pub mod Neutral
pub mod Agreement
pub mod Pages
pub mod Contents
pub mod PastEnd
pub mod Settled
pub mod Whole
pub mod Loaded
pub mod Bound
pub mod Bindings
pub mod Release
pub mod Process
pub mod LoadModule
pub mod Events
pub mod Exports
pub mod Found
pub mod Owner
pub mod Quiet
pub mod Balance
pub mod Life
mod Machine
mod Tests
mod RebaseTests
mod ModuleTests
mod LoadTests
mod WholeTests
mod FoundTests
mod LifeTests
mod PagesTests
