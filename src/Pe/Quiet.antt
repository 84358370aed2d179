-- ===== src/Pe/Quiet.antt =====
-- The steps of load_pe_image of src/pe/image.hpp leave the live allocations as they are, whether they
-- succeed or throw.
mod Sections
mod Relocations
mod Imports
pub use Sections.*
pub use Relocations.*
pub use Imports.*
