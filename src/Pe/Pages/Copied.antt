-- ===== src/Pe/Pages/Copied.antt =====
-- What both ways to copy an image in src/pe/image.hpp commit.
use libload.Common.{Eff, Result, if◌then◌else◌, Bool, true, false, ℕ, ◌≤◌, All, ◌>>◌, IsU64}
use libload.Memory.Manager.{MemoryManager}
use libload.Memory.Block.{MemoryOwnership, memory_block}
use libload.Pe.Format.{FileImage}
use libload.Pe.Sections.{
  copy_pe_image_headers_indirect, copy_pe_image_headers_direct, map_pe_image_sections_indirect,
  map_pe_image_sections_direct,
}
use libload.Pe.Pages.{CommitsPages, IsCovered, AllCommitted}
use libload.Pe.Pages.Indirect.{indirect-AllCommitted}
use libload.Pe.Pages.Direct.{direct-AllCommitted}

by_addressing :
    {S : Type 0} (P : Result (Unit {0}) × S → Type 0) (direct : Bool) (m n : Eff S (Unit {0}))
    (s : S)
    → P (m s)
    → P (n s)
    → P ((if direct then m else n) s)
by_addressing P true m n s hm hn = hm
by_addressing P false m n s hm hn = hn

module _ {S : Type 0} {manager : MemoryManager S} {image : FileImage S}
    (p : CommitsPages manager image) (mo : MemoryOwnership) (ptr mem_size : ℕ)
    (w : IsU64 mem_size) where
  -- The copying as load_pe_image does it: directly, where memory is directly addressable.
  abbrev pub copying : Eff S (Unit {0})
  copying =
      let block = memory_block {mo = mo} manager ptr mem_size in
      if manager.allows_direct_addressing
      then copy_pe_image_headers_direct image block >> map_pe_image_sections_direct image block
      else copy_pe_image_headers_indirect image block >> map_pe_image_sections_indirect image block

  -- If a commit succeeds and commits its range, a copy or a read into committed memory succeeds, and
  -- the file can be read: for an image whose headers fit in the block, of 64-bit size, and whose
  -- sections have raw data that fit in it and are no longer than the section in memory, the headers
  -- and sections are copied without an exception, directly where the manager allows it and through
  -- buffers where it does not, although a copy into memory that is not committed may throw; and then
  -- headers and sections are committed.
  pub copy_pe_image-AllCommitted :
      (s : S)
      → image.optional_header.size_of_headers ≤ mem_size
      → All (IsCovered p mem_size) image.section_headers
      → AllCommitted p ptr (copying s)
  copy_pe_image-AllCommitted s room fits =
      by_addressing (AllCommitted p ptr) manager.allows_direct_addressing _ _ s
        (direct-AllCommitted p mo ptr mem_size w s room fits)
        (indirect-AllCommitted p mo ptr mem_size w s room fits)
