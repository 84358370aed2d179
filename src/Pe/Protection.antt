-- ===== src/Pe/Protection.antt =====
-- What protection the pages of a section get: pe_section_memory_access of src/pe/image.hpp followed
-- by memory_access_to_win32 of src/platform/windows/memory_access.hpp.
use libload.Common.{ℕ, ◌≡◌, refl, Bool, true, false}
use libload.Pe.Format.{SectionFlags}
use libload.Pe.Permissions.{
  has, or_if, pe_section_memory_access, PageProtection, page_noaccess, page_readonly,
  page_readwrite, page_execute_read, page_execute_readwrite, memory_access_to_win32,
}

-- The protection by what a section may be: read, written, executed.
unfoldable pub protection : (read write execute : Bool) → PageProtection
protection true true true = page_execute_readwrite
protection true true false = page_readwrite
protection true false true = page_execute_read
protection true false false = page_readonly
protection false w x = page_noaccess

protection_of_bits :
    (r w x : Bool) → memory_access_to_win32 (or_if x (or_if w (or_if r 0 1) 2) 4) ≡ protection r w x
unfolding memory_access_to_win32 protection
protection_of_bits true true true = refl
protection_of_bits true true false = refl
protection_of_bits true false true = refl
protection_of_bits true false false = refl
protection_of_bits false true true = refl
protection_of_bits false true false = refl
protection_of_bits false false true = refl
protection_of_bits false false false = refl

-- The two translations together give each section the protection of the table, by its three bits
-- alone; a section without the read bit gets no access at all, also if it may be executed.
pub section_protection :
    (flags : SectionFlags) (characteristics : ℕ)
    → memory_access_to_win32 (pe_section_memory_access flags characteristics)
      ≡ protection
          (has characteristics flags.scn_mem_read)
          (has characteristics flags.scn_mem_write)
          (has characteristics flags.scn_mem_execute)
unfolding pe_section_memory_access
section_protection flags characteristics = protection_of_bits _ _ _
