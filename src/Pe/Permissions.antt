-- ===== src/Pe/Permissions.antt =====
-- The access rights of sections: src/pe/image.hpp and src/platform/windows/memory_access.hpp.
use libload.Common.{
  ℕ, ◌+◌, List, [], ◌∷◌, Eff, ◌>>◌, pure, Bool, not, bit_and, bit_or, ◌==◌, if◌then◌else◌,
}
use libload.Memory.Block.{MemoryOwnership, MemoryBlock, with_manager}
use libload.Memory.Manager.{read_access, write_access, execute_access}
use libload.Pe.Format.{SectionHeader, SectionFlags, VirtualImage}

-- `x & mask` as a condition.
abbrev pub has : ℕ → ℕ → Bool
has x mask = not (bit_and x mask == 0)

abbrev pub or_if : Bool → ℕ → ℕ → ℕ
or_if test x flag = if test then bit_or x flag else x

unfoldable pub pe_section_memory_access : SectionFlags → ℕ → ℕ
pe_section_memory_access flags characteristics =
    let mem_access = or_if (has characteristics flags.scn_mem_read) 0 read_access in
    let mem_access' = or_if (has characteristics flags.scn_mem_write) mem_access write_access in
    or_if (has characteristics flags.scn_mem_execute) mem_access' execute_access

-- The constants of windows.h.
pub data PageProtection : Type 0 where
  page_noaccess : PageProtection
  page_readonly : PageProtection
  page_readwrite : PageProtection
  page_execute_read : PageProtection
  page_execute_readwrite : PageProtection

unfoldable pub memory_access_to_win32 : ℕ → PageProtection
memory_access_to_win32 mem_access =
    if has mem_access read_access
    then if has mem_access write_access
      then (if has mem_access execute_access then page_execute_readwrite else page_readwrite)
      else (if has mem_access execute_access then page_execute_read else page_readonly)
    else page_noaccess

module _ {S : Type 0} (flags : SectionFlags) {mo : MemoryOwnership}
    (image_mem : MemoryBlock mo S) where
  unfoldable pub permit_sections : List SectionHeader → Eff S (Unit {0})
  unfolding pe_section_memory_access
  permit_sections [] = pure tt
  permit_sections (sect_header ∷ headers) = do
    let mem_ptr = image_mem.mem_pointer + sect_header.virtual_address
    let mem_access = pe_section_memory_access flags sect_header.characteristics
    with_manager image_mem.mem_manager λ m. m.set_access mem_ptr sect_header.virtual_size mem_access
    permit_sections headers

  unfoldable pub apply_pe_memory_permissions : VirtualImage S → Eff S (Unit {0})
  unfolding permit_sections
  apply_pe_memory_permissions image s = permit_sections (image.section_headers s) s

  unfoldable pub discard_sections : List SectionHeader → Eff S (Unit {0})
  discard_sections [] = pure tt
  discard_sections (section_header ∷ headers) = do
    let vdata_ptr = image_mem.mem_pointer + section_header.virtual_address
    if has section_header.characteristics flags.scn_mem_discardable
        then with_manager image_mem.mem_manager
            (λ m. m.decommit vdata_ptr section_header.virtual_size)
        else pure tt
    discard_sections headers

  unfoldable pub remove_pe_discardable_sections : VirtualImage S → Eff S (Unit {0})
  unfolding discard_sections
  remove_pe_discardable_sections image s = discard_sections (image.section_headers s) s
