-- ===== src/Pe/Sections.antt =====
-- Copying the headers and the sections of an image into memory, through a buffer ("indirect") or
-- straight into the memory of the current process ("direct"): src/pe/image.hpp.
use libload.Common.{
  ℕ, ◌+◌, ◌-◌, List, [], ◌∷◌, ◌++◌, Eff, ◌>>=◌, ◌>>◌, pure, raise, Error, ◌-64◌, ltb, length, take,
  replicate, if◌then◌else◌,
}
use libload.Memory.Block.{
  MemoryOwnership, MemoryBlock, OwnedMemoryBlock, memory_block, write, with_manager,
}
use libload.Memory.Manager.{MemoryManager}
use libload.Pe.Format.{SectionHeader, FileImage}

-- std::vector<char>::resize.
unfoldable pub resize : ℕ → List ℕ → List ℕ
resize n buf = take n buf ++ replicate (n - length buf) 0

module _ {S : Type 0} (image : FileImage S) where
  unfoldable pub allocate_pe_image : MemoryManager S → Eff S (OwnedMemoryBlock S)
  allocate_pe_image memory_manager = do
    let image_size = image.optional_header.size_of_image
    let image_base = image.optional_header.image_base
    image_mem ← memory_manager.allocate image_base image_size
    pure (memory_block memory_manager image_mem image_size)

  module _ {mo : MemoryOwnership} (into_memory : MemoryBlock mo S) where
    abbrev commit : ℕ → ℕ → Eff S (Unit {0})
    commit mem size = with_manager into_memory.mem_manager λ m. m.commit mem size

    unfoldable pub copy_pe_image_headers_indirect : Eff S (Unit {0})
    copy_pe_image_headers_indirect = do
      let size = image.optional_header.size_of_headers
      hdrdata_buf ← image.read 0 size (replicate size 0)
      commit into_memory.mem_pointer size
      written ← write into_memory 0 hdrdata_buf size
      pure tt

    -- Here and in map_pe_image_sections_direct, the assertion that the memory is directly addressable
    -- is not translated (NDEBUG).
    unfoldable pub copy_pe_image_headers_direct : Eff S (Unit {0})
    copy_pe_image_headers_direct =
        let hdrs_size = image.optional_header.size_of_headers in
        if ltb into_memory.mem_size hdrs_size then raise Error.runtime_error else (do
          commit into_memory.mem_pointer hdrs_size
          image.read_into 0 hdrs_size into_memory.mem_pointer)

    -- The buffer is kept from section to section.
    unfoldable pub map_sections_indirect : List SectionHeader → List ℕ → Eff S (Unit {0})
    unfolding resize
    map_sections_indirect [] rdata_buf = pure tt
    map_sections_indirect (sect_header ∷ headers) rdata_buf = do
      let raw_size = sect_header.size_of_raw_data
      rdata_buf ← image.read sect_header.pointer_to_raw_data raw_size (resize raw_size rdata_buf)
      let vdata_offs = sect_header.virtual_address
      commit (into_memory.mem_pointer + vdata_offs) sect_header.virtual_size
      written ← write into_memory vdata_offs rdata_buf raw_size
      map_sections_indirect headers rdata_buf

    unfoldable pub map_pe_image_sections_indirect : Eff S (Unit {0})
    unfolding map_sections_indirect
    map_pe_image_sections_indirect = map_sections_indirect image.section_headers []

    unfoldable pub map_section_direct : SectionHeader → Eff S (Unit {0})
    map_section_direct sect_header =
        let vdata_offs = sect_header.virtual_address in
        let outmem_ptr = into_memory.mem_pointer + vdata_offs in
        let rem_size = into_memory.mem_size -64 vdata_offs in
        if ltb rem_size sect_header.size_of_raw_data then raise Error.runtime_error else (do
          commit outmem_ptr sect_header.virtual_size
          image.read_into sect_header.pointer_to_raw_data sect_header.size_of_raw_data outmem_ptr)

    unfoldable pub map_sections_direct : List SectionHeader → Eff S (Unit {0})
    unfolding map_section_direct
    map_sections_direct [] = pure tt
    map_sections_direct (sect_header ∷ headers) =
        map_section_direct sect_header >> map_sections_direct headers

    unfoldable pub map_pe_image_sections_direct : Eff S (Unit {0})
    unfolding map_sections_direct
    map_pe_image_sections_direct = map_sections_direct image.section_headers
