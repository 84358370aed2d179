-- ===== src/Pe/Mapping.antt =====
-- Where map_pe_image_sections_direct of src/pe/image.hpp writes.
use libload.Common.{
  ℕ, ◌+◌, ◌-◌, ◌^◌, ◌<◌, ◌≤◌, ◌≡◌, refl, ◌∙◌, List, [], ◌∷◌, All, throw, Error, Bool-cases, inl,
  inr, true, false, arith, IsU64, ◌-64◌, ltb, lt→ltb, ge→ltb, and_then-keeps, ◌>>◌,
}
use libload.Memory.Bytes.{Bytes, Outside}
use libload.Memory.Manager.{MemoryManager}
use libload.Memory.Block.{MemoryOwnership, MemoryBlock, memory_block}
use libload.Pe.Format.{SectionHeader, FileImage}
use libload.Pe.Sections.{map_section_direct, map_sections_direct}

module _ {S : Type 0} (mo : MemoryOwnership) (image : FileImage S) (manager : MemoryManager S)
    (ptr mem_size : ℕ) where
  abbrev block : MemoryBlock mo S
  block = memory_block manager ptr mem_size

  -- A section that starts in the image's memory, of 64-bit size, or at its end, and whose raw
  -- data do not fit behind its start, is refused with runtime_error before anything is done.
  pub map_section_direct-throw :
      (h : SectionHeader) (s : S)
      → IsU64 mem_size
      → h.virtual_address ≤ mem_size
      → mem_size < h.virtual_address + h.size_of_raw_data
      → map_section_direct image block h s ≡ (throw Error.runtime_error, s)
  unfolding map_section_direct
  map_section_direct-throw h s w starts long =
      let refused : ltb (mem_size -64 h.virtual_address) h.size_of_raw_data ≡ true =
        lt→ltb _ _ (omega arith) in
      rw refused

  -- A section that starts behind the end of the image's memory, with a 64-bit address, and whose
  -- raw data end at most 2^64 behind that end, passes the check, since the subtraction wraps: its
  -- pages are committed and its raw data are read to an address outside that memory.
  pub map_section_direct-past_end :
      (h : SectionHeader) (s : S)
      → mem_size < h.virtual_address
      → h.virtual_address + h.size_of_raw_data ≤ 2 ^ 64 + mem_size
      → IsU64 h.virtual_address
      → map_section_direct image block h s
        ≡ (manager.commit (ptr + h.virtual_address) h.virtual_size
              >> image.read_into h.pointer_to_raw_data h.size_of_raw_data (ptr + h.virtual_address))
            s
  unfolding map_section_direct
  map_section_direct-past_end h s past raw w =
      let passed : ltb (mem_size -64 h.virtual_address) h.size_of_raw_data ≡ false =
        ge→ltb _ _ (omega arith) in
      rw passed

  -- What the copying relies on: committing changes no byte, and a read fills its range only.
  pub record FillsRanges (view : S → Bytes) : Type 0 where
    pub commit_view : (mem size a : ℕ) (s : S) → view (manager.commit mem size s).1 a ≡ view s a
    pub read_into_view :
        (offset size mem a : ℕ) (s : S)
        → Outside mem size a
        → view (image.read_into offset size mem s).1 a ≡ view s a

  module _ {view : S → Bytes} (fills : FillsRanges view) (w : IsU64 mem_size) (a : ℕ)
      (out : Outside ptr mem_size a) where
    map_section_direct-view :
        (h : SectionHeader) (s : S)
        → h.virtual_address ≤ mem_size
        → view (map_section_direct image block h s).1 a ≡ view s a
    unfolding map_section_direct
    map_section_direct-view h s starts =
        elim (Bool-cases (ltb (mem_size -64 h.virtual_address) h.size_of_raw_data)) [
          | inl long ↦ rw long
          | inr fits ↦
              let room : h.size_of_raw_data ≤ mem_size - h.virtual_address = ground arith in
              rw fits (
                and_then-keeps (λ s'. view s' a ≡ view s a)
                  (manager.commit (ptr + h.virtual_address) h.virtual_size s) _
                  (fills.commit_view _ _ a s)
                  (λ x s' kept. fills.read_into_view _ _ _ a s' (omega arith) ∙ kept))
        ]

    -- If committing changes no byte and reads of the file fill their range only, and every
    -- section starts in the image's memory, of 64-bit size, mapping the sections changes no byte
    -- outside that memory, whether it succeeds or throws.
    pub map_sections_direct-view :
        (headers : List SectionHeader) (s : S)
        → All (λ h. h.virtual_address ≤ mem_size) headers
        → view (map_sections_direct image block headers s).1 a ≡ view s a
    unfolding map_sections_direct
    map_sections_direct-view [] s starts = refl
    map_sections_direct-view (h ∷ headers) s (start, starts) =
        and_then-keeps (λ s'. view s' a ≡ view s a) (map_section_direct image block h s) _
          (map_section_direct-view h s start)
          (λ x s' kept. map_sections_direct-view headers s' starts ∙ kept)
