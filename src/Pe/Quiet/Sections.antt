-- ===== src/Pe/Quiet/Sections.antt =====
-- The copying of headers and sections and the access rights of src/pe/image.hpp leave the live
-- allocations as they are.
use libload.Common.{
  ℕ, List, [], ◌∷◌, Leaves, Leaves-bind, Leaves-then, Leaves-pure, Leaves-raise, Leaves-if, ltb,
  ◌-64◌,
}
use libload.Memory.Manager.{MemoryManager}
use libload.Memory.Block.{MemoryOwnership, MemoryBlock, memory_block}
use libload.Memory.Tracks.{Tracks, write-Leaves}
use libload.Pe.Format.{SectionHeader, FileImage, VirtualImage, SectionFlags}
use libload.Pe.Sections.{
  map_pe_image_sections_indirect, map_pe_image_sections_direct, copy_pe_image_headers_indirect,
  copy_pe_image_headers_direct, map_sections_indirect, map_section_direct, map_sections_direct,
}
use libload.Pe.Permissions.{
  apply_pe_memory_permissions, remove_pe_discardable_sections, has, permit_sections,
  discard_sections,
}

-- What is assumed of the file: reading it does not allocate.
pub record ReadsQuietly {S X : Type 0} (obs : S → X) (image : FileImage S) : Type 0 where
  pub read_lem : (offset size : ℕ) (buf : List ℕ) → Leaves obs (image.read offset size buf)
  pub read_into_lem : (offset size mem : ℕ) → Leaves obs (image.read_into offset size mem)

-- The sections, for an image that is read quietly into a block whose manager tracks.
module _ {S : Type 0} {live : S → List (ℕ × ℕ)} {manager : MemoryManager S}
    (t : Tracks live manager) (mo : MemoryOwnership) (mem size : ℕ) {image : FileImage S}
    (q : ReadsQuietly live image) where
  abbrev block : MemoryBlock mo S
  block = memory_block manager mem size

  pub headers_direct-Leaves : Leaves live (copy_pe_image_headers_direct image block)
  unfolding copy_pe_image_headers_direct
  headers_direct-Leaves =
      Leaves-if (ltb size _) _ _ (Leaves-raise _)
        (Leaves-then (t.commit_lem _ _) (q.read_into_lem _ _ _))

  pub headers_indirect-Leaves : Leaves live (copy_pe_image_headers_indirect image block)
  unfolding copy_pe_image_headers_indirect
  headers_indirect-Leaves = Leaves-bind (q.read_lem _ _ _) (λ buf.
      Leaves-then (t.commit_lem _ _)
        (Leaves-bind (write-Leaves t mo mem size 0 buf _) (λ n. Leaves-pure tt)))

  section_direct-Leaves : (h : SectionHeader) → Leaves live (map_section_direct image block h)
  unfolding map_section_direct
  section_direct-Leaves h =
      Leaves-if (ltb (size -64 h.virtual_address) h.size_of_raw_data) _ _ (Leaves-raise _)
        (Leaves-then (t.commit_lem _ _) (q.read_into_lem _ _ _))

  sections_direct-Leaves :
      (hs : List SectionHeader) → Leaves live (map_sections_direct image block hs)
  unfolding map_sections_direct
  sections_direct-Leaves [] = Leaves-pure tt
  sections_direct-Leaves (h ∷ hs) =
      Leaves-then (section_direct-Leaves h) (sections_direct-Leaves hs)

  sections_indirect-Leaves :
      (hs : List SectionHeader) (buf : List ℕ)
      → Leaves live (map_sections_indirect image block hs buf)
  unfolding map_sections_indirect
  sections_indirect-Leaves [] buf = Leaves-pure tt
  sections_indirect-Leaves (h ∷ hs) buf = Leaves-bind (q.read_lem _ _ _) (λ buf'.
      Leaves-then (t.commit_lem _ _)
        (Leaves-bind (write-Leaves t mo mem size _ buf' _) (λ n. sections_indirect-Leaves hs buf')))

  pub image_sections_direct-Leaves : Leaves live (map_pe_image_sections_direct image block)
  unfolding map_pe_image_sections_direct
  image_sections_direct-Leaves = sections_direct-Leaves image.section_headers

  pub image_sections_indirect-Leaves : Leaves live (map_pe_image_sections_indirect image block)
  unfolding map_pe_image_sections_indirect
  image_sections_indirect-Leaves = sections_indirect-Leaves image.section_headers []

-- The permissions.
module _ {S : Type 0} {live : S → List (ℕ × ℕ)} {manager : MemoryManager S}
    (t : Tracks live manager) (mo : MemoryOwnership) (mem size : ℕ) (flags : SectionFlags) where
  permit-Leaves :
      (hs : List SectionHeader)
      → Leaves live (permit_sections flags (memory_block {mo = mo} manager mem size) hs)
  unfolding permit_sections
  permit-Leaves [] = Leaves-pure tt
  permit-Leaves (h ∷ hs) = Leaves-then (t.set_access_lem _ _ _) (permit-Leaves hs)

  discard-Leaves :
      (hs : List SectionHeader)
      → Leaves live (discard_sections flags (memory_block {mo = mo} manager mem size) hs)
  unfolding discard_sections
  discard-Leaves [] = Leaves-pure tt
  discard-Leaves (h ∷ hs) =
      Leaves-then
        (Leaves-if (has h.characteristics flags.scn_mem_discardable) _ _ (t.decommit_lem _ _)
          (Leaves-pure tt))
        (discard-Leaves hs)

  pub permissions-Leaves :
      (image : VirtualImage S)
      → Leaves live
          (apply_pe_memory_permissions flags (memory_block {mo = mo} manager mem size) image)
  unfolding apply_pe_memory_permissions
  permissions-Leaves image = record { at = λ s. (permit-Leaves (image.section_headers s)).at s }

  pub discardable-Leaves :
      (image : VirtualImage S)
      → Leaves live
          (remove_pe_discardable_sections flags (memory_block {mo = mo} manager mem size) image)
  unfolding remove_pe_discardable_sections
  discardable-Leaves image = record { at = λ s. (discard-Leaves (image.section_headers s)).at s }
