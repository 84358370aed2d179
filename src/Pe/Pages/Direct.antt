-- ===== src/Pe/Pages/Direct.antt =====
-- What the copying of an image straight into memory in src/pe/image.hpp commits.
use libload.Common.{
  ℕ, ◌+◌, ◌≤◌, ◌≡◌, refl, ap, ◌∙◌, List, [], ◌∷◌, All, false, Result, ok, ◌>>◌, and_then,
  value_and_state, IsU64, arith, ltb, ◌-64◌,
}
use libload.Memory.Manager.{MemoryManager}
use libload.Memory.Block.{MemoryOwnership, MemoryBlock, memory_block}
use libload.Pe.Format.{SectionHeader, FileImage}
use libload.Pe.Sections.{
  copy_pe_image_headers_direct, map_section_direct, map_sections_direct,
  map_pe_image_sections_direct,
}
use libload.Pe.Pages.{CommitsPages, Includes, Keeps, IsCovered, Mapped, AllCommitted, ran}

module _ {S : Type 0} {manager : MemoryManager S} {image : FileImage S}
    (p : CommitsPages manager image) (mo : MemoryOwnership) (ptr mem_size : ℕ)
    (w : IsU64 mem_size) where
  abbrev block : MemoryBlock mo S
  block = memory_block manager ptr mem_size

  -- A commit, and a read into what it has committed.
  commit_read :
      (from mem size n : ℕ) (Q : Result (Unit {0}) × S → Type 0) (s : S)
      → n ≤ size
      → ((s' : S) → Includes p mem size s' → Keeps p s s' → Q (ok tt, s'))
      → Q (and_then (manager.commit mem size s) (λ x. image.read_into from n mem))
  commit_read from mem size n Q s small next =
      let s₁ = (manager.commit mem size s).1 in
      let put =
        p.read_into_ok from n mem s₁ (λ a within. p.commit_within mem size a s (omega arith)) in
      let same = p.read_into_keeps from n mem s₁ in
      rw (value_and_state (manager.commit mem size s) (p.commit_ok mem size s)) (
        rw (value_and_state (image.read_into from n mem s₁) put) (
          next _ (λ a within. ap (λ pages. pages a) same ∙ p.commit_within mem size a s within)
            (λ a before. ap (λ pages. pages a) same ∙ p.commit_keeps mem size a s before)))

  section-Mapped :
      (h : SectionHeader) (s : S)
      → IsCovered p mem_size h
      → Mapped p ptr (h ∷ []) s (map_section_direct image block h s)
  unfolding map_section_direct
  section-Mapped h s (inside, small) =
      let room : ltb (mem_size -64 h.virtual_address) h.size_of_raw_data ≡ false = ground arith in
      rw room (
        commit_read h.pointer_to_raw_data (ptr + h.virtual_address) h.virtual_size
          h.size_of_raw_data (Mapped p ptr (h ∷ []) s) s small
          (λ s' there keeps. (refl, keeps, (there, tt))))

  sections-Mapped :
      (headers : List SectionHeader) (s : S)
      → All (IsCovered p mem_size) headers
      → Mapped p ptr headers s (map_sections_direct image block headers s)
  unfolding map_sections_direct
  sections-Mapped [] s fits = (refl, (λ a h. h), tt)
  sections-Mapped (h ∷ headers) s (here, fits) =
      let s' = (map_section_direct image block h s).1 in
      let (done, keeps, (there, none)) = section-Mapped h s here in
      let (done', kept, all) = sections-Mapped headers s' fits in
      ran (map_section_direct image block h s) (map_sections_direct image block headers)
        (Mapped p ptr (h ∷ headers) s) done
        (done', (λ a before. kept a (keeps a before)), ((λ a within. kept a (there a within)), all))

  headers-committed :
      (s : S)
      → image.optional_header.size_of_headers ≤ mem_size
      → let r = copy_pe_image_headers_direct image block s in
        (r.0 ≡ ok tt) × Includes p ptr image.optional_header.size_of_headers r.1
  unfolding copy_pe_image_headers_direct
  headers-committed s h =
      let size = image.optional_header.size_of_headers in
      let room : ltb mem_size size ≡ false = ground arith in
      rw room (
        commit_read 0 ptr size size (λ r. (r.0 ≡ ok tt) × Includes p ptr size r.1) s (omega arith)
          (λ s' there keeps. (refl, there)))

  pub direct-AllCommitted :
      (s : S)
      → image.optional_header.size_of_headers ≤ mem_size
      → All (IsCovered p mem_size) image.section_headers
      → AllCommitted p ptr
          ((copy_pe_image_headers_direct image block >> map_pe_image_sections_direct image block) s)
  unfolding map_pe_image_sections_direct
  direct-AllCommitted s room fits =
      let (done, there) = headers-committed s room in
      let s' = (copy_pe_image_headers_direct image block s).1 in
      let (mapped, keeps, all) = sections-Mapped image.section_headers s' fits in
      ran (copy_pe_image_headers_direct image block s) (map_pe_image_sections_direct image block)
        (AllCommitted p ptr) done (mapped, (λ a within. keeps a (there a within)), all)
