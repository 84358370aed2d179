-- ===== src/Pe/PastEnd.antt =====
-- The check of a section's room in map_pe_image_sections_direct of src/pe/image.hpp, past the end of the
-- image's memory.
use libload.Common.{
  ℕ, ◌+◌, ◌^◌, ◌≤◌, ◌<◌, ◌≡◌, ap, sym, ◌∙◌, ok, IsU64, arith, and_then, value_and_state, inl,
  length,
}
use libload.Memory.Bytes.{
  Outside, Bytes, load_bytes, store_bytes, load_bytes-store_self, store_bytes-Outside,
  length-load_bytes, Within,
}
use libload.Memory.Manager.{MemoryManager, CopiesBytes}
use libload.Memory.Block.{MemoryOwnership, memory_block}
use libload.Pe.Format.{SectionHeader, FileImage}
use libload.Pe.Sections.{map_section_direct}
use libload.Pe.Agreement.{ReadsFile}
use libload.Pe.Mapping.{map_section_direct-past_end}

module _ {S : Type 0} {manager : MemoryManager S} (c : CopiesBytes manager) (image : FileImage S)
    (file : Bytes) (reads : ReadsFile c image file) where
  -- Committed pages, and then bytes of the file.
  commit_read-view :
      (mem size from n : ℕ) (s : S)
      → let r = and_then (manager.commit mem size s) (λ x. image.read_into from n mem) in
        (r.0 ≡ ok tt) × (c.view r.1 ≡ store_bytes (c.view s) mem (load_bytes file from n))
  commit_read-view mem size from n s =
      let s₁ = (manager.commit mem size s).1 in
      rw (value_and_state (manager.commit mem size s) (reads.commit_ok mem size s)) (
        reads.read_into_ok from n mem s₁,
        reads.read_into_view from n mem s₁
            ∙ ap (λ m. store_bytes m mem (load_bytes file from n)) (reads.commit_view mem size s),
      )

  -- If the manager copies bytes, the file's reads yield its bytes, and committing succeeds and changes no
  -- byte: a section that starts behind the end of the image's memory, with a 64-bit address, and whose
  -- raw data end at most 2^64 behind that end, passes the check, since the subtraction wraps. The mapping
  -- succeeds, puts the raw data of the section outside the image's memory, where its address says, and
  -- changes no byte of that memory, nor any other byte.
  pub map_section_direct-outside :
      (mo : MemoryOwnership) (ptr mem_size : ℕ) (h : SectionHeader) (s : S)
      → mem_size < h.virtual_address
      → h.virtual_address + h.size_of_raw_data ≤ 2 ^ 64 + mem_size
      → IsU64 h.virtual_address
      → let r = map_section_direct image (memory_block {mo = mo} manager ptr mem_size) h s in
        (r.0 ≡ ok tt)
        × (load_bytes (c.view r.1) (ptr + h.virtual_address) h.size_of_raw_data
            ≡ load_bytes file h.pointer_to_raw_data h.size_of_raw_data)
        × ((a : ℕ)
            → Outside (ptr + h.virtual_address) h.size_of_raw_data a
            → c.view r.1 a ≡ c.view s a)
        × ((a : ℕ) → Within ptr mem_size a → c.view r.1 a ≡ c.view s a)
  map_section_direct-outside mo ptr mem_size h s past raw w =
      let start = ptr + h.virtual_address in
      let n = h.size_of_raw_data in
      let raw_data = load_bytes file h.pointer_to_raw_data n in
      let sized : length raw_data ≡ n = length-load_bytes file h.pointer_to_raw_data n in
      let (done, held) = commit_read-view start h.virtual_size h.pointer_to_raw_data n s in
      let elsewhere : (a : ℕ)
          → Outside start n a
          → store_bytes (c.view s) start raw_data a ≡ c.view s a =
        λ a out. store_bytes-Outside (c.view s) start raw_data a (rw sized out) in
      rw (map_section_direct-past_end mo image manager ptr mem_size h s past raw w) (
        done,
        ap (λ m. load_bytes m start n) held
            ∙ ap (load_bytes (store_bytes (c.view s) start raw_data) start) (sym sized)
            ∙ load_bytes-store_self (c.view s) start raw_data,
        λ a out. ap (λ m. m a) held ∙ elsewhere a out,
        λ a within. ap (λ m. m a) held ∙ elsewhere a (inl (omega (arith, within, past))),
      )
