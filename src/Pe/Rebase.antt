-- ===== src/Pe/Rebase.antt =====
-- What the relocations of src/pe/image.hpp do to the bytes of an image.
use libload.Common.{
  leb, false, and_then-keeps, ℕ, ◌+◌, ◌%◌, ◌^◌, ◌<◌, ◌≤◌, ◌≡◌, refl, ◌∙◌, List, [], ◌∷◌, All,
  Result, ok, arith, IsU64, ◌-64◌, length,
}
use libload.Memory.Bytes.{Outside, load_bytes}
use libload.Memory.Manager.{MemoryManager, CopiesBytes}
use libload.Memory.Block.{
  MemoryOwnership, borrowed_memory, MutableMemoryBuffer, memory_block, as_buffer,
}
use libload.Memory.Endian.{le_value, modify_le_value_at_lem}
use libload.Memory.Slice.{get_memory_block_slice_lem}
use libload.Pe.Format.{
  RelocationType, rel_based_absolute, rel_based_highlow, rel_based_dir64, rel_based_other,
  RelocationEntry, BaseRelocation, VirtualImage,
}
use libload.Pe.Relocation.{
  apply_pe_relocation_type, apply_pe_relocation_entry, apply_entries, relocate_direct,
  apply_pe_image_relocations_direct,
}

module _ {S : Type 0} {manager : MemoryManager S} (c : CopiesBytes manager) (uninit : ℕ → List ℕ)
    (sized : (n : ℕ) → length (uninit n) ≡ n) (image : VirtualImage S) (ptr mem_size : ℕ)
    (w : IsU64 mem_size) where
  abbrev relblock : MutableMemoryBuffer S
  relblock = as_buffer (memory_block {mo = borrowed_memory} manager ptr mem_size)

  -- The bytes that an entry of a type covers.
  abbrev width : RelocationType → ℕ
  width rel_based_absolute = 0
  width rel_based_highlow = 4
  width rel_based_dir64 = 8
  width (rel_based_other t) = 0

  module _ (base_reloc : BaseRelocation) (e : RelocationEntry) (base_address : ℕ) (s : S) where
    abbrev offs : ℕ
    offs = e.address -64 base_reloc.virtual_address

    abbrev base_diff : ℕ
    base_diff = base_address -64 (image.optional_header s).image_base

    abbrev outcome : Result (Unit {0}) × S
    outcome = apply_pe_relocation_entry uninit image base_reloc e base_address relblock s

    -- If the manager copies bytes: an entry of type DIR64 whose 8 bytes lie in the block's
    -- memory, of 64-bit size, adds the distance between the real and the preferred base to the
    -- 64-bit value there, modulo 2 ^ 64, and changes no byte outside the value.
    pub apply_pe_relocation_entry-dir64 :
        (a : ℕ)
        → e.kind ≡ rel_based_dir64
        → offs + 8 ≤ mem_size
        → Outside (ptr + offs) 8 a
        → (outcome.0 ≡ ok tt)
          × (le_value (load_bytes (c.view outcome.1) (ptr + offs) 8)
              ≡ (le_value (load_bytes (c.view s) (ptr + offs) 8) + base_diff) % 2 ^ 64)
          × (c.view outcome.1 a ≡ c.view s a)
    unfolding apply_pe_relocation_entry
    apply_pe_relocation_entry-dir64 a kind fits out = rw kind (
        modify_le_value_at_lem borrowed_memory c ptr mem_size 8 offs (uninit 8) s w fits (sized 8)
          (λ x. (x + base_diff) % 2 ^ 64) a (omega arith) out)

    -- If the manager copies bytes: an entry of type HIGHLOW whose 4 bytes lie in the block's
    -- memory, of 64-bit size, adds the distance between the real and the preferred base to the
    -- 32-bit value there, modulo 2 ^ 32, and changes no byte outside the value.
    pub apply_pe_relocation_entry-highlow :
        (a : ℕ)
        → e.kind ≡ rel_based_highlow
        → offs + 4 ≤ mem_size
        → Outside (ptr + offs) 4 a
        → (outcome.0 ≡ ok tt)
          × (le_value (load_bytes (c.view outcome.1) (ptr + offs) 4)
              ≡ (le_value (load_bytes (c.view s) (ptr + offs) 4) + base_diff) % 2 ^ 32)
          × (c.view outcome.1 a ≡ c.view s a)
    unfolding apply_pe_relocation_entry
    apply_pe_relocation_entry-highlow a kind fits out =
        let (done, value, same) =
          modify_le_value_at_lem borrowed_memory c ptr mem_size 4 offs (uninit 4) s w fits (sized 4)
            (λ x. (x + base_diff % 2 ^ 32) % 2 ^ 32) a (omega arith) out in
        rw kind (done, value ∙ omega arith, same)

    -- Whatever its type is, an entry changes no byte outside the block's memory, if its 8 bytes lie
    -- in it.
    apply_pe_relocation_entry-view :
        (a : ℕ) → offs + 8 ≤ mem_size → Outside ptr mem_size a → c.view outcome.1 a ≡ c.view s a
    unfolding apply_pe_relocation_entry
    apply_pe_relocation_entry-view a fits out = by_kind e.kind
      where
        by_kind :
            (kind : RelocationType)
            → c.view (apply_pe_relocation_type uninit image kind offs base_diff relblock s).1 a
              ≡ c.view s a
        by_kind rel_based_absolute = refl
        by_kind (rel_based_other t) = refl
        by_kind rel_based_highlow =
            (modify_le_value_at_lem borrowed_memory c ptr mem_size 4 offs (uninit 4) s w
              (omega arith) (sized 4) (λ x. (x + base_diff % 2 ^ 32) % 2 ^ 32) a (omega arith)
              (omega arith)).2
        by_kind rel_based_dir64 =
            (modify_le_value_at_lem borrowed_memory c ptr mem_size 8 offs (uninit 8) s w fits
              (sized 8) (λ x. (x + base_diff) % 2 ^ 64) a (omega arith) (omega arith)).2

  -- The entries lie in the block's memory, each with 8 bytes.
  abbrev pub EntriesFit : BaseRelocation → List RelocationEntry → Type 0
  EntriesFit base_reloc es = All (λ e. (e.address -64 base_reloc.virtual_address) + 8 ≤ mem_size) es

  pub apply_entries-view :
      (base_reloc : BaseRelocation) (es : List RelocationEntry) (base_address a : ℕ) (s : S)
      → EntriesFit base_reloc es
      → Outside ptr mem_size a
      → c.view (apply_entries uninit image base_reloc es base_address relblock s).1 a ≡ c.view s a
  unfolding apply_entries
  apply_entries-view base_reloc [] base_address a s fit out = refl
  apply_entries-view base_reloc (e ∷ es) base_address a s (fit, fits) out =
      and_then-keeps (λ s'. c.view s' a ≡ c.view s a) _ _
        (apply_pe_relocation_entry-view base_reloc e base_address s a fit out)
        (λ x s' kept. apply_entries-view base_reloc es base_address a s' fits out ∙ kept)

-- A block of relocations is at most `limit` bytes long, and each of its entries lies, counted from
-- its page, within that length; its page is followed by as many bytes of the image.
pub record BlockFits (mem_size limit : ℕ) (r : BaseRelocation) : Type 0 where
  pub short : r.size_of_block ≤ limit
  pub in_image : r.virtual_address + r.size_of_block < mem_size
  pub entries_fit : All (λ e. (e.address -64 r.virtual_address) + 8 ≤ r.size_of_block) r.entries

-- The relocations of a whole image, each block of them for a page at `virtual_address`.
module _ {S : Type 0} {manager : MemoryManager S} (c : CopiesBytes manager) (uninit : ℕ → List ℕ)
    (sized : (n : ℕ) → length (uninit n) ≡ n) (image : VirtualImage S) (mo : MemoryOwnership)
    (ptr mem_size : ℕ) (w : IsU64 mem_size) (limit : ℕ) where
  relocate_direct-view :
      (relocs : List BaseRelocation) (s : S) (a : ℕ)
      → All (BlockFits mem_size limit) relocs
      → Outside ptr limit a
      → c.view
          (relocate_direct uninit image (memory_block {mo = mo} manager ptr mem_size) relocs s).1
          a
        ≡ c.view s a
  unfolding relocate_direct
  relocate_direct-view [] s a fits out = refl
  relocate_direct-view (r ∷ relocs) s a (fit, fits) out =
      let image_mem = memory_block {mo = mo} manager ptr mem_size in
      let granted : leb mem_size (r.virtual_address + r.size_of_block) ≡ false =
        let h = fit.in_image in ground arith in
      rw
        (
          get_memory_block_slice_lem image_mem r.virtual_address r.size_of_block s w (omega arith),
          granted,
        )
        (and_then-keeps (λ s'. c.view s' a ≡ c.view s a) _ _
          (apply_entries-view c uninit sized image ptr r.size_of_block (omega arith) r r.entries ptr
            a s fit.entries_fit (omega arith))
          (λ x s' kept. relocate_direct-view relocs s' a fits out ∙ kept))

  -- If the manager copies bytes, and every block of relocations is at most `limit` long, has
  -- entries that lie, with 8 bytes and counted from its page, within its length, and is for a
  -- page with as many bytes before the end of the image, then relocating the image in place
  -- changes only the first `limit` bytes of its memory, whatever pages the blocks are for: every
  -- other byte is as before, whether the run succeeds or throws.
  pub apply_pe_image_relocations_direct-view :
      (s : S) (a : ℕ)
      → All (BlockFits mem_size limit) (image.base_relocations s)
      → Outside ptr limit a
      → c.view
          (apply_pe_image_relocations_direct uninit image
            (memory_block {mo = mo} manager ptr mem_size)
            s).1
          a
        ≡ c.view s a
  unfolding apply_pe_image_relocations_direct
  apply_pe_image_relocations_direct-view s a fits out =
      relocate_direct-view (image.base_relocations s) s a fits out
