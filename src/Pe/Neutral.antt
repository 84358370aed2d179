-- ===== src/Pe/Neutral.antt =====
-- Relocating an image of src/pe/image.hpp that stands at its preferred base.
use libload.Common.{
  ℕ, ◌+◌, ◌%◌, ◌^◌, ◌≤◌, ◌<◌, ◌≡◌, refl, ◌∙◌, List, [], ◌∷◌, All, Result, ok, arith, IsU64, IsByte,
  ◌-64◌, length, and_then, leb, false, Eff, throw,
}
use libload.Memory.Manager.{MemoryManager, CopiesBytes}
use libload.Memory.Block.{
  OwnedMemoryBlock, MemoryOwnership, borrowed_memory, memory_block, as_buffer,
}
use libload.Memory.Bytes.{Bytes, Within}
use libload.Memory.Identity.{HoldsBytes, modify_le-same, le_value-load_bytes-lt}
use libload.Memory.Slice.{get_memory_block_slice_lem}
use libload.Pe.Format.{
  RelocationType, rel_based_absolute, rel_based_highlow, rel_based_dir64, rel_based_other,
  RelocationEntry, BaseRelocation, VirtualImage, SectionHeader, SectionFlags,
}
use libload.Pe.Permissions.{has, permit_sections, discard_sections}
use libload.Pe.Relocation.{
  apply_pe_relocation_type, apply_pe_relocation_entry, apply_entries, relocate_direct,
  apply_pe_image_relocations_direct,
}
use libload.Pe.Rebase.{BlockFits}

-- The types of relocations that the loader knows.
abbrev pub IsKnown : RelocationType → Type 0
IsKnown (rel_based_other n) = ⊥
IsKnown _ = Unit

module _ {S : Type 0} {manager : MemoryManager S} (c : CopiesBytes manager) where
  -- It succeeds, and not a byte is changed.
  abbrev pub Unmoved : S → Result (Unit {0}) × S → Type 0
  Unmoved s r = (r.0 ≡ ok tt) × ((a : ℕ) → c.view r.1 a ≡ c.view s a)

  pub Unmoved-then :
      (s : S) (r : Result (Unit {0}) × S) (k : Eff S (Unit {0}))
      → Unmoved s r
      → ((s' : S) → ((a : ℕ) → c.view s' a ≡ c.view s a) → Unmoved s' (k s'))
      → Unmoved s (and_then r (λ x. k))
  Unmoved-then s (ok x, s') k (done, same) next =
      let (done', same') = next s' same in (done', λ a. same' a ∙ same a)
  Unmoved-then s (throw e, s') k (done, same) next = absurd (cc)

  module _ (uninit : ℕ → List ℕ) (sized : (n : ℕ) → length (uninit n) ≡ n) where
    -- A value of `n` bytes, to which nothing is added.
    low_bits : (v : ℕ) → v < 2 ^ 32 → (v + 0 % 2 ^ 32) % 2 ^ 32 ≡ v
    low_bits v h = omega arith

    all_bits : (v : ℕ) → v < 2 ^ 64 → (v + 0) % 2 ^ 64 ≡ v
    all_bits v h = omega arith

    type-Unmoved :
        (image : VirtualImage S) (mo : MemoryOwnership) (ptr mem_size offs : ℕ) (s : S)
        (kind : RelocationType)
        → IsU64 mem_size
        → offs + 8 ≤ mem_size
        → HoldsBytes (c.view s) ptr mem_size
        → IsKnown kind
        → Unmoved s (
            apply_pe_relocation_type uninit image kind offs 0
              (as_buffer (memory_block {mo = mo} manager ptr mem_size))
              s)
    type-Unmoved image mo ptr mem_size offs s rel_based_absolute w fits bytes known =
        (refl, λ a. refl)
    type-Unmoved image mo ptr mem_size offs s (rel_based_other n) w fits bytes known =
        elim known [ ]
    type-Unmoved image mo ptr mem_size offs s rel_based_highlow w fits bytes known =
        let within = λ (a : ℕ) (r : Within (ptr + offs) 4 a). bytes a (omega arith) in
        modify_le-same mo c ptr mem_size 4 offs (uninit 4) s w (omega arith) (sized 4) within
          (λ x. (x + 0 % 2 ^ 32) % 2 ^ 32)
          (low_bits _ (omega (arith, le_value-load_bytes-lt (c.view s) (ptr + offs) 4 within)))
    type-Unmoved image mo ptr mem_size offs s rel_based_dir64 w fits bytes known =
        let within = λ (a : ℕ) (r : Within (ptr + offs) 8 a). bytes a (omega arith) in
        modify_le-same mo c ptr mem_size 8 offs (uninit 8) s w fits (sized 8) within
          (λ x. (x + 0) % 2 ^ 64)
          (all_bits _ (omega (arith, le_value-load_bytes-lt (c.view s) (ptr + offs) 8 within)))

    module _ (image : VirtualImage S) (ptr : ℕ) (small : IsU64 ptr) (v : Bytes)
        (preferred : (s : S)
          → ((a : ℕ) → c.view s a ≡ v a)
          → (image.optional_header s).image_base ≡ ptr) where
      -- The entries of a block of relocations, applied to these bytes, wherever they are.
      pub entries-Unmoved :
          (mo : MemoryOwnership) (mem mem_size : ℕ) (r : BaseRelocation) (es : List RelocationEntry)
          (s : S)
          → IsU64 mem_size
          → All (λ e. (e.address -64 r.virtual_address) + 8 ≤ mem_size) es
          → All (λ e. IsKnown e.kind) es
          → HoldsBytes (c.view s) mem mem_size
          → ((a : ℕ) → c.view s a ≡ v a)
          → Unmoved s (
              apply_entries uninit image r es ptr
                (as_buffer (memory_block {mo = mo} manager mem mem_size))
                s)
      unfolding apply_entries apply_pe_relocation_entry
      entries-Unmoved mo mem mem_size r [] s w fits known bytes held = (refl, λ a. refl)
      entries-Unmoved mo mem mem_size r (e ∷ es) s w (fit, fits) (k, known) bytes held =
          let nothing : ptr -64 (image.optional_header s).image_base ≡ 0 =
            omega (arith, preferred s held) in
          rw nothing (
            Unmoved-then s _ _
              (type-Unmoved image mo mem mem_size (e.address -64 r.virtual_address) s e.kind w fit
                bytes k)
              (λ s' same.
                entries-Unmoved mo mem mem_size r es s' w fits known
                  (λ a within. rw same (bytes a within)) (λ a. same a ∙ held a)))

      relocate-Unmoved :
          (mo : MemoryOwnership) (mem_size : ℕ) (relocs : List BaseRelocation) (s : S)
          → IsU64 mem_size
          → All (BlockFits mem_size mem_size) relocs
          → All (λ r. All (λ e. IsKnown e.kind) r.entries) relocs
          → ((a : ℕ) → IsByte (c.view s a))
          → ((a : ℕ) → c.view s a ≡ v a)
          → Unmoved s
              (relocate_direct uninit image (memory_block {mo = mo} manager ptr mem_size) relocs s)
      unfolding relocate_direct
      relocate-Unmoved mo mem_size [] s w fits known bytes held = (refl, λ a. refl)
      relocate-Unmoved mo mem_size (r ∷ relocs) s w (fit, fits) (k, known) bytes held =
          let image_mem = memory_block {mo = mo} manager ptr mem_size in
          let granted : leb mem_size (r.virtual_address + r.size_of_block) ≡ false =
            let h = fit.in_image in ground arith in
          rw
            (
              get_memory_block_slice_lem image_mem r.virtual_address r.size_of_block s w
                  (omega arith),
              granted,
            )
            (Unmoved-then s _ _
              (entries-Unmoved borrowed_memory ptr r.size_of_block r r.entries s (omega arith)
                fit.entries_fit k (λ a within. bytes a) held)
              (λ s' same.
                relocate-Unmoved mo mem_size relocs s' w fits known (λ a. rw same (bytes a))
                  (λ a. same a ∙ held a)))

      -- If the manager copies bytes, memory holds bytes, and the blocks of relocations have known types
      -- and fit in the image's memory, of 64-bit size: relocating an image that stands at the 64-bit
      -- base that its header prefers, while memory holds these bytes, succeeds and changes no byte.
      pub image_relocations-Unmoved :
          (mo : MemoryOwnership) (mem_size : ℕ) (s : S)
          → IsU64 mem_size
          → All (BlockFits mem_size mem_size) (image.base_relocations s)
          → All (λ r. All (λ e. IsKnown e.kind) r.entries) (image.base_relocations s)
          → ((a : ℕ) → IsByte (c.view s a))
          → ((a : ℕ) → c.view s a ≡ v a)
          → Unmoved s (
              apply_pe_image_relocations_direct uninit image
                (memory_block {mo = mo} manager ptr mem_size)
                s)
      unfolding apply_pe_image_relocations_direct
      image_relocations-Unmoved mo mem_size s w fits known bytes held =
          relocate-Unmoved mo mem_size (image.base_relocations s) s w fits known bytes held

-- The access rights, where setting them changes no byte.
module _ {S : Type 0} {manager : MemoryManager S} (c : CopiesBytes manager)
    (permits : (mem size access : ℕ) (s : S) → Unmoved c s (manager.set_access mem size access s))
    (flags : SectionFlags) (ptr mem_size : ℕ) where
  abbrev image_mem : OwnedMemoryBlock S
  image_mem = memory_block manager ptr mem_size

  pub permit_sections-Unmoved :
      (headers : List SectionHeader) (s : S)
      → Unmoved c s (permit_sections flags image_mem headers s)
  unfolding permit_sections
  permit_sections-Unmoved [] s = (refl, λ a. refl)
  permit_sections-Unmoved (h ∷ headers) s =
      Unmoved-then c s _ _ (permits _ _ _ s) (λ s' same. permit_sections-Unmoved headers s')

  -- None of the sections is discardable.
  abbrev pub Stays : SectionHeader → Type 0
  Stays h = has h.characteristics flags.scn_mem_discardable ≡ false

  pub discard_sections-Unmoved :
      (headers : List SectionHeader) (s : S)
      → All Stays headers
      → Unmoved c s (discard_sections flags image_mem headers s)
  unfolding discard_sections
  discard_sections-Unmoved [] s h = (refl, λ a. refl)
  discard_sections-Unmoved (x ∷ headers) s (stays, h) =
      rw stays (discard_sections-Unmoved headers s h)
