-- ===== src/Pe/Whole.antt =====
-- The steps of load_pe_image of src/pe/image.hpp one behind the other, for an image that gets its preferred
-- base, whatever becomes of its imports.
use libload.Common.{
  refl, ◌∙◌, fun_ext, ◌>>=◌, ◌≤◌, if◌then◌else◌, Bool, ◌+◌, ℕ, ◌≡◌, ap, List, [], ◌∷◌, All, ok,
  Result, Eff, IsU64, IsByte, false, true, length, ◌>>◌, pure,
}
use libload.Memory.Bytes.{store_bytes-IsByte, load_bytes-IsByte, Bytes, load_bytes, store_bytes}
use libload.Memory.Manager.{MemoryManager, CopiesBytes}
use libload.Memory.Block.{owned_memory, OwnedMemoryBlock, memory_block}
use libload.Memory.Scope.{guarded}
use libload.Module.Provider.{Module, ModuleProvider}
use libload.Pe.Format.{SectionHeader, FileImage}
use libload.Pe.Load.{Surroundings, fill_pe_image, load_pe_image}
use libload.Pe.Sections.{allocate_pe_image}
use libload.Pe.Neutral.{Unmoved, image_relocations-Unmoved}
use libload.Pe.Relocation.{
  relocate_indirect, apply_pe_image_relocations_direct, apply_pe_image_relocations_indirect,
}
use libload.Pe.Agreement.{ReadsFile, image_bytes, copy_pe_image-agrees}
use libload.Pe.Settled.{Ends, then_ends, then_returned, IsSettled, settle, Resolves}

module _ (file : Bytes) (bytes : (a : ℕ) → IsByte (file a)) where
  image_bytes-IsByte :
      (ptr : ℕ) (headers : List SectionHeader) (m : Bytes)
      → ((a : ℕ) → IsByte (m a))
      → (a : ℕ) → IsByte (image_bytes file ptr headers m a)
  unfolding image_bytes
  image_bytes-IsByte ptr [] m h a = h a
  image_bytes-IsByte ptr (x ∷ headers) m h a =
      image_bytes-IsByte ptr headers
        (store_bytes m (ptr + x.virtual_address)
          (load_bytes file x.pointer_to_raw_data x.size_of_raw_data))
        (store_bytes-IsByte m _ _ h (load_bytes-IsByte file _ _ bytes)) a

-- The headers and the sections of the file, in memory that held `m`.
abbrev pub placed : {S : Type 0} → FileImage S → Bytes → (ptr : ℕ) → Bytes → Bytes
placed src_image file ptr m =
    image_bytes file ptr src_image.section_headers
      (store_bytes m ptr (load_bytes file 0 src_image.optional_header.size_of_headers))

-- Two steps that both go one way.
two_steps :
    {S : Type 0} (P : Result (Unit {0}) × S → Type 0) (b d : Bool) (m m' n n' k : Eff S (Unit {0}))
    (s : S)
    → b ≡ d
    → P (((if d then m else m') >> ((if d then n else n') >> k)) s)
    → P (((if b then m else m') >> ((if b then n else n') >> k)) s)
two_steps P true true m m' n n' k s h p = p
two_steps P true false m m' n n' k s h p = absurd (cc)
two_steps P false true m m' n n' k s h p = absurd (cc)
two_steps P false false m m' n n' k s h p = p

module _ {S : Type 0} {manager : MemoryManager S} (c : CopiesBytes manager)
    (permits : (mem size access : ℕ) (s : S) → Unmoved c s (manager.set_access mem size access s))
    (provider : ModuleProvider S (Module S)) (u : Surroundings S)
    (sized : (n : ℕ) → length (u.uninit n) ≡ n) (ptr mem_size : ℕ) (small : IsU64 ptr)
    (w : IsU64 mem_size) where
  abbrev image_mem : OwnedMemoryBlock S
  image_mem = memory_block manager ptr mem_size

  -- A file whose reads yield its bytes, with headers and sections that fit.
  module _ (src_image : FileImage S) (file : Bytes) (reads : ReadsFile c src_image file)
      (bytes : (a : ℕ) → IsByte (file a))
      (whole : src_image.optional_header.size_of_image ≡ mem_size)
      (room : src_image.optional_header.size_of_headers ≤ mem_size)
      (fits : All
        (λ h. h.virtual_address + h.size_of_raw_data ≤ mem_size)
        src_image.section_headers) where
    -- The image that has been copied into the memory `m`, as a view shows it.
    module _ (m : Bytes) (old : (a : ℕ) → IsByte (m a)) (Good : Bytes → Type 0)
        (settled : IsSettled c u.flags ptr mem_size
          (u.virtual_image image_mem)
          (placed src_image file ptr m)
          Good)
        (resolves : Resolves c provider u ptr mem_size (placed src_image file ptr m) Good) where
      placed-IsByte : (a : ℕ) → IsByte (placed src_image file ptr m a)
      placed-IsByte =
          image_bytes-IsByte file bytes ptr src_image.section_headers _
            (store_bytes-IsByte m ptr _ old (load_bytes-IsByte file 0 _ bytes))

      abbrev Fills : Type 0
      Fills =
          (s : S)
          → c.view s ≡ m
          → Ends c tt Good (fill_pe_image u src_image manager provider image_mem s)

      relocations :
          (s' : S)
          → c.view s' ≡ placed src_image file ptr m
          → Unmoved c s'
              (apply_pe_image_relocations_direct u.uninit (u.virtual_image image_mem) image_mem s')
      relocations s' held =
          image_relocations-Unmoved c u.uninit sized (u.virtual_image image_mem) ptr small
            (placed src_image file ptr m) (λ s'' same. settled.preferred s'' (fun_ext same))
            owned_memory mem_size s' w (settled.blocks_fit s' held) (settled.types_known s' held)
            (λ a. rw held (placed-IsByte a)) (λ a. ap (λ v. v a) held)

      pub fill_direct : manager.allows_direct_addressing ≡ true → Fills
      unfolding fill_pe_image
      fill_direct direct s same =
          let (copied, _) =
            copy_pe_image-agrees c src_image file reads owned_memory ptr mem_size w s room fits in
          two_steps (Ends c tt Good) manager.allows_direct_addressing true _ _ _ _ _ s direct (
            then_ends c Good _ _ (placed src_image file ptr m)
              (copied.0, copied.1 ∙ ap (placed src_image file ptr) same)
              (λ s' held.
                settle c provider u ptr mem_size permits (placed src_image file ptr m) Good settled
                  resolves
                  (apply_pe_image_relocations_direct u.uninit (u.virtual_image image_mem) image_mem)
                  s' held (relocations s' held)))

      pub fill_indirect :
          ((s : S)
            → c.view s ≡ placed src_image file ptr m
            → (u.virtual_image image_mem).base_relocations s ≡ [])
          → manager.allows_direct_addressing ≡ false
          → Fills
      unfolding fill_pe_image apply_pe_image_relocations_indirect relocate_indirect
      fill_indirect none indirect s same =
          let (_, copied) =
            copy_pe_image-agrees c src_image file reads owned_memory ptr mem_size w s room fits in
          two_steps (Ends c tt Good) manager.allows_direct_addressing false _ _ _ _ _ s indirect (
            then_ends c Good _ _ (placed src_image file ptr m)
              (copied.0, copied.1 ∙ ap (placed src_image file ptr) same)
              (λ s' held.
                settle c provider u ptr mem_size permits (placed src_image file ptr m) Good settled
                  resolves
                  (apply_pe_image_relocations_indirect u.uninit (u.virtual_image image_mem)
                    image_mem u.current u.local)
                  s' held (rw (none s' held) (refl, λ a. refl))))

      -- The allocation, of as many bytes as the image is long.
      allocated :
          Fills
          → (n : ℕ) (s s' : S) → n ≡ mem_size
          → manager.allocate src_image.optional_header.image_base mem_size s ≡ (ok ptr, s')
          → c.view s' ≡ m
          → Ends c image_mem Good (
              (manager.allocate src_image.optional_header.image_base n
                  >>= (λ mem. pure (memory_block {mo = owned_memory} manager mem n))
                  >>= (λ block.
                      guarded block
                        (fill_pe_image u src_image manager provider block >> pure block)))
                s)
      unfolding guarded
      allocated fills n s s' e got same =
          rw e (rw got (then_returned c Good _ _ image_mem (fills s' same)))

      -- Whatever becomes of the imports.
      pub loads :
          Fills
          → (s s' : S)
          → manager.allocate src_image.optional_header.image_base mem_size s ≡ (ok ptr, s')
          → c.view s' ≡ m
          → Ends c image_mem Good (load_pe_image u src_image manager provider s)
      unfolding load_pe_image allocate_pe_image
      loads fills s s' got same =
          allocated fills src_image.optional_header.size_of_image s s' whole got same
