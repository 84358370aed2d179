-- ===== src/Pe/Loaded.antt =====
-- load_pe_image of src/pe/image.hpp as a whole, from the allocation to the access rights, for an image that
-- gets its preferred base, in the current process or in another one.
use Prim.Native.String.{String}
use libload.Common.{
  some, ◌≤◌, ◌+◌, ℕ, ◌≡◌, List, [], All, ok, IsU64, IsByte, false, true, length, refl,
}
use libload.Memory.Bytes.{Bytes}
use libload.Memory.Manager.{MemoryManager, CopiesBytes, Tells}
use libload.Memory.Block.{memory_block}
use libload.Module.Provider.{Module, ModuleProvider}
use libload.Pe.Format.{ImportDescriptor, FileImage, VirtualImage}
use libload.Pe.Load.{Surroundings, load_pe_image}
use libload.Pe.Neutral.{Unmoved}
use libload.Pe.Agreement.{ReadsFile}
use libload.Pe.Settled.{Ends, IsSettled, Importable, Settled, Importable-Resolves}
use libload.Pe.Whole.{placed, loads, fill_direct, fill_indirect}

-- The modules that the image imports from, and the symbols that they answer for.
module _ {S : Type 0} {manager : MemoryManager S} (c : CopiesBytes manager)
    (permits : (mem size access : ℕ) (s : S) → Unmoved c s (manager.set_access mem size access s))
    (modules : String → Module S) (symbol : String → String → ℕ)
    (known : (mod_name name : String) (s : S)
      → Tells c s (symbol mod_name name) ((modules mod_name).get_data name s))
    (provider : ModuleProvider S (Module S))
    (provided : (name : String) (s : S)
      → Tells c s (some (modules name)) (provider.get_module name s))
    (u : Surroundings S) (sized : (n : ℕ) → length (u.uninit n) ≡ n) (ptr mem_size : ℕ)
    (small : IsU64 ptr) (w : IsU64 mem_size) (imports : List ImportDescriptor) (low : ℕ)
    (importable : Importable c modules symbol known provider provided u ptr mem_size w imports low)
    (src_image : FileImage S) (file : Bytes) (reads : ReadsFile c src_image file)
    (bytes : (a : ℕ) → IsByte (file a)) (whole : src_image.optional_header.size_of_image ≡ mem_size)
    (room : src_image.optional_header.size_of_headers ≤ mem_size)
    (fits : All
      (λ h. h.virtual_address + h.size_of_raw_data ≤ mem_size)
      src_image.section_headers) where
  abbrev image : VirtualImage S
  image = u.virtual_image (memory_block manager ptr mem_size)

  -- The bytes of the file, placed in memory that held `m`.
  abbrev pub copied_into : Bytes → Bytes
  copied_into = placed src_image file ptr

  -- What the load makes of memory that held `m`.
  abbrev pub LoadedInto : Bytes → Bytes → Type 0
  LoadedInto m =
      Settled c modules symbol known provider provided u ptr mem_size w imports low (copied_into m)

  -- What the view shows of the memory that the image has been copied into.
  abbrev pub Shows : Bytes → Type 0
  Shows m =
      IsSettled c u.flags ptr mem_size image (copied_into m) (LoadedInto m)
      × ((s : S) → c.view s ≡ copied_into m → image.import_descriptors s ≡ imports)

  -- If the manager copies bytes, is directly addressable and sets access rights without an exception
  -- or a change of bytes, the file's reads yield its bytes, committing succeeds, and headers and
  -- sections fit in the image's memory, of 64-bit size; if the provider has a module for each name, the
  -- modules answer each name with an address, and neither changes a byte: an image that is allocated at
  -- a 64-bit base, where memory holds bytes, is loaded, if the view of the image shows what follows.
  -- Once the headers and sections have been copied, it shows that the image prefers this base, blocks
  -- of relocations of known types that fit, and imports that can be resolved, with thunks that ascend
  -- from an offset on; and once these thunks are filled, too, it shows no section that is discarded.
  -- The block returned is at that base, each thunk holds the address of its symbol, and below the
  -- offset and behind the last thunk memory is as the file describes it, with headers and sections in
  -- place and every other byte as it was after the allocation.
  pub load_pe_image-Settled :
      (s s' : S)
      → Shows (c.view s')
      → manager.allows_direct_addressing ≡ true
      → manager.allocate src_image.optional_header.image_base mem_size s ≡ (ok ptr, s')
      → ((a : ℕ) → IsByte (c.view s' a))
      → Ends c
          (memory_block manager ptr mem_size)
          (LoadedInto (c.view s'))
          (load_pe_image u src_image manager provider s)
  load_pe_image-Settled s s' (settled, imports_are) direct got old =
      loads c permits provider u sized ptr mem_size small w src_image file reads bytes whole room
        fits (c.view s') old _ settled
        (Importable-Resolves c modules symbol known provider provided u ptr mem_size w imports low _
          imports_are importable)
        (fill_direct c permits provider u sized ptr mem_size small w src_image file reads bytes
          whole room fits (c.view s') old _ settled
          (Importable-Resolves c modules symbol known provider provided u ptr mem_size w imports low
            _ imports_are importable)
          direct)
        s s' got refl

  -- If the manager copies bytes, is not directly addressable and sets access rights without an
  -- exception or a change of bytes, the file's reads yield its bytes, committing succeeds, and headers
  -- and sections fit in the image's memory, of 64-bit size; if the provider has a module for each name,
  -- the modules answer each name with an address, and neither changes a byte: an image that is
  -- allocated at a 64-bit base, where memory holds bytes, is loaded through buffers, if the view of the
  -- image shows what follows. Once the headers and sections have been copied, it shows that the image
  -- prefers this base, no relocations, and imports that can be resolved, with thunks that ascend from
  -- an offset on; and once these thunks are filled, too, it shows no section that is discarded. The
  -- block returned is at that base, each thunk holds the address of its symbol, and below the offset
  -- and behind the last thunk memory is as the file describes it, with headers and sections in place
  -- and every other byte as it was after the allocation.
  pub load_pe_image-Settled_elsewhere :
      (s s' : S)
      → Shows (c.view s')
      → ((s₁ : S) → c.view s₁ ≡ copied_into (c.view s') → image.base_relocations s₁ ≡ [])
      → manager.allows_direct_addressing ≡ false
      → manager.allocate src_image.optional_header.image_base mem_size s ≡ (ok ptr, s')
      → ((a : ℕ) → IsByte (c.view s' a))
      → Ends c
          (memory_block manager ptr mem_size)
          (LoadedInto (c.view s'))
          (load_pe_image u src_image manager provider s)
  load_pe_image-Settled_elsewhere s s' (settled, imports_are) none indirect got old =
      loads c permits provider u sized ptr mem_size small w src_image file reads bytes whole room
        fits (c.view s') old _ settled
        (Importable-Resolves c modules symbol known provider provided u ptr mem_size w imports low _
          imports_are importable)
        (fill_indirect c permits provider u sized ptr mem_size small w src_image file reads bytes
          whole room fits (c.view s') old _ settled
          (Importable-Resolves c modules symbol known provider provided u ptr mem_size w imports low
            _ imports_are importable)
          none indirect)
        s s' got refl
