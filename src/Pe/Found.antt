-- ===== src/Pe/Found.antt =====
-- load_module of src/load_module.cpp and the symbols of the module that it returns, for an
-- image without imports.
use libload.Memory.Block.{OwnedMemoryBlock, memory_block}
use libload.Pe.Neutral.{Unmoved}
use libload.Pe.Agreement.{ReadsFile, image_bytes}
use libload.Pe.Contents.{Misses, image_bytes-section, load_bytes-shift}
use libload.Pe.Whole.{placed, loads, fill_direct}
use libload.Pe.Imports.{resolve_pe_image_imports, resolve_descriptors}
use libload.Pe.Settled.{IsSettled, Resolves}
use libload.Pe.Format.{SectionHeader, FileImage}
use libload.Pe.Owner.{load_pe_module-owned}
use libload.Memory.Bytes.{load_bytes, Bytes, Within}
use Prim.Native.String.{String}
use libload.Common.{
  [], ◌∷◌, ◌++◌, ◌≤◌, ◌⊎◌, ◌<◌, ◌+◌, ◌-◌, IsByte, Result, Bool, All, List, arith, ◌≢◌, IsU64,
  length, ℕ, ◌+◌, ◌≡◌, refl, ap, ◌∙◌, List, ok, Option, some, Bool, true, false, and_then, pure,
  value_and_state,
}
use libload.Memory.Manager.{CopiesBytes}
use libload.Module.Provider.{Module, ModuleProvider, MapCell}
use libload.Module.Symbols.{ExportInfo}
use libload.Pe.LoadModule.{owned_pe_module, OwnedPeModule, cache_of, load_pe_module, load_module}
use libload.Pe.Load.{Surroundings}
use libload.Pe.Process.{initialize_dll, Process, DllCode}
use libload.Pe.Exports.{get_symbol}

module _ {S : Type 0} (u : Surroundings S) (code : DllCode S) {M : Type 0} (deref : M → Module S)
    (cell : MapCell S (Option M)) where
  load_module-64 :
      (valid_32 : Bool) (image_64 image_32 : FileImage S) (module_provider : ModuleProvider S M)
      (process : Process S) (loaded : OwnedPeModule S) (s s₂ : S)
      → load_pe_module u code deref cell image_64 module_provider process s ≡ (ok loaded, s₂)
      → load_module u code deref cell true valid_32 image_64 image_32 module_provider process s
        ≡ (ok (some loaded), s₂)
  unfolding load_module
  load_module-64 valid_32 image_64 image_32 module_provider process loaded s s₂ h =
      ap (λ r. and_then r (λ m. pure (some m))) h

module _ {S : Type 0} where
  get_symbol-exported :
      (self : OwnedPeModule S) (name : String) (find : String → Option ExportInfo)
      (info : ExportInfo) (s : S)
      → self.module_image.export_directory s ≡ some find
      → find name ≡ some info
      → info.is_forwarded ≡ false
      → get_symbol self name s ≡ (ok (self.image_mem.mem_pointer + info.address), s)
  unfolding get_symbol
  get_symbol-exported self name find info s directory found here = rw (directory, found, here)

module _ {S M : Type 0} (process : Process S) (c : CopiesBytes process.memory_manager)
    (permits : (mem size access : ℕ) (s : S)
      → Unmoved c s (process.memory_manager.set_access mem size access s))
    (deref : M → Module S) (cell : MapCell S (Option M)) (module_provider : ModuleProvider S M)
    (u : Surroundings S) (sized : (n : ℕ) → length (u.uninit n) ≡ n) (ptr mem_size : ℕ)
    (small : IsU64 ptr) (set : ptr ≢ 0) (w : IsU64 mem_size) where
  abbrev pub module_cache : ModuleProvider S (Module S)
  module_cache = cache_of deref cell module_provider

  abbrev pub image_mem : OwnedMemoryBlock S
  image_mem = memory_block process.memory_manager ptr mem_size

  abbrev pub loaded : OwnedPeModule S
  loaded = owned_pe_module u process ptr mem_size module_cache

  -- A symbol that the image exports at an address of its own, with `n` bytes of data: they lie in the
  -- raw data of a section, and no later section covers them. The view finds it in memory that has the
  -- bytes `v` at the addresses that are kept, those of the data among them.
  pub record IsExported (image_data : FileImage S) (name : String) (info : ExportInfo) (n : ℕ)
      (h : SectionHeader) (v : Bytes) (Kept : ℕ → Type 0) : Type 0 where
    pub find : String → Option ExportInfo
    pub before : List SectionHeader
    pub after : List SectionHeader
    pub directory :
        (s : S)
        → ((a : ℕ) → Kept a → c.view s a ≡ v a)
        → (u.virtual_image image_mem).export_directory s ≡ some find
    pub data_kept : (a : ℕ) → Within (ptr + info.address) n a → Kept a
    pub found : find name ≡ some info
    pub here : info.is_forwarded ≡ false
    pub sections : image_data.section_headers ≡ before ++ h ∷ after
    pub starts : h.virtual_address ≤ info.address
    pub ends : info.address + n ≤ h.virtual_address + h.size_of_raw_data
    pub uncovered :
        All
          (λ k.
            (k.virtual_address + k.size_of_raw_data ≤ info.address)
            ⊎ (info.address + n ≤ k.virtual_address))
          after

  Misses-All :
      (file : Bytes) (address n i : ℕ) (after : List SectionHeader)
      → i < n
      → All
          (λ k.
            (k.virtual_address + k.size_of_raw_data ≤ address) ⊎ (address + n ≤ k.virtual_address))
          after
      → All (Misses file ptr (ptr + (address + i))) after
  Misses-All file address n i [] less out = tt
  Misses-All file address n i (k ∷ after) less (here, there) =
      (omega (arith, here), Misses-All file address n i after less there)

  exported_bytes :
      (file : Bytes) (image_data : FileImage S) (name : String) (info : ExportInfo) (n : ℕ)
      (h : SectionHeader) (v : Bytes) (Kept : ℕ → Type 0)
      (e : IsExported image_data name info n h v Kept) (m : Bytes) (i : ℕ)
      → i < n
      → image_bytes file ptr image_data.section_headers m (ptr + info.address + i)
        ≡ file (h.pointer_to_raw_data + (info.address - h.virtual_address) + i)
  exported_bytes file image_data name info n h v Kept e m i less =
      let j = info.address - h.virtual_address + i in
      let there : ptr + info.address + i ≡ ptr + h.virtual_address + j = omega (arith, e.starts) in
      let source : h.pointer_to_raw_data + (info.address - h.virtual_address) + i
          ≡ h.pointer_to_raw_data + j =
        omega arith in
      let same : ptr + (info.address + i) ≡ ptr + h.virtual_address + j = omega (arith, e.starts) in
      rw (e.sections, there, source)
        (image_bytes-section file ptr e.before h e.after m j (omega (arith, e.starts, e.ends))
          (rw same at (Misses-All file info.address n i e.after less e.uncovered)))

  -- An image without imports resolves none, and changes nothing.
  no_imports-Resolves :
      (v : Bytes)
      → ((s : S) → c.view s ≡ v → (u.virtual_image image_mem).import_descriptors s ≡ [])
      → Resolves c module_cache u ptr mem_size v (λ b. b ≡ v)
  unfolding resolve_pe_image_imports resolve_descriptors
  no_imports-Resolves v none s held = rw (none s held) (refl, held)

  module _ (direct : process.memory_manager.allows_direct_addressing ≡ true)
      (image_data : FileImage S) (file : Bytes) (reads : ReadsFile c image_data file)
      (bytes : (a : ℕ) → IsByte (file a))
      (whole : image_data.optional_header.size_of_image ≡ mem_size)
      (room : image_data.optional_header.size_of_headers ≤ mem_size)
      (fits : All
        (λ h. h.virtual_address + h.size_of_raw_data ≤ mem_size)
        image_data.section_headers)
      (code : DllCode S) where
    abbrev initialized : S → Result Bool × S
    initialized = initialize_dll code (u.virtual_image image_mem) process image_mem

    -- If the manager copies bytes, is directly addressable and sets access rights without an
    -- exception or a change of bytes, and committing succeeds and changes no byte: for a valid 64-bit
    -- image whose file can be read, whose headers and sections fit in its memory, and that is allocated
    -- at a 64-bit base other than 0, where memory holds bytes, let the view show of the memory that
    -- headers and sections have been copied into that the image prefers this base, has relocations of
    -- known types that fit, no imports, and no section that is discarded. If the DLL's initialization,
    -- in that memory, returns, be it true or false, and leaves the bytes alone that the view finds an
    -- export by, and those of the export's data, which lie in one section and under no later one, then
    -- load_module returns the module that owns the image's memory, the module gives the symbol's
    -- address in that memory, and the data are there as the file holds them.
    pub load_module-get_data :
        (name : String) (info : ExportInfo) (n : ℕ) (h : SectionHeader) (valid_32 ready : Bool)
        (image_32 : FileImage S) (s s' : S) (Kept : ℕ → Type 0)
        → let v = placed image_data file ptr (c.view s') in
          IsSettled c u.flags ptr mem_size (u.virtual_image image_mem) v (λ b. b ≡ v)
          → ((s₁ : S) → c.view s₁ ≡ v → (u.virtual_image image_mem).import_descriptors s₁ ≡ [])
          → IsExported image_data name info n h v Kept
          → process.memory_manager.allocate image_data.optional_header.image_base mem_size
              (cell.assign [] s)
            ≡ (ok ptr, s')
          → ((a : ℕ) → IsByte (c.view s' a))
          → ((s₁ : S) → c.view s₁ ≡ v → (initialized s₁).0 ≡ ok ready)
          → ((s₁ : S) → c.view s₁ ≡ v → (a : ℕ) → Kept a → c.view (initialized s₁).1 a ≡ v a)
          → let r =
              load_module u code deref cell true valid_32 image_data image_32 module_provider
                process s in
            (r.0 ≡ ok (some loaded))
            × (get_symbol loaded name r.1 ≡ (ok (ptr + info.address), r.1))
            × (load_bytes (c.view r.1) (ptr + info.address) n
                ≡ load_bytes file (h.pointer_to_raw_data + (info.address - h.virtual_address)) n)
    load_module-get_data name info n h valid_32 ready image_32 s s' Kept settled none e got old
          returns quiet =
        let v = placed image_data file ptr (c.view s') in
        let resolves = no_imports-Resolves v none in
        let (done, held) =
          loads c permits module_cache u sized ptr mem_size small w image_data file reads bytes
            whole room fits (c.view s') old (λ b. b ≡ v) settled resolves
            (fill_direct c permits module_cache u sized ptr mem_size small w image_data file reads
              bytes whole room fits (c.view s') old (λ b. b ≡ v) settled resolves direct)
            (cell.assign [] s) s' got refl in
        let owned =
          load_pe_module-owned u code process ptr mem_size set deref cell image_data module_provider
            s _ (value_and_state _ done) ready (value_and_state _ (returns _ held)) in
        rw
          (load_module-64 u code deref cell valid_32 image_data image_32 module_provider process
            loaded s _ owned)
          (
            refl,
            get_symbol-exported loaded name e.find info _ (e.directory _ (quiet _ held)) e.found
                e.here,
            load_bytes-shift _ _ _ _ n (λ i less.
                quiet _ held _ (e.data_kept _ (omega arith))
                ∙ exported_bytes file image_data name info n h v Kept e _ i less),
          )
