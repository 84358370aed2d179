-- ===== src/Pe/Tests.antt =====
-- The theorems on images at small images, and runs of src/pe/image.hpp.
use mathlib.Core.Path.{refl}
use libload.Common.{
  some, ℕ, ◌≡◌, List, [], ◌∷◌, none, ok, arith, replicate, length-replicate, inr, true,
}
use libload.Memory.Bytes.{Bytes, load_bytes, store_bytes, store_bytes-Outside}
use libload.Memory.Block.{owned_memory, memory_block}
use libload.Memory.Manager.{MemoryManager}
use libload.Memory.Flat.{flat_manager, counting}
use libload.Module.Provider.{Module, ModuleProvider}
use libload.Pe.Format.{OptionalHeader, SectionHeader, FileImage, VirtualImage, SectionFlags}
use libload.Pe.Sections.{map_sections_direct}
use libload.Pe.Permissions.{pe_section_memory_access, memory_access_to_win32, page_noaccess}
use libload.Pe.Load.{Surroundings}
use libload.Pe.Protection.{protection, section_protection}
use libload.Pe.Mapping

abbrev pub optional_header : OptionalHeader
optional_header = record {
  size_of_image = 64;
  size_of_headers = 16;
  image_base = 100;
  address_of_entry_point = 0;
}

abbrev section : ℕ → ℕ → SectionHeader
section address raw = record {
  virtual_address = address;
  virtual_size = raw;
  size_of_raw_data = raw;
  pointer_to_raw_data = 0;
  characteristics = 0;
}

-- A file of ones.
abbrev file : OptionalHeader → List SectionHeader → FileImage Bytes
file header headers = record {
  optional_header = header;
  section_headers = headers;
  read = λ offset size buf m. (ok (replicate size 1), m);
  read_into = λ offset size mem m. (ok tt, store_bytes m mem (replicate size 1));
}

abbrev ones : FileImage Bytes
ones = file optional_header []

abbrev ones-FillsRanges : Mapping.FillsRanges owned_memory ones flat_manager 100 64 (λ m. m)
ones-FillsRanges = record {
  commit_view = λ mem size a s. refl;
  read_into_view = λ offset size mem a s out.
      store_bytes-Outside s mem (replicate size 1) a (rw length-replicate out);
}

-- The second section is longer than the rest of the memory.
map_sections_direct-view_example :
    (map_sections_direct ones
        (memory_block {mo = owned_memory} flat_manager 100 64)
        (section 16 8 ∷ section 48 32 ∷ [])
        counting).1
      164
    ≡ counting 164
map_sections_direct-view_example =
    Mapping.map_sections_direct-view owned_memory ones flat_manager 100 64 ones-FillsRanges
      (omega arith) 164 (inr (omega arith)) (section 16 8 ∷ section 48 32 ∷ []) counting
      (omega arith, (omega arith, tt))

abbrev flags : SectionFlags
flags = record {
  scn_mem_read = 0x40000000;
  scn_mem_write = 0x80000000;
  scn_mem_execute = 0x20000000;
  scn_mem_discardable = 0x02000000;
}

section_protection_example :
    memory_access_to_win32 (pe_section_memory_access flags 0x20000000) ≡ page_noaccess
unfolding protection
section_protection_example = section_protection flags 0x20000000

abbrev pub uninit : ℕ → List ℕ
uninit n = replicate n 0

abbrev no_modules : ModuleProvider Bytes (Module Bytes)
no_modules = record { get_module = λ name s. (ok none, s) }

-- Loaded at its preferred base, an image without sections, relocations and imports.
abbrev bare_view : VirtualImage Bytes
bare_view = record {
  optional_header = λ s. optional_header;
  section_headers = λ s. [];
  base_relocations = λ s. [];
  import_descriptors = λ s. [];
  exception_entries = λ s. some 8;
  exception_directory = λ s. some 24;
  tls_directory = λ s. some (4 ∷ 6 ∷ []);
  export_directory = λ s. none;
}

abbrev surroundings : Surroundings Bytes
surroundings = record {
  current = flat_manager;
  local = record { load = λ p n m. load_bytes m p n; store = λ p bs m. store_bytes m p bs };
  uninit = uninit;
  flags = flags;
  virtual_image = λ block. bare_view;
}

-- A manager that counts, behind the bytes, what is released.
abbrev releasing : MemoryManager Bytes
releasing = record {
  allows_direct_addressing = true;
  allocate = flat_manager.allocate;
  release = λ mem size m. (ok tt, store_bytes m 0 (mem ∷ size ∷ []));
  commit = flat_manager.commit;
  decommit = flat_manager.decommit;
  set_access = flat_manager.set_access;
  copy_from = flat_manager.copy_from;
  copy_into = flat_manager.copy_into;
}

-- The headers are larger than the image.
abbrev broken : FileImage Bytes
broken =
    file
      (record {
        size_of_image = 64;
        size_of_headers = 65;
        image_base = 100;
        address_of_entry_point = 0;
      })
      []
