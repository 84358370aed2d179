-- ===== src/Pe/LoadTests.antt =====
-- The theorems on whole loads at a small image, and runs of src/pe/image.hpp and src/pe/load_module.cpp.
use libload.Pe.Agreement
use libload.Pe.Agreement.{image_bytes}
use libload.Pe.Bindings
use libload.Pe.PastEnd.{map_section_direct-outside}
use libload.Pe.Imports.{resolve_pe_image_imports}
use libload.Pe.Bound.{past}
use libload.Memory.Endian.{le_value}
use Prim.Native.String.{String}
use libload.Module.Provider.{Module, ModuleProvider}
use mathlib.Core.Path.{refl}
use libload.Common.{
  inl, pure, none, length-replicate, length, replicate, some, ℕ, List, ◌>>◌, ◌+◌, ◌%◌, ◌≡◌, [], ◌∷◌,
  ok, arith,
}
use libload.Memory.Bytes.{Bytes, load_bytes, store_bytes, Outside, Within}
use libload.Memory.Block.{as_buffer, owned_memory, memory_block}
use libload.Memory.Flat.{flat_manager, flat-CopiesBytes, counting}
use libload.Pe.Format.{
  ImportDescriptor, by_name, rel_based_dir64, BaseRelocation, VirtualImage, SectionFlags,
  OptionalHeader, SectionHeader, FileImage,
}
use libload.Pe.Sections.{
  map_section_direct, copy_pe_image_headers_direct, copy_pe_image_headers_indirect,
  map_pe_image_sections_direct, map_pe_image_sections_indirect,
}

-- An image for the address 4096, with a section at 32 of the 12 bytes from 16 on, and a relocation in it.
abbrev pub header : OptionalHeader
header = record {
  size_of_image = 64;
  size_of_headers = 8;
  image_base = 4096;
  address_of_entry_point = 32;
}

abbrev pub section : SectionHeader
section = record {
  virtual_address = 32;
  virtual_size = 16;
  size_of_raw_data = 12;
  pointer_to_raw_data = 16;
  characteristics = 0x60000000;
}

-- The file holds at each offset three more than the offset.
abbrev pub file : Bytes
file a = (a + 3) % 256

abbrev pub file_image : FileImage Bytes
file_image = record {
  optional_header = header;
  section_headers = section ∷ [];
  read = λ offset size buf m. (ok (load_bytes file offset size), m);
  read_into = λ offset size mem m. (ok tt, store_bytes m mem (load_bytes file offset size));
}

abbrev pub file_image-ReadsFile : Agreement.ReadsFile flat-CopiesBytes file_image file
file_image-ReadsFile = record {
  read_lem = λ offset size buf s h. refl;
  read_into_ok = λ offset size mem s. refl;
  read_into_view = λ offset size mem s. refl;
  commit_ok = λ mem size s. refl;
  commit_view = λ mem size s. refl;
}

-- The headers, and then the section.
abbrev pub expected : Bytes
expected =
    store_bytes (store_bytes counting 4096 (load_bytes file 0 8)) 4128 (load_bytes file 16 12)

copy_pe_image-agrees_example :
    let block = memory_block {mo = owned_memory} flat_manager 4096 64 in
    let direct =
      (copy_pe_image_headers_direct file_image block
          >> map_pe_image_sections_direct file_image block)
        counting in
    let indirect =
      (copy_pe_image_headers_indirect file_image block
          >> map_pe_image_sections_indirect file_image block)
        counting in
    ((direct.0 ≡ ok tt) × (direct.1 ≡ expected)) × ((indirect.0 ≡ ok tt) × (indirect.1 ≡ expected))
unfolding image_bytes
copy_pe_image-agrees_example =
    Agreement.copy_pe_image-agrees flat-CopiesBytes file_image file file_image-ReadsFile
      owned_memory 4096 64 (omega arith) counting (omega arith) (omega arith, tt)

abbrev pub flags : SectionFlags
flags = record {
  scn_mem_read = 0x40000000;
  scn_mem_write = 0x80000000;
  scn_mem_execute = 0x20000000;
  scn_mem_discardable = 0x02000000;
}

abbrev pub relocations : List BaseRelocation
relocations =
    record {
      virtual_address = 32;
      size_of_block = 12;
      entries = record { address = 36; kind = rel_based_dir64 } ∷ [];
    }
    ∷ []

-- One import, with its thunk at the end of the image.
abbrev pub imported : List ImportDescriptor
imported = record { name = "kernel32"; entries = by_name "Sleep" ∷ []; thunks = 56 ∷ [] } ∷ []

abbrev pub in_memory : {S : Type 0} → VirtualImage S
in_memory = record {
  optional_header = λ s. header;
  section_headers = λ s. section ∷ [];
  base_relocations = λ s. relocations;
  import_descriptors = λ s. imported;
  exception_entries = λ s. some 8;
  exception_directory = λ s. some 24;
  tls_directory = λ s. some (4 ∷ 6 ∷ []);
  export_directory = λ s. none;
}

abbrev pub zeros : ℕ → List ℕ
zeros n = replicate n 0

pub zeros_sized : (n : ℕ) → length (zeros n) ≡ n
zeros_sized n = length-replicate n 0

abbrev pub nothing_provided : {S : Type 0} → ModuleProvider S (Module S)
nothing_provided = record { get_module = λ name. pure none }

-- Every symbol of every module is at the address 4242.
abbrev pub symbol : String → String → ℕ
symbol mod_name name = 4242

abbrev pub one_module : String → Module Bytes
one_module mod_name = record { get_data = λ name s. (ok (symbol mod_name name), s) }

abbrev pub all_provided : ModuleProvider Bytes (Module Bytes)
all_provided = record { get_module = λ name s. (ok (some (one_module name)), s) }

resolve_pe_image_imports-AllBound_example :
    let r =
      resolve_pe_image_imports in_memory all_provided
        (as_buffer (memory_block {mo = owned_memory} flat_manager 4096 64))
        counting in
    (r.0 ≡ ok tt)
    × (((le_value (load_bytes r.1 (4096 + 56) 8) ≡ 4242) × Unit {0}) × Unit {0})
    × (r.1 4100 ≡ counting 4100)
unfolding past
resolve_pe_image_imports-AllBound_example =
    Bindings.resolve_pe_image_imports-AllBound owned_memory flat-CopiesBytes 4096 64 (omega arith)
      one_module symbol (λ mod_name name s. (refl, refl)) all_provided (λ name s. (refl, refl))
      in_memory 56 4100 counting (((omega arith, omega arith, omega arith, omega arith), tt), tt)
      (inl (omega arith))

-- Two bytes of the file for the address 80 of an image of 64 bytes.
abbrev behind : SectionHeader
behind = record {
  virtual_address = 80;
  virtual_size = 2;
  size_of_raw_data = 2;
  pointer_to_raw_data = 16;
  characteristics = 0;
}

map_section_direct-outside_example :
    let r =
      map_section_direct file_image
        (memory_block {mo = owned_memory} flat_manager 4096 64)
        behind
        counting in
    (r.0 ≡ ok tt)
    × (load_bytes r.1 4176 2 ≡ 19 ∷ 20 ∷ [])
    × ((a : ℕ) → Outside 4176 2 a → r.1 a ≡ counting a)
    × ((a : ℕ) → Within 4096 64 a → r.1 a ≡ counting a)
unfolding load_bytes
map_section_direct-outside_example =
    map_section_direct-outside flat-CopiesBytes file_image file file_image-ReadsFile owned_memory
      4096 64 behind counting (omega arith) (omega arith) (omega arith)
