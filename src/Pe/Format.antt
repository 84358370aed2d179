-- ===== src/Pe/Format.antt =====
-- The views of an image that the library peplus gives to the loader. Nothing here is code of the
-- repository: the fields are those that src/pe/image.hpp reads.
use Prim.Native.String.{String}
use libload.Common.{Option, ℕ, List, Eff}
use libload.Module.Symbols.{ExportInfo}

pub record OptionalHeader : Type 0 where
  pub size_of_image : ℕ
  pub size_of_headers : ℕ
  pub image_base : ℕ
  pub address_of_entry_point : ℕ

pub record SectionHeader : Type 0 where
  pub virtual_address : ℕ
  pub virtual_size : ℕ
  pub size_of_raw_data : ℕ
  pub pointer_to_raw_data : ℕ
  pub characteristics : ℕ

pub data RelocationType : Type 0 where
  rel_based_absolute : RelocationType
  rel_based_highlow : RelocationType
  rel_based_dir64 : RelocationType
  rel_based_other : ℕ → RelocationType

-- The address is relative to the image.
pub record RelocationEntry : Type 0 where
  pub address : ℕ
  pub kind : RelocationType

pub record BaseRelocation : Type 0 where
  pub virtual_address : ℕ
  pub size_of_block : ℕ
  pub entries : List RelocationEntry

pub data ImportEntry : Type 0 where
  by_ordinal : ℕ → ImportEntry
  by_name : String → ImportEntry

-- The thunks are given by their offsets in the image.
pub record ImportDescriptor : Type 0 where
  pub name : String
  pub entries : List ImportEntry
  pub thunks : List ℕ

-- peplus::FileImage over the image's data. `read` fills a buffer, given with its old bytes, and
-- `read_into` writes to an address of the current process.
pub record FileImage (S : Type 0) : Type 0 where
  pub optional_header : OptionalHeader
  pub section_headers : List SectionHeader
  pub read : ℕ → ℕ → List ℕ → Eff S (List ℕ)
  pub read_into : ℕ → ℕ → ℕ → Eff S (Unit {0})

-- peplus::VirtualImage over loaded memory: what it shows depends on the state.
-- The exception entries are given by the offset of the first one, their directory by its size, the TLS
-- directory by the addresses of its callbacks, relative to the image; the export directory by its `find`.
pub record VirtualImage (S : Type 0) : Type 0 where
  pub optional_header : S → OptionalHeader
  pub section_headers : S → List SectionHeader
  pub base_relocations : S → List BaseRelocation
  pub import_descriptors : S → List ImportDescriptor
  pub exception_entries : S → Option ℕ
  pub exception_directory : S → Option ℕ
  pub tls_directory : S → Option (List ℕ)
  pub export_directory : S → Option (String → Option ExportInfo)

-- The bits of a section's characteristics.
pub record SectionFlags : Type 0 where
  pub scn_mem_read : ℕ
  pub scn_mem_write : ℕ
  pub scn_mem_execute : ℕ
  pub scn_mem_discardable : ℕ
