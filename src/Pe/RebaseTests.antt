-- ===== src/Pe/RebaseTests.antt =====
-- The theorems on relocations and imports at a small image, and runs of src/pe/image.hpp.
use mathlib.Core.Path.{refl}
use Prim.Native.String.{String}
use text.Mathlib.Text.{◌==◌ as str_eq}
use libload.Common.{
  none, some, ℕ, ◌+◌, ◌%◌, ◌^◌, ◌≡◌, [], ◌∷◌, ok, arith, length, length-replicate, if◌then◌else◌,
  inr,
}
use libload.Memory.Bytes.{Bytes, load_bytes}
use libload.Memory.Block.{owned_memory, borrowed_memory, memory_block, as_buffer}
use libload.Memory.Endian.{le_value}
use libload.Memory.Flat.{flat_manager, flat-CopiesBytes, counting}
use libload.Module.Provider.{Module}
use libload.Pe.Format.{
  RelocationEntry, rel_based_dir64, rel_based_highlow, BaseRelocation, VirtualImage,
}
use libload.Pe.Relocation.{apply_pe_relocation_entry, apply_pe_image_relocations_direct}
use libload.Pe.Rebase
use libload.Pe.Tests.{optional_header, uninit}

abbrev at_entry : ℕ → RelocationEntry
at_entry address = record { address = address; kind = rel_based_dir64 }

abbrev at_highlow : ℕ → RelocationEntry
at_highlow address = record { address = address; kind = rel_based_highlow }

-- The block of the page at 32, with an entry at 34.
abbrev reloc_block : BaseRelocation
reloc_block = record { virtual_address = 32; size_of_block = 10; entries = at_entry 34 ∷ [] }

abbrev view_of : VirtualImage Bytes
view_of = record {
  optional_header = λ s. optional_header;
  section_headers = λ s. [];
  base_relocations = λ s. reloc_block ∷ [];
  import_descriptors = λ s. [];
  exception_entries = λ s. some 8;
  exception_directory = λ s. some 24;
  tls_directory = λ s. some (4 ∷ 6 ∷ []);
  export_directory = λ s. none;
}

abbrev sized : (n : ℕ) → length (uninit n) ≡ n
sized n = length-replicate n 0

apply_pe_relocation_entry-dir64_example :
    let r =
      apply_pe_relocation_entry uninit view_of reloc_block
        (at_entry 34)
        228
        (as_buffer (memory_block {mo = borrowed_memory} flat_manager 100 10))
        counting in
    (r.0 ≡ ok tt)
    × (le_value (load_bytes r.1 102 8) ≡ (le_value (load_bytes counting 102 8) + 128) % 2 ^ 64)
    × (r.1 110 ≡ counting 110)
apply_pe_relocation_entry-dir64_example =
    Rebase.apply_pe_relocation_entry-dir64 flat-CopiesBytes uninit sized view_of 100 10
      (omega arith) reloc_block (at_entry 34) 228 counting 110 refl (omega arith)
      (inr (omega arith))

-- The entry is for the address 134 of the page at 132, which stays as it was.
apply_pe_image_relocations_direct-view_example :
    (apply_pe_image_relocations_direct uninit view_of
        (memory_block {mo = owned_memory} flat_manager 100 64)
        counting).1
      134
    ≡ counting 134
apply_pe_image_relocations_direct-view_example =
    Rebase.apply_pe_image_relocations_direct-view flat-CopiesBytes uninit sized view_of owned_memory
      100 64 (omega arith) 10 counting 134
      (record { short = omega arith; in_image = omega arith; entries_fit = (omega arith, tt) }, tt)
      (inr (omega arith))

abbrev symbols : String → ℕ
symbols name = if str_eq name "missing" then 0 else 4096

abbrev library : Module Bytes
library = record { get_data = λ name s. (ok (symbols name), s) }
