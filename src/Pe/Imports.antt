-- ===== src/Pe/Imports.antt =====
-- The resolution of an image's imports: src/pe/image.hpp.
use libload.Common.{
  ℕ, List, [], ◌∷◌, Eff, ◌>>=◌, ◌>>◌, pure, raise, Error, Option, none, some, ◌==◌, if◌then◌else◌,
}
use libload.Memory.Block.{MutableMemoryBuffer}
use libload.Memory.Endian.{write_le_value_into}
use libload.Module.Provider.{Module, ModuleProvider}
use libload.Pe.Format.{ImportEntry, by_ordinal, by_name, ImportDescriptor, VirtualImage}

module _ {S : Type 0} where
  -- The loop over the entries of a descriptor; a thunk behind the last one is not there to be read.
  unfoldable pub resolve_entries :
      List ImportEntry → List ℕ → Module S → MutableMemoryBuffer S → Eff S (Unit {0})
  resolve_entries [] thunks mod_ image_mem = pure tt
  resolve_entries (by_ordinal n ∷ entries) thunks mod_ image_mem = raise Error.runtime_error
  resolve_entries (by_name name ∷ entries) [] mod_ image_mem = do
    import_addr ← mod_.get_data name
    if import_addr == 0 then raise Error.runtime_error else raise Error.undefined
  resolve_entries (by_name name ∷ entries) (thunk_rva ∷ thunks) mod_ image_mem = do
    import_addr ← mod_.get_data name
    if import_addr == 0
        then raise Error.runtime_error
        else (write_le_value_into 8 import_addr image_mem thunk_rva
            >> resolve_entries entries thunks mod_ image_mem)

  unfoldable pub resolve_pe_imported_symbols :
      ImportDescriptor → Module S → MutableMemoryBuffer S → Eff S (Unit {0})
  unfolding resolve_entries
  resolve_pe_imported_symbols import_dtor mod_ image_mem =
      resolve_entries import_dtor.entries import_dtor.thunks mod_ image_mem

  abbrev pub found : {A : Type 0} → Option (Module S) → (Module S → Eff S A) → Eff S A
  found none k = raise Error.runtime_error
  found (some m) k = k m

  unfoldable pub resolve_descriptors :
      List ImportDescriptor → ModuleProvider S (Module S) → MutableMemoryBuffer S → Eff S (Unit {0})
  unfolding resolve_pe_imported_symbols
  resolve_descriptors [] mod_provider image_mem = pure tt
  resolve_descriptors (import_dtor ∷ dtors) mod_provider image_mem = do
    mod_sp ← mod_provider.get_module import_dtor.name
    found mod_sp λ m. resolve_pe_imported_symbols import_dtor m image_mem
    resolve_descriptors dtors mod_provider image_mem

  unfoldable pub resolve_pe_image_imports :
      VirtualImage S → ModuleProvider S (Module S) → MutableMemoryBuffer S → Eff S (Unit {0})
  unfolding resolve_descriptors
  resolve_pe_image_imports image mod_provider image_mem s =
      resolve_descriptors (image.import_descriptors s) mod_provider image_mem s
