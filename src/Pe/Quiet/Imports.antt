-- ===== src/Pe/Quiet/Imports.antt =====
-- The resolution of imports of src/pe/image.hpp leaves the live allocations as they are.
use Prim.Native.String.{String}
use libload.Common.{
  ap, ◌∙◌, ℕ, ◌≡◌, refl, List, [], ◌∷◌, ok, Leaves, Leaves-bind, Leaves-then, Leaves-pure,
  Leaves-raise, Leaves-if, after_leaves, Option, none, some, ◌==◌,
}
use libload.Memory.Block.{MutableMemoryBuffer}
use libload.Memory.Quiet.{BufferLeaves, write_le-Leaves}
use libload.Module.Provider.{Module, ModuleProvider}
use libload.Pe.Format.{VirtualImage, ImportEntry, by_ordinal, by_name, ImportDescriptor}
use libload.Pe.Imports.{
  resolve_pe_image_imports, resolve_entries, resolve_pe_imported_symbols, found,
  resolve_descriptors,
}

-- What is assumed of the provider: to answer, and to look up a symbol in an answered module, does not
-- allocate by the manager.
pub record AnswersQuietly {S X : Type 0} (obs : S → X) (provider : ModuleProvider S (Module S))
    : Type 0 where
  pub get_module_lem : (name : String) → Leaves obs (provider.get_module name)
  pub get_data_lem :
      (name symbol : String) (m : Module S) (s : S)
      → (provider.get_module name s).0 ≡ ok (some m)
      → Leaves obs (m.get_data symbol)

module _ {S X : Type 0} {obs : S → X} {buffer : MutableMemoryBuffer S}
    (b : BufferLeaves obs buffer) where
  resolve_entries-Leaves :
      (m : Module S)
      → ((symbol : String) → Leaves obs (m.get_data symbol))
      → (entries : List ImportEntry) (thunks : List ℕ)
      → Leaves obs (resolve_entries entries thunks m buffer)
  unfolding resolve_entries
  resolve_entries-Leaves m hm [] thunks = Leaves-pure tt
  resolve_entries-Leaves m hm (by_ordinal n ∷ entries) thunks = Leaves-raise _
  resolve_entries-Leaves m hm (by_name name ∷ entries) [] =
      Leaves-bind (hm name) (λ addr. Leaves-if (addr == 0) _ _ (Leaves-raise _) (Leaves-raise _))
  resolve_entries-Leaves m hm (by_name name ∷ entries) (t ∷ thunks) = Leaves-bind (hm name) (λ addr.
      Leaves-if (addr == 0) _ _ (Leaves-raise _)
        (Leaves-then (write_le-Leaves b 8 addr t) (resolve_entries-Leaves m hm entries thunks)))

  descriptors-Leaves :
      {provider : ModuleProvider S (Module S)}
      → AnswersQuietly obs provider
      → (dtors : List ImportDescriptor) → Leaves obs (resolve_descriptors dtors provider buffer)
  unfolding resolve_descriptors resolve_pe_imported_symbols
  descriptors-Leaves a [] = Leaves-pure tt
  descriptors-Leaves {provider} a (d ∷ dtors) = record {
    at = λ s.
        after_leaves obs (provider.get_module d.name s) _ _ ((a.get_module_lem d.name).at s)
          (λ m answered.
            (Leaves-then
                (found_leaves m
                  (λ sp e symbol. a.get_data_lem d.name symbol sp s (answered ∙ ap ok e)))
                (descriptors-Leaves a dtors)).at
              _);
  }
    where
      found_leaves :
          (m : Option (Module S))
          → ((sp : Module S) → m ≡ some sp → (symbol : String) → Leaves obs (sp.get_data symbol))
          → Leaves obs (found m (λ sp. resolve_entries d.entries d.thunks sp buffer))
      found_leaves none h = Leaves-raise _
      found_leaves (some sp) h = resolve_entries-Leaves sp (h sp refl) d.entries d.thunks

  pub imports-Leaves :
      {provider : ModuleProvider S (Module S)} (image : VirtualImage S)
      → AnswersQuietly obs provider
      → Leaves obs (resolve_pe_image_imports image provider buffer)
  unfolding resolve_pe_image_imports
  imports-Leaves image a = record {
    at = λ s. (descriptors-Leaves a (image.import_descriptors s)).at s;
  }
