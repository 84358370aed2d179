-- ===== src/Pe/Bindings.antt =====
-- What resolve_pe_image_imports of src/pe/image.hpp leaves in the import tables of a whole image.
use Prim.Native.String.{String}
use libload.Common.{
  ◌⊎◌, ◌≤◌, inl, ℕ, ◌+◌, ◌<◌, ◌≡◌, refl, ap, sym, subst, ◌∙◌, List, [], ◌∷◌, some, Result, ok,
  IsU64, arith, and_then-ok,
}
use libload.Memory.Bytes.{Bytes}
use libload.Memory.Manager.{MemoryManager, CopiesBytes, Tells}
use libload.Memory.Block.{MemoryOwnership, MutableMemoryBuffer, memory_block, as_buffer}
use libload.Module.Provider.{Module, ModuleProvider}
use libload.Pe.Format.{ImportDescriptor, VirtualImage}
use libload.Pe.Imports.{resolve_pe_imported_symbols, resolve_descriptors, resolve_pe_image_imports}
use libload.Pe.Bound.{past, Resolvable, Bound, Bound-agree, low-le-past, resolve_entries-low}

module _ (mo : MemoryOwnership) {S : Type 0} {manager : MemoryManager S} (c : CopiesBytes manager)
    (ptr mem_size : ℕ) (w : IsU64 mem_size) (modules : String → Module S)
    (symbol : String → String → ℕ)
    (known : (mod_name name : String) (s : S)
      → Tells c s (symbol mod_name name) ((modules mod_name).get_data name s))
    (provider : ModuleProvider S (Module S))
    (provided : (name : String) (s : S)
      → Tells c s (some (modules name)) (provider.get_module name s)) where
  abbrev image_mem : MutableMemoryBuffer S
  image_mem = as_buffer (memory_block {mo = mo} manager ptr mem_size)

  -- Each descriptor can be resolved, its thunks behind those of the descriptors before it.
  abbrev pub AllResolvable : ℕ → List ImportDescriptor → Type 0
  AllResolvable low [] = Unit
  AllResolvable low (d ∷ dtors) =
      Resolvable mo c ptr mem_size w (modules d.name) (symbol d.name) (known d.name) low d.entries
        d.thunks
      × AllResolvable (past low d.entries d.thunks) dtors

  -- Each thunk of each descriptor holds the address of its entry's symbol in the descriptor's module.
  abbrev pub AllBound : Bytes → List ImportDescriptor → Type 0
  AllBound m [] = Unit
  AllBound m (d ∷ dtors) =
      Bound mo c ptr mem_size w (modules d.name) (symbol d.name) (known d.name) m d.entries d.thunks
      × AllBound m dtors

  -- The end of the last thunk of all.
  abbrev pub past_all : ℕ → List ImportDescriptor → ℕ
  past_all low [] = low
  past_all low (d ∷ dtors) = past_all (past low d.entries d.thunks) dtors

  low-le-past_all :
      (low : ℕ) (dtors : List ImportDescriptor) → AllResolvable low dtors → low ≤ past_all low dtors
  low-le-past_all low [] h = omega arith
  low-le-past_all low (d ∷ dtors) (here, there) = omega (
    arith,
    low-le-past mo c ptr mem_size w (modules d.name) (symbol d.name) (known d.name) low d.entries
        d.thunks here,
    low-le-past_all (past low d.entries d.thunks) dtors there,
  )

  -- An outcome that binds the descriptors and leaves the bytes below and behind their thunks.
  abbrev pub AllResolved : ℕ → List ImportDescriptor → S → Result (Unit {0}) × S → Type 0
  AllResolved low dtors s r =
      (r.0 ≡ ok tt)
      × AllBound (c.view r.1) dtors
      × ((a : ℕ) → (a < ptr + low) ⊎ (ptr + past_all low dtors ≤ a) → c.view r.1 a ≡ c.view s a)

  resolve_descriptors_step :
      (d : ImportDescriptor) (dtors : List ImportDescriptor) (s : S)
      → let s₁ = (provider.get_module d.name s).1 in
        (resolve_pe_imported_symbols d (modules d.name) image_mem s₁).0 ≡ ok tt
        → resolve_descriptors (d ∷ dtors) provider image_mem s
          ≡ resolve_descriptors dtors provider image_mem
              (resolve_pe_imported_symbols d (modules d.name) image_mem s₁).1
  unfolding resolve_descriptors
  resolve_descriptors_step d dtors s done = and_then-ok _ (provided d.name s).0 ∙ and_then-ok _ done

  pub resolve_descriptors-low :
      (low : ℕ) (dtors : List ImportDescriptor) (s : S)
      → AllResolvable low dtors
      → AllResolved low dtors s (resolve_descriptors dtors provider image_mem s)
  unfolding resolve_descriptors resolve_pe_imported_symbols
  resolve_descriptors-low low [] s h = (refl, tt, λ a out. refl)
  resolve_descriptors-low low (d ∷ dtors) s (here, there) =
      let s₁ = (provider.get_module d.name s).1 in
      let (done, bound, same) =
        resolve_entries-low mo c ptr mem_size w (modules d.name) (symbol d.name) (known d.name) low
          d.entries d.thunks s₁ here in
      let s' = (resolve_pe_imported_symbols d (modules d.name) image_mem s₁).1 in
      let (done', bound', same') =
        resolve_descriptors-low (past low d.entries d.thunks) dtors s' there in
      let further =
        low-le-past mo c ptr mem_size w (modules d.name) (symbol d.name) (known d.name) low
          d.entries d.thunks here in
      subst (AllResolved low (d ∷ dtors) s) (sym (resolve_descriptors_step d dtors s done)) (
        done',
        (
          Bound-agree mo c ptr mem_size w (modules d.name) (symbol d.name) (known d.name)
              (c.view s') _ low d.entries d.thunks here (λ a below. same' a (inl below)) bound,
          bound',
        ),
        λ a out.
            let end = low-le-past_all (past low d.entries d.thunks) dtors there in
            same' a (omega (arith, out, further))
            ∙ same a (omega (arith, out, end))
            ∙ ap (λ m. m a) (provided d.name s).1,
      )

  -- If the manager copies bytes, the provider has a module for each name and the modules answer each
  -- name with an address, and neither changes a byte: an image whose import descriptors list entries
  -- by name, with 64-bit addresses other than 0, and thunks of 8 bytes that ascend from an offset on over
  -- all descriptors within the image's memory, of 64-bit size, has its imports resolved. In the end each
  -- thunk of each descriptor holds the address of its entry's symbol in the descriptor's module, and no
  -- byte below the offset or behind the last thunk has changed.
  pub resolve_pe_image_imports-AllBound :
      (image : VirtualImage S) (low a : ℕ) (s : S)
      → AllResolvable low (image.import_descriptors s)
      → (a < ptr + low) ⊎ (ptr + past_all low (image.import_descriptors s) ≤ a)
      → let r = resolve_pe_image_imports image provider image_mem s in
        (r.0 ≡ ok tt)
        × AllBound (c.view r.1) (image.import_descriptors s)
        × (c.view r.1 a ≡ c.view s a)
  unfolding resolve_pe_image_imports
  resolve_pe_image_imports-AllBound image low a s h out =
      let (done, bound, same) = resolve_descriptors-low low (image.import_descriptors s) s h in
      (done, bound, same a out)
