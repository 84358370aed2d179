-- ===== src/Pe/Settled.antt =====
-- What load_pe_image of src/pe/image.hpp does once an image is copied, for an image that gets its preferred
-- base: the imports, the access rights and the sections that are discarded.
use Prim.Native.String.{String}
use libload.Memory.Manager.{Tells, MemoryManager, CopiesBytes}
use libload.Pe.Bindings.{AllResolvable, AllBound, past_all, resolve_descriptors-low}
use libload.Common.{
  some, ◌⊎◌, ◌<◌, ◌≤◌, sym, subst, fun_ext, ◌+◌, ℕ, ◌≡◌, ◌≤◌, refl, ◌∙◌, ap, List, All, ok, throw,
  Result, Eff, and_then, IsU64, false, ◌>>◌, pure,
}
use libload.Memory.Bytes.{Bytes}
use libload.Memory.Block.{owned_memory, memory_block, as_buffer}
use libload.Memory.Scope.{unwind}
use libload.Module.Provider.{Module, ModuleProvider}
use libload.Pe.Format.{ImportDescriptor, SectionFlags, VirtualImage}
use libload.Pe.Load.{Surroundings}
use libload.Pe.Imports.{resolve_pe_image_imports}
use libload.Pe.Permissions.{has, apply_pe_memory_permissions, remove_pe_discardable_sections}
use libload.Pe.Rebase.{BlockFits}
use libload.Pe.Neutral.{
  permit_sections-Unmoved, discard_sections-Unmoved, IsKnown, Unmoved, Unmoved-then,
}

module _ {S : Type 0} {manager : MemoryManager S} (c : CopiesBytes manager) where
  -- An outcome that succeeds, and whose bytes have a property.
  abbrev pub Ends : {A : Type 0} → A → (Bytes → Type 0) → Result A × S → Type 0
  Ends value Good r = (r.0 ≡ ok value) × Good (c.view r.1)

  -- What goes on behind a step that has left these bytes.
  pub then_ends :
      (Good : Bytes → Type 0) (r : Result (Unit {0}) × S) (k : Eff S (Unit {0})) (m : Bytes)
      → (r.0 ≡ ok tt) × (c.view r.1 ≡ m)
      → ((s : S) → c.view s ≡ m → Ends tt Good (k s))
      → Ends tt Good (and_then r (λ x. k))
  then_ends Good (ok x, s) k m (done, held) next = next s held
  then_ends Good (throw e, s) k m (done, held) next = absurd (cc)

  pub then_returned :
      {A : Type 0} (Good : Bytes → Type 0) (r : Result (Unit {0}) × S)
      (clean : S → Result (Unit {0}) × S) (value : A)
      → Ends tt Good r
      → Ends value Good (unwind clean (and_then r (λ x. pure value)))
  then_returned Good (ok x, s) clean value (done, good) = (refl, good)
  then_returned Good (throw e, s) clean value (done, good) = absurd (cc)

  -- A step that changes no byte, before one that ends well, or behind one.
  unmoved_before :
      (Good : Bytes → Type 0) (s : S) (r : Result (Unit {0}) × S) (k : Eff S (Unit {0}))
      → Unmoved c s r
      → ((s' : S) → c.view s' ≡ c.view s → Ends tt Good (k s'))
      → Ends tt Good (and_then r (λ x. k))
  unmoved_before Good s r k (done, same) next =
      then_ends Good r k (c.view s) (done, fun_ext same) next

  unmoved_behind :
      (Good : Bytes → Type 0) (r : Result (Unit {0}) × S) (k : Eff S (Unit {0}))
      → Ends tt Good r
      → ((s : S) → Good (c.view s) → Unmoved c s (k s))
      → Ends tt Good (and_then r (λ x. k))
  unmoved_behind Good (ok x, s) k (done, good) next =
      let (done', same) = next s good in (done', subst Good (sym (fun_ext same)) good)
  unmoved_behind Good (throw e, s) k (done, good) next = absurd (cc)

-- What a view of the image reads: while memory holds the bytes `v`, the image stands at its preferred base,
-- and its relocations are blocks of known types that fit; and where memory is good, no section is discarded.
pub record IsSettled {S : Type 0} {manager : MemoryManager S} (c : CopiesBytes manager)
    (flags : SectionFlags) (ptr mem_size : ℕ) (image : VirtualImage S) (v : Bytes)
    (Good : Bytes → Type 0) : Type 0 where
  pub preferred : (s : S) → c.view s ≡ v → (image.optional_header s).image_base ≡ ptr
  pub blocks_fit :
      (s : S) → c.view s ≡ v → All (BlockFits mem_size mem_size) (image.base_relocations s)
  pub types_known :
      (s : S)
      → c.view s ≡ v
      → All (λ r. All (λ e. IsKnown e.kind) r.entries) (image.base_relocations s)
  pub sections_stay :
      (s : S)
      → Good (c.view s)
      → All (λ h. has h.characteristics flags.scn_mem_discardable ≡ false) (image.section_headers s)

module _ {S : Type 0} {manager : MemoryManager S} (c : CopiesBytes manager)
    (provider : ModuleProvider S (Module S)) (u : Surroundings S) (ptr mem_size : ℕ) where
  abbrev pub loaded_image : VirtualImage S
  loaded_image = u.virtual_image (memory_block manager ptr mem_size)

  -- The imports of memory that holds the bytes `v` are resolved, and memory is good then.
  abbrev pub Resolves : Bytes → (Bytes → Type 0) → Type 0
  Resolves v Good =
      (s : S)
      → c.view s ≡ v
      → Ends c tt Good (
          resolve_pe_image_imports loaded_image provider
            (as_buffer (memory_block {mo = owned_memory} manager ptr mem_size)) s)

  -- The steps behind the copying.
  abbrev pub settling : Eff S (Unit {0}) → Eff S (Unit {0})
  settling relocate =
      let block = memory_block {mo = owned_memory} manager ptr mem_size in
      relocate
      >> (resolve_pe_image_imports loaded_image provider (as_buffer block)
          >> (apply_pe_memory_permissions u.flags block loaded_image
              >> remove_pe_discardable_sections u.flags block loaded_image))

  -- They end well where relocating changes no byte.
  pub settle :
      (permits : (mem size access : ℕ) (s : S) → Unmoved c s (manager.set_access mem size access s))
      (v : Bytes) (Good : Bytes → Type 0)
      → IsSettled c u.flags ptr mem_size loaded_image v Good
      → Resolves v Good
      → (relocate : Eff S (Unit {0})) (s : S) → c.view s ≡ v
      → Unmoved c s (relocate s)
      → Ends c tt Good (settling relocate s)
  unfolding apply_pe_memory_permissions remove_pe_discardable_sections
  settle permits v Good settled resolves relocate s held still =
      unmoved_before c Good s _ _ still (λ s' same.
        unmoved_behind c Good _ _ (resolves s' (same ∙ held)) (λ s'' good.
          Unmoved-then c s'' _ _
            (permit_sections-Unmoved c permits u.flags ptr mem_size
              (loaded_image.section_headers s'') s'')
            (λ s₁ same'.
              discard_sections-Unmoved c permits u.flags ptr mem_size
                (loaded_image.section_headers s₁) s₁
                (settled.sections_stay s₁ (subst Good (sym (fun_ext same')) good)))))

-- The modules that the image imports from, and the symbols that they answer for.
module _ {S : Type 0} {manager : MemoryManager S} (c : CopiesBytes manager)
    (modules : String → Module S) (symbol : String → String → ℕ)
    (known : (mod_name name : String) (s : S)
      → Tells c s (symbol mod_name name) ((modules mod_name).get_data name s))
    (provider : ModuleProvider S (Module S))
    (provided : (name : String) (s : S)
      → Tells c s (some (modules name)) (provider.get_module name s))
    (u : Surroundings S) (ptr mem_size : ℕ) (w : IsU64 mem_size) (imports : List ImportDescriptor)
    (low : ℕ) where
  abbrev pub Importable : Type 0
  Importable =
      AllResolvable owned_memory c ptr mem_size w modules symbol known provider provided low imports

  -- The imports are bound, and the bytes below and behind their thunks are as in `m`.
  abbrev pub Settled : Bytes → Bytes → Type 0
  Settled m v =
      AllBound owned_memory c ptr mem_size w modules symbol known provider provided v imports
      × ((a : ℕ)
          → (a < ptr + low)
            ⊎ (ptr
                  + past_all owned_memory c ptr mem_size w modules symbol known provider provided
                      low imports
                ≤ a)
          → v a ≡ m a)

  pub Importable-Resolves :
      (v : Bytes)
      → ((s : S)
          → c.view s ≡ v
          → (loaded_image c provider u ptr mem_size).import_descriptors s ≡ imports)
      → Importable
      → Resolves c provider u ptr mem_size v (Settled v)
  unfolding resolve_pe_image_imports
  Importable-Resolves v imports_are importable s held =
      let (done, bound, kept) =
        resolve_descriptors-low owned_memory c ptr mem_size w modules symbol known provider provided
          low imports s importable in
      rw (imports_are s held) (done, (bound, λ a out. kept a out ∙ ap (λ m. m a) held))
