-- ===== src/Module/Provider.antt =====
-- The interfaces of include/load/module, and the two caches of src/module_provider.hpp and .cpp.
use Prim.Native.String.{String}
use libload.Common.{ℕ, List, Eff, ok, ◌>>=◌, Option, none, some}
use libload.Module.Entries.{lookup, insert_or_assign}

-- The virtual method of Module behind get_data: 0 is the null pointer.
pub record Module (S : Type 0) : Type 0 where
  pub get_data : String → Eff S ℕ

-- A std::shared_ptr is `none` where it is null, and otherwise an `M`: a handle of the object, or, for
-- a client that only calls it, the object's methods themselves.
pub record ModuleProvider (S M : Type 0) : Type 0 where
  pub get_module : String → Eff S (Option M)

-- A map from names that lives in the state.
pub record MapCell (S V : Type 0) : Type 0 where
  pub entries : S → List (String × V)
  pub assign : List (String × V) → S → S

-- A std::weak_ptr: `lock` gives the module while it lives.
pub record WeakPointers (S M : Type 0) : Type 1 where
  pub WeakPtr : Type 0
  pub weak : Option M → WeakPtr
  pub lock : WeakPtr → S → Option M

module _ {S M : Type 0} where
  -- The call of the provider and the insertion of what it has returned.
  abbrev pub fetch :
      {V : Type 0} → MapCell S V → (Option M → V) → ModuleProvider S M → String → Eff S (Option M)
  fetch cell keep provider name = do
    module_sp ← provider.get_module name
    λ s. (ok module_sp, cell.assign (insert_or_assign name (keep module_sp) (cell.entries s)) s)

  abbrev cached : Option (Option M) → Eff S (Option M) → Eff S (Option M)
  cached none load = load
  cached (some module_sp) load = λ s. (ok module_sp, s)

  -- ModuleCache::get_module. A null pointer that the provider has returned is kept as well.
  unfoldable pub module_cache_get :
      MapCell S (Option M) → ModuleProvider S M → String → Eff S (Option M)
  module_cache_get cell provider name s =
      cached (lookup name (cell.entries s)) (fetch cell (λ m. m) provider name) s

  module _ (pointers : WeakPointers S M) where
    open pointers use {WeakPtr, weak, lock}

    abbrev live : Option M → Eff S (Option M) → Eff S (Option M)
    live none load = load
    live (some m) load = λ s. (ok (some m), s)

    abbrev still : Option WeakPtr → Eff S (Option M) → Eff S (Option M)
    still none load = load
    still (some w) load = λ s. live (lock w s) load s

    -- The function that make_module_provider wraps, around a function that loads a module.
    unfoldable pub weak_cache_get :
        MapCell S WeakPtr → ModuleProvider S M → String → Eff S (Option M)
    weak_cache_get cell do_load_module name s =
        still (lookup name (cell.entries s)) (fetch cell weak do_load_module name) s

-- ModuleProviderFn: the provider that calls the function it holds.
unfoldable pub module_provider_fn :
    {S M : Type 0} → (String → Eff S (Option M)) → ModuleProvider S M
module_provider_fn fn = record { get_module = λ name. fn name }

-- make_module_provider, with the map of its static variable in the cell.
unfoldable pub make_module_provider :
    {S M : Type 0} (pointers : WeakPointers S M)
    → MapCell S pointers.WeakPtr
    → (String → Eff S (Option M))
    → ModuleProvider S M
unfolding module_provider_fn weak_cache_get
make_module_provider pointers cell load_fn =
    module_provider_fn (weak_cache_get pointers cell (module_provider_fn load_fn))

-- The modules behind the handles of a provider.
abbrev pub dereferenced :
    {S M : Type 0}
    → (M → Module S)
    → (String → Eff S (Option M))
    → String
    → Eff S (Option (Module S))
dereferenced deref get_module name = do
  module_sp ← get_module name
  λ s. (ok (elim module_sp [ none ↦ none | some m ↦ some (deref m) ]), s)
