-- ===== src/Module/Cache.antt =====
-- What the caches of src/module_provider.hpp and .cpp promise.
use Prim.Native.String.{String}
use text.Mathlib.Text.{◌==◌ as str_eq}
use libload.Common.{
  and_then, ◌≡◌, refl, ap, ◌∙◌, List, Option, none, some, Result, ok, throw, Error, if◌then◌else◌,
}
use libload.Module.Entries.{lookup, insert_or_assign, lookup-insert_or_assign, lookup-insert_self}
use libload.Module.Provider.{
  ModuleProvider, MapCell, module_cache_get, WeakPointers, weak_cache_get,
}

-- The map of a cell is what was assigned last.
abbrev pub Assigns : {S V : Type 0} → MapCell S V → Type 0
Assigns {S} {V} cell = (m : List (String × V)) (s : S) → cell.entries (cell.assign m s) ≡ m

module _ {S M : Type 0} (cell : MapCell S (Option M)) (assigns : Assigns cell)
    (provider : ModuleProvider S M) (name : String) where
  pub module_cache_get-hit :
      (s : S) (m : Option M)
      → lookup name (cell.entries s) ≡ some m
      → module_cache_get cell provider name s ≡ (ok m, s)
  unfolding module_cache_get
  module_cache_get-hit s m e = rw e

  fetch-enters :
      {s' : S} {m : Option M} (r : Result (Option M) × S)
      → and_then r (λ v s₁. (ok v, cell.assign (insert_or_assign name v (cell.entries s₁)) s₁))
        ≡ (ok m, s')
      → lookup name (cell.entries s') ≡ some m
  fetch-enters (ok v, s₁) h =
      let entered : lookup name
            (cell.entries (cell.assign (insert_or_assign name v (cell.entries s₁)) s₁))
          ≡ some v =
        ap (lookup name) (assigns _ s₁) ∙ lookup-insert_self name v (cell.entries s₁) in
      cc (entered, ap (λ r. r.0) h, ap (λ r. lookup name (cell.entries r.1)) h)
  fetch-enters (throw e, s₁) h = absurd (cc (ap (λ r. r.0) h))

  -- What get_module has answered is in the map.
  pub module_cache_get-enters :
      (s s' : S) (m : Option M)
      → module_cache_get cell provider name s ≡ (ok m, s')
      → lookup name (cell.entries s') ≡ some m
  unfolding module_cache_get
  module_cache_get-enters s s' m h = entered (lookup name (cell.entries s)) refl
    where
      entered :
          (o : Option (Option M))
          → lookup name (cell.entries s) ≡ o
          → lookup name (cell.entries s') ≡ some m
      entered none e = fetch-enters (provider.get_module name s) (rw e at h)
      entered (some v) e =
          let same : (ok v, s) ≡ (ok m, s') = rw e at h in
          cc (ap (λ r. r.0) same, ap (λ r. lookup name (cell.entries r.1)) same)

  -- If the map of the cache is what was assigned last: what get_module has answered, it answers
  -- again at once, a null pointer too. In the state that it has left, the same call gives the
  -- same module, and neither asks the provider nor changes anything.
  pub module_cache_get-again :
      (s s' : S) (m : Option M)
      → module_cache_get cell provider name s ≡ (ok m, s')
      → module_cache_get cell provider name s' ≡ (ok m, s')
  module_cache_get-again s s' m h = module_cache_get-hit s' m (module_cache_get-enters s s' m h)

  -- If the name is not in the cache and the provider throws, so does the cache, in the state that the
  -- provider has left: no entry is made.
  pub module_cache_get-throw :
      {s s' : S} {e : Error}
      → lookup name (cell.entries s) ≡ none
      → provider.get_module name s ≡ (throw e, s')
      → module_cache_get cell provider name s ≡ (throw e, s')
  unfolding module_cache_get
  module_cache_get-throw missing failed = rw (missing, failed)

  -- If the map of the cache is what was assigned last: for a name that is not in the cache, and
  -- for which the provider returns a pointer, null or not, the pointer is returned and entered,
  -- and every other entry is as the provider has left it.
  pub module_cache_get-miss :
      (k : String) {s s' : S} {m : Option M}
      → lookup name (cell.entries s) ≡ none
      → provider.get_module name s ≡ (ok m, s')
      → ((module_cache_get cell provider name s).0 ≡ ok m)
        × (lookup k (cell.entries (module_cache_get cell provider name s).1)
            ≡ (if str_eq name k then some m else lookup k (cell.entries s')))
  unfolding module_cache_get
  module_cache_get-miss k {s'} {m} missing answered =
      rw (missing, answered)
        (
          refl,
          ap (lookup k) (assigns (insert_or_assign name m (cell.entries s')) s')
              ∙ lookup-insert_or_assign name k m (cell.entries s'),
        )

module _ {S M : Type 0} (pointers : WeakPointers S M) where
  open pointers use {WeakPtr, weak, lock}

  module _ (cell : MapCell S WeakPtr) (provider : ModuleProvider S M) (name : String) (s : S)
      (w : WeakPtr) (entry : lookup name (cell.entries s) ≡ some w) where
    -- A module that the cache of make_module_provider has, and that lives, is returned, and neither
    -- loaded again nor entered again.
    pub weak_cache_get-live :
        (m : M)
        → lock w s ≡ some m
        → weak_cache_get pointers cell provider name s ≡ (ok (some m), s)
    unfolding weak_cache_get
    weak_cache_get-live m alive = rw (entry, alive)

    -- A module that the cache has, and that has died, is loaded as if it were not in the cache: what the
    -- load gives is returned, and replaces the entry.
    pub weak_cache_get-expired :
        {s' : S} {m : Option M}
        → lock w s ≡ none
        → provider.get_module name s ≡ (ok m, s')
        → weak_cache_get pointers cell provider name s
          ≡ (ok m, cell.assign (insert_or_assign name (weak m) (cell.entries s')) s')
    unfolding weak_cache_get
    weak_cache_get-expired dead loaded = rw (entry, dead, loaded)
