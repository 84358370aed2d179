-- ===== src/Module/Coherence.antt =====
-- The answers of ModuleCache of src/module_provider.cpp over a run of many calls.
use Prim.Native.String.{String}
use text.Mathlib.TextEquality.{eq_iff}
use libload.Common.{
  ◌≡◌, refl, ap, ◌∙◌, List, [], ◌∷◌, Option, none, some, Result, ok, throw, and_then, arith,
}
use libload.Module.Entries.{lookup, insert_or_assign, lookup-insert_or_assign}
use libload.Module.Provider.{ModuleProvider, MapCell, module_cache_get}
use libload.Module.Cache.{Assigns, module_cache_get-hit, module_cache_get-enters}

module _ {S M : Type 0} (cell : MapCell S (Option M)) (assigns : Assigns cell)
    (provider : ModuleProvider S M)
    (leaves : (name : String) (s : S)
      → cell.entries (provider.get_module name s).1 ≡ cell.entries s) where
  -- The state after calls for these names, whether they return or throw.
  unfoldable pub visited : List String → S → S
  visited [] s = s
  visited (name ∷ names) s = visited names (module_cache_get cell provider name s).1

  -- An entry outlasts the call for a name that has none.
  entry_stays :
      (k name : String) (m : Option M) (r : Result (Option M) × S)
      → lookup name (cell.entries r.1) ≡ none
      → lookup k (cell.entries r.1) ≡ some m
      → lookup k (
          cell.entries
            (and_then r
              (λ v s. (ok v, cell.assign (insert_or_assign name v (cell.entries s)) s))).1)
        ≡ some m
  entry_stays k name m (throw e, s) missing there = there
  entry_stays k name m (ok v, s) missing there =
      ap (lookup k) (assigns (insert_or_assign name v (cell.entries s)) s)
      ∙ lookup-insert_or_assign name k v (cell.entries s)
      ∙ ground (arith, eq_iff name k, ap (λ n. lookup n (cell.entries s)))

  call_keeps :
      (k name : String) (m : Option M) (s : S)
      → lookup k (cell.entries s) ≡ some m
      → lookup k (cell.entries (module_cache_get cell provider name s).1) ≡ some m
  unfolding module_cache_get
  call_keeps k name m s there = by_entry (lookup name (cell.entries s)) refl
    where
      by_entry :
          (o : Option (Option M))
          → lookup name (cell.entries s) ≡ o
          → lookup k (cell.entries (module_cache_get cell provider name s).1) ≡ some m
      by_entry (some v) e = rw e there
      by_entry none e = rw e (
          entry_stays k name m (provider.get_module name s) (rw (leaves name s) e)
            (rw (leaves name s) there))

  visited_keeps :
      (k : String) (m : Option M) (names : List String) (s : S)
      → lookup k (cell.entries s) ≡ some m
      → lookup k (cell.entries (visited names s)) ≡ some m
  unfolding visited
  visited_keeps k m [] s there = there
  visited_keeps k m (name ∷ names) s there =
      visited_keeps k m names (module_cache_get cell provider name s).1
        (call_keeps k name m s there)

  -- If the map of the cache is what was assigned last, and the provider leaves it as it is: what
  -- get_module has answered for a name, a null pointer too, it answers after any number of further calls
  -- for any names, whether these return or throw, without asking the provider again or changing anything.
  pub module_cache_get-stays :
      (name : String) (names : List String) (s s' : S) (m : Option M)
      → module_cache_get cell provider name s ≡ (ok m, s')
      → module_cache_get cell provider name (visited names s') ≡ (ok m, visited names s')
  module_cache_get-stays name names s s' m h =
      module_cache_get-hit cell assigns provider name (visited names s') m (
        visited_keeps name m names s' (module_cache_get-enters cell assigns provider name s s' m h))
