-- ===== src/Module/Linking.antt =====
-- Modules whose exports are forwarded to one another: find_symbol of src/pe/module.hpp, which calls the
-- get_data of the module that an export is forwarded to, and so itself, as often as the exports say.
use Prim.Native.String.{String}
use libload.Common.{
  ◌-◌, ◌≢◌, ◌∙◌, ℕ, zero, suc, ◌+◌, ◌<◌, ◌≡◌, refl, arith, Bool, true, false, Option, none, some,
  ok, throw, raise, Error,
}
use libload.Module.Entries.{lookup}
use libload.Module.Provider.{Module, MapCell, ModuleProvider, module_cache_get, dereferenced}
use libload.Module.Forwarder.{parse_pe_forwarder_string}
use libload.Module.Symbols.{ExportInfo, PeBasicModule, find_symbol, as_module}

-- The loaded images, each with the cache of its module, which is filled by one provider.
pub record LoadedImage (S M : Type 0) : Type 0 where
  pub image_mem : ℕ
  pub export_directory : Option (String → Option ExportInfo)
  pub cell : MapCell S (Option M)

-- Where a module's symbol is found: at an address, under another name in another module, or in a
-- module that the cache has not seen yet.
pub data Target (M : Type 0) : Type 0 where
  address : ℕ → Target M
  forward : M → String → Target M
  unknown : Target M

suc_of_lt : (n k : ℕ) → n < k → k ≡ suc (k - 1)
suc_of_lt n k h = omega arith

module _ {S M : Type 0} (images : M → LoadedImage S M) (provider : ModuleProvider S M) where
  -- One module, that finds the others by `deref`.
  abbrev with_others : (M → Module S) → M → PeBasicModule S
  with_others deref m = record {
    image_mem = (images m).image_mem;
    export_directory = (images m).export_directory;
    module_cache = dereferenced deref (module_cache_get (images m).cell provider);
  }

  -- A module as the others see it, on a stack that has room for so many nested calls of find_symbol.
  -- A call that does not fit is undefined behaviour.
  unfoldable pub linked : ℕ → M → Module S
  linked zero m = record { get_data = λ name. raise Error.undefined }
  linked (suc depth) m = as_module (with_others (linked depth) m)

  abbrev cached_target : String → Option (Option M) → Target M
  cached_target fwd_sym none = unknown
  cached_target fwd_sym (some none) = address 0
  cached_target fwd_sym (some (some m)) = forward m fwd_sym

  abbrev forwarded_target : M → S → Option (String × String) → Target M
  forwarded_target m s none = address 0
  forwarded_target m s (some (fwd_name, fwd_sym)) =
      cached_target fwd_sym (lookup fwd_name ((images m).cell.entries s))

  abbrev export_target : M → S → Bool → ExportInfo → Target M
  export_target m s false info = address ((images m).image_mem + info.address)
  export_target m s true info =
      forwarded_target m s (parse_pe_forwarder_string info.forwarder_string)

  abbrev info_target : M → S → Option ExportInfo → Target M
  info_target m s none = address 0
  info_target m s (some info) = export_target m s info.is_forwarded info

  abbrev directory_target : M → S → String → Option (String → Option ExportInfo) → Target M
  directory_target m s name none = address 0
  directory_target m s name (some find) = info_target m s (find name)

  -- Where the export directory of a module and its cache point for a name.
  unfoldable pub target : M → String → S → Target M
  target m name s = directory_target m s name (images m).export_directory

  linked-address :
      (depth : ℕ) (m : M) (name : String) (s : S) (a : ℕ)
      → target m name s ≡ address a
      → (linked (suc depth) m).get_data name s ≡ (ok a, s)
  unfolding target linked as_module find_symbol module_cache_get
  linked-address depth m name s a h = ground arith

  linked-forward :
      (depth : ℕ) (m m' : M) (name name' : String) (s : S)
      → target m name s ≡ forward m' name'
      → (linked (suc depth) m).get_data name s ≡ (linked depth m').get_data name' s
  unfolding target linked as_module find_symbol module_cache_get
  linked-forward depth m m' name name' s h = ground arith

  -- The address that the exports give a symbol, over any number of forwards.
  pub data Resolves (s : S) : M → String → ℕ → Type 0 where
    exported : {m : M} {name : String} {a : ℕ} → target m name s ≡ address a → Resolves s m name a
    forwarded :
        {m m' : M} {name name' : String} {a : ℕ}
        → target m name s ≡ forward m' name'
        → Resolves s m' name' a
        → Resolves s m name a

  module _ (s : S) where
    -- The symbol resolves to that address, and a stack with room for more calls than the bound
    -- makes the search return it.
    abbrev pub FoundWithin : ℕ → M → String → ℕ → Type 0
    FoundWithin bound m name a =
        Resolves s m name a
        × ((depth : ℕ) → bound < depth → (linked depth m).get_data name s ≡ (ok a, s))

    module _ (rank : M → String → ℕ)
        (falls : (m m' : M) (name name' : String)
          → target m name s ≡ forward m' name'
          → rank m' name' < rank m name)
        (known : (m : M) (name : String) → target m name s ≢ unknown) where
      found_here :
          (bound a : ℕ) (m : M) (name : String)
          → target m name s ≡ address a
          → FoundWithin bound m name a
      found_here bound a m name e = (
        exported e,
        λ depth h. rw (suc_of_lt bound depth h) (linked-address (depth - 1) m name s a e),
      )

      found_there :
          (bound bound' a : ℕ) (m m' : M) (name name' : String)
          → target m name s ≡ forward m' name'
          → bound' < bound
          → FoundWithin bound' m' name' a
          → FoundWithin bound m name a
      found_there bound bound' a m m' name name' e h (resolves, found) = (
        forwarded e resolves,
        λ depth room.
            rw (suc_of_lt bound depth room)
              (linked-forward (depth - 1) m m' name name' s e ∙ found (depth - 1) (omega arith)),
      )

      found_below :
          (n : ℕ) (m : M) (name : String)
          → rank m name < n
          → (a : ℕ) × FoundWithin (rank m name) m name a
      found_below zero m name h = absurd (omega arith)
      found_below (suc n) m name h = at_target (target m name s) refl (found_below n)
        where
          at_target :
              (t : Target M)
              → target m name s ≡ t
              → ((m' : M) (name' : String)
                  → rank m' name' < n
                  → (a : ℕ) × FoundWithin (rank m' name') m' name' a)
              → (a : ℕ) × FoundWithin (rank m name) m name a
          at_target (address a) e below = (a, found_here (rank m name) a m name e)
          at_target (forward m' name') e below =
              let less = falls m m' name name' e in
              let (a, found) = below m' name' (omega arith) in
              (a, found_there (rank m name) (rank m' name') a m m' name name' e less found)
          at_target unknown e below = absurd (known m name e)

      -- If the caches of the modules hold every module that an export is forwarded to, and the
      -- forwards descend in some rank, the search for any symbol in any module ends: it returns the
      -- address at the end of the symbol's forwards and changes no cache, on any stack with room for more nested calls than the rank.
      pub linked-Resolves : (m : M) (name : String) → (a : ℕ) × FoundWithin (rank m name) m name a
      linked-Resolves m name = found_below (suc (rank m name)) m name (omega arith)

    -- If each symbol of a set is forwarded to a symbol of the set, in a module that the cache holds,
    -- the search for any of them never returns: it runs out of any stack.
    pub linked-cycle :
        (Cyclic : M → String → Type 0)
        → ((m : M) (name : String)
            → Cyclic m name
            → (m' : M) × (name' : String) × (target m name s ≡ forward m' name') × Cyclic m' name')
        → (depth : ℕ) (m : M) (name : String) → Cyclic m name
        → (linked depth m).get_data name s ≡ (throw Error.undefined, s)
    unfolding linked
    linked-cycle Cyclic next zero m name h = refl
    linked-cycle Cyclic next (suc depth) m name h =
        let (m', name', e, there) = next m name h in
        linked-forward depth m m' name name' s e ∙ linked-cycle Cyclic next depth m' name' there
