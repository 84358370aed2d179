-- ===== src/Module/Forwarding.antt =====
-- What find_symbol of src/pe/module.hpp gives for a forwarded export.
use Prim.Native.String.{String}
use libload.Common.{ℕ, ◌≡◌, true, false, Option, none, some, ok}
use libload.Module.Entries.{lookup}
use libload.Module.Provider.{Module, MapCell, ModuleProvider, module_cache_get, dereferenced}
use libload.Module.Forwarder.{dot, join, has_dot, parse-join}
use libload.Module.Symbols.{ExportInfo, PeBasicModule, find_symbol}

module _ {S M : Type 0} (deref : M → Module S) (cell : MapCell S (Option M))
    (provider : ModuleProvider S M) (image_mem address : ℕ) (find : String → Option ExportInfo)
    (name mod_name proc_name : String) where
  -- A module whose cache is the one of the cell.
  abbrev pub self : PeBasicModule S
  self = record {
    image_mem = image_mem;
    export_directory = some find;
    module_cache = dereferenced deref (module_cache_get cell provider);
  }

  abbrev forwarder : ExportInfo
  forwarder = record {
    is_forwarded = true;
    address = address;
    forwarder_string = join mod_name (String.◌∷◌ dot proc_name);
  }

  -- An export that is forwarded to a module name without a dot, a dot and a procedure name is the
  -- procedure of that name in the module of that name, if the cache has the module, and the null
  -- pointer, if the cache has a null pointer for it; the image's own address of the export is not
  -- used.
  pub find_symbol-forwarded :
      (s : S) (m : Option M)
      → find name ≡ some forwarder
      → has_dot mod_name ≡ false
      → lookup mod_name (cell.entries s) ≡ some m
      → find_symbol self name s
        ≡ elim m [ none ↦ (ok 0, s) | some fwd ↦ (deref fwd).get_data proc_name s ]
  unfolding find_symbol module_cache_get
  find_symbol-forwarded s none exported plain cached =
      rw (exported, parse-join mod_name proc_name plain, cached)
  find_symbol-forwarded s (some fwd) exported plain cached =
      rw (exported, parse-join mod_name proc_name plain, cached)
