-- ===== src/Module/Symbols.antt =====
-- find_symbol of src/pe/module.hpp: a symbol exported by a loaded image, or forwarded to another
-- module of its cache. The export directory of the image is peplus's, a parameter.
use Prim.Native.String.{String}
use libload.Common.{ℕ, ◌+◌, Bool, true, false, Option, none, some, Eff, ◌>>=◌, pure}
use libload.Module.Provider.{Module}
use libload.Module.Forwarder.{parse_pe_forwarder_string}

-- What peplus's `find` gives of an export.
pub record ExportInfo : Type 0 where
  pub is_forwarded : Bool
  pub address : ℕ
  pub forwarder_string : String

-- The loaded image of the module: where it stands, its export directory if it has one, the cache.
pub record PeBasicModule (S : Type 0) : Type 0 where
  pub image_mem : ℕ
  pub export_directory : Option (String → Option ExportInfo)
  pub module_cache : String → Eff S (Option (Module S))

module _ {S : Type 0} where
  abbrev symbol_of : String → Option (Module S) → Eff S ℕ
  symbol_of fwd_sym none = pure 0
  symbol_of fwd_sym (some fwd_modsp) = fwd_modsp.get_data fwd_sym

  abbrev forwarded : PeBasicModule S → Option (String × String) → Eff S ℕ
  forwarded self none = pure 0
  forwarded self (some (fwd_name, fwd_sym)) = do
    fwd_modsp ← self.module_cache fwd_name
    symbol_of fwd_sym fwd_modsp

  abbrev exported_as : PeBasicModule S → Bool → ExportInfo → Eff S ℕ
  exported_as self false export_info = pure (self.image_mem + export_info.address)
  exported_as self true export_info =
      forwarded self (parse_pe_forwarder_string export_info.forwarder_string)

  abbrev found_export : PeBasicModule S → Option ExportInfo → Eff S ℕ
  found_export self none = pure 0
  found_export self (some export_info) = exported_as self export_info.is_forwarded export_info

  abbrev in_directory : PeBasicModule S → Option (String → Option ExportInfo) → String → Eff S ℕ
  in_directory self none name = pure 0
  in_directory self (some find) name = found_export self (find name)

  unfoldable pub find_symbol : PeBasicModule S → String → Eff S ℕ
  find_symbol self name = in_directory self self.export_directory name

  -- The module as the others see it: get_data_address and get_proc_address are find_symbol.
  unfoldable pub as_module : PeBasicModule S → Module S
  as_module self = record { get_data = find_symbol self }
