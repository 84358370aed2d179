-- ===== src/Pe/Exports.antt =====
-- What a loaded module of src/pe/module.hpp exports: get_data_address and get_proc_address of
-- PEBasicModule, over the image that the module owns.
use Prim.Native.String.{String}
use libload.Common.{ℕ, Eff}
use libload.Module.Symbols.{PeBasicModule, find_symbol}
use libload.Pe.LoadModule.{OwnedPeModule}

module _ {S : Type 0} where
  -- The base class of a module, with the export directory as memory holds it at the call.
  abbrev pub basic_module : OwnedPeModule S → S → PeBasicModule S
  basic_module self s = record {
    image_mem = self.image_mem.mem_pointer;
    export_directory = self.module_image.export_directory s;
    module_cache = self.module_cache.get_module;
  }

  -- Both methods are find_symbol.
  unfoldable pub get_symbol : OwnedPeModule S → String → Eff S ℕ
  unfolding find_symbol
  get_symbol self name s = find_symbol (basic_module self s) name s
