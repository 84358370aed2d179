-- ===== src/Pe/FoundTests.antt =====
-- The theorem on a loaded module and its symbols at a small image, with a view that reads the memory.
use Prim.Native.String.{String}
use libload.Common.{
  refl, ap, ◌∙◌, ℕ, ◌+◌, ◌≡◌, [], ◌∷◌, Option, some, none, ok, pure, true, false, arith, ◌==◌,
  if◌then◌else◌,
}
use libload.Memory.Bytes.{load_bytes, store_bytes, Within}
use libload.Memory.Block.{memory_block}
use libload.Memory.Flat.{counting}
use libload.Module.Provider.{Module, ModuleProvider}
use libload.Module.Symbols.{ExportInfo}
use libload.Pe.Machine.{Machine, machine_manager, machine-CopiesBytes, modules_cell}
use libload.Pe.Format.{VirtualImage, FileImage}
use libload.Pe.Load.{Surroundings}
use libload.Pe.Process.{Process, DllCode, initialize_dll}
use libload.Pe.LoadModule.{owned_pe_module, load_module, cache_of}
use libload.Pe.Exports.{get_symbol}
use libload.Pe.Agreement
use libload.Pe.Agreement.{image_bytes}
use libload.Pe.Neutral
use libload.Pe.Settled
use libload.Pe.Found
use libload.Pe.LoadTests.{header, section, flags, in_memory, zeros, zeros_sized, file}
use libload.Pe.WholeTests.{
  section_at, relocations_at, imported_at, copied, copied_bytes, blocks, stays, base_at,
}

abbrev file_image : FileImage Machine
file_image = record {
  optional_header = header;
  section_headers = section ∷ [];
  read = λ offset size buf s. (ok (load_bytes file offset size), s);
  read_into = λ offset size mem s.
      (ok tt, record s { memory = store_bytes s.memory mem (load_bytes file offset size) });
}

abbrev file_image-ReadsFile : Agreement.ReadsFile machine-CopiesBytes file_image file
file_image-ReadsFile = record {
  read_lem = λ offset size buf s h. refl;
  read_into_ok = λ offset size mem s. refl;
  read_into_view = λ offset size mem s. refl;
  commit_ok = λ mem size s. refl;
  commit_view = λ mem size s. refl;
}

-- Every name is exported, at an address that is read from the section.
abbrev exported_at : ℕ → ExportInfo
exported_at b = record { is_forwarded = false; address = 17 + b; forwarder_string = "" }

abbrev directory_at : ℕ → Option (String → Option ExportInfo)
directory_at b = some (λ name. some (exported_at b))

-- A byte says whether there are imports.
abbrev exporting : VirtualImage Machine
exporting = record in_memory {
  optional_header = λ s. record header { image_base = 4093 + s.memory 4096 };
  section_headers = λ s. section_at (s.memory 4097);
  base_relocations = λ s. relocations_at (s.memory 4128);
  import_descriptors = λ s. if s.memory 4099 == 6 then [] else imported_at (s.memory 4099);
  export_directory = λ s. directory_at (s.memory 4128);
}

abbrev surroundings : Surroundings Machine
surroundings = record {
  current = machine_manager;
  local = record {
    load = λ p n s. load_bytes s.memory p n;
    store = λ p bs s. record s { memory = store_bytes s.memory p bs };
  };
  uninit = zeros;
  flags = flags;
  virtual_image = λ block. exporting;
}

settled : Settled.IsSettled machine-CopiesBytes flags 4096 64 exporting copied (λ v. v ≡ copied)
settled =
    let (base, kind, more, thunk, place) = copied_bytes in
    record {
      preferred = λ s h. base_at (s.memory 4096) (ap (λ m. m 4096) h ∙ base);
      blocks_fit = λ s h. (blocks (s.memory 4128) (ap (λ m. m 4128) h ∙ place)).0;
      types_known = λ s h. (blocks (s.memory 4128) (ap (λ m. m 4128) h ∙ place)).1;
      sections_stay = λ s h. stays (s.memory 4097) (ap (λ m. m 4097) h ∙ kind);
    }

none_at : (b : ℕ) → b ≡ 6 → (if b == 6 then [] else imported_at b) ≡ []
none_at b h = rw h refl

no_imports : (s : Machine) → s.memory ≡ copied → exporting.import_descriptors s ≡ []
no_imports s h =
    let (base, kind, more, thunk, place) = copied_bytes in
    none_at (s.memory 4099) (ap (λ m. m 4099) h ∙ thunk)

exports :
    (s : Machine)
    → ((a : ℕ) → Within 4096 64 a → s.memory a ≡ copied a)
    → exporting.export_directory s ≡ directory_at 19
exports s h =
    let (base, kind, more, thunk, place) = copied_bytes in
    ap directory_at (h 4128 (omega arith, omega arith) ∙ place)

unmoved :
    (mem size access : ℕ) (s : Machine)
    → Neutral.Unmoved machine-CopiesBytes s (machine_manager.set_access mem size access s)
unmoved mem size access s = (refl, λ a. refl)

-- A module is its name; none knows a symbol.
abbrev behind : String → Module Machine
behind mod_name = record { get_data = λ name. pure 0 }

abbrev every_module : ModuleProvider Machine String
every_module = record { get_module = λ name. pure (some name) }

abbrev start : Machine
start = record { memory = counting; modules = ("kernel32", none) ∷ [] }

-- The DLL accepts what it is told.
abbrev accepting : DllCode Machine
accepting = record {
  tls_fn = λ fn base event reserved. pure tt;
  dll_main = λ fn base event reserved. pure 1;
}

abbrev host : Process Machine
host = record {
  memory_manager = machine_manager;
  register_exception_table = λ base table size. pure tt;
  deregister_exception_table = λ table. pure tt;
}

initialized_ok :
    (s : Machine)
    → initialize_dll accepting exporting host (memory_block machine_manager 4096 64) s
      ≡ (ok true, s)
unfolding initialize_dll
initialized_ok s = refl

abbrev cache : ModuleProvider Machine (Module Machine)
cache = cache_of behind modules_cell every_module

load_module-get_data_example :
    let r =
      load_module surroundings accepting behind modules_cell true false file_image file_image
        every_module host start in
    (r.0 ≡ ok (some (owned_pe_module surroundings host 4096 64 cache)))
    × (get_symbol (owned_pe_module surroundings host 4096 64 cache) "sample_data" r.1
        ≡ (ok (4096 + 36), r.1))
    × (load_bytes r.1.memory (4096 + 36) 4 ≡ load_bytes file 20 4)
load_module-get_data_example =
    Found.load_module-get_data host machine-CopiesBytes unmoved behind modules_cell every_module
      surroundings zeros_sized 4096 64 (omega arith) (omega arith) (omega arith) refl file_image
      file file_image-ReadsFile (λ a. omega arith) refl (omega arith) (omega arith, tt) accepting
      "sample_data" (exported_at 19) 4 section false true file_image start
      (record start { modules = [] }) (Within 4096 64) settled no_imports
      (record {
        find = λ name. some (exported_at 19);
        before = [];
        after = [];
        directory = exports;
        data_kept = λ a h. omega (arith, h);
        found = refl;
        here = refl;
        sections = refl;
        starts = omega arith;
        ends = omega arith;
        uncovered = tt;
      })
      refl (λ a. omega arith) (λ s h. ap (λ r. r.0) (initialized_ok s))
      (λ s h a within. ap (λ r. r.1.memory a) (initialized_ok s) ∙ ap (λ m. m a) h)
