-- ===== src/Pe/LifeTests.antt =====
-- The theorems on allocations over the life of a module, at a small image.
use mathlib.Core.Path.{refl}
use Prim.Native.String.{String}
use libload.Common.{
  ◌≡◌, some, ok, ℕ, List, [], ◌∷◌, true, false, pure, Leaves, Leaves-pure, Option, ◌>>=◌,
}
use libload.Memory.Ledger.{Ledger, ledger_manager, ledger-Tracks}
use libload.Memory.Owns.{Owns}
use libload.Module.Entries.{lookup}
use libload.Module.Provider.{module_cache_get, Module, ModuleProvider, MapCell}
use libload.Pe.Format.{FileImage}
use libload.Pe.Load.{Surroundings, load_pe_image}
use libload.Pe.Process.{Process, DllCode}
use libload.Pe.LoadModule.{load_pe_module, destroy_module, cache_of}
use libload.Pe.Quiet.{ReadsQuietly, AnswersQuietly}
use libload.Pe.Balance.{load_pe_image-Owns}
use libload.Pe.Life.{RunsQuietly, module_life-Leaves}
use libload.Pe.LoadTests.{header, section, flags, in_memory, zeros, nothing_provided}

abbrev all_live : Ledger → List (ℕ × ℕ)
all_live s = s

abbrev file_image : FileImage Ledger
file_image = record {
  optional_header = header;
  section_headers = section ∷ [];
  read = λ offset size buf. pure (zeros size);
  read_into = λ offset size mem. pure tt;
}

file_image-ReadsQuietly : ReadsQuietly all_live file_image
file_image-ReadsQuietly = record {
  read_lem = λ offset size buf. Leaves-pure _;
  read_into_lem = λ offset size mem. Leaves-pure _;
}

-- The memory of the current process is of the same kind.
abbrev surroundings : Surroundings Ledger
surroundings = record {
  current = ledger_manager true;
  local = record { load = λ p n s. zeros n; store = λ p bs s. s };
  uninit = zeros;
  flags = flags;
  virtual_image = λ block. in_memory;
}

nothing-AnswersQuietly : AnswersQuietly all_live nothing_provided
nothing-AnswersQuietly = record {
  get_module_lem = λ name. Leaves-pure _;
  get_data_lem = λ name symbol m s h. absurd (cc);
}

-- Through local copies, with one allocation alive before.
load_pe_image-Owns_example :
    Owns
      (ledger-Tracks false)
      64
      ((8, 16) ∷ [])
      (load_pe_image surroundings file_image (ledger_manager false) nothing_provided ((8, 16) ∷ []))
load_pe_image-Owns_example =
    load_pe_image-Owns surroundings (ledger-Tracks true) (λ mem bytes s. refl)
      file_image-ReadsQuietly (ledger-Tracks false) nothing-AnswersQuietly ((8, 16) ∷ [])

abbrev process : Process Ledger
process = record {
  memory_manager = ledger_manager true;
  register_exception_table = λ base table size. pure tt;
  deregister_exception_table = λ table. pure tt;
}

abbrev dll_code : DllCode Ledger
dll_code = record {
  tls_fn = λ fn base event reserved. pure tt;
  dll_main = λ fn base event reserved. pure 1;
}

dll_code-RunsQuietly : RunsQuietly all_live dll_code process
dll_code-RunsQuietly = record {
  tls_fn_lem = λ fn base reserved event. Leaves-pure _;
  dll_main_lem = λ fn base reserved event. Leaves-pure _;
  register_lem = λ base table size. Leaves-pure _;
  deregister_lem = λ table. Leaves-pure _;
}

abbrev no_cell : MapCell Ledger (Option ℕ)
no_cell = record { entries = λ s. []; assign = λ m s. s }

abbrev one_symbol : ℕ → Module Ledger
one_symbol m = record { get_data = λ name. pure 4242 }

abbrev one_module : ModuleProvider Ledger ℕ
one_module = record { get_module = λ name. pure (some 0) }

some_of_ok : {m m' : Module Ledger} → ok (some m) ≡ ok (some m') → m ≡ m'
some_of_ok h = cc

answers :
    {symbol : String} (m : Module Ledger) → one_symbol 0 ≡ m → Leaves all_live (m.get_data symbol)
answers {symbol} m same = rw (← same) (Leaves-pure _)

one-AnswersQuietly : AnswersQuietly all_live (cache_of one_symbol no_cell one_module)
unfolding module_cache_get lookup
one-AnswersQuietly = record {
  get_module_lem = λ name. record { at = λ s. refl };
  get_data_lem = λ name symbol m s h. answers m (some_of_ok h);
}

module_life-Leaves_example : Leaves all_live (
    load_pe_module surroundings dll_code one_symbol no_cell file_image one_module process
    >>= λ loaded. destroy_module surroundings dll_code no_cell loaded)
module_life-Leaves_example =
    module_life-Leaves surroundings (ledger-Tracks true) (λ mem bytes s. refl)
      file_image-ReadsQuietly (ledger-Tracks true) dll_code-RunsQuietly one_symbol no_cell
      (λ m s. refl) one_module one-AnswersQuietly
