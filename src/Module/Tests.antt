-- ===== src/Module/Tests.antt =====
-- The theorems on modules and caches at a small state, and runs of src/module_provider.cpp and
-- src/pe/load_module.cpp.
use mathlib.Core.Path.{refl}
use Prim.Native.String.{String}
use text.Mathlib.Text.{◌==◌ as str_eq}
use libload.Common.{
  Bool, ltb, if◌then◌else◌, ◌*◌, ℕ, suc, ◌≡◌, List, [], ◌∷◌, Option, none, some, Result, ok, throw,
  Error, false, true,
}
use libload.Module.Entries.{lookup, insert_or_assign}
use libload.Module.Provider.{Module, ModuleProvider, MapCell, WeakPointers, module_cache_get}
use libload.Module.Cache.{Assigns}
use libload.Module.Coherence.{visited, module_cache_get-stays}
use libload.Module.Forwarder.{parse_pe_forwarder_string, parse-join, join, has_dot}
use libload.Module.Symbols.{ExportInfo}

-- The state: how often the provider was called, and the map of a cache. A module is a number.
abbrev World : Type 0
World = ℕ × List (String × Option ℕ)

abbrev world_cell : MapCell World (Option ℕ)
world_cell = record { entries = λ s. s.1; assign = λ m s. (s.0, m) }

abbrev world_cell-Assigns : Assigns world_cell
world_cell-Assigns m s = refl

-- A provider that counts its calls, knows one module, and throws for another name.
abbrev answer : Bool → Bool → Result (Option ℕ)
answer true b = ok (some 7)
answer false true = throw Error.runtime_error
answer false false = ok none

abbrev provider : ModuleProvider World ℕ
provider = record {
  get_module = λ name s. (answer (str_eq name "kernel32") (str_eq name "broken"), (suc s.0, s.1));
}

abbrev kernel32 : List (String × Option ℕ)
kernel32 = ("kernel32", some 7) ∷ []

-- Calls for another name, and for one that the provider throws for.
module_cache_get-stays_example :
    let later =
      visited world_cell world_cell-Assigns provider
        (λ name s. refl)
        ("kernel32" ∷ "broken" ∷ [])
        (1, ("user32", none) ∷ []) in
    module_cache_get world_cell provider "user32" later ≡ (ok none, later)
unfolding module_cache_get lookup insert_or_assign
module_cache_get-stays_example =
    module_cache_get-stays world_cell world_cell-Assigns provider (λ name s. refl) "user32"
      ("kernel32" ∷ "broken" ∷ []) (0, []) (1, ("user32", none) ∷ []) none refl

-- Weak pointers to modules that live as long as their numbers are below a bound.
abbrev WeakWorld : Type 0
WeakWorld = ℕ × List (String × Option ℕ)

abbrev alive : ℕ → Option ℕ → Option ℕ
alive bound none = none
alive bound (some m) = if ltb m bound then some m else none

abbrev weak_pointers : WeakPointers WeakWorld ℕ
weak_pointers = record { WeakPtr = Option ℕ; weak = λ m. m; lock = λ w s. alive s.0 w }

parse-join_example : parse_pe_forwarder_string "ntdll.Rtl.Alloc" ≡ some ("ntdll", "Rtl.Alloc")
unfolding join has_dot
parse-join_example = parse-join "ntdll" "Rtl.Alloc" refl

-- Each module has every symbol, at an address in its own pages.
abbrev pages : ℕ → Module World
pages m = record { get_data = λ name s. (ok (m * 4096), s) }

abbrev heap_alloc : ExportInfo
heap_alloc = record { is_forwarded = true; address = 16; forwarder_string = "kernel32.Alloc" }
