-- ===== src/Module/LinkingTests.antt =====
-- The theorems on forwarded exports at two modules that forward to one another, or one to the other.
use mathlib.Core.Path.{refl}
use Prim.Native.String.{String}
use libload.Common.{
  ℕ, ◌<◌, ◌≡◌, ◌≢◌, [], ◌∷◌, Bool, true, false, Option, none, some, ok, throw, Error, arith,
}
use libload.Module.Entries.{lookup}
use libload.Module.Provider.{MapCell, ModuleProvider, module_cache_get}
use libload.Module.Forwarder.{parse_pe_forwarder_string, find_dot, take_str, drop_str}
use libload.Module.Symbols.{ExportInfo, as_module, find_symbol}
use libload.Module.Linking.{
  LoadedImage, address, forward, unknown, target, linked, FoundWithin, linked-Resolves,
  linked-cycle,
}

-- A state without content, in which each cache holds both modules.
abbrev Nothing : Type 0
Nothing = Unit {0}

abbrev both : MapCell Nothing (Option Bool)
both = record { entries = λ s. ("front", some true) ∷ ("back", some false) ∷ []; assign = λ m s. s }

abbrev no_provider : ModuleProvider Nothing Bool
no_provider = record { get_module = λ name s. (ok none, s) }

abbrev own_export : ExportInfo
own_export = record { is_forwarded = false; address = 5; forwarder_string = "" }

abbrev forwarded_to : String → ExportInfo
forwarded_to symbol = record { is_forwarded = true; address = 0; forwarder_string = symbol }

abbrev image_with : ExportInfo → LoadedImage Nothing Bool
image_with info = record {
  image_mem = 4096;
  export_directory = some (λ name. some info);
  cell = both;
}

-- The module in front forwards every name to the one at the back, which exports it.
abbrev chained : Bool → LoadedImage Nothing Bool
chained true = image_with (forwarded_to "back.symbol")
chained false = image_with own_export

-- Each forwards to the other.
abbrev circular : Bool → LoadedImage Nothing Bool
circular true = image_with (forwarded_to "back.symbol")
circular false = image_with (forwarded_to "front.symbol")

abbrev rank : Bool → String → ℕ
rank true name = 1
rank false name = 0

front_target : (name : String) → target chained no_provider true name tt ≡ forward false "symbol"
unfolding target parse_pe_forwarder_string find_dot take_str drop_str lookup
front_target name = refl

back_target : (name : String) → target chained no_provider false name tt ≡ address 4101
unfolding target
back_target name = refl

rank_falls :
    (m m' : Bool) (name name' : String)
    → target chained no_provider m name tt ≡ forward m' name'
    → rank m' name' < rank m name
rank_falls true m' name name' e =
    let back : m' ≡ false = cc (front_target name) in rw back (omega arith)
rank_falls false m' name name' e = absurd (ground (arith, back_target name))

all_known : (m : Bool) (name : String) → target chained no_provider m name tt ≢ unknown
all_known true name = λ e. ground (arith, front_target name)
all_known false name = λ e. ground (arith, back_target name)

linked-Resolves_example :
    (a : ℕ) × FoundWithin chained no_provider tt (rank true "start") true "start" a
linked-Resolves_example =
    linked-Resolves chained no_provider tt rank rank_falls all_known true "start"

-- The symbol is at the address 4096 + 5, found in two nested calls.
chained_twice : (linked chained no_provider 2 true).get_data "start" tt ≡ (ok 4101, tt)
unfolding linked as_module find_symbol module_cache_get lookup parse_pe_forwarder_string find_dot
    take_str drop_str
chained_twice = refl

abbrev Any : Bool → String → Type 0
Any m name = Unit {0}

forwarded_on :
    (m : Bool) (name : String)
    → Any m name
    → (m' : Bool) × (name' : String) × (target circular no_provider m name tt ≡ forward m' name')
      × Any m' name'
unfolding target parse_pe_forwarder_string find_dot take_str drop_str lookup
forwarded_on true name h = (false, "symbol", refl, tt)
forwarded_on false name h = (true, "symbol", refl, tt)

linked-cycle_example :
    (linked circular no_provider 1000 true).get_data "start" tt ≡ (throw Error.undefined, tt)
linked-cycle_example = linked-cycle circular no_provider tt Any forwarded_on 1000 true "start" tt
