-- ===== src/Module/Entries.antt =====
-- std::unordered_map from names, as an association list.
use Prim.Native.String.{String}
use text.Mathlib.Text.{◌==◌ as str_eq}
use text.Mathlib.TextEquality.{eq_iff}
use text.Mathlib.TextPositions.{eq_refl}
use libload.Common.{◌≡◌, refl, List, [], ◌∷◌, Option, none, some, arith, if◌then◌else◌}

module _ {V : Type 0} where
  unfoldable pub lookup : String → List (String × V) → Option V
  lookup name [] = none
  lookup name ((k, v) ∷ m) = if str_eq k name then some v else lookup name m

  unfoldable pub insert_or_assign : String → V → List (String × V) → List (String × V)
  insert_or_assign name v [] = (name, v) ∷ []
  insert_or_assign name v ((k, w) ∷ m) =
      if str_eq k name then (k, v) ∷ m else (k, w) ∷ insert_or_assign name v m

  -- The value that is put in is found under its name; under any other name, what was there.
  pub lookup-insert_or_assign :
      (name k : String) (v : V) (m : List (String × V))
      → lookup k (insert_or_assign name v m) ≡ (if str_eq name k then some v else lookup k m)
  unfolding lookup insert_or_assign
  lookup-insert_or_assign name k v [] = refl
  lookup-insert_or_assign name k v ((i, w) ∷ m) =
      ground (arith, eq_iff name k, eq_iff i name, eq_iff i k, lookup-insert_or_assign name k v m)

  pub lookup-insert_self :
      (name : String) (v : V) (m : List (String × V))
      → lookup name (insert_or_assign name v m) ≡ some v
  lookup-insert_self name v m = simp (lookup-insert_or_assign, eq_refl)
