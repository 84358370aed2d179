-- ===== src/Module/Forwarder.antt =====
-- parse_pe_forwarder_string of src/pe/load_module.cpp: "module.procedure", split at the first dot.
-- A string is walked character by character; a std::string of ASCII has one byte for each.
use Prim.Native.Char.{Char, code}
use Prim.Native.String.{String}
use native.Mathlib.Numerals.{add-one}
use libload.Common.{
  ◌∙◌, ℕ, zero, suc, ◌+◌, ◌≡◌, refl, ap, Option, none, some, Bool, false, arith, ◌==◌, ◌||◌,
  if◌then◌else◌,
}

abbrev pub dot : Char
dot = "."

abbrev is_dot : Char → Bool
is_dot c = code c == 46

-- std::string_view::find of a character.
unfoldable pub find_dot : String → Option ℕ
find_dot String.[] = none
find_dot (String.◌∷◌ c s) =
    if is_dot c then some 0 else elim (find_dot s) [ none ↦ none | some n ↦ some (suc n) ]

-- substr(0, n) and substr(n).
unfoldable pub take_str : ℕ → String → String
take_str zero s = String.[]
take_str (suc n) String.[] = String.[]
take_str (suc n) (String.◌∷◌ c s) = String.◌∷◌ c (take_str n s)

unfoldable pub drop_str : ℕ → String → String
drop_str zero s = s
drop_str (suc n) String.[] = String.[]
drop_str (suc n) (String.◌∷◌ c s) = drop_str n s

abbrev pub split_at : Option ℕ → String → Option (String × String)
split_at none fwd_string = none
split_at (some dot_pos) fwd_string =
    some (take_str dot_pos fwd_string, drop_str (dot_pos + 1) fwd_string)

unfoldable pub parse_pe_forwarder_string : String → Option (String × String)
parse_pe_forwarder_string fwd_string = split_at (find_dot fwd_string) fwd_string

-- One string behind another.
unfoldable pub join : String → String → String
join String.[] t = t
join (String.◌∷◌ c s) t = String.◌∷◌ c (join s t)

unfoldable pub has_dot : String → Bool
has_dot String.[] = false
has_dot (String.◌∷◌ c s) = is_dot c || has_dot s

len : String → ℕ
len String.[] = 0
len (String.◌∷◌ c s) = suc (len s)

find_dot-join :
    (m p : String) → has_dot m ≡ false → find_dot (join m (String.◌∷◌ dot p)) ≡ some (len m)
unfolding find_dot join has_dot len
find_dot-join String.[] p h = refl
find_dot-join (String.◌∷◌ c m) p h = ground (arith, find_dot-join m p)

take_str-join : (m t : String) → take_str (len m) (join m t) ≡ m
unfolding take_str join len
take_str-join String.[] t = refl
take_str-join (String.◌∷◌ c m) t = ap (String.◌∷◌ c) (take_str-join m t)

drop_str-join : (m p : String) (c : Char) → drop_str (suc (len m)) (join m (String.◌∷◌ c p)) ≡ p
unfolding drop_str join len
drop_str-join String.[] p c = refl
drop_str-join (String.◌∷◌ d m) p c = drop_str-join m p c

-- A module name without a dot, a dot, and any procedure name are parsed into the two names.
pub parse-join :
    (m p : String)
    → has_dot m ≡ false
    → parse_pe_forwarder_string (join m (String.◌∷◌ dot p)) ≡ some (m, p)
unfolding parse_pe_forwarder_string
parse-join m p h =
    ap (λ o. split_at o (join m (String.◌∷◌ dot p))) (find_dot-join m p h)
    ∙ cc (add-one (len m), take_str-join m (String.◌∷◌ dot p), drop_str-join m p dot)

find_dot-has_dot : (s : String) → has_dot s ≡ false → find_dot s ≡ none
unfolding find_dot has_dot
find_dot-has_dot String.[] h = refl
find_dot-has_dot (String.◌∷◌ c s) h = ground (arith, find_dot-has_dot s)

-- A string without a dot is refused.
pub parse-none : (s : String) → has_dot s ≡ false → parse_pe_forwarder_string s ≡ none
unfolding parse_pe_forwarder_string
parse-none s h = ap (λ o. split_at o s) (find_dot-has_dot s h)
