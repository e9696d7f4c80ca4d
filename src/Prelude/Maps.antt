-- ===== src/Prelude/Maps.antt =====
-- Go's `map[string]string` as an association list: the first entry of a key is its value. A nil map
-- reads like an empty one.
use Prim.Native.String.{String}
use mathlib.Core.Path.{◌≡◌, refl}
use mathlib.Core.Bool.{Bool, true, false}
use mathlib.Core.Option.{Option, none, some}
use mathlib.Core.List.{List, [], ◌∷◌}
use native.Mathlib.Omega.{arith}
use kubernetes_examples.Prelude.Tests.{if◌then◌else◌, str_eq, str_eq_iff}

abbrev pub StringMap : Type 0
StringMap = List (String × String)

-- `m[key] = v`: the entry of the key is replaced where it stands, or added at the end.
unfoldable pub insert {ℓ} : {V : Type ℓ} → String → V → List (String × V) → List (String × V)
insert key v [] = (key, v) ∷ []
insert key v ((other, old) ∷ entries) =
    if str_eq other key then (key, v) ∷ entries else (other, old) ∷ insert key v entries

-- The value of the first entry of the key.
unfoldable pub lookup {ℓ} : {V : Type ℓ} → String → List (String × V) → Option V
lookup key [] = none
lookup key ((other, v) ∷ entries) = if str_eq other key then some v else lookup key entries

pub lookup-insert {ℓ} :
    {V : Type ℓ} (set read : String) (v : V) (entries : List (String × V))
    → lookup read (insert set v entries) ≡ (if str_eq set read then some v else lookup read entries)
unfolding insert lookup
lookup-insert set read v [] = refl
lookup-insert set read v ((other, old) ∷ entries) = ground (
  arith,
  lookup-insert set read v entries,
  str_eq_iff other set,
  str_eq_iff set read,
  str_eq_iff other read,
)

-- `_, ok := m[k]`
abbrev is_some {ℓ} : {A : Type ℓ} → Option A → Bool
is_some none = false
is_some (some _) = true

unfoldable pub has_key : String → StringMap → Bool
has_key k m = is_some (lookup k m)

-- `m[k]`, which is "" where the key is missing
abbrev text_or_empty : Option String → String
text_or_empty none = ""
text_or_empty (some v) = v

unfoldable pub index : String → StringMap → String
index k m = text_or_empty (lookup k m)
