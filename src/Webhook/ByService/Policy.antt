-- ===== src/Webhook/ByService/Policy.antt =====
-- webhook.go: whether an object is to be mutated or validated at all.
use Prim.Native.Char.{code}
use Prim.Native.String.{String}
use kubernetes_examples.Prelude.{
  ℕ, ◌+◌, Bool, true, false, ◌&&◌, ◌||◌, List, [], ◌∷◌, if◌then◌else◌, leb, ◌==◌, str_eq, index,
  map,
}
use kubernetes_examples.Webhook.ByService.Review.{ObjectMeta, mutate_key, validate_key, status_key}

-- The code points of a text.
abbrev pub codes : String → List ℕ
codes String.[] = []
codes (String.◌∷◌ c s) = code c ∷ codes s

-- `strings.ToLower` on ASCII letters. Other letters are left as they are: none of them has a lower case
-- that occurs in the words below.
abbrev pub lower : ℕ → ℕ
lower c = if leb b'A' c && leb c b'Z' then c + 32 else c

abbrev pub same_codes : List ℕ → List ℕ → Bool
same_codes [] [] = true
same_codes [] (_ ∷ _) = false
same_codes (_ ∷ _) [] = false
same_codes (a ∷ as') (b ∷ bs) = let rest = same_codes as' bs in if a == b then rest else false

-- `strings.ToLower(s) == word`
unfoldable pub lower_is : String → String → Bool
lower_is s word = same_codes (map lower (codes s)) (codes word)

-- The words that switch an admission off.
unfoldable pub switched_off : String → Bool
switched_off s = lower_is s "n" || lower_is s "no" || lower_is s "false" || lower_is s "off"

-- The loop over the ignored namespaces.
unfoldable pub is_ignored : List String → String → Bool
is_ignored [] namespace = false
is_ignored (n ∷ ns) namespace =
    let rest = is_ignored ns namespace in if str_eq namespace n then true else rest

unfoldable pub admission_required : List String → String → ObjectMeta → Bool
admission_required ignored key meta =
    if is_ignored ignored meta.namespace
    then false
    else if switched_off (index key meta.annotations)
    then false
    else true

unfoldable pub mutation_required : List String → ObjectMeta → Bool
mutation_required ignored meta =
    let required = admission_required ignored mutate_key meta in
    if lower_is (index status_key meta.annotations) "mutated" then false else required

unfoldable pub validation_required : List String → ObjectMeta → Bool
validation_required ignored meta = admission_required ignored validate_key meta
