-- ===== src/ClientExamples/ConfigMaps.antt =====
-- The clients of client-go for ConfigMaps, which the programs call and do not implement.
use kubernetes_examples.Prelude.{
  String, Bool, true, false, ◌≡◌, List, Option, none, StringMap, if◌then◌else◌, str_eq,
}
use kubernetes_examples.Prelude.Results.{Attempt, ok, Run, returned, panicked}

-- A ConfigMap, as far as the programs look into it; `data'` is none where the object has no data.
pub record ConfigMap : Type 0 where
  pub namespace : String
  pub name : String
  pub generate_name : String
  pub labels : StringMap
  pub data' : Option StringMap

-- The clients take the namespace first. The lister reads the cache of an informer, which may not have been
-- filled when the program gives up waiting; a selector that does not parse counts as its error.
pub record ConfigMapClient (W : Type 0) : Type 0 where
  pub create : String → ConfigMap → W → Attempt ConfigMap × W
  pub get : String → String → W → Attempt ConfigMap × W
  pub update : String → ConfigMap → W → Attempt ConfigMap × W
  pub delete : String → String → W → Option String × W
  pub synced : W → Bool
  pub lister_list : StringMap → W → Attempt (List ConfigMap)

-- A server that answers every call, in one namespace: `exists` tells which names are taken there. It makes
-- up a name that is free for an object that is created with a prefix, and deletes an object that is there.
pub record HealthyServer {W : Type 0} (client : ConfigMapClient W) (namespace : String)
    : Type 0 where
  pub exists : String → W → Bool
  pub create-made :
      (cm : ConfigMap) (w : W)
      → (made : ConfigMap) × (w' : W) × (client.create namespace cm w ≡ (ok made, w'))
        × (made.namespace ≡ namespace)
        × (exists made.name w ≡ false)
        × ((m : String) → exists m w' ≡ (if str_eq made.name m then true else exists m w))
  pub delete-gone :
      (name : String) (w : W)
      → exists name w ≡ true
      → (w' : W) × (client.delete namespace name w ≡ (none, w'))
        × ((m : String) → exists m w' ≡ (if str_eq name m then false else exists m w))

-- A program that may panic.
abbrev pub Script : Type 0 → Type 0 → Type 0
Script W A = W → Run A × W

module _ {W : Type 0} where
  abbrev pub return : {A : Type 0} → A → Script W A
  return a w = (returned a, w)

  abbrev pub panic : {A : Type 0} → Script W A
  panic w = (panicked, w)

  abbrev pub after_run : {A B : Type 0} → Run A → W → (A → Script W B) → Run B × W
  after_run (returned a) w f = f a w
  after_run panicked w f = (panicked, w)

  infixl 5 ◌>>=◌ ◌>>◌
  abbrev pub ◌>>=◌ : {A B : Type 0} → Script W A → (A → Script W B) → Script W B
  ◌>>=◌ m f w = let (r, w') = m w in after_run r w' f

  abbrev pub ◌>>◌ : {B : Type 0} → Script W (Unit {0}) → Script W B → Script W B
  m >> k = m >>= λ _. k
