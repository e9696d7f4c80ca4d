-- ===== src/Kube/Store.antt =====
-- A concrete cluster, at which theorems about every API server are tried out: one managed object and
-- a list of Pods.
use kubernetes_examples.Prelude.{
  Bool, true, false, List, [], ◌∷◌, ◌++◌, Option, none, some, String, if◌then◌else◌, str_eq,
}
use kubernetes_examples.Kube.Objects.{Pod}
use kubernetes_examples.Kube.Effect.{not_found, already_exists, Result, ok, err}
use kubernetes_examples.Kube.Client.{Client, MetaLib}

pub record Store (T : Type 0) : Type 0 where
  pub object : Option T
  pub pods : List Pod

unfoldable pub has_pod : String → List Pod → Bool
has_pod name [] = false
has_pod name (p ∷ ps) = let rest = has_pod name ps in if str_eq p.meta.name name then true else rest

unfoldable pub drop_pod : String → List Pod → List Pod
drop_pod name [] = []
drop_pod name (p ∷ ps) = if str_eq p.meta.name name then ps else p ∷ drop_pod name ps

abbrev pub found : {T : Type 0} → Option T → Result T
found none = err (not_found "no object")
found (some x) = ok x

unfoldable pub store_client : {T : Type 0} → Client (Store T) T
unfolding has_pod drop_pod
store_client = record {
  get = λ key s. (found s.object, s);
  update = λ x s. (none, record s { object = some x });
  update_status = λ x s. (none, record s { object = some x });
  list = λ ns labels s. (ok s.pods, s);
  create = λ p s.
      if has_pod p.meta.name s.pods
      then (some (already_exists "pod exists"), s)
      else (none, record s { pods = s.pods ++ p ∷ [] });
  delete = λ p s.
      if has_pod p.meta.name s.pods
      then (none, record s { pods = drop_pod p.meta.name s.pods })
      else (some (not_found "no pod"), s);
}

unfoldable pub member : String → List String → Bool
member f [] = false
member f (g ∷ gs) = let rest = member f gs in if str_eq g f then true else rest

unfoldable pub without : String → List String → List String
without f [] = []
without f (g ∷ gs) = let rest = without f gs in if str_eq g f then rest else g ∷ rest

unfoldable pub plain_meta : MetaLib
unfolding member without
plain_meta = record {
  contains_finalizer = λ m f. member f m.finalizers;
  add_finalizer = λ m f. record m { finalizers = m.finalizers ++ f ∷ [] };
  remove_finalizer = λ m f. record m { finalizers = without f m.finalizers };
  new_controller_ref = λ m kind. record {
    owner_kind = kind;
    owner_name = m.name;
    owner_uid = m.uid;
    controller = true;
  };
}
