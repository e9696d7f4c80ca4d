-- ===== src/PodOperator/Lifecycle.antt =====
-- The life of one PodManager and its Pods: what its controller relies on, and what may happen beside it.
use kubernetes_examples.Prelude.{
  StringMap, String, true, ◌≡◌, List, [], Option, none, some, Mem, ◌⊎◌,
}
use kubernetes_examples.Kube.Objects.{Pod, NamespacedName}
use kubernetes_examples.Kube.Effect.{ApiError, ok, is_not_found}
use kubernetes_examples.Kube.Client.{Client, MetaLib}
use kubernetes_examples.PodOperator.Types.{PodManager}
use kubernetes_examples.PodOperator.Controller.{finalizer_name, owner_labels, reconcile}

-- A deletion that has succeeded, or has found no Pod.
abbrev pub IsTolerated : Option ApiError → Type 0
IsTolerated none = Unit {0}
IsTolerated (some e) = is_not_found e ≡ true

-- The PodManager is stored and bears the finalizer.
abbrev pub IsGuarded : {W : Type 0} → MetaLib → (W → Option PodManager) → W → Type 0
IsGuarded lib stored w =
    (pm : PodManager) × (stored w ≡ some pm)
    × (lib.contains_finalizer pm.meta finalizer_name ≡ true)

-- What others may do at any time: Pods may go, and all may change but that the finalizer stays.
abbrev pub IsQuiet :
    {W : Type 0} → MetaLib → (W → Option PodManager) → (W → List String) → W → W → Type 0
IsQuiet lib stored alive w w' =
    (IsGuarded lib stored w → IsGuarded lib stored w')
    × ((name : String) → Mem name (alive w') → Mem name (alive w))

module _ {W : Type 0} (api : Client W PodManager) (lib : MetaLib) (req : NamespacedName) where
  -- One controller, whose reads are up to date. `stored` is the PodManager of the request, `uid` its UID, and `alive` names
  -- its Pods that are not being deleted. Beside each call the others may do what `IsQuiet` allows. A new Pod
  -- may add a name; a Pod whose deletion is tolerated is alive no more; the finalizer goes only by an update
  -- that does not bear it.
  pub record OwnServer : Type 0 where
    pub uid : String
    pub stored : W → Option PodManager
    pub alive : W → List String
    pub get-quiet : (w : W) → IsQuiet lib stored alive w (api.get req w).1
    pub get-found :
        (pm : PodManager) (w : W)
        → (api.get req w).0 ≡ ok pm
        → (pm.meta.name ≡ req.name)
          × (pm.meta.namespace ≡ req.namespace)
          × (pm.meta.uid ≡ uid)
          × (lib.contains_finalizer pm.meta finalizer_name ≡ true
              → IsGuarded lib stored (api.get req w).1)
    pub list-quiet :
        (namespace : String) (labels : StringMap) (w : W)
        → IsQuiet lib stored alive w (api.list namespace labels w).1
    pub list-complete :
        (pm : PodManager) (items : List Pod) (w : W)
        → pm.meta.name ≡ req.name
        → pm.meta.namespace ≡ req.namespace
        → pm.meta.uid ≡ uid
        → (api.list pm.meta.namespace (owner_labels pm) w).0 ≡ ok items
        → (name : String) → Mem name (alive (api.list pm.meta.namespace (owner_labels pm) w).1)
        → (p : Pod) × (p.meta.name ≡ name) × Mem p items
    pub create-guarded :
        (p : Pod) (w : W) → IsGuarded lib stored w → IsGuarded lib stored (api.create p w).1
    pub delete-quiet : (p : Pod) (w : W) → IsQuiet lib stored alive w (api.delete p w).1
    pub delete-gone :
        (p : Pod) (w : W)
        → IsTolerated (api.delete p w).0
        → Mem p.meta.name (alive (api.delete p w).1)
        → ⊥
    pub update-alive :
        (x : PodManager) (w : W) (name : String)
        → Mem name (alive (api.update x w).1)
        → Mem name (alive w)
    pub update-guarded :
        (x : PodManager) (w : W)
        → lib.contains_finalizer x.meta finalizer_name ≡ true
        → IsGuarded lib stored w
        → IsGuarded lib stored (api.update x w).1
    pub update_status-quiet :
        (x : PodManager) (w : W) → IsQuiet lib stored alive w (api.update_status x w).1

  module _ (server : OwnServer) where
    -- A reconciliation, or something that others do.
    pub data Step : W → W → Type 0 where
      reconciled : (w : W) → Step w (reconcile api lib req w).2
      others : {w w' : W} → IsQuiet lib server.stored server.alive w w' → Step w w'

    pub data Steps (w : W) : W → Type 0 where
      start : Steps w w
      next : {u v : W} → Steps w u → Step u v → Steps w v

    -- A Pod is alive only while the PodManager is stored and bears the finalizer.
    abbrev pub IsOwned : W → Type 0
    IsOwned w = (server.alive w ≡ []) ⊎ IsGuarded lib server.stored w
