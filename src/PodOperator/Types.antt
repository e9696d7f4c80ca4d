-- ===== src/PodOperator/Types.antt =====
-- pod-operator/api/v1/podmanager_types.go and groupversion_info.go.
use kubernetes_examples.Prelude.{ℕ, String, List, [], ◌∷◌, if◌then◌else◌, str_eq}
use kubernetes_examples.Prelude.Int.{ℤ}
use kubernetes_examples.Kube.Objects.{ObjectMeta, GroupVersionKind}

pub record PodCondition : Type 0 where
  pub type : String
  pub status : String
  pub last_transition_time : ℕ
  pub message : String

pub record PodManagerSpec : Type 0 where
  pub replicas : ℤ  -- int32
  pub image : String

pub record PodManagerStatus : Type 0 where
  pub ready_replicas : ℤ  -- int32
  pub current_replicas : ℤ  -- int32
  pub conditions : List PodCondition

pub record PodManager : Type 0 where
  pub meta : ObjectMeta
  pub spec : PodManagerSpec
  pub status : PodManagerStatus

-- `appsv1.GroupVersion.WithKind("PodManager")`
abbrev pub pod_manager_kind : GroupVersionKind
pod_manager_kind = record { group = "apps.mycompany.com"; version = "v1"; kind = "PodManager" }

-- The loop of `SetCondition` over the conditions.
unfoldable pub set_in : PodCondition → List PodCondition → List PodCondition
set_in cond [] = cond ∷ []
set_in cond (c ∷ cs) =
    if str_eq c.type cond.type
    then (if str_eq c.status cond.status then c ∷ cs else cond ∷ cs)
    else c ∷ set_in cond cs

unfoldable pub set_condition : PodCondition → PodManagerStatus → PodManagerStatus
unfolding set_in
set_condition cond m = record m { conditions = set_in cond m.conditions }

-- The loop of `RemoveCondition`: the first entry of the type goes.
unfoldable pub remove_in : String → List PodCondition → List PodCondition
remove_in type [] = []
remove_in type (c ∷ cs) = if str_eq c.type type then cs else c ∷ remove_in type cs

unfoldable pub remove_condition : String → PodManagerStatus → PodManagerStatus
unfolding remove_in
remove_condition type m = record m { conditions = remove_in type m.conditions }
