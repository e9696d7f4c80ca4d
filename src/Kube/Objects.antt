-- ===== src/Kube/Objects.antt =====
-- The fields of Kubernetes objects that the sources read or write. The types belong to k8s.io/api and
-- k8s.io/apimachinery; fields that no modelled function touches are left out.
use kubernetes_examples.Prelude.{ℕ, String, Bool, List, Option, StringMap}

pub record NamespacedName : Type 0 where
  pub namespace : String
  pub name : String

pub record GroupVersionKind : Type 0 where
  pub group : String
  pub version : String
  pub kind : String

pub record OwnerReference : Type 0 where
  pub owner_kind : GroupVersionKind
  pub owner_name : String
  pub owner_uid : String
  pub controller : Bool

pub record ObjectMeta : Type 0 where
  pub name : String
  pub namespace : String
  pub uid : String
  pub generation : ℕ
  pub labels : StringMap
  pub finalizers : List String
  pub deletion_timestamp : Option ℕ
  pub owner_references : List OwnerReference

pub record Container : Type 0 where
  pub name : String
  pub image : String
  pub container_ports : List ℕ

-- An entry of a Pod's `status.conditions`.
pub record PodStatusCondition : Type 0 where
  pub type : String
  pub status : String

pub record Pod : Type 0 where
  pub meta : ObjectMeta
  pub containers : List Container
  pub restart_policy : String
  pub phase : String
  pub conditions : List PodStatusCondition
