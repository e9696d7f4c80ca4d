-- ===== src/ClientExamples/Deployments.antt =====
-- The client of client-go for Deployments, and `retry.RetryOnConflict`, which the programs call and do not implement.
use kubernetes_examples.Prelude.{refl, ◌⊎◌, inl, inr, String, ◌≡◌, List, Option, some, StringMap}
use kubernetes_examples.Prelude.Int.{ℤ}
use kubernetes_examples.Prelude.Results.{Run, returned}
use kubernetes_examples.ClientExamples.ConfigMaps.{Script}

pub record ContainerPort : Type 0 where
  pub port_name : String
  pub protocol : String
  pub container_port : ℤ

pub record Container : Type 0 where
  pub name : String
  pub image : String
  pub ports : List ContainerPort

-- `appsv1.Deployment`: the fields that programs set, the version that the server gives, and all else.
pub record Deployment : Type 0 where
  pub name : String
  pub resource_version : String
  pub replicas : Option ℤ
  pub match_labels : StringMap
  pub template_labels : StringMap
  pub containers : List Container
  pub other : List (String × String)

-- An error of a call, as far as `errors.IsConflict` and `errors.IsNotFound` look into it.
pub data CallError : Type 0 where
  conflict : String → CallError
  not_found : String → CallError
  failure : String → CallError

pub data Reply {ℓ} (A : Type ℓ) : Type ℓ where
  ok : A → Reply A
  err : CallError → Reply A

pub Reply-cases {ℓ} :
    {A : Type ℓ} (r : Reply A) → ((a : A) × (r ≡ ok a)) ⊎ ((e : CallError) × (r ≡ err e))
Reply-cases (ok a) = inl (a, refl)
Reply-cases (err e) = inr (e, refl)

-- `metav1.DeletionPropagation`
pub data Propagation : Type 0 where
  by_default : Propagation
  foreground : Propagation

-- The client of one namespace.
pub record DeploymentClient (W : Type 0) : Type 0 where
  pub create : Deployment → W → Reply Deployment × W
  pub get : String → W → Reply Deployment × W
  pub update : Deployment → W → Reply Deployment × W
  pub list : W → Reply (List Deployment) × W
  pub delete : String → Propagation → W → Option CallError × W

-- A function that `RetryOnConflict` runs: it returns an error or none, or panics.
abbrev pub Trial : Type 0 → Type 0
Trial W = Script W (Option CallError)

-- What `RetryOnConflict` documents: the function is run; it may be run again, after a pause in which others
-- do as they like, where it has returned a conflict; the last run counts.
pub data Retried {W : Type 0} (trial : Trial W) : W → Run (Option CallError) → W → Type 0 where
  last : (w : W) → Retried trial w (trial w).0 (trial w).1
  again :
      {w u w' : W} {r : Run (Option CallError)} (text : String)
      → (trial w).0 ≡ returned (some (conflict text))
      → Retried trial u r w'
      → Retried trial w r w'

pub record Retry (W : Type 0) : Type 0 where
  pub retry_on_conflict : Trial W → Trial W
  pub as_documented :
      (trial : Trial W) (w : W)
      → Retried trial w (retry_on_conflict trial w).0 (retry_on_conflict trial w).1
