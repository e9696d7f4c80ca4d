-- ===== src/PodOperator/Readiness.antt =====
-- Which Pods step 6 of `Reconcile` counts as ready, in words of its own.
use kubernetes_examples.Prelude.{
  ℕ, suc, ◌≡◌, ◌↔◌, refl, List, [], ◌∷◌, true, arith, str_eq_iff, Mem, inl, inr, Bool-cases,
}
use kubernetes_examples.Kube.Objects.{Pod, PodStatusCondition}
use kubernetes_examples.PodOperator.Controller.{
  is_ready_condition, has_ready, pod_is_ready, count_ready,
}

-- A Pod is ready if it is running and one of its conditions, any of them, is Ready with the status True.
unfoldable pub IsReady : Pod → Type 0
IsReady p =
    (p.phase ≡ "Running")
    × ((c : PodStatusCondition) × Mem c p.conditions × (c.type ≡ "Ready") × (c.status ≡ "True"))

-- So many of the Pods are ready.
pub data ReadyCount : List Pod → ℕ → Type 0 where
  no_pods : ReadyCount [] 0
  one_ready :
      {p : Pod} {ps : List Pod} {n : ℕ} → IsReady p → ReadyCount ps n → ReadyCount (p ∷ ps) (suc n)
  one_unready :
      {p : Pod} {ps : List Pod} {n : ℕ} → ¬ IsReady p → ReadyCount ps n → ReadyCount (p ∷ ps) n

is_ready_condition_iff :
    (c : PodStatusCondition)
    → (is_ready_condition c ≡ true) ↔ ((c.type ≡ "Ready") × (c.status ≡ "True"))
unfolding is_ready_condition
is_ready_condition_iff c = ground (arith, str_eq_iff c.type "Ready", str_eq_iff c.status "True")

has_ready_iff :
    (cs : List PodStatusCondition)
    → (has_ready cs ≡ true)
      ↔ ((c : PodStatusCondition) × Mem c cs × (c.type ≡ "Ready") × (c.status ≡ "True"))
unfolding has_ready Mem
has_ready_iff [] = (λ e. cc, λ (c, m, t, u). absurd m)
has_ready_iff (c ∷ cs) = elim (Bool-cases (is_ready_condition c)) [
  | inl e ↦
      let (t, u) = (is_ready_condition_iff c).0 e in (λ _. (c, inl refl, t, u), λ _. rw e refl)
  | inr e ↦ (
    λ h. let (d, m, t, u) = (has_ready_iff cs).0 (rw e at h) in (d, inr m, t, u),
    λ (d, m, t, u). elim m [
      | inl same ↦ cc (e, (is_ready_condition_iff c).1 (rw same at t, rw same at u))
      | inr m' ↦ rw e ((has_ready_iff cs).1 (d, m', t, u))
    ],
  )
]

pod_is_ready_iff : (p : Pod) → (pod_is_ready p ≡ true) ↔ IsReady p
unfolding pod_is_ready IsReady
pod_is_ready_iff p = ground (arith, str_eq_iff p.phase "Running", has_ready_iff p.conditions)

pub count_ready-ReadyCount : (ps : List Pod) → ReadyCount ps (count_ready ps)
unfolding count_ready
count_ready-ReadyCount [] = no_pods
count_ready-ReadyCount (p ∷ ps) = elim (Bool-cases (pod_is_ready p)) [
  | inl e ↦ rw e (one_ready ((pod_is_ready_iff p).0 e) (count_ready-ReadyCount ps))
  | inr e ↦ rw e (one_unready (λ r. cc (e, (pod_is_ready_iff p).1 r)) (count_ready-ReadyCount ps))
]
