-- ===== src/FinalizerExample/Laws.antt =====
-- The finalizer outlives the Pods, and one Pod is kept.
use kubernetes_examples.Prelude.{
  false, ℕ, ◌*◌, ◌≤◌, ◌≢◌, ◌≡◌, refl, List, [], ◌∷◌, some, append-nil, arith, true, length, inl,
  inr, ◌⊎◌,
}
use kubernetes_examples.Prelude.Int.{int32_max, to_int32-pos}
use kubernetes_examples.Kube.Objects.{Pod, NamespacedName, GroupVersionKind}
use kubernetes_examples.Kube.Effect.{done, ok, Outcome-cases}
use kubernetes_examples.Kube.Client.{CtrlResult, second, Client, MetaLib}
use kubernetes_examples.Kube.Trace.{creates, deletes, updates, updates-append}
use kubernetes_examples.FinalizerExample.Controller.{
  SimpleApp, finalizer_name, pod_labels, new_pod, ensure_pod, reconcile_pods, tolerate_missing,
  delete_pods, cleanup_external_resources, release, wait_or_release, clean_up, handle_deletion,
  reconcile, reconcile_found, reconcile_got,
}

module _ {W : Type 0} (api : Client W SimpleApp) (lib : MetaLib) (kind : GroupVersionKind) where
  delete_pods-deletes :
      (items : List Pod) (w : W)
      → (delete_pods api lib kind items w).0 ≡ done tt
      → deletes (delete_pods api lib kind items w).1 ≡ items
  unfolding delete_pods tolerate_missing deletes
  delete_pods-deletes [] w h = refl
  delete_pods-deletes (p ∷ ps) w h = ground (arith, delete_pods-deletes ps (api.delete p w).1)

  delete_pods-updates :
      (items : List Pod) (w : W) → updates (delete_pods api lib kind items w).1 ≡ []
  unfolding delete_pods tolerate_missing updates
  delete_pods-updates [] w = refl
  delete_pods-updates (p ∷ ps) w = ground (arith, delete_pods-updates ps (api.delete p w).1)

  module _ (req : NamespacedName) (app : SimpleApp) (time : ℕ) (items : List Pod) (w : W)
      (got : (api.get req w).0 ≡ ok app) (deleting : app.meta.deletion_timestamp ≡ some time)
      (owned : lib.contains_finalizer app.meta finalizer_name ≡ true)
      (listed : (api.list app.meta.namespace (pod_labels app) (api.get req w).1).0 ≡ ok items) where
    found_deleting : (v : W) → reconcile_found api lib kind app v ≡ clean_up api lib kind app v
    unfolding reconcile_found handle_deletion
    found_deleting v = ground arith

    waits :
        items ≢ []
        → (v : W)
        → wait_or_release api lib kind app items v
          ≡ (done (record { requeue = false; requeue_after = 5 * second }), [], v)
    unfolding wait_or_release
    waits some_left v = ground arith

    -- While Pods are listed for a SimpleApp that is being deleted, `Reconcile` keeps the finalizer: it
    -- sends no update, whatever the deletions answer; and where it ends with no error it has asked
    -- for the deletion of every listed Pod, in order, and comes back in five seconds.
    pub finalizer_waits_for_pods :
        items ≢ []
        → let run = reconcile api lib kind req w in
          (updates run.1 ≡ [])
          × ((r : CtrlResult)
              → run.0 ≡ done r
              → (deletes run.1 ≡ items) × (r.requeue_after ≡ 5 * second))
    unfolding reconcile reconcile_got clean_up updates deletes
    finalizer_waits_for_pods some_left =
        let w1 = (api.list app.meta.namespace (pod_labels app) (api.get req w).1).1 in
        rw (got, found_deleting, listed)
          (elim (Outcome-cases (delete_pods api lib kind items w1).0) [
            | inl (_, e) ↦ rw e (
              simp (waits some_left _, updates-append, delete_pods-updates items w1),
              λ r h. (
                simp (waits some_left _, append-nil) (delete_pods-deletes items w1 e),
                ground (arith, h, waits some_left (delete_pods api lib kind items w1).2),
              ),
            )
            | inr (inl (x, e)) ↦ rw e (delete_pods-updates items w1, λ r h. cc)
            | inr (inr e) ↦ rw e (delete_pods-updates items w1, λ r h. cc)
          ])

    -- Once no Pod is listed it asks for no deletion and sends exactly one update, which
    -- removes the finalizer.
    finalizer_goes_last :
        items ≡ []
        → let run = reconcile api lib kind req w in
          (deletes run.1 ≡ [])
          × (updates run.1
              ≡ record app { meta = lib.remove_finalizer app.meta finalizer_name } ∷ [])
    unfolding reconcile reconcile_got clean_up updates deletes release cleanup_external_resources
        wait_or_release delete_pods
    finalizer_goes_last none_left = rw (got, found_deleting, listed, none_left) (ground arith)

  -- `reconcilePods` asks for a Pod exactly where none is listed: then for one, and never for a second.
  one_pod_kept :
      (app : SimpleApp) (items : List Pod) (w : W)
      → (api.list app.meta.namespace (pod_labels app) w).0 ≡ ok items
      → length items ≤ int32_max
      → let run = reconcile_pods api lib kind app w in
        ((items ≡ []) × (creates run.1 ≡ new_pod lib kind app ∷ []))
        ⊎ ((items ≢ []) × (creates run.1 ≡ []))
  unfolding reconcile_pods ensure_pod creates
  one_pod_kept app [] w listed fits = ground (arith, to_int32-pos 0)
  one_pod_kept app (p ∷ ps) w listed fits = ground (arith, to_int32-pos (length (p ∷ ps)))
