-- ===== src/PodOperator/Status.antt =====
-- Step 6 of `Reconcile`: the status that is written, and when none is.
use kubernetes_examples.Prelude.{
  ℕ, suc, ◌*◌, ◌≡◌, refl, ◌∙◌, ◌↔◌, List, [], ◌∷◌, Option, none, some, arith, true, false,
  Option-cases, zero, inl, inr, str_eq, str_eq_iff, str_eq_refl, append-nil, length,
}
use kubernetes_examples.Prelude.Int.{ℤ, pos, eqb_ℤ_iff, ltb_ℤ, to_int32, rounds, suc_ℤ}
use kubernetes_examples.Kube.Objects.{Pod, NamespacedName}
use kubernetes_examples.Kube.Effect.{done, panic, ok, pure, ◌>>◌}
use kubernetes_examples.Kube.Client.{CtrlResult, second, Client, MetaLib}
use kubernetes_examples.Kube.Trace.{status_updates, status_updates-append}
use kubernetes_examples.PodOperator.Types.{PodManager, PodCondition}
use kubernetes_examples.PodOperator.Conditions.{find_condition, refreshed, set_condition-find}
use kubernetes_examples.PodOperator.Types.{set_condition}
use kubernetes_examples.PodOperator.Readiness.{ReadyCount, count_ready-ReadyCount}
use kubernetes_examples.PodOperator.Controller.{
  finalizer_name, owner_labels, count_ready, ready_condition, new_status, adjust_pods, sync_status,
  create_pods, delete_extra, report_created, report_deleted, item_at, manage_pods, reconcile,
  reconcile_found, reconcile_got, new_pod_for_pod_manager,
}

true_ne_false : str_eq "False" "True" ≡ false
unfolding str_eq
true_ne_false = refl

ready_condition-type :
    (ready desired : ℤ) (time : ℕ) → (ready_condition ready desired time).type ≡ "Ready"
unfolding ready_condition
ready_condition-type ready desired time = ground arith

ready_condition-status :
    (ready desired : ℤ) (time : ℕ)
    → ((ready_condition ready desired time).status ≡ "True")
      ↔ ((ready ≡ desired) × (ltb_ℤ (pos 0) desired ≡ true))
unfolding ready_condition
ready_condition-status ready desired time =
    ground (arith, eqb_ℤ_iff ready desired, str_eq_iff "False" "True", true_ne_false)

refreshed-status :
    (cond : PodCondition) (o : Option PodCondition) → (refreshed cond o).status ≡ cond.status
unfolding refreshed
refreshed-status cond none = refl
refreshed-status cond (some c) = ground (arith, str_eq_iff c.status cond.status)

-- The status that step 6 computes holds a Ready condition, whose status is True exactly when the number
-- of ready Pods is the number wanted and that is positive, whatever the conditions were before.
pub new_status-ready_iff :
    (pm : PodManager) (ready current : ℤ) (time : ℕ)
    → (c : PodCondition) × (find_condition "Ready" (new_status pm ready current time).conditions
        ≡ some c)
      × ((c.status ≡ "True")
          ↔ ((ready ≡ pm.spec.replicas) × (ltb_ℤ (pos 0) pm.spec.replicas ≡ true)))
unfolding new_status
new_status-ready_iff pm ready current time =
    let cond : PodCondition = ready_condition ready pm.spec.replicas time in
    let old : Option PodCondition = find_condition cond.type pm.status.conditions in
    (
      refreshed cond old,
      set_condition-find "Ready" cond _
          ∙ rw (ready_condition-type ready pm.spec.replicas time, str_eq_refl "Ready") refl,
      rw (refreshed-status cond old) (ready_condition-status ready pm.spec.replicas time),
    )

abbrev pub soon : CtrlResult
soon = record { requeue = false; requeue_after = 30 * second }

module _ {W : Type 0} (api : Client W PodManager) (lib : MetaLib) where
  create_pods-status_updates :
      (pm : PodManager) (n : ℕ) (i : ℤ) (w : W)
      → status_updates (create_pods api lib pm n i w).1 ≡ []
  unfolding create_pods report_created status_updates
  create_pods-status_updates pm zero i w = refl
  create_pods-status_updates pm (suc n) i w =
      let pod : Pod = new_pod_for_pod_manager lib pm i in
      ground (arith, create_pods-status_updates pm n (suc_ℤ i) (api.create pod w).1)

  delete_extra-status_updates :
      (items : List Pod) (n : ℕ) (i : ℤ) (w : W)
      → status_updates (delete_extra api lib items n i w).1 ≡ []
  unfolding delete_extra report_deleted status_updates
  delete_extra-status_updates items zero i w = refl
  delete_extra-status_updates items (suc n) i w = elim (Option-cases (item_at items i)) [
    | inl e ↦ ground arith
    | inr (pod, e) ↦
        ground (arith, e, delete_extra-status_updates items n (suc_ℤ i) (api.delete pod w).1)
  ]

  adjust_pods-status_updates :
      (pm : PodManager) (items : List Pod) (w : W)
      → status_updates (adjust_pods api lib pm items w).1 ≡ []
  unfolding adjust_pods status_updates
  adjust_pods-status_updates pm items w =
      let desired = pm.spec.replicas in
      let current = to_int32 (length items) in
      ground (
        arith,
        create_pods-status_updates pm (rounds current desired) current w,
        delete_extra-status_updates items (rounds desired current) desired w,
      )

  module _ (req : NamespacedName) (pm : PodManager) (items : List Pod) (w : W)
      (got : (api.get req w).0 ≡ ok pm) (kept : pm.meta.deletion_timestamp ≡ none)
      (owned : lib.contains_finalizer pm.meta finalizer_name ≡ true)
      (listed : (api.list req.namespace (owner_labels pm) (api.get req w).1).0 ≡ ok items)
      (adjusted : (adjust_pods api lib pm items
          (api.list req.namespace (owner_labels pm) (api.get req w).1).1).0
        ≡ done tt) where
    finish_panics :
        (v : W)
        → pm.status.conditions ≡ []
        → ◌>>◌ (sync_status api lib pm items) (pure soon) v ≡ (panic, [], v)
    unfolding sync_status
    finish_panics v empty = ground arith

    finish_writes :
        {c : PodCondition} {cs : List PodCondition} (v : W)
        → pm.status.conditions ≡ c ∷ cs
        → status_updates (◌>>◌ (sync_status api lib pm items) (pure soon) v).1
          ≡ record pm {
            status =
                new_status pm
                  (to_int32 (count_ready items))
                  (to_int32 (length items))
                  c.last_transition_time;
          }
            ∷ []
    unfolding sync_status status_updates
    finish_writes v present = ground arith

    pub found_managed : (v : W) → reconcile_found api lib req pm v ≡ manage_pods api lib req pm v
    unfolding reconcile_found
    found_managed v = ground arith

    -- A PodManager whose status has no conditions yet is never given any: once its Pods are listed and
    -- adjusted without error, `Reconcile` panics, and no status was written.
    pub empty_conditions_panic :
        pm.status.conditions ≡ []
        → let run = reconcile api lib req w in (run.0 ≡ panic) × (status_updates run.1 ≡ [])
    unfolding reconcile reconcile_got manage_pods status_updates
    empty_conditions_panic empty =
        rw (got, found_managed, listed, adjusted)
          (simp (finish_panics _ empty, adjust_pods-status_updates, append-nil) (refl, refl))

    -- With a condition present, once the Pods are listed and adjusted without error, the status is
    -- written exactly once. The object that is sent has the metadata and the spec that were read, the number of
    -- the listed Pods that are running and ready and the number of the listed Pods, as int32, and a Ready
    -- condition that is True exactly when the former number is the one wanted and positive.
    pub status_written :
        {c : PodCondition} {cs : List PodCondition}
        → pm.status.conditions ≡ c ∷ cs
        → (x : PodManager) × (n : ℕ) × (r : PodCondition) × (status_updates
              (reconcile api lib req w).1
            ≡ x ∷ [])
          × ReadyCount items n
          × (x.meta ≡ pm.meta)
          × (x.spec ≡ pm.spec)
          × (x.status.ready_replicas ≡ to_int32 n)
          × (x.status.current_replicas ≡ to_int32 (length items))
          × (find_condition "Ready" x.status.conditions ≡ some r)
          × ((r.status ≡ "True")
              ↔ ((to_int32 n ≡ pm.spec.replicas) × (ltb_ℤ (pos 0) pm.spec.replicas ≡ true)))
    unfolding reconcile reconcile_got manage_pods status_updates new_status set_condition
    status_written {c} {cs} present =
        let ready = to_int32 (count_ready items) in
        let (r, held, meaning) =
          new_status-ready_iff pm ready (to_int32 (length items)) c.last_transition_time in
        (
          _,
          count_ready items,
          r,
          rw (got, found_managed, listed, adjusted)
              (simp (status_updates-append, adjust_pods-status_updates) (finish_writes _ present)),
          count_ready-ReadyCount items,
          refl,
          refl,
          refl,
          refl,
          held,
          meaning,
        )
