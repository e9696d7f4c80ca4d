-- ===== src/PodOperator/FinalizerKept.antt =====
-- Steps 4 to 7 of `Reconcile`: the finalizer stays.
use kubernetes_examples.Prelude.{
  length, ◌*◌, get_elem?, Option-cases, Bool-cases, ℕ, zero, suc, false, inl, inr, List, Option,
  none, some,
}
use kubernetes_examples.Prelude.Int.{rounds, ltb_ℤ, to_int32, ℤ, suc_ℤ}
use kubernetes_examples.Kube.Objects.{Pod, NamespacedName}
use kubernetes_examples.Kube.Effect.{check, pure, ◌>>◌, value_of, ApiError, M, ◌>>=◌}
use kubernetes_examples.Kube.Client.{
  second, update_status, create, list, delete, Client, MetaLib, CtrlResult,
}
use kubernetes_examples.Kube.Along.{IsAlong, >>=-IsAlong, check-IsAlong, value_of-IsAlong}
use kubernetes_examples.PodOperator.Types.{PodManager}
use kubernetes_examples.PodOperator.Controller.{
  new_pod_for_pod_manager, owner_labels, report_created, create_pods, report_deleted, delete_extra,
  adjust_pods, sync_status, manage_pods, item_at,
}
use kubernetes_examples.PodOperator.Lifecycle.{IsGuarded, OwnServer}

module _ {W : Type 0} (api : Client W PodManager) (lib : MetaLib) (req : NamespacedName)
    (server : OwnServer api lib req) where
  abbrev Keeps : W → W → Type 0
  Keeps w w' = IsGuarded lib server.stored w → IsGuarded lib server.stored w'

  Keeps-refl : (w : W) → Keeps w w
  Keeps-refl w g = g

  Keeps-trans : (u v w : W) → Keeps u v → Keeps v w → Keeps u w
  Keeps-trans u v w f g x = g (f x)

  -- Steps 4 to 7 keep the finalizer.
  report_created-Keeps :
      (p : Pod) (e : Option ApiError) → IsAlong Keeps (report_created api lib p e)
  unfolding report_created
  report_created-Keeps p none w = Keeps-refl w
  report_created-Keeps p (some e) w = Keeps-refl w

  report_deleted-Keeps :
      (p : Pod) (e : Option ApiError) → IsAlong Keeps (report_deleted api lib p e)
  unfolding report_deleted
  report_deleted-Keeps p none w = Keeps-refl w
  report_deleted-Keeps p (some e) w = Keeps-refl w

  create_pods-Keeps : (pm : PodManager) (n : ℕ) (i : ℤ) → IsAlong Keeps (create_pods api lib pm n i)
  unfolding create_pods
  create_pods-Keeps pm zero i = Keeps-refl
  create_pods-Keeps pm (suc n) i =
      let pod = new_pod_for_pod_manager lib pm i in
      >>=-IsAlong Keeps Keeps-trans (create api pod)
        (λ e. report_created api lib pod e >> create_pods api lib pm n (suc_ℤ i))
        (server.create-guarded pod)
        λ e.
          >>=-IsAlong Keeps Keeps-trans (report_created api lib pod e)
            (λ _. create_pods api lib pm n (suc_ℤ i)) (report_created-Keeps pod e)
            λ _. create_pods-Keeps pm n (suc_ℤ i)

  delete_extra-Keeps :
      (items : List Pod) (n : ℕ) (i : ℤ) → IsAlong Keeps (delete_extra api lib items n i)
  unfolding delete_extra
  delete_extra-Keeps items zero i = Keeps-refl
  delete_extra-Keeps items (suc n) i = λ w. elim (Option-cases (item_at items i)) [
    | inl e ↦ rw (delete_extra, e) (Keeps-refl w)
    | inr (pod, e) ↦
        rw (delete_extra, e)
          (>>=-IsAlong Keeps Keeps-trans (delete api pod)
            (λ r. report_deleted api lib pod r >> delete_extra api lib items n (suc_ℤ i))
            (λ u. (server.delete-quiet pod u).0)
            (λ r.
              >>=-IsAlong Keeps Keeps-trans (report_deleted api lib pod r)
                (λ _. delete_extra api lib items n (suc_ℤ i)) (report_deleted-Keeps pod r)
                λ _. delete_extra-Keeps items n (suc_ℤ i))
            w)
  ]

  adjust_pods-Keeps :
      (pm : PodManager) (items : List Pod) → IsAlong Keeps (adjust_pods api lib pm items)
  unfolding adjust_pods
  adjust_pods-Keeps pm items w =
      let desired = pm.spec.replicas in
      let current = to_int32 (length items) in
      elim (Bool-cases (ltb_ℤ current desired)) [
        | inl t ↦ rw t (create_pods-Keeps pm (rounds current desired) current w)
        | inr f ↦ elim (Bool-cases (ltb_ℤ desired current)) [
          | inl t ↦ rw (f, t) (delete_extra-Keeps items (rounds desired current) desired w)
          | inr g ↦ rw (f, g) (Keeps-refl w)
        ]
      ]

  sync_status-Keeps :
      (pm : PodManager) (items : List Pod) → IsAlong Keeps (sync_status api lib pm items)
  unfolding sync_status
  sync_status-Keeps pm items = λ w. elim (Option-cases (get_elem? pm.status.conditions 0)) [
    | inl e ↦ rw (sync_status, e) (Keeps-refl w)
    | inr (c, e) ↦
        rw (sync_status, e)
          (>>=-IsAlong Keeps Keeps-trans (update_status api _) (λ x. check x)
            (λ u. (server.update_status-quiet _ u).0) (check-IsAlong PodManager Keeps Keeps-refl) w)
  ]

  pub manage_pods-Keeps : (pm : PodManager) → IsAlong Keeps (manage_pods api lib req pm)
  unfolding manage_pods
  manage_pods-Keeps pm =
      >>=-IsAlong Keeps Keeps-trans (list api req.namespace (owner_labels pm))
        (λ listed. value_of listed >>= adjusted) (λ w. (server.list-quiet _ _ w).0)
        λ listed.
          >>=-IsAlong Keeps Keeps-trans (value_of listed) adjusted
            (value_of-IsAlong PodManager Keeps Keeps-refl listed)
            λ items.
              >>=-IsAlong Keeps Keeps-trans (adjust_pods api lib pm items) (λ _. synced items)
                (adjust_pods-Keeps pm items)
                λ _.
                  >>=-IsAlong Keeps Keeps-trans (sync_status api lib pm items) (λ _. pure _)
                    (sync_status-Keeps pm items) λ _. Keeps-refl
    where
      synced : List Pod → M W PodManager CtrlResult
      synced items =
          sync_status api lib pm items
          >> pure (record { requeue = false; requeue_after = 30 * second })

      adjusted : List Pod → M W PodManager CtrlResult
      adjusted items = adjust_pods api lib pm items >> synced items
