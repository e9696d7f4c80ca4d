-- ===== src/PodOperator/Deletion.antt =====
-- `handleFinalizer`: the finalizer goes only behind the Pods.
use kubernetes_examples.Prelude.{
  ℕ, ◌≢◌, ◌≡◌, refl, ◌⊎◌, inl, inr, List, [], ◌∷◌, ◌++◌, ap, none, some, arith, true,
}
use kubernetes_examples.Kube.Objects.{Pod, NamespacedName}
use kubernetes_examples.Kube.Effect.{Call, done, ok, Outcome-cases, Result-cases, check_calls}
use kubernetes_examples.Kube.Client.{CtrlResult, Client, MetaLib}
use kubernetes_examples.Kube.Trace.{creates, deletes, updates, creates-append}
use kubernetes_examples.PodOperator.Types.{PodManager}
use kubernetes_examples.PodOperator.Controller.{
  finalizer_name, owner_labels, report_deleting, delete_owned, clean_up, handle_finalizer,
  add_finalizer, reconcile, reconcile_found, reconcile_got,
}

module _ {W : Type 0} (api : Client W PodManager) (lib : MetaLib) where
  delete_owned-deletes :
      (items : List Pod) (w : W)
      → (delete_owned api lib items w).0 ≡ done tt
      → deletes (delete_owned api lib items w).1 ≡ items
  unfolding delete_owned report_deleting deletes
  delete_owned-deletes [] w h = refl
  delete_owned-deletes (p ∷ ps) w h = ground (arith, delete_owned-deletes ps (api.delete p w).1)

  delete_owned-updates : (items : List Pod) (w : W) → updates (delete_owned api lib items w).1 ≡ []
  unfolding delete_owned report_deleting updates
  delete_owned-updates [] w = refl
  delete_owned-updates (p ∷ ps) w = ground (arith, delete_owned-updates ps (api.delete p w).1)

  delete_owned-creates : (items : List Pod) (w : W) → creates (delete_owned api lib items w).1 ≡ []
  unfolding delete_owned report_deleting creates
  delete_owned-creates [] w = refl
  delete_owned-creates (p ∷ ps) w = ground (arith, delete_owned-creates ps (api.delete p w).1)

  -- The trace ends with the one update, which takes the finalizer off; before it come the deletions of
  -- `items`, in order, and no update.
  abbrev pub IsReleaseAfter : PodManager → List Pod → List (Call PodManager) → Type 0
  IsReleaseAfter pm items trace =
      (before : List (Call PodManager)) × (trace
        ≡ before
          ++ Call.update (record pm { meta = lib.remove_finalizer pm.meta finalizer_name }) ∷ [])
      × (deletes before ≡ items)
      × (updates before ≡ [])

  module _ (pm : PodManager) (items : List Pod) (w : W)
      (listed : (api.list pm.meta.namespace (owner_labels pm) w).0 ≡ ok items) where
    clean_up-updates :
        let run = clean_up api lib pm w in (updates run.1 ≡ []) ⊎ IsReleaseAfter pm items run.1
    unfolding clean_up updates deletes
    clean_up-updates =
        let w1 = (api.list pm.meta.namespace (owner_labels pm) w).1 in
        elim (Outcome-cases (delete_owned api lib items w1).0) [
          | inl (_, e) ↦
              rw (listed, e)
                (inr (
                  Call.list pm.meta.namespace (owner_labels pm) ∷ (delete_owned api lib items w1).1,
                  simp check_calls,
                  delete_owned-deletes items w1 e,
                  delete_owned-updates items w1,
                ))
          | inr (inl (x, e)) ↦ rw (listed, e) (inl (delete_owned-updates items w1))
          | inr (inr e) ↦ rw (listed, e) (inl (delete_owned-updates items w1))
        ]

  clean_up-creates : (pm : PodManager) (w : W) → creates (clean_up api lib pm w).1 ≡ []
  unfolding clean_up creates
  clean_up-creates pm w =
      let w1 = (api.list pm.meta.namespace (owner_labels pm) w).1 in
      elim (Result-cases (api.list pm.meta.namespace (owner_labels pm) w).0) [
        | inr (x, e) ↦ rw e
        | inl (items, e) ↦ elim (Outcome-cases (delete_owned api lib items w1).0) [
          | inl (_, d) ↦
              rw (e, d) (simp (creates-append, check_calls, delete_owned-creates items w1))
          | inr (inl (x, d)) ↦ rw (e, d) (delete_owned-creates items w1)
          | inr (inr d) ↦ rw (e, d) (delete_owned-creates items w1)
        ]
      ]

  pub found_deleting :
      (req : NamespacedName) (pm : PodManager) (time : ℕ) (w : W)
      → pm.meta.deletion_timestamp ≡ some time
      → lib.contains_finalizer pm.meta finalizer_name ≡ true
      → reconcile_found api lib req pm w ≡ clean_up api lib pm w
  unfolding reconcile_found handle_finalizer
  found_deleting req pm time w deleting owned = ground arith

  -- When a PodManager with the finalizer is being deleted, `Reconcile` either takes no update to the
  -- server, or its last call is the one update, without the finalizer, and before it, it has asked for the
  -- deletion of all the Pods that the server listed, in order, and for no other deletion.
  pub finalizer_after_pods :
      (req : NamespacedName) (pm : PodManager) (time : ℕ) (items : List Pod) (w : W)
      → (api.get req w).0 ≡ ok pm
      → pm.meta.deletion_timestamp ≡ some time
      → lib.contains_finalizer pm.meta finalizer_name ≡ true
      → (api.list pm.meta.namespace (owner_labels pm) (api.get req w).1).0 ≡ ok items
      → let run = reconcile api lib req w in (updates run.1 ≡ []) ⊎ IsReleaseAfter pm items run.1
  unfolding reconcile reconcile_got updates deletes
  finalizer_after_pods req pm time items w got deleting owned listed =
      rw (got, found_deleting req pm time (api.get req w).1 deleting owned)
        (elim (clean_up-updates pm items (api.get req w).1 listed) [
          | inl silent ↦ inl silent
          | inr (before, e, deleted, silent) ↦
              inr (Call.get req ∷ before, ap (λ t. Call.get req ∷ t) e, deleted, silent)
        ])

  found_creates :
      (req : NamespacedName) (pm : PodManager) (w : W)
      → creates (reconcile_found api lib req pm w).1 ≢ []
      → (pm.meta.deletion_timestamp ≡ none) × (lib.contains_finalizer pm.meta finalizer_name ≡ true)
  unfolding reconcile_found handle_finalizer add_finalizer creates
  found_creates req pm w h = ground (
    arith,
    h,
    clean_up-creates pm w,
    check_calls (api.update added w).0 again (api.update added w).1,
  )
    where
      added : PodManager
      added = record pm { meta = lib.add_finalizer pm.meta finalizer_name }

      again : CtrlResult
      again = record { requeue = true; requeue_after = 0 }

  -- `Reconcile` asks for a new Pod only if the PodManager that it read is not being deleted and
  -- already bears the finalizer.
  pub creates_need_finalizer :
      (req : NamespacedName) (w : W)
      → creates (reconcile api lib req w).1 ≢ []
      → (pm : PodManager) × ((api.get req w).0 ≡ ok pm)
        × (pm.meta.deletion_timestamp ≡ none)
        × (lib.contains_finalizer pm.meta finalizer_name ≡ true)
  unfolding reconcile creates reconcile_got
  creates_need_finalizer req w some_created = elim (Result-cases (api.get req w).0) [
    | inr (x, e) ↦ absurd (some_created (rw e (ground (arith))))
    | inl (pm, got) ↦
        let (kept, owned) = found_creates req pm (api.get req w).1 (λ e. some_created (rw got e)) in
        (pm, got, kept, owned)
  ]
