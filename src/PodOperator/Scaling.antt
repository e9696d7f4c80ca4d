-- ===== src/PodOperator/Scaling.antt =====
-- Step 5 of `Reconcile`: which Pods are created and deleted.
use kubernetes_examples.Prelude.{
  ◌⊎◌, ℕ, String, zero, suc, ◌+◌, ◌-◌, ◌≤◌, ◌<◌, ◌≡◌, refl, ap, sym, ◌∙◌, compare-cases, lt→ltb,
  le→not-ltb, List, [], ◌∷◌, map, some, arith, Option-cases, inl, inr, length, drop, get_elem?,
  drop-length-le, drop-lt-length,
}
use kubernetes_examples.Prelude.Int.{pos, int32_max, to_int32-pos}
use kubernetes_examples.Kube.Objects.{Pod, NamespacedName}
use kubernetes_examples.Kube.Effect.{Outcome-cases, ApiError, already_exists, ok, done, fail, panic}
use kubernetes_examples.Kube.Client.{Client, MetaLib}
use kubernetes_examples.Kube.Trace.{creates, deletes, status_updates}
use kubernetes_examples.PodOperator.Types.{PodManager}
use kubernetes_examples.PodOperator.Controller.{
  owner_labels, manage_pods, new_pod_for_pod_manager, item_at, report_created, create_pods,
  report_deleted, delete_extra, adjust_pods,
}

-- start, start + 1, …, start + n - 1
abbrev pub interval : ℕ → ℕ → List ℕ
interval start zero = []
interval start (suc n) = start ∷ interval (suc start) n

-- The Pods that are missing when `n` exist and `d` are wanted: those numbered n to d - 1.
abbrev pub missing_pods : MetaLib → PodManager → ℕ → ℕ → List Pod
missing_pods lib pm n d = map (λ k. new_pod_for_pod_manager lib pm (pos k)) (interval n (d - n))

missing_pods-none :
    (lib : MetaLib) (pm : PodManager) (n d : ℕ) → d ≤ n → missing_pods lib pm n d ≡ []
missing_pods-none lib pm n d h = let e : d - n ≡ 0 = omega arith in rw e

module _ {W : Type 0} (api : Client W PodManager) (lib : MetaLib) (pm : PodManager) where
  create_pods-creates :
      (n k : ℕ) (w : W)
      → (create_pods api lib pm n (pos k) w).0 ≡ done tt
      → creates (create_pods api lib pm n (pos k) w).1
        ≡ map (λ k. new_pod_for_pod_manager lib pm (pos k)) (interval k n)
  unfolding create_pods report_created creates
  create_pods-creates zero k w h = refl
  create_pods-creates (suc n) k w h =
      let pod : Pod = new_pod_for_pod_manager lib pm (pos k) in
      ground (arith, create_pods-creates n (suc k) (api.create pod w).1)

  create_pods-deletes : (n k : ℕ) (w : W) → deletes (create_pods api lib pm n (pos k) w).1 ≡ []
  unfolding create_pods report_created deletes
  create_pods-deletes zero k w = refl
  create_pods-deletes (suc n) k w =
      let pod : Pod = new_pod_for_pod_manager lib pm (pos k) in
      ground (arith, create_pods-deletes n (suc k) (api.create pod w).1)

  create_pods-ne-panic : (n k : ℕ) (w : W) → (create_pods api lib pm n (pos k) w).0 ≡ panic → ⊥
  unfolding create_pods report_created
  create_pods-ne-panic zero k w h = cc
  create_pods-ne-panic (suc n) k w h =
      let pod : Pod = new_pod_for_pod_manager lib pm (pos k) in
      ground (arith, create_pods-ne-panic n (suc k) (api.create pod w).1)

  -- The rounds that `delete_extra` makes reach the end of the list.
  delete_extra-deletes :
      (items : List Pod) (n k : ℕ) (w : W)
      → k + n ≡ length items
      → (delete_extra api lib items n (pos k) w).0 ≡ done tt
      → deletes (delete_extra api lib items n (pos k) w).1 ≡ drop k items
  unfolding delete_extra report_deleted deletes item_at
  delete_extra-deletes items zero k w e h = rw (drop-length-le k items (omega arith))
  delete_extra-deletes items (suc n) k w e h =
      let (pod, at, split) = drop-lt-length k items (omega arith) in
      ground
        (arith, at, split, delete_extra-deletes items n (suc k) (api.delete pod w).1 (omega arith))

  delete_extra-creates :
      (items : List Pod) (n k : ℕ) (w : W) → creates (delete_extra api lib items n (pos k) w).1 ≡ []
  unfolding delete_extra report_deleted creates item_at
  delete_extra-creates items zero k w = refl
  delete_extra-creates items (suc n) k w = elim (Option-cases (get_elem? items k)) [
    | inl e ↦ ground arith
    | inr (pod, e) ↦ ground (arith, e, delete_extra-creates items n (suc k) (api.delete pod w).1)
  ]

  delete_extra-ne-panic :
      (items : List Pod) (n k : ℕ) (w : W)
      → k + n ≡ length items
      → (delete_extra api lib items n (pos k) w).0 ≡ panic
      → ⊥
  unfolding delete_extra report_deleted item_at
  delete_extra-ne-panic items zero k w e h = cc
  delete_extra-ne-panic items (suc n) k w e h =
      let (pod, at, split) = drop-lt-length k items (omega arith) in
      ground
        (arith, at, split, delete_extra-ne-panic items n (suc k) (api.delete pod w).1 (omega arith))

  module _ (items : List Pod) (d : ℕ) (wanted : pm.spec.replicas ≡ pos d)
      (fits : length items ≤ int32_max) where
    pub scaling_up :
        (w : W)
        → length items < d
        → adjust_pods api lib pm items w
          ≡ create_pods api lib pm (d - length items) (pos (length items)) w
    unfolding adjust_pods
    scaling_up w h = rw (wanted, to_int32-pos (length items) fits, lt→ltb (length items) d h)

    pub scaling_down :
        (w : W)
        → d < length items
        → adjust_pods api lib pm items w ≡ delete_extra api lib items (length items - d) (pos d) w
    unfolding adjust_pods
    scaling_down w h = rw (
      wanted,
      to_int32-pos (length items) fits,
      lt→ltb d (length items) h,
      le→not-ltb (length items) d (omega arith),
    )

    pub at_rest : (w : W) → d ≡ length items → adjust_pods api lib pm items w ≡ (done tt, [], w)
    unfolding adjust_pods
    at_rest w h = rw (
      wanted,
      to_int32-pos (length items) fits,
      le→not-ltb d (length items) (omega arith),
      le→not-ltb (length items) d (omega arith),
    )

    pub adjust_pods-done :
        (w : W)
        → (adjust_pods api lib pm items w).0 ≡ done tt
        → (creates (adjust_pods api lib pm items w).1 ≡ missing_pods lib pm (length items) d)
          × (deletes (adjust_pods api lib pm items w).1 ≡ drop d items)
    unfolding adjust_pods creates deletes
    adjust_pods-done w h = elim (compare-cases (length items) d) [
      | inl less ↦ rw (scaling_up w less) (
        create_pods-creates (d - length items) (length items) w (rw (scaling_up w less) at h),
        create_pods-deletes (d - length items) (length items) w
            ∙ sym (drop-length-le d items (omega arith)),
      )
      | inr (inl same) ↦
          rw (at_rest w same) (ground arith, sym (drop-length-le d items (omega arith)))
      | inr (inr more) ↦ rw (scaling_down w more) (
        delete_extra-creates items (length items - d) d w
            ∙ sym (missing_pods-none lib pm (length items) d (omega arith)),
        delete_extra-deletes items (length items - d) d w (omega arith)
            (rw (scaling_down w more) at h),
      )
    ]

    adjust_pods-ne-panic : (w : W) → (adjust_pods api lib pm items w).0 ≡ panic → ⊥
    unfolding adjust_pods
    adjust_pods-ne-panic w h = elim (compare-cases (length items) d) [
      | inl less ↦
          create_pods-ne-panic (d - length items) (length items) w (rw (scaling_up w less) at h)
      | inr (inl same) ↦ cc (ap (λ r. r.0) (at_rest w same))
      | inr (inr more) ↦
          delete_extra-ne-panic items (length items - d) d w (omega arith)
            (rw (scaling_down w more) at h)
    ]

    -- Where the number wanted is not negative and that of the listed Pods is an int32, step 5 does not
    -- panic: it fails with an error, or ends having created exactly the missing Pods, those numbered from
    -- the number of listed Pods up to `spec.replicas`, in order, and having deleted exactly the listed
    -- Pods behind the first `spec.replicas`, in order.
    pub adjust_pods-exact :
        (w : W)
        → let run = adjust_pods api lib pm items w in
          ((e : ApiError) × (run.0 ≡ fail e))
          ⊎ ((run.0 ≡ done tt)
              × (creates run.1 ≡ missing_pods lib pm (length items) d)
              × (deletes run.1 ≡ drop d items))
    adjust_pods-exact w = elim (Outcome-cases (adjust_pods api lib pm items w).0) [
      | inl (_, e) ↦ let (made, gone) = adjust_pods-done w e in inr (e, made, gone)
      | inr (inl (x, e)) ↦ inl (x, e)
      | inr (inr e) ↦ absurd (adjust_pods-ne-panic w e)
    ]

    -- Let fewer Pods be listed than wanted, in a number that is an int32. The first Pod to create bears
    -- the number of listed Pods. If the server refuses it because its name
    -- is taken, and keeps the world as it was, steps 4 and 5 end with that error: no other Pod is created,
    -- none is deleted, the status is not written, and the next reconciliation finds the same world.
    pub taken_name_blocks :
        (req : NamespacedName) (w : W) (reason : String)
        → length items < d
        → api.list req.namespace (owner_labels pm) w ≡ (ok items, w)
        → api.create (new_pod_for_pod_manager lib pm (pos (length items))) w
          ≡ (some (already_exists reason), w)
        → let run = manage_pods api lib req pm w in
          (run.0 ≡ fail (already_exists reason))
          × (creates run.1 ≡ new_pod_for_pod_manager lib pm (pos (length items)) ∷ [])
          × (deletes run.1 ≡ [])
          × (status_updates run.1 ≡ [])
          × (run.2 ≡ w)
    unfolding manage_pods create_pods report_created creates deletes status_updates
    taken_name_blocks req w reason less listed refused =
        let first : d - length items ≡ suc (d - length items - 1) = omega arith in
        let step = scaling_up w less in
        rw (listed, scaling_up w less, first, refused) (refl, refl, refl, refl, refl)
