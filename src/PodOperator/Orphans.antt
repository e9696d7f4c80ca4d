-- ===== src/PodOperator/Orphans.antt =====
-- `Reconcile` among other changes of the cluster: no Pod outlives its PodManager.
use kubernetes_examples.Prelude.{Option-cases, Bool-cases, true, ◌≡◌, inl, inr}
use kubernetes_examples.Kube.Objects.{ObjectMeta, NamespacedName}
use kubernetes_examples.Kube.Effect.{is_not_found, Result-cases, Outcome-cases}
use kubernetes_examples.Kube.Client.{Client, MetaLib}
use kubernetes_examples.Kube.Along.{check_world}
use kubernetes_examples.PodOperator.Types.{PodManager}
use kubernetes_examples.PodOperator.Controller.{
  finalizer_name, owner_labels, delete_owned, clean_up, handle_finalizer, add_finalizer,
  reconcile_found, reconcile_got, reconcile,
}
use kubernetes_examples.PodOperator.Lifecycle.{
  IsGuarded, OwnServer, reconciled, others, Steps, start, next, IsOwned,
}
use kubernetes_examples.PodOperator.PodsGone.{
  nobody, Quiet-IsOwned, delete_owned-Quiet, delete_owned-gone, update-none,
}
use kubernetes_examples.PodOperator.FinalizerKept.{manage_pods-Keeps}

module _ {W : Type 0} (api : Client W PodManager) (lib : MetaLib) (req : NamespacedName)
    (server : OwnServer api lib req) where
  clean_up-IsOwned :
      (pm : PodManager) (w : W)
      → pm.meta.name ≡ req.name
      → pm.meta.namespace ≡ req.namespace
      → pm.meta.uid ≡ server.uid
      → IsOwned api lib req server w
      → IsOwned api lib req server (clean_up api lib pm w).2
  unfolding clean_up
  clean_up-IsOwned pm w name namespace uid owned =
      let w1 = (api.list pm.meta.namespace (owner_labels pm) w).1 in
      let owned1 = Quiet-IsOwned api lib req server w w1 (server.list-quiet _ _ w) owned in
      elim (Result-cases (api.list pm.meta.namespace (owner_labels pm) w).0) [
        | inr (x, e) ↦ rw e owned1
        | inl (items, e) ↦
            let w2 = (delete_owned api lib items w1).2 in
            let quiet = delete_owned-Quiet api lib req server items w1 in
            let owned2 = Quiet-IsOwned api lib req server w1 w2 quiet owned1 in
            elim (Outcome-cases (delete_owned api lib items w1).0) [
              | inl (_, d) ↦
                  let empty = nobody (server.alive w2) λ n m.
                    let (p, called, listed) =
                      server.list-complete pm items w name namespace uid e n (quiet.1 n m) in
                    delete_owned-gone api lib req server items p w1 d listed (rw called m) in
                  rw (e, d, check_world PodManager)
                    (inl (update-none api lib req server _ w2 empty))
              | inr (inl (x, d)) ↦ rw (e, d) owned2
              | inr (inr d) ↦ rw (e, d) owned2
            ]
      ]

  add_finalizer-IsOwned :
      (pm : PodManager) (w : W)
      → lib.contains_finalizer (lib.add_finalizer pm.meta finalizer_name) finalizer_name ≡ true
      → IsOwned api lib req server w
      → IsOwned api lib req server (add_finalizer api lib pm w).2
  unfolding add_finalizer
  add_finalizer-IsOwned pm w bears (inl e) =
      rw (check_world PodManager) (inl (update-none api lib req server _ w e))
  add_finalizer-IsOwned pm w bears (inr g) =
      rw (check_world PodManager) (inr (server.update-guarded _ w bears g))

  handle_finalizer-IsOwned :
      (pm : PodManager) (w : W)
      → pm.meta.name ≡ req.name
      → pm.meta.namespace ≡ req.namespace
      → pm.meta.uid ≡ server.uid
      → IsOwned api lib req server w
      → IsOwned api lib req server (handle_finalizer api lib pm w).2
  unfolding handle_finalizer
  handle_finalizer-IsOwned pm w name namespace uid owned =
      elim (Bool-cases (lib.contains_finalizer pm.meta finalizer_name)) [
        | inl t ↦ rw t (clean_up-IsOwned pm w name namespace uid owned)
        | inr f ↦ rw f owned
      ]

  -- A PodManager that was read; if it bears the finalizer, so does the one that is stored.
  reconcile_found-IsOwned :
      (pm : PodManager) (w : W)
      → pm.meta.name ≡ req.name
      → pm.meta.namespace ≡ req.namespace
      → pm.meta.uid ≡ server.uid
      → (lib.contains_finalizer pm.meta finalizer_name ≡ true → IsGuarded lib server.stored w)
      → ((m : ObjectMeta)
          → lib.contains_finalizer (lib.add_finalizer m finalizer_name) finalizer_name ≡ true)
      → IsOwned api lib req server w
      → IsOwned api lib req server (reconcile_found api lib req pm w).2
  unfolding reconcile_found
  reconcile_found-IsOwned pm w name namespace uid fresh bears owned =
      elim (Option-cases pm.meta.deletion_timestamp) [
        | inr (time, e) ↦
            rw (reconcile_found, e) (handle_finalizer-IsOwned pm w name namespace uid owned)
        | inl e ↦ elim (Bool-cases (lib.contains_finalizer pm.meta finalizer_name)) [
          | inl t ↦
              rw (reconcile_found, e, t) (inr (manage_pods-Keeps api lib req server pm w (fresh t)))
          | inr f ↦ rw (reconcile_found, e, f) (add_finalizer-IsOwned pm w (bears pm.meta) owned)
        ]
      ]

  reconcile-IsOwned :
      (w : W)
      → ((m : ObjectMeta)
          → lib.contains_finalizer (lib.add_finalizer m finalizer_name) finalizer_name ≡ true)
      → IsOwned api lib req server w
      → IsOwned api lib req server (reconcile api lib req w).2
  unfolding reconcile reconcile_got
  reconcile-IsOwned w bears owned =
      let w1 = (api.get req w).1 in
      let owned1 = Quiet-IsOwned api lib req server w w1 (server.get-quiet w) owned in
      elim (Result-cases (api.get req w).0) [
        | inl (pm, e) ↦
            let (name, namespace, uid, fresh) = server.get-found pm w e in
            rw e (reconcile_found-IsOwned pm w1 name namespace uid fresh bears owned1)
        | inr (x, e) ↦ elim (Bool-cases (is_not_found x)) [
          | inl t ↦ rw (e, t) owned1
          | inr f ↦ rw (e, f) owned1
        ]
      ]

  -- For one controller with up-to-date reads, on a server as in `OwnServer` where an added finalizer is found again, let a Pod of the PodManager be
  -- alive only while the PodManager is stored and bears the finalizer. After any number of reconciliations,
  -- whatever calls fail in them, and of changes by others between and within them, this holds still.
  pub Steps-IsOwned :
      (w w' : W)
      → ((m : ObjectMeta)
          → lib.contains_finalizer (lib.add_finalizer m finalizer_name) finalizer_name ≡ true)
      → Steps api lib req server w w'
      → IsOwned api lib req server w
      → IsOwned api lib req server w'
  Steps-IsOwned w _ bears start owned = owned
  Steps-IsOwned w _ bears (next {u = u} past (reconciled _)) owned =
      reconcile-IsOwned u bears (Steps-IsOwned w u bears past owned)
  Steps-IsOwned w w' bears (next {u = u} past (others quiet)) owned =
      Quiet-IsOwned api lib req server u w' quiet (Steps-IsOwned w u bears past owned)
