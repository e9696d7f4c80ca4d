-- ===== src/PodOperator/Release.antt =====
-- A PodManager that is being deleted, on a server that answers: one reconciliation lets it go.
use kubernetes_examples.Prelude.{
  ap, ◌∙◌, false, true, ℕ, String, ◌≡◌, refl, List, [], ◌∷◌, none, some, arith,
}
use kubernetes_examples.Kube.Objects.{ObjectMeta, Pod, NamespacedName}
use kubernetes_examples.Kube.Effect.{ok, done}
use kubernetes_examples.Kube.Client.{Client, MetaLib, no_requeue}
use kubernetes_examples.PodOperator.Types.{PodManager}
use kubernetes_examples.PodOperator.Controller.{
  reconcile_got, reconcile, finalizer_name, owner_labels, delete_owned, report_deleting, clean_up,
}
use kubernetes_examples.PodOperator.Deletion.{found_deleting}
use kubernetes_examples.PodOperator.Lifecycle.{IsTolerated, OwnServer}
use kubernetes_examples.PodOperator.PodsGone.{
  nobody, delete_owned-Quiet, delete_owned-gone, update-none,
}

module _ {W : Type 0} (api : Client W PodManager) (lib : MetaLib) (req : NamespacedName)
    (server : OwnServer api lib req) where
  -- The server finds the Pods, lets them be deleted, and takes an update of the PodManager: it then stores
  -- what was sent, or no PodManager, as it does once the last finalizer of one in deletion is gone.
  pub record Answers : Type 0 where
    pub list-found :
        (namespace : String) (labels : List (String × String)) (w : W)
        → (items : List Pod) × ((api.list namespace labels w).0 ≡ ok items)
    pub delete-tolerated : (p : Pod) (w : W) → IsTolerated (api.delete p w).0
    pub update-taken :
        (x : PodManager) (w : W)
        → ((api.update x w).0 ≡ none)
          × ((y : PodManager) → server.stored (api.update x w).1 ≡ some y → y ≡ x)

  module _ (answers : Answers) where
    delete_owned-done : (items : List Pod) (w : W) → (delete_owned api lib items w).0 ≡ done tt
    unfolding delete_owned report_deleting
    delete_owned-done [] w = refl
    delete_owned-done (p ∷ ps) w =
        let t = answers.delete-tolerated p w in
        ground (arith, t, delete_owned-done ps (api.delete p w).1)

    -- The Pods that are listed are all, and they are gone when their deletions have been asked for.
    clean_up-releases :
        (pm : PodManager) (w : W)
        → pm.meta.name ≡ req.name
        → pm.meta.namespace ≡ req.namespace
        → pm.meta.uid ≡ server.uid
        → let run = clean_up api lib pm w in
          (run.0 ≡ done no_requeue)
          × (server.alive run.2 ≡ [])
          × ((y : PodManager)
              → server.stored run.2 ≡ some y
              → y ≡ record pm { meta = lib.remove_finalizer pm.meta finalizer_name })
    unfolding clean_up
    clean_up-releases pm w name namespace uid =
        let released = record pm { meta = lib.remove_finalizer pm.meta finalizer_name } in
        let (items, listed) = answers.list-found pm.meta.namespace (owner_labels pm) w in
        let w1 = (api.list pm.meta.namespace (owner_labels pm) w).1 in
        let w2 = (delete_owned api lib items w1).2 in
        let finished = delete_owned-done items w1 in
        let (sent, stored) = answers.update-taken released w2 in
        let empty = nobody (server.alive w2) λ n m.
          let (p, called, there) =
            server.list-complete pm items w name namespace uid listed n
              ((delete_owned-Quiet api lib req server items w1).1 n m) in
          delete_owned-gone api lib req server items p w1 finished there (rw called m) in
        rw (listed, finished, sent) (refl, update-none api lib req server released w2 empty, stored)

    -- On a server as in `OwnServer` that answers as in `Answers`, where a finalizer that is removed is not found
    -- again, let the PodManager that is read be in deletion and bear the finalizer. Then one reconciliation ends
    -- with no error and asks for no other; no Pod of the PodManager is alive behind it, and a PodManager that
    -- is still stored does not bear the finalizer.
    pub reconcile-releases :
        (pm : PodManager) (time : ℕ) (w : W)
        → (api.get req w).0 ≡ ok pm
        → pm.meta.deletion_timestamp ≡ some time
        → lib.contains_finalizer pm.meta finalizer_name ≡ true
        → ((m : ObjectMeta)
            → lib.contains_finalizer (lib.remove_finalizer m finalizer_name) finalizer_name ≡ false)
        → let run = reconcile api lib req w in
          (run.0 ≡ done no_requeue)
          × (server.alive run.2 ≡ [])
          × ((y : PodManager)
              → server.stored run.2 ≡ some y
              → lib.contains_finalizer y.meta finalizer_name ≡ false)
    unfolding reconcile reconcile_got
    reconcile-releases pm time w got deleting owned removes =
        let (name, namespace, uid, _) = server.get-found pm w got in
        let w1 = (api.get req w).1 in
        let (ends, empty, stored) = clean_up-releases pm w1 name namespace uid in
        rw (got, found_deleting api lib req pm time w1 deleting owned)
          (ends, empty, λ y kept. bears y (stored y kept))
      where
        bears :
            (y : PodManager)
            → y ≡ record pm { meta = lib.remove_finalizer pm.meta finalizer_name }
            → lib.contains_finalizer y.meta finalizer_name ≡ false
        bears y same = ap (λ z. lib.contains_finalizer z.meta finalizer_name) same ∙ removes pm.meta
