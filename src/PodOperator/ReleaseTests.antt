-- ===== src/PodOperator/ReleaseTests.antt =====
-- The end of a PodManager at the cluster of WebServer.
use kubernetes_examples.Prelude.{
  none, some, [], ◌∷◌, ℕ, Option, List, ap, sym, arith, str_eq, String, true, false, ◌≡◌, refl, inl,
  inr, Bool-cases,
}
use kubernetes_examples.Kube.Objects.{Pod, ObjectMeta}
use kubernetes_examples.Kube.Effect.{ok, done}
use kubernetes_examples.Kube.Client.{no_requeue}
use kubernetes_examples.Kube.Store.{Store, plain_meta, has_pod, member, without}
use kubernetes_examples.PodOperator.Types.{PodManager}
use kubernetes_examples.PodOperator.Controller.{finalizer_name, reconcile}
use kubernetes_examples.PodOperator.Lifecycle.{IsTolerated}
use kubernetes_examples.PodOperator.Release.{Answers, reconcile-releases}
use kubernetes_examples.PodOperator.Tests.{cluster, key}
use kubernetes_examples.PodOperator.WebServer.{left_by, web_client, web_server}
use kubernetes_examples.PodOperator.OrphanTests.{guarded_web}
use kubernetes_examples.PodOperator.ConvergenceTests.{first_pod}

web-IsTolerated : (p : Pod) (w : Store PodManager) → IsTolerated (web_client.delete p w).0
unfolding web_client
web-IsTolerated p w = elim (Bool-cases (has_pod p.meta.name w.pods)) [
  | inl t ↦ rw t tt
  | inr f ↦ rw f refl
]

given : PodManager → Option PodManager → PodManager
given x none = x
given x (some z) = z

left_same : (t : Option ℕ) (fs : List String) (x y : PodManager) → left_by t fs x ≡ some y → y ≡ x
unfolding given
left_same none fs x y kept = sym (ap (given x) kept)
left_same (some _) [] x y kept = absurd (ground (arith, kept))
left_same (some _) (_ ∷ _) x y kept = sym (ap (given x) kept)

unfoldable web_answers : Answers web_client plain_meta key web_server
unfolding web_client web_server
web_answers = record {
  list-found = λ ns labels w. (w.pods, refl);
  delete-tolerated = web-IsTolerated;
  update-taken =
      λ x w. (refl, λ y kept. left_same x.meta.deletion_timestamp x.meta.finalizers x y kept);
}

abbrev leaving_web : PodManager
leaving_web = record guarded_web { meta = record guarded_web.meta { deletion_timestamp = some 40 } }

abbrev leaving_state : Store PodManager
leaving_state = cluster leaving_web (first_pod ∷ [])

leaving-found : (web_client.get key leaving_state).0 ≡ ok leaving_web
unfolding web_client str_eq
leaving-found = refl

leaving-owned : plain_meta.contains_finalizer leaving_web.meta finalizer_name ≡ true
unfolding plain_meta member str_eq
leaving-owned = refl

without-gone : (f : String) (gs : List String) → member f (without f gs) ≡ false
unfolding member without
without-gone f [] = refl
without-gone f (g ∷ gs) = ground (arith, without-gone f gs)

removed_for_good :
    (m : ObjectMeta)
    → plain_meta.contains_finalizer (plain_meta.remove_finalizer m finalizer_name) finalizer_name
      ≡ false
unfolding plain_meta
removed_for_good m = without-gone finalizer_name m.finalizers

reconcile-releases_example :
    let run = reconcile web_client plain_meta key leaving_state in
    (run.0 ≡ done no_requeue)
    × (web_server.alive run.2 ≡ [])
    × ((y : PodManager)
        → web_server.stored run.2 ≡ some y
        → plain_meta.contains_finalizer y.meta finalizer_name ≡ false)
reconcile-releases_example =
    reconcile-releases web_client plain_meta key web_server web_answers leaving_web 40 leaving_state
      leaving-found refl leaving-owned removed_for_good
