-- ===== src/PodOperator/OrphanTests.antt =====
-- The life of a PodManager at the cluster of WebServer.
use kubernetes_examples.Prelude.{true, ◌≡◌, refl, inl, [], ◌∷◌}
use kubernetes_examples.Kube.Objects.{ObjectMeta}
use kubernetes_examples.Kube.Store.{Store, plain_meta}
use kubernetes_examples.PodOperator.Types.{PodManager}
use kubernetes_examples.PodOperator.Controller.{finalizer_name, reconcile}
use kubernetes_examples.PodOperator.Lifecycle.{IsQuiet, start, next, reconciled, others, IsOwned}
use kubernetes_examples.PodOperator.Orphans.{Steps-IsOwned}
use kubernetes_examples.PodOperator.Tests.{three, cluster, key}
use kubernetes_examples.PodOperator.WebServer.{
  web_client, web_server, drop_pods, drop_pods-fewer, member-snoc,
}

abbrev pub guarded_web : PodManager
guarded_web = record three { meta = record three.meta { finalizers = finalizer_name ∷ [] } }

abbrev begun : Store PodManager
begun = cluster guarded_web []

abbrev worked : Store PodManager
worked = (reconcile web_client plain_meta key begun).2

-- A Pod that someone takes away.
abbrev robbed : Store PodManager
robbed = record worked { pods = drop_pods "web-1" worked.pods }

begun-IsOwned : IsOwned web_client plain_meta key web_server begun
unfolding web_server
begun-IsOwned = inl refl

robbed-IsQuiet : IsQuiet plain_meta web_server.stored web_server.alive worked robbed
unfolding web_server
robbed-IsQuiet = ((λ g. g), λ m h. drop_pods-fewer "web-1" m worked.pods h)

found_again :
    (m : ObjectMeta)
    → plain_meta.contains_finalizer (plain_meta.add_finalizer m finalizer_name) finalizer_name
      ≡ true
unfolding plain_meta
found_again m = member-snoc finalizer_name m.finalizers

Steps-IsOwned_example :
    IsOwned web_client plain_meta key web_server (reconcile web_client plain_meta key robbed).2
Steps-IsOwned_example =
    Steps-IsOwned web_client plain_meta key web_server begun
      (reconcile web_client plain_meta key robbed).2 found_again
      (next (next (next start (reconciled begun)) (others robbed-IsQuiet)) (reconciled robbed))
      begun-IsOwned
